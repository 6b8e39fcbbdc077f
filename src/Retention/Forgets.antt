-- ===== src/Retention/Forgets.antt =====
-- What the anonymization does to the rows of guests and notifications.
use egogero.Common.{
  ℕ, ◌≡◌, refl, ap, sym, subst, ◌∙◌, ◌⊎◌, inl, inr, Bool, true, false, none, some, List, [], ◌∷◌,
  arith, Bool-cases, Option-cases, update, is, select, Memᴰ,
}
use egogero.Retention.{
  Guest, GuestNotification, RetentionTables, chosen_guest, anonymized_entry_message, names_one,
  neutral, anonymized, anonymized_guest_name,
}
use egogero.Common.Members.{mem-any}

-- Every notification about the guest has the neutral name and message.
abbrev pub Hides : List GuestNotification → ℕ → Type 0
Hides [] id = Unit
Hides (n ∷ notes) id =
    ((is n.convidado_id id ≡ false)
      ⊎ ((n.nome_convidado ≡ anonymized_guest_name) × (n.mensagem ≡ anonymized_entry_message)))
    × Hides notes id

-- A guest's row before and after the job, where the guest loses name, email and telephone, with the
-- notifications after it.
pub record IsForgotten (now : ℕ) (notes : List GuestNotification) (g h : Guest) : Type 0 where
  pub undated : g.anonymized_at ≡ none
  pub dated : h.anonymized_at ≡ some now
  pub nome : h.nome ≡ anonymized_guest_name
  pub email : h.email ≡ none
  pub telefone : h.telefone ≡ none
  pub id : h.id ≡ g.id
  pub condominio_id : h.condominio_id ≡ g.condominio_id
  pub created_at : h.created_at ≡ g.created_at
  pub hidden : Hides notes g.id

-- The same guests in the same order, each as before or forgotten.
abbrev pub Forgets : ℕ → List GuestNotification → List Guest → List Guest → Type 0
Forgets now notes [] [] = Unit
Forgets now notes (g ∷ gs) (h ∷ hs) =
    ((h ≡ g) ⊎ IsForgotten now notes g h) × Forgets now notes gs hs
Forgets now notes _ _ = ⊥

-- The same notifications in the same order, each as before or neutral.
abbrev pub Notes : List GuestNotification → List GuestNotification → Type 0
Notes [] [] = Unit
Notes (n ∷ ns) (m ∷ ms) = ((m ≡ n) ⊎ (m ≡ neutral n)) × Notes ns ms
Notes _ _ = ⊥

abbrev pub Cleans : ℕ → RetentionTables → RetentionTables → Type 0
Cleans now db left =
    Forgets now left.notifications db.guests left.guests × Notes db.notifications left.notifications

anonymized-IsForgotten :
    (now : ℕ) (notes : List GuestNotification) (g : Guest)
    → g.anonymized_at ≡ none
    → Hides notes g.id
    → IsForgotten now notes g (anonymized now g)
anonymized-IsForgotten now notes g h hidden = record {
  undated = h;
  dated = refl;
  nome = refl;
  email = refl;
  telefone = refl;
  id = refl;
  condominio_id = refl;
  created_at = refl;
  hidden = hidden;
}

chosen_guest-undated :
    (candidates : List Guest) (g : Guest)
    → chosen_guest candidates g ≡ true
    → g.anonymized_at ≡ none
chosen_guest-undated candidates g h = elim (Option-cases g.anonymized_at) [
  | inl undated ↦ undated
  | inr (t, dated) ↦ absurd (ground (arith, h, dated))
]

pub update-Forgets :
    (candidates : List Guest) (now : ℕ) (notes : List GuestNotification) (rows : List Guest)
    → ((g : Guest) → Memᴰ g rows → chosen_guest candidates g ≡ true → Hides notes g.id)
    → Forgets now notes rows (update (chosen_guest candidates) (anonymized now) rows)
update-Forgets candidates now notes [] hides = tt
update-Forgets candidates now notes (g ∷ rows) hides =
    let rest = update-Forgets candidates now notes rows (λ h m hit. hides h (Memᴰ.tail m) hit) in
    elim (Bool-cases (chosen_guest candidates g)) [
      | inl hit ↦ rw hit (
        inr (
            anonymized-IsForgotten now notes g (chosen_guest-undated candidates g hit)
              (hides g (Memᴰ.head refl) hit)),
        rest,
      )
      | inr miss ↦ rw miss (inl refl, rest)
    ]

pub update-Notes :
    (p : GuestNotification → Bool) (notes : List GuestNotification)
    → Notes notes (update p neutral notes)
update-Notes p [] = tt
update-Notes p (n ∷ notes) = elim (Bool-cases (p n)) [
  | inl hit ↦ rw hit (inr refl, update-Notes p notes)
  | inr miss ↦ rw miss (inl refl, update-Notes p notes)
]

pub select-there :
    (p : Guest → Bool) (rows : List Guest) {g : Guest}
    → Memᴰ g rows
    → p g ≡ true
    → Memᴰ g (select p rows)
select-there p [] m hit = elim m [ ]
select-there p (h ∷ rows) (Memᴰ.head same) hit =
    rw (subst (λ x. p x ≡ true) same hit) (Memᴰ.head same)
select-there p (h ∷ rows) (Memᴰ.tail m) hit = elim (Bool-cases (p h)) [
  | inl hit_h ↦ rw hit_h (Memᴰ.tail (select-there p rows m hit))
  | inr miss_h ↦ rw miss_h (select-there p rows m hit)
]

-- The notifications about a chosen guest are neutral.
pub chosen-Hides :
    (chosen : List Guest) (notes : List GuestNotification) (g : Guest)
    → Memᴰ g chosen
    → Hides (update (names_one chosen) neutral notes) g.id
chosen-Hides chosen [] g m = tt
chosen-Hides chosen (n ∷ notes) g m = elim (Bool-cases (is n.convidado_id g.id)) [
  | inl about ↦
      rw (mem-any (λ c. is n.convidado_id c.id) chosen m about)
        (inr (refl, refl), chosen-Hides chosen notes g m)
  | inr other ↦ elim (Bool-cases (names_one chosen n)) [
    | inl hit ↦ rw hit (inr (refl, refl), chosen-Hides chosen notes g m)
    | inr miss ↦ rw miss (inl other, chosen-Hides chosen notes g m)
  ]
]

one-Hides :
    (n m : GuestNotification) (id : ℕ)
    → (m ≡ n) ⊎ (m ≡ neutral n)
    → (is n.convidado_id id ≡ false)
      ⊎ ((n.nome_convidado ≡ anonymized_guest_name) × (n.mensagem ≡ anonymized_entry_message))
    → (is m.convidado_id id ≡ false)
      ⊎ ((m.nome_convidado ≡ anonymized_guest_name) × (m.mensagem ≡ anonymized_entry_message))
one-Hides n m id (inl same) h = rw same h
one-Hides n m id (inr now) h = rw now (inr (refl, refl))

Notes-Hides : (ns ms : List GuestNotification) (id : ℕ) → Notes ns ms → Hides ns id → Hides ms id
Notes-Hides [] [] id h k = tt
Notes-Hides [] (m ∷ ms) id h k = absurd h
Notes-Hides (n ∷ ns) [] id h k = absurd h
Notes-Hides (n ∷ ns) (m ∷ ms) id (how, rest) (hidden, others) =
    (one-Hides n m id how hidden, Notes-Hides ns ms id rest others)

one-Notes :
    (l n m : GuestNotification)
    → (n ≡ l) ⊎ (n ≡ neutral l)
    → (m ≡ n) ⊎ (m ≡ neutral n)
    → (m ≡ l) ⊎ (m ≡ neutral l)
one-Notes l n m (inl e) (inl f) = inl (f ∙ e)
one-Notes l n m (inl e) (inr f) = inr (f ∙ ap neutral e)
one-Notes l n m (inr e) (inl f) = inr (f ∙ e)
one-Notes l n m (inr e) (inr f) = inr (f ∙ ap neutral e)

Notes-trans : (ls ns ms : List GuestNotification) → Notes ls ns → Notes ns ms → Notes ls ms
Notes-trans [] [] ms h k = k
Notes-trans [] (n ∷ ns) ms h k = absurd h
Notes-trans (l ∷ ls) [] ms h k = absurd h
Notes-trans (l ∷ ls) (n ∷ ns) [] h k = absurd k
Notes-trans (l ∷ ls) (n ∷ ns) (m ∷ ms) (how1, rest1) (how2, rest2) =
    (one-Notes l n m how1 how2, Notes-trans ls ns ms rest1 rest2)

module _ (now : ℕ) (ns ms : List GuestNotification) (later : Notes ns ms) where
  one-Forgets :
      (f g h : Guest)
      → (g ≡ f) ⊎ IsForgotten now ns f g
      → (h ≡ g) ⊎ IsForgotten now ms g h
      → (h ≡ f) ⊎ IsForgotten now ms f h
  one-Forgets f g h (inl e) next = subst (λ x. (h ≡ x) ⊎ IsForgotten now ms x h) e next
  one-Forgets f g h (inr k) (inl e) = inr (
      subst (λ x. IsForgotten now ms f x) (sym e)
        (record {
          undated = k.undated;
          dated = k.dated;
          nome = k.nome;
          email = k.email;
          telefone = k.telefone;
          id = k.id;
          condominio_id = k.condominio_id;
          created_at = k.created_at;
          hidden = Notes-Hides ns ms f.id later k.hidden;
        }))
  one-Forgets f g h (inr k) (inr l) = absurd (cc (k.dated, l.undated))

  Forgets-trans :
      (fs gs hs : List Guest) → Forgets now ns fs gs → Forgets now ms gs hs → Forgets now ms fs hs
  Forgets-trans [] [] hs h k = k
  Forgets-trans [] (g ∷ gs) hs h k = absurd h
  Forgets-trans (f ∷ fs) [] hs h k = absurd h
  Forgets-trans (f ∷ fs) (g ∷ gs) [] h k = absurd k
  Forgets-trans (f ∷ fs) (g ∷ gs) (h ∷ hs) (now1, rest1) (now2, rest2) =
      (one-Forgets f g h now1 now2, Forgets-trans fs gs hs rest1 rest2)

pub Cleans-trans :
    (now : ℕ) (a b c : RetentionTables) → Cleans now a b → Cleans now b c → Cleans now a c
Cleans-trans now a b c (forgets, notes) (forgets', notes') = (
  Forgets-trans now b.notifications c.notifications notes' a.guests b.guests c.guests forgets
      forgets',
  Notes-trans a.notifications b.notifications c.notifications notes notes',
)
