-- ===== src/Delivery/Table.antt =====
-- Rows of a table before and after a statement.
use egogero.Common.{
  ℕ, zero, suc, ◌≡◌, refl, ap, subst, ◌⊎◌, inl, inr, Bool, true, false, List, [], ◌∷◌, ◌++◌, arith,
  if◌then◌else◌, Bool-cases, select, update, count, Memᴰ,
}
use egogero.Delivery.{
  DeliveryIntent, ClaimInput, ClaimReadings, claimable, insert, order_by, limit, candidates, before,
}
use egogero.Common.Members.{select-mem}

limit-mem :
    (n : ℕ) (rows : List DeliveryIntent) {r : DeliveryIntent} → Memᴰ r (limit n rows) → Memᴰ r rows
limit-mem zero rows h = elim h [ ]
limit-mem (suc n) [] h = elim h [ ]
limit-mem (suc n) (s ∷ rows) (Memᴰ.head e) = Memᴰ.head e
limit-mem (suc n) (s ∷ rows) (Memᴰ.tail m) = Memᴰ.tail (limit-mem n rows m)

insert-mem :
    (s : DeliveryIntent) (rows : List DeliveryIntent) {r : DeliveryIntent}
    → Memᴰ r (insert s rows)
    → Memᴰ r (s ∷ rows)
insert-mem s [] h = h
insert-mem s (t ∷ rows) {r} h = elim (Bool-cases (before s t)) [
  | inl hit ↦ subst (λ (b : Bool). Memᴰ r (if b then s ∷ t ∷ rows else t ∷ insert s rows)) hit h
  | inr miss ↦
      elim (subst (λ (b : Bool). Memᴰ r (if b then s ∷ t ∷ rows else t ∷ insert s rows)) miss h) [
        | Memᴰ.head e ↦ Memᴰ.tail (Memᴰ.head e)
        | Memᴰ.tail m ↦ elim (insert-mem s rows m) [
          | Memᴰ.head e ↦ Memᴰ.head e
          | Memᴰ.tail n ↦ Memᴰ.tail (Memᴰ.tail n)
        ]
      ]
]

order_by-mem :
    (rows : List DeliveryIntent) {r : DeliveryIntent} → Memᴰ r (order_by rows) → Memᴰ r rows
order_by-mem [] h = h
order_by-mem (s ∷ rows) h = elim (insert-mem s (order_by rows) h) [
  | Memᴰ.head e ↦ Memᴰ.head e
  | Memᴰ.tail m ↦ Memᴰ.tail (order_by-mem rows m)
]

-- A candidate is a claimable row.
pub candidates-mem :
    (input : ClaimInput) (at : ClaimReadings) (rows : List DeliveryIntent) {r : DeliveryIntent}
    → Memᴰ r (candidates input at rows)
    → Memᴰ r rows × (claimable input at r ≡ true)
unfolding candidates
candidates-mem input at rows h =
    select-mem (claimable input at) rows
      (order_by-mem (select (claimable input at) rows) (limit-mem input.batch_size _ h))

module _ {A : Type 0} where
  pub append-split : (xs ys : List A) {a : A} → Memᴰ a (xs ++ ys) → Memᴰ a xs ⊎ Memᴰ a ys
  append-split [] ys h = inr h
  append-split (x ∷ xs) ys (Memᴰ.head e) = inl (Memᴰ.head e)
  append-split (x ∷ xs) ys (Memᴰ.tail m) = elim (append-split xs ys m) [
    | inl here ↦ inl (Memᴰ.tail here)
    | inr there ↦ inr there
  ]

  -- A row before an UPDATE stands in the table after it, changed or not.
  pub mem-update :
      (p : A → Bool) (f : A → A) (rows : List A) {r : A}
      → Memᴰ r rows
      → p r ≡ false
      → Memᴰ r (update p f rows)
  mem-update p f [] h miss = elim h [ ]
  mem-update p f (s ∷ rows) {r} (Memᴰ.head e) miss =
      let missed : p s ≡ false = rw e at miss in Memᴰ.head (rw missed e)
  mem-update p f (s ∷ rows) (Memᴰ.tail m) miss = Memᴰ.tail (mem-update p f rows m miss)

  pub count-none :
      (p : A → Bool) (rows : List A) → ((r : A) → Memᴰ r rows → p r ≡ false) → count p rows ≡ 0
  count-none p [] h = refl
  count-none p (r ∷ rows) h =
      ground (arith, h r (Memᴰ.head refl), count-none p rows (λ s m. h s (Memᴰ.tail m)))

  pub update-none :
      (p : A → Bool) (f : A → A) (rows : List A)
      → ((r : A) → Memᴰ r rows → p r ≡ false)
      → update p f rows ≡ rows
  update-none p f [] h = refl
  update-none p f (r ∷ rows) h =
      rw (h r (Memᴰ.head refl))
        (ap (λ rest. r ∷ rest) (update-none p f rows (λ s m. h s (Memᴰ.tail m))))
