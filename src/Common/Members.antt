-- ===== src/Common/Members.antt =====
-- Members of a list before and after the functions on tables.
use mathlib.Core.Path.{◌≡◌, refl, ap, subst}
use mathlib.Core.Logic.{◌⊎◌, inl, inr}
use mathlib.Core.Bool.{Bool, true, false}
use mathlib.Core.List.{List, [], ◌∷◌, map, Memᴰ}
use native.Mathlib.Omega.{arith}
use egogero.Common.Tests.{if◌then◌else◌, Bool-cases}
use egogero.Common.Tables.{select, update, any}

module _ {A : Type 0} where
  -- A row after an UPDATE was a row before it.
  pub update-mem :
      (p : A → Bool) (f : A → A) (rows : List A) {r : A}
      → Memᴰ r (update p f rows)
      → (s : A) × Memᴰ s rows × (((p s ≡ true) × (r ≡ f s)) ⊎ ((p s ≡ false) × (r ≡ s)))
  update-mem p f [] h = elim h [ ]
  update-mem p f (s ∷ rows) (Memᴰ.head e) = elim (Bool-cases (p s)) [
    | inl hit ↦ (s, Memᴰ.head refl, inl (hit, rw hit at e))
    | inr miss ↦ (s, Memᴰ.head refl, inr (miss, rw miss at e))
  ]
  update-mem p f (s ∷ rows) (Memᴰ.tail m) =
      let (t, n, how) = update-mem p f rows m in (t, Memᴰ.tail n, how)

  pub update-source :
      (p : A → Bool) (f : A → A) (rows : List A) {r : A}
      → Memᴰ r (update p f rows)
      → (s : A) × Memᴰ s rows × (r ≡ (if p s then f s else s))
  update-source p f [] h = elim h [ ]
  update-source p f (s ∷ rows) (Memᴰ.head e) = (s, Memᴰ.head refl, e)
  update-source p f (s ∷ rows) (Memᴰ.tail m) =
      let (t, n, how) = update-source p f rows m in (t, Memᴰ.tail n, how)

  pub select-mem :
      (p : A → Bool) (rows : List A) {r : A} → Memᴰ r (select p rows) → Memᴰ r rows × (p r ≡ true)
  select-mem p [] h = elim h [ ]
  select-mem p (s ∷ rows) {r} h = elim (Bool-cases (p s)) [
    | inl hit ↦
        (elim (subst (λ (b : Bool). Memᴰ r (if b then s ∷ select p rows else select p rows)) hit
          h) [
            | Memᴰ.head e ↦ (Memᴰ.head e, rw e hit)
            | Memᴰ.tail m ↦ let (n, e) = select-mem p rows m in (Memᴰ.tail n, e)
          ])
    | inr miss ↦
        let (n, e) =
          select-mem p rows (
            subst (λ (b : Bool). Memᴰ r (if b then s ∷ select p rows else select p rows)) miss h) in
        (Memᴰ.tail n, e)
  ]

  pub map-mem :
      {B : Type 0} (f : A → B) (rows : List A) {b : B}
      → Memᴰ b (map f rows)
      → (a : A) × Memᴰ a rows × (b ≡ f a)
  map-mem f [] h = elim h [ ]
  map-mem f (a ∷ rows) (Memᴰ.head e) = (a, Memᴰ.head refl, e)
  map-mem f (a ∷ rows) (Memᴰ.tail m) = let (c, n, e) = map-mem f rows m in (c, Memᴰ.tail n, e)

  pub any-mem :
      (p : A → Bool) (rows : List A) → any p rows ≡ true → (a : A) × Memᴰ a rows × (p a ≡ true)
  any-mem p [] h = absurd (cc)
  any-mem p (a ∷ rows) h = elim (Bool-cases (p a)) [
    | inl hit ↦ (a, Memᴰ.head refl, hit)
    | inr miss ↦ let (b, m, e) = any-mem p rows (ground arith) in (b, Memᴰ.tail m, e)
  ]

  pub mem-any :
      (p : A → Bool) (rows : List A) {a : A} → Memᴰ a rows → p a ≡ true → any p rows ≡ true
  mem-any p [] m h = elim m [ ]
  mem-any p (b ∷ rows) (Memᴰ.head e) h = let hit : p b ≡ true = rw e at h in rw hit refl
  mem-any p (b ∷ rows) (Memᴰ.tail m) h = ground (arith, mem-any p rows m h)

  pub update-there :
      (p : A → Bool) (f : A → A) (rows : List A) {a : A}
      → Memᴰ a rows
      → p a ≡ true
      → Memᴰ (f a) (update p f rows)
  update-there p f [] m h = elim m [ ]
  update-there p f (b ∷ rows) (Memᴰ.head e) h =
      let hit : p b ≡ true = rw e at h in Memᴰ.head (rw hit (ap f e))
  update-there p f (b ∷ rows) (Memᴰ.tail m) h = Memᴰ.tail (update-there p f rows m h)
