-- ===== src/Common/Tables.antt =====
-- Lists measured by native numbers, and a table as a list of its rows: `select` and `update` stand
-- for the SELECT and UPDATE statements with a WHERE clause.
use Prim.Native.Nat.{ℕ, suc, ◌+◌, ◌≤◌, ◌<◌}
use mathlib.Core.Path.{◌≡◌, refl, sym}
use mathlib.Core.Bool.{Bool, true, false, ◌&&◌, ◌||◌}
use mathlib.Core.Logic.{inl, inr}
use mathlib.Core.Option.{Option, none, some}
use mathlib.Core.List.{List, [], ◌∷◌, ◌++◌, Memᴰ}
use native.Mathlib.Omega.{arith}
use egogero.Common.Tests.{if◌then◌else◌, ◌==◌, Bool-cases}

module _ {ℓ} {A : Type ℓ} where
  abbrev pub length : List A → ℕ
  length [] = 0
  length (x ∷ xs) = suc (length xs)

  pub length-append : (xs ys : List A) → length (xs ++ ys) ≡ length xs + length ys
  length-append [] ys = omega arith
  length-append (x ∷ xs) ys = omega (arith, length-append xs ys)

  abbrev pub select : (A → Bool) → List A → List A
  select p [] = []
  select p (x ∷ xs) = if p x then x ∷ select p xs else select p xs

  -- The first selected row, or none.
  abbrev pub first : (A → Bool) → List A → Option A
  first p [] = none
  first p (x ∷ xs) = if p x then some x else first p xs

  abbrev pub update : (A → Bool) → (A → A) → List A → List A
  update p f [] = []
  update p f (x ∷ xs) = (if p x then f x else x) ∷ update p f xs

  abbrev pub count : (A → Bool) → List A → ℕ
  count p [] = 0
  count p (x ∷ xs) = (if p x then 1 else 0) + count p xs

  abbrev pub any : (A → Bool) → List A → Bool
  any p [] = false
  any p (x ∷ xs) = p x || any p xs

  abbrev pub all : (A → Bool) → List A → Bool
  all p [] = true
  all p (x ∷ xs) = p x && all p xs

  abbrev pub head? : List A → Option A
  head? [] = none
  head? (x ∷ xs) = some x

  pub count-append : (p : A → Bool) (xs ys : List A) → count p (xs ++ ys) ≡ count p xs + count p ys
  count-append p [] ys = omega arith
  count-append p (x ∷ xs) ys = omega (arith, count-append p xs ys)

  pub count-le-length : (p : A → Bool) (xs : List A) → count p xs ≤ length xs
  count-le-length p [] = omega arith
  count-le-length p (x ∷ xs) = ground (arith, count-le-length p xs)

abbrev pub contains : ℕ → List ℕ → Bool
contains a = any (λ b. b == a)

-- Every row has the property.
abbrev pub All {ℓ κ} : {A : Type ℓ} → (A → Type κ) → List A → Type κ
All P [] = Unit
All P (x ∷ xs) = P x × All P xs

module _ {ℓ} {A : Type ℓ} (p : A → Bool) where
  -- The selected row stands in the table and fits.
  pub first-mem : (xs : List A) {a : A} → first p xs ≡ some a → Memᴰ a xs × (p a ≡ true)
  first-mem [] h = cc
  first-mem (x ∷ xs) {a} h = elim (Bool-cases (p x)) [
    | inl hit ↦ let same : x ≡ a = ground arith in (Memᴰ.head (sym same), rw (← same) hit)
    | inr miss ↦ let (m, e) = first-mem xs (ground arith) in (Memᴰ.tail m, e)
  ]

  pub first_of-count : (xs : List A) → count p xs ≡ 0 → first p xs ≡ none
  first_of-count [] h = refl
  first_of-count (x ∷ xs) h = ground (arith, first_of-count xs)

  pub any-first : (xs : List A) → any p xs ≡ false → first p xs ≡ none
  any-first [] h = refl
  any-first (x ∷ xs) h = ground (arith, any-first xs)

  pub count-any : (xs : List A) → any p xs ≡ true → 0 < count p xs
  count-any [] h = cc
  count-any (x ∷ xs) h = ground (arith, count-any xs)

  pub count-mem : {a : A} {xs : List A} → Memᴰ a xs → p a ≡ true → 0 < count p xs
  count-mem (Memᴰ.head same) h = rw (← same, h) (omega arith)
  count-mem (Memᴰ.tail m) h = omega (arith, count-mem m h)
