-- ===== src/Common/Text.antt =====
-- Texts as lists of the codes of their characters, and the methods of a JavaScript string that the
-- source uses on headers.
use Prim.Native.Nat.{ℕ}
use Prim.Native.Char.{code}
use Prim.Native.String.{String}
use mathlib.Core.Path.{◌≡◌, refl}
use mathlib.Core.Logic.{inl, inr}
use mathlib.Core.Bool.{Bool, true, false, not, ◌&&◌, ◌||◌}
use mathlib.Core.Option.{Option, none, some}
use mathlib.Core.List.{List, [], ◌∷◌, ◌++◌}
use native.Mathlib.Omega.{arith}
use egogero.Common.Tests.{leb, if◌then◌else◌, ◌==◌, Bool-cases}
use egogero.Common.Tables.{all}

abbrev pub Text : Type 0
Text = List ℕ

-- A literal's codes.
abbrev pub text : String → Text
text String.[] = []
text (String.◌∷◌ c s) = code c ∷ text s

abbrev pub same_text : Text → Text → Bool
same_text [] [] = true
same_text (a ∷ s) (b ∷ t) = a == b && same_text s t
same_text _ _ = false

-- `startsWith`: what follows the prefix.
abbrev pub strip_prefix : Text → Text → Option Text
strip_prefix [] s = some s
strip_prefix (p ∷ ps) [] = none
strip_prefix (p ∷ ps) (c ∷ s) = let rest = strip_prefix ps s in if p == c then rest else none

-- White space and line ends of ECMAScript, which `trim` removes and `\s` matches.
abbrev pub is_space : ℕ → Bool
is_space c =
    (leb 9 c && leb c 13)
    || c == 32
    || c == 0xa0
    || c == 0x1680
    || (leb 0x2000 c && leb c 0x200a)
    || c == 0x2028
    || c == 0x2029
    || c == 0x202f
    || c == 0x205f
    || c == 0x3000
    || c == 0xfeff

abbrev pub trim_start : Text → Text
trim_start [] = []
trim_start (c ∷ s) = let rest = trim_start s in if is_space c then rest else c ∷ s

abbrev onto_trimmed : ℕ → Text → Text
onto_trimmed c [] = if is_space c then [] else c ∷ []
onto_trimmed c (d ∷ s) = c ∷ d ∷ s

abbrev pub trim_end : Text → Text
trim_end [] = []
trim_end (c ∷ s) = onto_trimmed c (trim_end s)

abbrev pub trim : Text → Text
trim s = trim_end (trim_start s)

abbrev onto_first : ℕ → List Text → List Text
onto_first c [] = (c ∷ []) ∷ []
onto_first c (p ∷ ps) = (c ∷ p) ∷ ps

-- `split` at one character.
abbrev pub split : ℕ → Text → List Text
split sep [] = [] ∷ []
split sep (c ∷ s) = let rest = split sep s in if c == sep then [] ∷ rest else onto_first c rest

abbrev after_first : ℕ → Option (Text × Text) → Option (Text × Text)
after_first c none = none
after_first c (some (before, rest)) = some (c ∷ before, rest)

-- `indexOf` and the two slices around it.
abbrev pub cut_at : ℕ → Text → Option (Text × Text)
cut_at sep [] = none
cut_at sep (c ∷ s) =
    let rest = cut_at sep s in if c == sep then some ([], s) else after_first c rest

-- A text without the separator is one part.
pub split-append :
    (sep : ℕ) (s rest : Text)
    → all (λ c. not (c == sep)) s ≡ true
    → split sep (s ++ sep ∷ rest) ≡ s ∷ split sep rest
split-append sep [] rest h = ground arith
split-append sep (c ∷ s) rest h = ground (arith, split-append sep s rest (ground (arith, h)))

-- Without white space there is nothing to trim.
trim_start_lem : (s : Text) → all (λ c. not (is_space c)) s ≡ true → trim_start s ≡ s
trim_start_lem [] h = refl
trim_start_lem (c ∷ s) h = elim (Bool-cases (is_space c)) [
  | inl e ↦ absurd (cc (rw e at h))
  | inr e ↦ rw e refl
]

trim_end_lem : (s : Text) → all (λ c. not (is_space c)) s ≡ true → trim_end s ≡ s
trim_end_lem [] h = refl
trim_end_lem (c ∷ []) h = elim (Bool-cases (is_space c)) [
  | inl e ↦ absurd (cc (rw e at h))
  | inr e ↦ rw e refl
]
trim_end_lem (c ∷ d ∷ s) h = elim (Bool-cases (is_space c)) [
  | inl e ↦ absurd (cc (rw e at h))
  | inr e ↦ rw (trim_end_lem (d ∷ s) (rw e at h)) refl
]

pub trim_lem : (s : Text) → all (λ c. not (is_space c)) s ≡ true → trim s ≡ s
trim_lem s h = rw (trim_start_lem s h) (trim_end_lem s h)
