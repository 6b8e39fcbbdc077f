-- ===== src/Invitation/Token/Format.antt =====
-- Every number below the limit gives a token of six digits, and the token gives the number back.
use egogero.Common.{
  ℕ, zero, suc, ◌+◌, ◌-◌, ◌*◌, ◌/◌, ◌%◌, ◌^◌, ◌≤◌, ◌<◌, ◌≡◌, refl, ◌∙◌, ◌↔◌, inl, inr, true, none,
  [], ◌∷◌, ◌++◌, arith, ltb, Bool-cases, length, length-append, all,
}
use native.Mathlib.Nat.{pow-suc}
use egogero.Invitation.Schema.{Convite, Token, is_open}
use egogero.Invitation.Token.{
  token_limit, is_digit, matches_token_pattern, decimal, replicate, generate_six_digit_token,
  active, invitation_status,
}

-- The number that a run of digits spells, most significant first.
value_from : ℕ → Token → ℕ
value_from acc [] = acc
value_from acc (c ∷ rest) = value_from (acc * 10 + (c - b'0')) rest

unfoldable pub value : Token → ℕ
unfolding value_from
value token = value_from 0 token

value_from-append :
    (acc : ℕ) (xs ys : Token) → value_from acc (xs ++ ys) ≡ value_from (value_from acc xs) ys
unfolding value_from
value_from-append acc [] ys = refl
value_from-append acc (x ∷ xs) ys = value_from-append (acc * 10 + (x - b'0')) xs ys

value_from-zeros :
    (n : ℕ) (token : Token) → value_from 0 (replicate n b'0' ++ token) ≡ value_from 0 token
unfolding value_from
value_from-zeros zero token = refl
value_from-zeros (suc n) token = value_from-zeros n token

all-append :
    (xs ys : Token)
    → all is_digit xs ≡ true
    → all is_digit ys ≡ true
    → all is_digit (xs ++ ys) ≡ true
all-append [] ys h k = k
all-append (x ∷ xs) ys h k = ground (arith, all-append xs ys)

all-zeros : (n : ℕ) → all is_digit (replicate n b'0') ≡ true
all-zeros zero = refl
all-zeros (suc n) = all-zeros n

length-zeros : (n : ℕ) → length (replicate n b'0') ≡ n
length-zeros zero = refl
length-zeros (suc n) = omega (arith, length-zeros n)

tenth-lt-pow : (n k : ℕ) → n < 10 ^ suc k → n / 10 < 10 ^ k
tenth-lt-pow n k h = omega (arith, pow-suc 10 k)

-- Enough fuel: a number below ten to the power of the fuel.
decimal-value : (fuel n : ℕ) → n < 10 ^ fuel → value_from 0 (decimal fuel n) ≡ n
unfolding decimal value_from
decimal-value zero n h = omega arith
decimal-value (suc fuel) n h = elim (Bool-cases (ltb n 10)) [
  | inl small ↦ rw small (omega arith)
  | inr large ↦
      rw (large, value_from-append 0 (decimal fuel (n / 10)) ((b'0' + n % 10) ∷ []))
        (rw (decimal-value fuel (n / 10) (tenth-lt-pow n fuel h)) (omega arith))
]

decimal-digits : (fuel n : ℕ) → all is_digit (decimal fuel n) ≡ true
unfolding decimal
decimal-digits zero n = refl
decimal-digits (suc fuel) n = elim (Bool-cases (ltb n 10)) [
  | inl small ↦ rw small (ground arith)
  | inr large ↦
      rw large (all-append (decimal fuel (n / 10)) _ (decimal-digits fuel (n / 10)) (ground arith))
]

decimal-length : (fuel n k : ℕ) → n < 10 ^ suc k → length (decimal fuel n) ≤ suc k
unfolding decimal
decimal-length zero n k h = omega arith
decimal-length (suc fuel) n zero h = ground arith
decimal-length (suc fuel) n (suc k) h = ground (
  arith,
  length-append (decimal fuel (n / 10)) ((b'0' + n % 10) ∷ []),
  decimal-length fuel (n / 10) k (tenth-lt-pow n (suc k) h),
)

-- A number drawn below the limit gives a token that matches the pattern, with its leading zeros,
-- and the token spells that number: distinct draws give distinct tokens.
pub generate_six_digit_token_lem :
    (drawn : ℕ)
    → drawn < token_limit
    → (matches_token_pattern (generate_six_digit_token drawn) ≡ true)
      × (value (generate_six_digit_token drawn) ≡ drawn)
unfolding generate_six_digit_token matches_token_pattern value
generate_six_digit_token_lem drawn h =
    let digits : Token = decimal 7 drawn in
    let short = decimal-length 7 drawn 5 h in
    (
      ground (
        arith,
        length-append (replicate (6 - length digits) b'0') digits,
        length-zeros (6 - length digits),
        all-append (replicate (6 - length digits) b'0') digits (all-zeros (6 - length digits))
            (decimal-digits 7 drawn),
      ),
      value_from-zeros (6 - length digits) digits ∙ decimal-value 7 drawn (omega arith),
    )

-- An invitation is reported active exactly when it is neither used nor revoked and expires later:
-- for a row that is not deleted, exactly when the gate would find it open.
pub invitation_status-is_open :
    (c : Convite) (now : ℕ)
    → c.deleted_at ≡ none
    → (invitation_status c now ≡ active) ↔ (is_open now c ≡ true)
unfolding invitation_status
invitation_status-is_open c now e = (λ h. ground arith, λ h. ground arith)
