-- ===== src/Invitation/Token.antt =====
-- Six-digit tokens, their pattern, and the state of an invitation (src/convites.ts:
-- generateSixDigitToken, TOKEN_PATTERN, invitationStatus).
pub mod Format
mod Examples
use egogero.Common.{
  ℕ, zero, suc, ◌+◌, ◌-◌, ◌*◌, ◌/◌, ◌%◌, ◌^◌, ◌≤◌, ◌<◌, min, max, ◌≡◌, refl, sym, ap, subst, ◌∙◌,
  ◌≢◌, ◌↔◌, ◌⊎◌, inl, inr, Bool, true, false, not, ◌&&◌, ◌||◌, Option, none, some, List, [], ◌∷◌,
  ◌++◌, map, arith, ltb, leb, ◌==◌, if◌then◌else◌, ==_iff, ==_refl, ==_sym, Bool-cases,
  Option-cases, is, is_none, after, length, length-append, select, first, update, count, any, all,
  head?, count-append, count-le-length, contains, All, Memᴰ, first-mem, first_of-count, any-first,
  count-any, count-mem,
}
use egogero.Invitation.Schema.{Convite, Token}

abbrev pub token_limit : ℕ
token_limit = 1_000_000

-- The characters '0' to '9'.
abbrev pub is_digit : ℕ → Bool
is_digit c = leb b'0' c && leb c b'9'

-- /^[0-9]{6}$/
unfoldable pub matches_token_pattern : Token → Bool
matches_token_pattern token = length token == 6 && all is_digit token

-- The decimal digits of a number, as `toString` writes them: one for each power of ten within it.
-- The fuel bounds their count.
unfoldable pub decimal : ℕ → ℕ → Token
decimal zero n = []
decimal (suc fuel) n =
    let rest = decimal fuel (n / 10) ++ (b'0' + n % 10) ∷ [] in
    if ltb n 10 then (b'0' + n) ∷ [] else rest

abbrev pub replicate : ℕ → ℕ → Token
replicate zero c = []
replicate (suc n) c = c ∷ replicate n c

-- `padStart(6, '0')`.
unfoldable pub pad_start : ℕ → Token → Token
pad_start width token = replicate (width - length token) b'0' ++ token

-- `randomInt(TOKEN_LIMIT).toString().padStart(6, '0')` on the number drawn.
unfoldable pub generate_six_digit_token : ℕ → Token
unfolding decimal pad_start
generate_six_digit_token drawn = pad_start 6 (decimal 7 drawn)

pub data Status : Type 0 where
  used revoked expired active : Status

unfoldable pub invitation_status : Convite → ℕ → Status
invitation_status c now =
    if not (is_none c.used_at)
    then used
    else if not (is_none c.revoked_at)
    then revoked
    else if after c.expires_at now
    then active
    else expired
