-- ===== src/Session/Cookie.antt =====
-- The session cookie in a header (src/sessions.ts: hasBrowserSessionCookie,
-- parseBrowserSessionCookie, serializeBrowserSessionCookie).
mod Examples
use egogero.Common.{
  ℕ, zero, suc, ◌+◌, ◌-◌, ◌*◌, ◌/◌, ◌%◌, ◌^◌, ◌≤◌, ◌<◌, min, max, ◌≡◌, refl, sym, ap, subst, ◌∙◌,
  ◌≢◌, ◌↔◌, ◌⊎◌, inl, inr, Bool, true, false, not, ◌&&◌, ◌||◌, Option, none, some, List, [], ◌∷◌,
  ◌++◌, map, arith, ltb, leb, ◌==◌, if◌then◌else◌, ==_iff, ==_refl, ==_sym, Bool-cases,
  Option-cases, is, is_none, after, length, length-append, select, first, update, count, any, all,
  head?, count-append, count-le-length, contains, All, Memᴰ, first-mem, first_of-count, any-first,
  count-any, count-mem,
}
use mathlib.Core.Option.{some-injective}
use egogero.Common.Text.{
  Text, text, same_text, strip_prefix, is_space, trim, split, cut_at, split-append, trim_lem,
}
use egogero.Session.Schema.{Token, valid_session_token, is_base64url}

abbrev pub session_cookie_name : Text
session_cookie_name = text "__Host-eg_session"

abbrev pub cleared_session_cookie : Text
cleared_session_cookie =
    text "__Host-eg_session=; Path=/; HttpOnly; Secure; SameSite=Lax; Max-Age=0"

abbrev named : Text → Bool
named part = not (is_none (strip_prefix (session_cookie_name ++ b'=' ∷ []) (trim part)))

-- A header that is missing is no header, and a text is one.
unfoldable pub has_browser_session_cookie : List Text → Bool
has_browser_session_cookie headers = any (λ header. any named (split b';' header)) headers

abbrev own_value : Option (Text × Text) → List Text
own_value none = []
own_value (some (name, value)) =
    if same_text (trim name) session_cookie_name then trim value ∷ [] else []

abbrev values_of : List Text → List Text
values_of [] = []
values_of (part ∷ parts) = own_value (cut_at b'=' part) ++ values_of parts

abbrev all_values : List Text → List Text
all_values [] = []
all_values (header ∷ headers) = values_of (split b';' header) ++ all_values headers

abbrev sole_token : List Text → Option Token
sole_token (value ∷ []) = if valid_session_token value then some value else none
sole_token _ = none

unfoldable pub parse_browser_session_cookie : List Text → Option Token
parse_browser_session_cookie headers = sole_token (all_values headers)

-- None where the source throws.
unfoldable pub serialize_browser_session_cookie : Token → Option Text
serialize_browser_session_cookie token =
    if not (valid_session_token token)
    then none
    else some
        (session_cookie_name ++ b'=' ∷ token ++ text "; Path=/; HttpOnly; Secure; SameSite=Lax")

no_separators : (s : Text) → all is_base64url s ≡ true → all (λ c. not (c == b';')) s ≡ true
no_separators [] h = refl
no_separators (c ∷ s) h = ground (arith, no_separators s (ground (arith, h)))

no_spaces : (s : Text) → all is_base64url s ≡ true → all (λ c. not (is_space c)) s ≡ true
no_spaces [] h = refl
no_spaces (c ∷ s) h = ground (arith, no_spaces s (ground (arith, h)))

written-split :
    (token : Token)
    → all is_base64url token ≡ true
    → split b';'
        (session_cookie_name ++ b'=' ∷ token ++ text "; Path=/; HttpOnly; Secure; SameSite=Lax")
      ≡ (session_cookie_name ++ b'=' ∷ token)
        ∷ text " Path=/"
        ∷ text " HttpOnly"
        ∷ text " Secure"
        ∷ text " SameSite=Lax"
        ∷ []
written-split token h =
    rw
      (split-append b';' token (text " Path=/; HttpOnly; Secure; SameSite=Lax")
        (no_separators token h))
      refl

valid_token-base64url :
    (token : Token) → valid_session_token token ≡ true → all is_base64url token ≡ true
unfolding valid_session_token
valid_token-base64url token h = ground (arith, h)

sole-valid :
    (values : List Text) {token : Token}
    → sole_token values ≡ some token
    → valid_session_token token ≡ true
sole-valid [] h = absurd (cc)
sole-valid (v ∷ w ∷ values) h = absurd (cc)
sole-valid (v ∷ []) {token} h = elim (Bool-cases (valid_session_token v)) [
  | inr bad ↦ absurd (cc (rw bad at h))
  | inl ok ↦ rw (sym (some-injective _ _ (rw ok at h))) ok
]

token-part :
    (token : Token)
    → all is_base64url token ≡ true
    → own_value (cut_at b'=' (session_cookie_name ++ b'=' ∷ token)) ≡ token ∷ []
token-part token h = rw (trim_lem token (no_spaces token h)) refl

header-values :
    (token : Token)
    → all is_base64url token ≡ true
    → all_values (
        (session_cookie_name ++ b'=' ∷ token ++ text "; Path=/; HttpOnly; Secure; SameSite=Lax")
        ∷ [])
      ≡ token ∷ []
header-values token h = rw (written-split token h, token-part token h) refl

-- A token that is found in the headers has the form of a token.
pub parse_browser_session_cookie-valid :
    (headers : List Text) (token : Token)
    → parse_browser_session_cookie headers ≡ some token
    → valid_session_token token ≡ true
unfolding parse_browser_session_cookie
parse_browser_session_cookie-valid headers token h = sole-valid (all_values headers) h

-- The cookie that the server sets is read back as the token that it was written with.
pub parse-serialize :
    (token : Token) (header : Text)
    → serialize_browser_session_cookie token ≡ some header
    → parse_browser_session_cookie (header ∷ []) ≡ some token
unfolding parse_browser_session_cookie serialize_browser_session_cookie
parse-serialize token header h = elim (Bool-cases (valid_session_token token)) [
  | inr bad ↦ absurd (cc (rw bad at h))
  | inl ok ↦
      let same = some-injective _ _ (rw ok at h) in
      rw (sym same, header-values token (valid_token-base64url token ok), ok) refl
]
