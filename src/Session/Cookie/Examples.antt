-- ===== src/Session/Cookie/Examples.antt =====
-- Headers with no session cookie, with one, and with two.
use egogero.Common.{◌≡◌, refl, true, none, some, [], ◌∷◌, ◌++◌}
use egogero.Common.Text.{Text, text}
use egogero.Session.Schema.{valid_session_token}
use egogero.Session.Cookie.{
  cleared_session_cookie, has_browser_session_cookie, parse_browser_session_cookie,
  serialize_browser_session_cookie, parse-serialize,
}
use egogero.Session.Samples.{first_token, second_token}

abbrev first_header : Text
first_header = text "theme=dark; __Host-eg_session=" ++ first_token

one_cookie : parse_browser_session_cookie (first_header ∷ []) ≡ some first_token
unfolding parse_browser_session_cookie valid_session_token
one_cookie = refl

two_cookies :
    parse_browser_session_cookie (first_header ∷ (text "__Host-eg_session=" ++ second_token) ∷ [])
    ≡ none
unfolding parse_browser_session_cookie valid_session_token
two_cookies = refl

cleared_cookie : parse_browser_session_cookie (cleared_session_cookie ∷ []) ≡ none
unfolding parse_browser_session_cookie valid_session_token
cleared_cookie = refl

cleared_cookie_there : has_browser_session_cookie (cleared_session_cookie ∷ []) ≡ true
unfolding has_browser_session_cookie
cleared_cookie_there = refl

abbrev first_set_cookie : Text
first_set_cookie =
    text "__Host-eg_session=" ++ first_token ++ text "; Path=/; HttpOnly; Secure; SameSite=Lax"

parse-serialize_example : parse_browser_session_cookie (first_set_cookie ∷ []) ≡ some first_token
unfolding serialize_browser_session_cookie valid_session_token
parse-serialize_example = parse-serialize first_token first_set_cookie refl
