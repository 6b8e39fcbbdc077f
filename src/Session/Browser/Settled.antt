-- ===== src/Session/Browser/Settled.antt =====
-- A reservation of the limit of failed authentications is settled once, by what the request ended
-- with.
use egogero.Common.{
  ℕ, ◌≡◌, refl, inl, inr, Bool, true, false, ◌&&◌, Option, none, some, List, [], ◌∷◌, Bool-cases,
}
use egogero.Auth.{AuthenticatedIdentity, Authentication, rejected}
use egogero.Session.Schema.{SessionTables, Token, Ran}
use egogero.Session.Lookup.{Snapshot, authenticate, inspect}
use egogero.Session.Cookie.{has_browser_session_cookie, parse_browser_session_cookie}
use egogero.Session.Browser.{
  BrowserRequest, BrowserConfig, reserved, Settlement, consumed, released, Answer, Clocks,
  origin_allowed, is_json, supplied_csrf, digest_matches, final_answer, with_snapshot,
  with_evidence, mutate, by_method, is_safe, with_token, visit_of, authenticate_browser,
}

-- A failed authentication counts; a success and an error of another kind do not.
abbrev pub settlement_for : Authentication → Settlement
settlement_for (rejected status code) = consumed
settlement_for _ = released

abbrev IsSettled : Answer → Type 0
IsSettled a = a.visit.settlements ≡ settlement_for a.result ∷ []

final_answer-IsSettled :
    (snapshot : Option Snapshot) (db : SessionTables)
    (found : Option AuthenticatedIdentity × SessionTables)
    → IsSettled (final_answer reserved snapshot (visit_of db) found)
final_answer-IsSettled snapshot db (none, db') = refl
final_answer-IsSettled snapshot db (some identity, db') = refl

module _ (config : BrowserConfig) (at : Clocks) (request : BrowserRequest) (token : Token) where
  with_snapshot-IsSettled :
      (bytes : List ℕ) (db : SessionTables) (found : Ran (Option Snapshot))
      → IsSettled (with_snapshot config at.last reserved token bytes (visit_of db) found)
  with_snapshot-IsSettled bytes db Ran.crashed = refl
  with_snapshot-IsSettled bytes db (Ran.done none db') = refl
  with_snapshot-IsSettled bytes db (Ran.done (some snapshot) db') =
      elim (Bool-cases (digest_matches config bytes snapshot)) [
        | inr other ↦ rw other refl
        | inl same ↦ rw same (
            final_answer-IsSettled (some snapshot) db'
              (authenticate config.store at.last token true db'))
      ]

  with_evidence-IsSettled :
      (sound : Bool) (bytes : Option (List ℕ)) (db : SessionTables)
      → IsSettled (with_evidence config at reserved token sound bytes (visit_of db))
  with_evidence-IsSettled true (some bytes) db =
      with_snapshot-IsSettled bytes db (inspect config.store at.second token false db)
  with_evidence-IsSettled true none db = refl
  with_evidence-IsSettled false bytes db = refl

  mutate-IsSettled :
      (db : SessionTables) (found : Option AuthenticatedIdentity × SessionTables)
      → IsSettled (mutate config at reserved request token (visit_of db) found)
  mutate-IsSettled db (none, db') = refl
  mutate-IsSettled db (some identity, db') =
      with_evidence-IsSettled
        (origin_allowed config request.origin request.referer && is_json request.content_type)
        (supplied_csrf config request.csrf_header) db'

  by_method-IsSettled :
      (safe : Bool) (db : SessionTables)
      → IsSettled (by_method config at reserved safe request token (visit_of db))
  by_method-IsSettled true db =
      final_answer-IsSettled none db (authenticate config.store at.first token true db)
  by_method-IsSettled false db =
      mutate-IsSettled db (authenticate config.store at.first token false db)

with_token-IsSettled :
    (config : BrowserConfig) (at : Clocks) (request : BrowserRequest) (token : Option Token)
    (db : SessionTables)
    → IsSettled (with_token config at reserved request token (visit_of db))
with_token-IsSettled config at request none db = refl
with_token-IsSettled config at request (some token) db =
    by_method-IsSettled config at request token (is_safe request.method) db

-- A request with a session cookie under a reservation settles it exactly once: it counts where the
-- authentication is refused, and it is released where the request is identified or an error of
-- another kind ends it.
pub authenticate_browser-settles :
    (config : BrowserConfig) (at : Clocks) (request : BrowserRequest) (db : SessionTables)
    → has_browser_session_cookie request.cookie ≡ true
    → (authenticate_browser config at reserved request db).visit.settlements
      ≡ settlement_for (authenticate_browser config at reserved request db).result ∷ []
unfolding authenticate_browser
authenticate_browser-settles config at request db cookie =
    rw cookie
      (with_token-IsSettled config at request (parse_browser_session_cookie request.cookie) db)
