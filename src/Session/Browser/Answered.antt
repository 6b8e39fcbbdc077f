-- ===== src/Session/Browser/Answered.antt =====
-- A request with a session cookie is never passed over.
use egogero.Common.{
  ℕ, ◌≡◌, refl, ◌≢◌, inl, inr, Bool, true, false, ◌&&◌, Option, none, some, List, Bool-cases,
}
use egogero.Auth.{AuthenticatedIdentity, Authentication, unidentified}
use egogero.Session.Schema.{SessionTables, Token, Ran}
use egogero.Session.Lookup.{Snapshot, authenticate, inspect}
use egogero.Session.Cookie.{has_browser_session_cookie, parse_browser_session_cookie}
use egogero.Session.Browser.{
  BrowserRequest, BrowserConfig, Reservation, unlimited, refused, reserved, Visit, Answer, Clocks,
  origin_allowed, is_json, supplied_csrf, digest_matches, final_answer, with_snapshot,
  with_evidence, mutate, by_method, is_safe, with_token, with_db, visit_of, limited,
  authenticate_browser,
}

abbrev passed_over : Authentication → Bool
passed_over unidentified = true
passed_over _ = false

abbrev IsAnswered : Answer → Type 0
IsAnswered a = passed_over a.result ≡ false

final_answer-IsAnswered :
    (r : Reservation) (snapshot : Option Snapshot) (v : Visit)
    (found : Option AuthenticatedIdentity × SessionTables)
    → IsAnswered (final_answer r snapshot v found)
final_answer-IsAnswered r snapshot v (none, db) = refl
final_answer-IsAnswered r snapshot v (some identity, db) = refl

module _ (config : BrowserConfig) (at : Clocks) (r : Reservation) (request : BrowserRequest)
    (token : Token) where
  with_snapshot-IsAnswered :
      (bytes : List ℕ) (v : Visit) (found : Ran (Option Snapshot))
      → IsAnswered (with_snapshot config at.last r token bytes v found)
  with_snapshot-IsAnswered bytes v Ran.crashed = refl
  with_snapshot-IsAnswered bytes v (Ran.done none db) = refl
  with_snapshot-IsAnswered bytes v (Ran.done (some snapshot) db) =
      elim (Bool-cases (digest_matches config bytes snapshot)) [
        | inr other ↦ rw other refl
        | inl same ↦ rw same (
            final_answer-IsAnswered r (some snapshot) (with_db db v)
              (authenticate config.store at.last token true db))
      ]

  with_evidence-IsAnswered :
      (sound : Bool) (bytes : Option (List ℕ)) (v : Visit)
      → IsAnswered (with_evidence config at r token sound bytes v)
  with_evidence-IsAnswered true (some bytes) v =
      with_snapshot-IsAnswered bytes v (inspect config.store at.second token false v.db)
  with_evidence-IsAnswered true none v = refl
  with_evidence-IsAnswered false bytes v = refl

  mutate-IsAnswered :
      (v : Visit) (found : Option AuthenticatedIdentity × SessionTables)
      → IsAnswered (mutate config at r request token v found)
  mutate-IsAnswered v (none, db) = refl
  mutate-IsAnswered v (some identity, db) =
      with_evidence-IsAnswered
        (origin_allowed config request.origin request.referer && is_json request.content_type)
        (supplied_csrf config request.csrf_header) (with_db db v)

  by_method-IsAnswered :
      (safe : Bool) (v : Visit) → IsAnswered (by_method config at r safe request token v)
  by_method-IsAnswered true v =
      final_answer-IsAnswered r none v (authenticate config.store at.first token true v.db)
  by_method-IsAnswered false v =
      mutate-IsAnswered v (authenticate config.store at.first token false v.db)

with_token-IsAnswered :
    (config : BrowserConfig) (at : Clocks) (r : Reservation) (request : BrowserRequest)
    (token : Option Token) (v : Visit)
    → IsAnswered (with_token config at r request token v)
with_token-IsAnswered config at r request none v = refl
with_token-IsAnswered config at r request (some token) v =
    by_method-IsAnswered config at r request token (is_safe request.method) v

limited-IsAnswered :
    (config : BrowserConfig) (at : Clocks) (r : Reservation) (request : BrowserRequest)
    (db : SessionTables)
    → IsAnswered (limited config at r request db)
limited-IsAnswered config at refused request db = refl
limited-IsAnswered config at unlimited request db =
    with_token-IsAnswered config at unlimited request (parse_browser_session_cookie request.cookie)
      (visit_of db)
limited-IsAnswered config at reserved request db =
    with_token-IsAnswered config at reserved request (parse_browser_session_cookie request.cookie)
      (visit_of db)

-- A request with a session cookie is identified, refused or ended by an error.
pub authenticate_browser-answers :
    (config : BrowserConfig) (at : Clocks) (r : Reservation) (request : BrowserRequest)
    (db : SessionTables)
    → has_browser_session_cookie request.cookie ≡ true
    → (authenticate_browser config at r request db).result ≢ unidentified
unfolding authenticate_browser
authenticate_browser-answers config at r request db cookie e =
    let known = limited-IsAnswered config at r request db in absurd (cc (rw cookie at e, known))
