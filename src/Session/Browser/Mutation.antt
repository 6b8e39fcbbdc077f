-- ===== src/Session/Browser/Mutation.antt =====
-- A request that changes something is let through only with evidence that the page of the session
-- sent it.
use egogero.Common.{
  ℕ, ◌≡◌, refl, ap, ◌∙◌, inl, inr, Bool, true, false, not, ◌&&◌, Option, none, some, List, arith,
  ==_iff, Bool-cases, first,
}
use egogero.Auth.{AuthenticatedIdentity, identified}
use egogero.Session.Schema.{SessionTables, Token, Ran, done}
use egogero.Session.Lookup.{Snapshot, authenticate, inspect}
use egogero.Session.Lookup.Live.{Admits, authenticate_iff}
use egogero.Session.Lookup.Shown.{IsShown, inspect-IsShown}
use egogero.Session.Cookie.{has_browser_session_cookie, parse_browser_session_cookie}
use egogero.Session.Browser.{
  BrowserRequest, other_method, BrowserConfig, Reservation, unlimited, refused, reserved, Visit,
  Settlement, released, is_reserved, finalize, Answer, Clocks, origin_allowed, is_json,
  supplied_csrf, digest_matches, final_answer, with_snapshot, with_evidence, mutate, by_method,
  with_token, visit_of, limited, authenticate_browser, with_db, is_safe,
}

-- The right origin, a JSON body, a CSRF token whose digest the session's row holds, and a session
-- that is live at each of the three reads, each in the tables that the one before has left. The
-- last of them leaves the tables that the request goes on with.
pub record IsGuarded (config : BrowserConfig) (at : Clocks) (request : BrowserRequest)
    (db : SessionTables) (identity : AuthenticatedIdentity) (left : SessionTables) : Type 0 where
  pub token : Token
  pub parsed : parse_browser_session_cookie request.cookie ≡ some token
  pub trusted : origin_allowed config request.origin request.referer ≡ true
  pub json : is_json request.content_type ≡ true
  pub bytes : List ℕ
  pub supplied : supplied_csrf config request.csrf_header ≡ some bytes
  pub earlier : AuthenticatedIdentity
  pub read : SessionTables
  pub first_run : authenticate config.store at.first token false db ≡ (some earlier, read)
  pub first : Admits config.store at.first.read_at token db earlier
  pub shown : Snapshot
  pub kept : SessionTables
  pub second_run : inspect config.store at.second token false read ≡ done (some shown) kept
  pub second : IsShown config.store at.second.read_at token read shown
  pub matches : config.bytes_digest bytes ≡ second.row.session.csrf_digest
  pub last_run : authenticate config.store at.last token true kept ≡ (some identity, left)
  pub last : Admits config.store at.last.read_at token kept identity

-- A settlement leaves the tables alone.
finalize-db : (r : Reservation) (how : Settlement) (v : Visit) → (finalize r how v).db ≡ v.db
finalize-db r how v = elim (Bool-cases (is_reserved r && not v.reservation_finalized)) [
  | inl now ↦ rw now refl
  | inr not_now ↦ rw not_now refl
]

final_answer-identified :
    (r : Reservation) (snapshot : Option Snapshot) (v : Visit)
    (found : Option AuthenticatedIdentity × SessionTables) (identity : AuthenticatedIdentity)
    → (final_answer r snapshot v found).result ≡ identified identity
    → found ≡ (some identity, (final_answer r snapshot v found).visit.db)
final_answer-identified r snapshot v (none, db) identity h = absurd (cc)
final_answer-identified r snapshot v (some who, db) identity h =
    rw (finalize-db r released (with_db db v)) (ap (λ x. (some x, db)) (ground (arith, h)))

module _ (config : BrowserConfig) (at : Clocks) (r : Reservation) (token : Token)
    (identity : AuthenticatedIdentity) where
  -- A snapshot with the digest of the bytes, and the session that is live after it.
  record IsPassed (bytes : List ℕ) (found : Ran (Option Snapshot)) (left : SessionTables)
      : Type 0 where
    shown : Snapshot
    kept : SessionTables
    seen : found ≡ done (some shown) kept
    same : digest_matches config bytes shown ≡ true
    last : authenticate config.store at.last token true kept ≡ (some identity, left)

  with_snapshot-IsPassed :
      (bytes : List ℕ) (v : Visit) (found : Ran (Option Snapshot))
      → (with_snapshot config at.last r token bytes v found).result ≡ identified identity
      → IsPassed bytes found (with_snapshot config at.last r token bytes v found).visit.db
  with_snapshot-IsPassed bytes v Ran.crashed h = absurd (cc)
  with_snapshot-IsPassed bytes v (Ran.done none db) h = absurd (cc)
  with_snapshot-IsPassed bytes v (Ran.done (some snapshot) db) h =
      elim (Bool-cases (digest_matches config bytes snapshot)) [
        | inr other ↦ absurd (cc (rw other at h))
        | inl same ↦ rw same (record {
          shown = snapshot;
          kept = db;
          seen = refl;
          same = same;
          last =
              final_answer-identified r (some snapshot) (with_db db v)
                (authenticate config.store at.last token true db) identity (rw same at h);
        })
      ]

  record IsProved (sound : Bool) (supplied : Option (List ℕ)) (v : Visit) (left : SessionTables)
      : Type 0 where
    bytes : List ℕ
    all_sound : sound ≡ true
    given : supplied ≡ some bytes
    passed : IsPassed bytes (inspect config.store at.second token false v.db) left

  with_evidence-IsProved :
      (sound : Bool) (supplied : Option (List ℕ)) (v : Visit)
      → (with_evidence config at r token sound supplied v).result ≡ identified identity
      → IsProved sound supplied v (with_evidence config at r token sound supplied v).visit.db
  with_evidence-IsProved true (some bytes) v h = record {
    bytes = bytes;
    all_sound = refl;
    given = refl;
    passed = with_snapshot-IsPassed bytes v (inspect config.store at.second token false v.db) h;
  }
  with_evidence-IsProved true none v h = absurd (cc)
  with_evidence-IsProved false (some bytes) v h = absurd (cc)
  with_evidence-IsProved false none v h = absurd (cc)

module _ (config : BrowserConfig) (at : Clocks) (r : Reservation) (request : BrowserRequest)
    (db : SessionTables) (identity : AuthenticatedIdentity) where
  guarded :
      (token : Token) (earlier : AuthenticatedIdentity) (v : Visit) (left : SessionTables)
      → parse_browser_session_cookie request.cookie ≡ some token
      → authenticate config.store at.first token false db ≡ (some earlier, v.db)
      → IsProved config at r token identity
          (origin_allowed config request.origin request.referer && is_json request.content_type)
          (supplied_csrf config request.csrf_header)
          v
          left
      → IsGuarded config at request db identity left
  guarded token earlier v left parsed first proof =
      let second =
        inspect-IsShown config.store at.second token false v.db proof.passed.kept proof.passed.shown
          proof.passed.seen in
      record {
        token = token;
        parsed = parsed;
        trusted = ground (arith, proof.all_sound);
        json = ground (arith, proof.all_sound);
        bytes = proof.bytes;
        supplied = proof.given;
        earlier = earlier;
        read = v.db;
        first_run = first;
        first =
            (authenticate_iff config.store at.first token false db earlier).0 (ap (λ x. x.0) first);
        shown = proof.passed.shown;
        kept = proof.passed.kept;
        second_run = proof.passed.seen;
        second = second;
        matches = (==_iff _ _).0 proof.passed.same ∙ second.csrf_digest;
        last_run = proof.passed.last;
        last =
            (authenticate_iff config.store at.last token true proof.passed.kept identity).0
              (ap (λ x. x.0) proof.passed.last);
      }

  abbrev Guards : Answer → Type 0
  Guards answer =
      answer.result ≡ identified identity → IsGuarded config at request db identity answer.visit.db

  mutate-IsGuarded :
      (token : Token) (v : Visit) (found : Option AuthenticatedIdentity × SessionTables)
      → parse_browser_session_cookie request.cookie ≡ some token
      → authenticate config.store at.first token false db ≡ found
      → Guards (mutate config at r request token v found)
  mutate-IsGuarded token v (none, db') parsed first h = absurd (cc)
  mutate-IsGuarded token v (some earlier, db') parsed first h =
      guarded token earlier _ _ parsed first
        (with_evidence-IsProved config at r token identity _ _ _ h)

  by_method-IsGuarded :
      (safe : Bool) (token : Token)
      → safe ≡ false
      → parse_browser_session_cookie request.cookie ≡ some token
      → Guards (by_method config at r safe request token (visit_of db))
  by_method-IsGuarded true token unsafe parsed h = absurd (cc)
  by_method-IsGuarded false token unsafe parsed h =
      mutate-IsGuarded token (visit_of db) (authenticate config.store at.first token false db)
        parsed refl h

  with_token-IsGuarded :
      (token : Option Token)
      → request.method ≡ other_method
      → parse_browser_session_cookie request.cookie ≡ token
      → Guards (with_token config at r request token (visit_of db))
  with_token-IsGuarded none unsafe parsed h = absurd (cc)
  with_token-IsGuarded (some token) unsafe parsed h =
      by_method-IsGuarded (is_safe request.method) token (ap is_safe unsafe) parsed h

limited-IsGuarded :
    (config : BrowserConfig) (at : Clocks) (r : Reservation) (request : BrowserRequest)
    (db : SessionTables) (identity : AuthenticatedIdentity)
    → request.method ≡ other_method
    → Guards config at r request db identity (limited config at r request db)
limited-IsGuarded config at refused request db identity unsafe h = absurd (cc)
limited-IsGuarded config at unlimited request db identity unsafe h =
    with_token-IsGuarded config at unlimited request db identity
      (parse_browser_session_cookie request.cookie) unsafe refl h
limited-IsGuarded config at reserved request db identity unsafe h =
    with_token-IsGuarded config at reserved request db identity
      (parse_browser_session_cookie request.cookie) unsafe refl h

-- A request of any other method than GET, HEAD and OPTIONS is identified only where it has one
-- session token, the application's origin, a JSON body, and a CSRF token whose digest is the one in
-- the session's row at the second read, and where the session is live at each of the three reads:
-- the first authentication on the tables of the request, the inspection on the tables that this
-- leaves, and the last authentication, which gives the identity and leaves the tables of the
-- visit, on those that the inspection leaves.
pub authenticate_browser-IsGuarded :
    (config : BrowserConfig) (at : Clocks) (r : Reservation) (request : BrowserRequest)
    (db : SessionTables) (identity : AuthenticatedIdentity)
    → request.method ≡ other_method
    → (authenticate_browser config at r request db).result ≡ identified identity
    → IsGuarded config at request db identity (authenticate_browser config at r request db).visit.db
unfolding authenticate_browser
authenticate_browser-IsGuarded config at r request db identity unsafe h =
    elim (Bool-cases (has_browser_session_cookie request.cookie)) [
      | inr out ↦ absurd (cc (rw out at h))
      | inl cookie ↦
          rw cookie (limited-IsGuarded config at r request db identity unsafe (rw cookie at h))
    ]
