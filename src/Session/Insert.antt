-- ===== src/Session/Insert.antt =====
-- A new session (src/sessions.ts: insertSession), and what a request brings to it.
use egogero.Common.{ℕ, ◌+◌, min, Option, none, some, ◌∷◌}
use egogero.Session.Schema.{
  Evidence, BrowserSession, SessionTables, Token, StoreConfig, Ran, crashed, done,
  session_idle_ttl_ms, session_absolute_ttl_ms,
}

-- The clock of the rate limit, of the row that is read and of the statements that write.
pub record WriteClock : Type 0 where
  pub read_at : ℕ
  pub limited_at : ℕ
  pub revoked_at : ℕ
  pub created_at : ℕ

-- What is drawn at random for a new session.
pub record Draws : Type 0 where
  pub session_id : ℕ
  pub family_id : ℕ
  pub token : Token
  pub csrf : ℕ

-- The address and the agent's digest of a request; `undefined` agents are none.
pub record Requester : Type 0 where
  pub ip_prefix : Option ℕ
  pub user_agent_hash : Option (Option ℕ)

pub record NewSession : Type 0 where
  pub id : ℕ
  pub family_id : ℕ
  pub account_id : ℕ
  pub account_session_version : ℕ
  pub membership_id : ℕ
  pub authenticated_at : ℕ
  pub evidence : Evidence
  pub absolute_expires_at : Option ℕ
  pub token_digest : ℕ
  pub csrf : ℕ
  pub csrf_key_version : ℕ
  pub ip_prefix : Option ℕ
  pub user_agent_hash : Option ℕ

-- COALESCE(given, now + interval '12 hours').
abbrev pub absolute_or : ℕ → Option ℕ → ℕ
absolute_or now none = now + session_absolute_ttl_ms
absolute_or now (some t) = t

abbrev pub session_from : StoreConfig → ℕ → NewSession → ℕ → BrowserSession
session_from config now input ciphertext = record {
  id = input.id;
  family_id = input.family_id;
  created_at = now;
  last_seen_at = now;
  idle_expires_at = min (now + session_idle_ttl_ms) (absolute_or now input.absolute_expires_at);
  absolute_expires_at = absolute_or now input.absolute_expires_at;
  authenticated_at = min input.authenticated_at now;
  token_digest = input.token_digest;
  csrf_digest = config.csrf_digest input.csrf;
  csrf_ciphertext = ciphertext;
  csrf_key_version = input.csrf_key_version;
  account_id = input.account_id;
  account_session_version = input.account_session_version;
  active_membership_id = input.membership_id;
  evidence = input.evidence;
  revoked_at = none;
  revoke_reason = none;
  ip_prefix = input.ip_prefix;
  user_agent_hash = input.user_agent_hash;
}

abbrev pub insert_encrypted : StoreConfig → ℕ → NewSession → Option ℕ → SessionTables → Ran ℕ
insert_encrypted config now input none db = crashed
insert_encrypted config now input (some ciphertext) db =
    done (absolute_or now input.absolute_expires_at)
      (record db { sessions = session_from config now input ciphertext ∷ db.sessions })

-- The new row, and its absolute expiration.
unfoldable pub insert_session : StoreConfig → ℕ → NewSession → SessionTables → Ran ℕ
insert_session config now input db =
    insert_encrypted config now input
      (config.encrypt_csrf input.id input.account_id input.csrf input.csrf_key_version) db
