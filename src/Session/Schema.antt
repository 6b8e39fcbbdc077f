-- ===== src/Session/Schema.antt =====
-- The tables that the session store reads and writes (prisma/schema.prisma, src/sessions.ts).
-- Identifiers, digests and encrypted values are compared for equality only and stand as numbers.
use egogero.Common.{
  ℕ, Bool, true, false, not, ◌&&◌, ◌||◌, Option, none, some, List, leb, ◌==◌, length, any, all,
  contains,
}
use egogero.Auth.{Role}
use egogero.AuthLimits.{Bucket}
use egogero.Invitation.Schema.{AccountStatus, MembershipStatus, Condominio, Morador}
use egogero.Rollout.{HumanAuthGateDecision}

-- Claims of the identity provider: methods by their lower-case spelling, and the context.
pub record Evidence : Type 0 where
  pub amr : List ℕ
  pub acr : Option ℕ

pub record HumanAccountRow : Type 0 where
  pub id : ℕ
  pub status : AccountStatus
  pub session_version : ℕ
  pub updated_at : ℕ

pub record MembershipRow : Type 0 where
  pub id : ℕ
  pub account_id : ℕ
  pub created_at : ℕ
  pub role : Role
  pub status : MembershipStatus
  pub condominio_id : Option ℕ
  pub resident_id : Option ℕ

pub data RevokeReason : Type 0 where
  reauthenticated credential_recovery login_replaced rotated : RevokeReason
  all_sessions_revoked user_logout provider_recovery_event : RevokeReason
  given_reason : ℕ → RevokeReason

pub record BrowserSession : Type 0 where
  pub id : ℕ
  pub family_id : ℕ
  pub created_at : ℕ
  pub last_seen_at : ℕ
  pub idle_expires_at : ℕ
  pub absolute_expires_at : ℕ
  pub authenticated_at : ℕ
  pub token_digest : ℕ
  pub csrf_digest : ℕ
  pub csrf_ciphertext : ℕ
  pub csrf_key_version : ℕ
  pub account_id : ℕ
  pub account_session_version : ℕ
  pub active_membership_id : ℕ
  pub evidence : Evidence
  pub revoked_at : Option ℕ
  pub revoke_reason : Option RevokeReason
  pub ip_prefix : Option ℕ
  pub user_agent_hash : Option ℕ

-- `OidcValidatedHandoff`.
pub record Handoff : Type 0 where
  pub handle_digest : ℕ
  pub created_at : ℕ
  pub expires_at : ℕ
  pub consumed_at : Option ℕ
  pub account_id : ℕ
  pub external_identity_id : ℕ
  pub authenticated_at : ℕ
  pub evidence : Evidence
  pub recovery_intent : Bool
  pub reauthentication_intent : Bool
  pub reauthentication_family_id : Option ℕ

pub data ReturnTo : Type 0 where
  app logout_all_continue : ReturnTo

-- `ReauthenticationStartIntent`.
pub record StartIntent : Type 0 where
  pub id : ℕ
  pub expires_at : ℕ
  pub consumed_at : Option ℕ
  pub token_digest : ℕ
  pub account_id : ℕ
  pub family_id : ℕ
  pub return_to : ReturnTo

pub data Denial : Type 0 where
  session_revoked session_absolute_expired session_idle_expired account_inactive : Denial
  session_version_mismatch membership_inactive condominium_inactive resident_inactive : Denial

pub data AuditReason : Type 0 where
  denied_for : Denial → AuditReason
  revoked_for : RevokeReason → AuditReason
  invalid_session invalid_handoff stale_handoff stale_session rollout_disabled : AuditReason
  insufficient_authentication_assurance no_active_membership membership_scope_inactive : AuditReason
  target_membership_invalid target_membership_inactive session_creation_rate_limited : AuditReason
  session_integrity_failed csrf_integrity_failed reauthentication_required : AuditReason
  account_not_found ambiguous_credentials_used invalid_request_evidence : AuditReason

pub data EventType : Type 0 where
  session_issue_denied session_issued session_authentication_denied mfa_policy_denied : EventType
  session_rotation_denied session_rotated session_revocation_denied session_revoked_event :
      EventType
  session_revoke_all_denied session_revoke_all session_reauthentication_denied : EventType
  session_reauthenticated session_family_replaced credential_recovery_observed : EventType
  ambiguous_credentials csrf_validation_failed : EventType

-- `AuthenticationAuditEvent`, without the request's correlation, address, agent and metadata.
pub record AuditEvent : Type 0 where
  pub event_type : EventType
  pub success : Bool
  pub reason_code : Option AuditReason
  pub account_id : Option ℕ
  pub external_identity_id : Option ℕ
  pub session_id : Option ℕ
  pub membership_id : Option ℕ
  pub condominio_id : Option ℕ

pub record SessionTables : Type 0 where
  pub sessions : List BrowserSession
  pub accounts : List HumanAccountRow
  pub memberships : List MembershipRow
  pub condominios : List Condominio
  pub moradores : List Morador
  pub handoffs : List Handoff
  pub intents : List StartIntent
  pub creation_limits : ℕ → Option Bucket  -- session_creation_account, by the account
  pub reauthentication_limits : ℕ → Option Bucket  -- reauthentication_account, by the account
  pub audits : List AuditEvent

abbrev pub Token : Type 0
Token = List ℕ

-- `evidenceSatisfiesRole`, of src/human-administration.ts.
pub record Requirement : Type 0 where
  pub amr : List ℕ
  pub acr : List ℕ

abbrev pub context_accepted : Requirement → Option ℕ → Bool
context_accepted requirement none = length requirement.acr == 0
context_accepted requirement (some acr) =
    length requirement.acr == 0 || contains acr requirement.acr

unfoldable pub evidence_satisfies_role : (Role → Option Requirement) → Role → Evidence → Bool
evidence_satisfies_role policy role evidence = elim (policy role) [
  | none ↦ false
  | some requirement ↦
      not (length evidence.amr == 0)
      && any (λ method. contains method evidence.amr) requirement.amr
      && context_accepted requirement evidence.acr
]

-- What the store is configured with: SHA-256, the cipher of CSRF tokens (bound to session and
-- account; none where the key or the value is not right), and the rollout gate of a membership.
pub record StoreConfig : Type 0 where
  pub digest : Token → ℕ
  pub csrf_digest : ℕ → ℕ
  pub decrypt_csrf : BrowserSession → Option ℕ
  pub encrypt_csrf : (session account csrf version : ℕ) → Option ℕ
  pub has_csrf_key : ℕ → Bool
  pub current_csrf_key_version : ℕ
  pub mfa_policy : Option (Role → Option Requirement)
  pub gate_membership : (membership account : ℕ) → HumanAuthGateDecision

-- `config.mfaPolicy && !evidenceSatisfiesRole(...)` negated: no policy accepts anything.
abbrev pub accepts : Option (Role → Option Requirement) → Role → Evidence → Bool
accepts none role evidence = true
accepts (some policy) role evidence = evidence_satisfies_role policy role evidence

-- How a transaction ends: an exception rolls it back.
pub data Ran (A : Type 0) : Type 0 where
  crashed : Ran A
  done : A → SessionTables → Ran A

-- One character of SESSION_TOKEN_PATTERN.
abbrev pub is_base64url : ℕ → Bool
is_base64url c =
    (leb b'A' c && leb c b'Z')
    || (leb b'a' c && leb c b'z')
    || (leb b'0' c && leb c b'9')
    || c == b'_'
    || c == b'-'

unfoldable pub valid_session_token : Token → Bool
valid_session_token token = length token == 43 && all is_base64url token

abbrev pub session_idle_ttl_ms : ℕ
session_idle_ttl_ms = 1_800_000

abbrev pub session_absolute_ttl_ms : ℕ
session_absolute_ttl_ms = 43_200_000

abbrev pub session_touch_interval_ms : ℕ
session_touch_interval_ms = 300_000

abbrev pub reauthentication_start_ttl_ms : ℕ
reauthentication_start_ttl_ms = 300_000
