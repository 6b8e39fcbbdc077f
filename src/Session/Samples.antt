-- ===== src/Session/Samples.antt =====
-- Tables, tokens and a configuration on which the theorems on sessions are applied.
use egogero.Common.{ℕ, zero, suc, ◌+◌, true, false, none, some, List, [], ◌∷◌, ◌==◌, ◌++◌}
use egogero.Auth.{sindico}
use egogero.Invitation.Schema.{active_account, active, Condominio}
use egogero.Rollout.{HumanAuthGateDecision, enabled_reason}
use egogero.Common.Text.{text}
use egogero.Session.Browser.{BrowserRequest, other_method, BrowserConfig, Clocks}
use egogero.Session.Schema.{
  Evidence, HumanAccountRow, MembershipRow, BrowserSession, Handoff, Token, SessionTables,
  StoreConfig,
}
use egogero.Session.Insert.{WriteClock, Draws, Requester}
use egogero.Session.Lookup.{Clock}

abbrev pub repeated : ℕ → ℕ → Token
repeated zero c = []
repeated (suc n) c = c ∷ repeated n c

abbrev pub token_of : ℕ → Token
token_of c = c ∷ repeated 42 b'A'

abbrev pub handoff_token : Token
handoff_token = token_of b'h'

abbrev pub first_token : Token
first_token = token_of b'a'

abbrev pub second_token : Token
second_token = token_of b'b'

abbrev first_character : Token → ℕ
first_character [] = 0
first_character (c ∷ _) = c

abbrev pub open_gate : HumanAuthGateDecision
open_gate = record { allowed = true; reason = enabled_reason; policy_version = none }

-- The digest is the first character, and the cipher is the identity.
abbrev pub sample_config : StoreConfig
sample_config = record {
  digest = first_character;
  csrf_digest = λ csrf. csrf + 1;
  decrypt_csrf = λ s. some s.csrf_ciphertext;
  encrypt_csrf = λ session account csrf version. some csrf;
  has_csrf_key = λ version. version == 1;
  current_csrf_key_version = 1;
  mfa_policy = none;
  gate_membership = λ membership account. open_gate;
}

abbrev pub no_evidence : Evidence
no_evidence = record { amr = []; acr = none }

abbrev pub manager : HumanAccountRow
manager = record { id = 7; status = active_account; session_version = 0; updated_at = 10 }

abbrev pub management : MembershipRow
management = record {
  id = 30;
  account_id = 7;
  created_at = 10;
  role = sindico;
  status = active;
  condominio_id = some 4;
  resident_id = none;
}

abbrev pub building : Condominio
building = record {
  id = 4;
  deleted_at = none;
  nome = "Jardim";
  timezone = "UTC";
  daily_invitation_limit = none;
}

abbrev pub sample_handoff : Handoff
sample_handoff = record {
  handle_digest = b'h';
  created_at = 900;
  expires_at = 5000;
  consumed_at = none;
  account_id = 7;
  external_identity_id = 70;
  authenticated_at = 800;
  evidence = no_evidence;
  recovery_intent = false;
  reauthentication_intent = false;
  reauthentication_family_id = none;
}

abbrev pub tables_with : List BrowserSession → SessionTables
tables_with sessions = record {
  sessions = sessions;
  accounts = manager ∷ [];
  memberships = management ∷ [];
  condominios = building ∷ [];
  moradores = [];
  handoffs = sample_handoff ∷ [];
  intents = [];
  creation_limits = λ account. none;
  reauthentication_limits = λ account. none;
  audits = [];
}

abbrev pub live_session : BrowserSession
live_session = record {
  id = 1;
  family_id = 11;
  created_at = 1000;
  last_seen_at = 1000;
  idle_expires_at = 1_801_000;
  absolute_expires_at = 43_201_000;
  authenticated_at = 800;
  token_digest = b'a';
  csrf_digest = 6;
  csrf_ciphertext = 5;
  csrf_key_version = 1;
  account_id = 7;
  account_session_version = 0;
  active_membership_id = 30;
  evidence = no_evidence;
  revoked_at = none;
  revoke_reason = none;
  ip_prefix = none;
  user_agent_hash = none;
}

abbrev pub draws_of : ℕ → ℕ → Token → Draws
draws_of id family token = record { session_id = id; family_id = family; token = token; csrf = 5 }

abbrev pub nobody : Requester
nobody = record { ip_prefix = none; user_agent_hash = none }

abbrev pub clock_at : ℕ → Clock
clock_at t = record { read_at = t; written_at = t }

abbrev pub write_clock_at : ℕ → WriteClock
write_clock_at t = record { read_at = t; limited_at = t; revoked_at = t; created_at = t }

abbrev pub browser_config : BrowserConfig
browser_config = record {
  store = sample_config;
  public_application_origin = text "https://app";
  parse_url = λ url. none;
  decode_base64url = λ header. repeated 32 1;
  encode_base64url = λ bytes. token_of b'c';
  bytes_digest = λ bytes. 6;
}

abbrev pub change : BrowserRequest
change = record {
  method = other_method;
  cookie = (text "__Host-eg_session=" ++ first_token) ∷ [];
  origin = some (text "https://app");
  referer = none;
  content_type = some (text "Application/JSON; charset=utf-8");
  csrf_header = some (token_of b'c');
  authorization = none;
}

abbrev pub clocks : Clocks
clocks = record { first = clock_at 2000; second = clock_at 2001; last = clock_at 2002 }
