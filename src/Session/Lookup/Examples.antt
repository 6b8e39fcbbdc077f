-- ===== src/Session/Lookup/Examples.antt =====
-- A session that is authenticated while it is idle for less than half an hour, and not after.
use egogero.Common.{◌≡◌, refl, ◌↔◌, true, none, some, [], ◌∷◌}
use egogero.Auth.{oidc_session, tenant, sindico_role}
use egogero.Session.Schema.{valid_session_token}
use egogero.Session.Load.{load_session, session_denial_reason, identity_for}
use egogero.Session.Lookup.{authenticate}
use egogero.Session.Lookup.Live.{Admits, authenticate_iff}
use egogero.Session.Samples.{sample_config, tables_with, first_token, live_session, clock_at}

one_session :
    (authenticate sample_config
      (clock_at 1_800_999)
      first_token
      true
      (tables_with (live_session ∷ []))).0
    ≡ some (oidc_session (tenant 7 sindico_role (4 ∷ [])) 7 1)
unfolding authenticate load_session valid_session_token session_denial_reason identity_for
one_session = refl

idle_session :
    (authenticate sample_config
      (clock_at 1_801_000)
      first_token
      true
      (tables_with (live_session ∷ []))).0
    ≡ none
unfolding authenticate load_session valid_session_token session_denial_reason
idle_session = refl

authenticate_iff_example :
    ((authenticate sample_config
        (clock_at 2000)
        first_token
        true
        (tables_with (live_session ∷ []))).0
      ≡ some (oidc_session (tenant 7 sindico_role (4 ∷ [])) 7 1))
    ↔ Admits sample_config 2000 first_token
        (tables_with (live_session ∷ []))
        (oidc_session (tenant 7 sindico_role (4 ∷ [])) 7 1)
authenticate_iff_example =
    authenticate_iff sample_config (clock_at 2000) first_token true
      (tables_with (live_session ∷ [])) (oidc_session (tenant 7 sindico_role (4 ∷ [])) 7 1)
