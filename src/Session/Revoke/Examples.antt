-- ===== src/Session/Revoke/Examples.antt =====
-- A logout and a logout everywhere on concrete tables.
use egogero.Common.{refl, ◌≢◌, true, none, some, [], ◌∷◌}
use egogero.Auth.{oidc_session, tenant, sindico_role}
use egogero.Session.Schema.{SessionTables, valid_session_token}
use egogero.Session.Load.{SessionRow, load_session, session_denial_reason}
use egogero.Session.Lookup.{authenticate}
use egogero.Session.Revoke.{revoke_all}
use egogero.Session.Revoke.Ending.{revoke_all-ends}
use egogero.Session.Samples.{
  sample_config, tables_with, first_token, live_session, clock_at, manager, management, building,
}

abbrev one_session : SessionTables
one_session = tables_with (live_session ∷ [])

abbrev two_families : SessionTables
two_families =
    tables_with
      (live_session ∷ record live_session { id = 2; family_id = 12; token_digest = b'b' } ∷ [])

abbrev row : SessionRow
row = record {
  session = live_session;
  account = manager;
  membership = management;
  condominium = some building;
  resident = none;
}

revoke_all-ends_example :
    (authenticate sample_config
      (clock_at 3000)
      first_token
      true
      (revoke_all sample_config 2000 2000 first_token one_session).1).0
    ≢ some (oidc_session (tenant 7 sindico_role (4 ∷ [])) 7 1)
unfolding load_session revoke_all valid_session_token session_denial_reason
revoke_all-ends_example =
    revoke_all-ends sample_config 2000 2000 first_token one_session row (clock_at 3000) first_token
      true (tenant 7 sindico_role (4 ∷ [])) 1 refl refl refl
