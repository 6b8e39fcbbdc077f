-- ===== src/Rollout/Examples.antt =====
-- A pilot of half the tenants.
use egogero.Common.{◌≡◌, refl, ◌↔◌, true, false, ◌&&◌, none, some, List, [], ◌∷◌, any}
use egogero.Auth.{sindico}
use egogero.Invitation.Schema.{HumanMembership, active}
use egogero.Rollout.{
  PolicyRow, TenantDigest, RolloutTables, global_scope, tenant_scope, pilot, enabled, disabled,
  effective_decision, policy_allows, active_of, gate_identity, gate_membership, preflight_global,
  preflight_invitation, first_allowed, evaluate, locked_policies, human_auth_tenant_cohort,
}
use egogero.Rollout.Decision.{TenantAdmitted, effective_decision-tenant_iff}
use egogero.Rollout.Gates.{SwitchedOff, SwitchedOff-refused, gate_identity-any, allows}

-- The cohort of a tenant is its own number plus one.
abbrev digest : TenantDigest
digest = record { read_uint32 = λ id. id }

abbrev everywhere : PolicyRow
everywhere = record {
  scope = global_scope;
  state = enabled;
  cohort_percentage = none;
  cohort_algorithm = none;
  version = 4;
}

abbrev half : PolicyRow
half = record {
  scope = tenant_scope 20;
  state = pilot;
  cohort_percentage = some 50;
  cohort_algorithm = some 1;
  version = 2;
}

abbrev outside : PolicyRow
outside = record half { scope = tenant_scope 70 }

abbrev policies : List PolicyRow
policies = half ∷ everywhere ∷ outside ∷ []

abbrev member : HumanMembership
member = record { id = 5; account_id = 3; condominio_id = some 20; role = sindico; status = active }

abbrev tables : RolloutTables
tables = record {
  policies = policies;
  memberships = record member { id = 4; condominio_id = some 70 } ∷ member ∷ [];
  invitations = [];
}

inside_pilot : (effective_decision digest policies (some 20) false).allowed ≡ true
unfolding effective_decision policy_allows human_auth_tenant_cohort
inside_pilot = refl

outside_pilot : (effective_decision digest policies (some 70) false).allowed ≡ false
unfolding effective_decision policy_allows human_auth_tenant_cohort
outside_pilot = refl

second_membership : (gate_identity digest tables 3).allowed ≡ true
unfolding gate_identity first_allowed evaluate locked_policies effective_decision policy_allows
    human_auth_tenant_cohort
second_membership = refl

effective_decision-tenant_iff_example :
    ((effective_decision digest policies (some 20) false).allowed ≡ true)
    ↔ TenantAdmitted digest policies 20
effective_decision-tenant_iff_example = effective_decision-tenant_iff digest policies 20

gate_identity-any_example :
    (gate_identity digest tables 3).allowed
    ≡ any (λ m. active_of 3 m && allows digest policies m) tables.memberships
gate_identity-any_example = gate_identity-any digest tables 3

abbrev stopped : RolloutTables
stopped = record tables { policies = record everywhere { state = disabled } ∷ half ∷ [] }

SwitchedOff-refused_example :
    ((preflight_global stopped.policies).allowed ≡ false)
    × ((preflight_invitation digest stopped 8 9).allowed ≡ false)
    × ((gate_identity digest stopped 3).allowed ≡ false)
    × ((gate_membership digest stopped 5 3).allowed ≡ false)
SwitchedOff-refused_example =
    SwitchedOff-refused digest stopped 3 5 8 9
      (SwitchedOff.disabled_row (record everywhere { state = disabled }) refl refl)
