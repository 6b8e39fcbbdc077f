-- ===== src/Rollout.antt =====
-- The staged rollout of human authentication (src/human-auth-rollout.ts): the decision that a
-- policy takes for a tenant or a provider, and the gates that apply it.
pub mod Decision
pub mod Gates
pub mod Route
mod Examples
use egogero.Common.{
  ℕ, zero, suc, ◌+◌, ◌-◌, ◌*◌, ◌/◌, ◌%◌, ◌^◌, ◌≤◌, ◌<◌, min, max, ◌≡◌, refl, sym, ap, subst, ◌∙◌,
  ◌≢◌, ◌↔◌, ◌⊎◌, inl, inr, Bool, true, false, not, ◌&&◌, ◌||◌, Option, none, some, List, [], ◌∷◌,
  ◌++◌, map, arith, ltb, leb, ◌==◌, if◌then◌else◌, ==_iff, ==_refl, ==_sym, Bool-cases,
  Option-cases, is, is_none, after, length, length-append, select, first, update, count, any, all,
  head?, count-append, count-le-length, contains, All, Memᴰ, first-mem, first_of-count, any-first,
  count-any, count-mem,
}
use egogero.Auth.{Role, is_provedor}
use egogero.Invitation.Schema.{HumanMembership, MembershipStatus, active}

-- `StoredState`.
pub data StoredState : Type 0 where
  disabled internal_provider pilot enabled : StoredState

-- The scope `global`, or `tenant:` with a condominium.
pub data Scope : Type 0 where
  global_scope : Scope
  tenant_scope : ℕ → Scope

abbrev pub is_global : Scope → Bool
is_global global_scope = true
is_global (tenant_scope id) = false

abbrev pub is_tenant : ℕ → Scope → Bool
is_tenant id global_scope = false
is_tenant id (tenant_scope other) = other == id

-- The name of an algorithm is compared for equality only; this one is 'sha256-tenant-v1'.
abbrev pub human_auth_cohort_algorithm : ℕ
human_auth_cohort_algorithm = 1

abbrev pub human_auth_cohort_percentages : List ℕ
human_auth_cohort_percentages = 10 ∷ 50 ∷ 100 ∷ []

pub record PolicyRow : Type 0 where
  pub scope : Scope
  pub state : StoredState
  pub cohort_percentage : Option ℕ
  pub cohort_algorithm : Option ℕ
  pub version : ℕ

pub data Reason : Type 0 where
  policy_missing rollout_disabled internal_provider_reason provider_scope enabled_reason : Reason
  policy_inconsistent pilot_cohort outside_pilot_cohort tenant_context_required : Reason
  identity_pending invitation_unavailable no_active_membership membership_inactive : Reason

pub record HumanAuthGateDecision : Type 0 where
  pub allowed : Bool
  pub reason : Reason
  pub policy_version : Option ℕ

-- The first four bytes of the SHA-256 of a tenant under the algorithm's name, as a number.
pub record TenantDigest : Type 0 where
  pub read_uint32 : ℕ → ℕ

pub human_auth_tenant_cohort : TenantDigest → ℕ → ℕ
human_auth_tenant_cohort digest id = digest.read_uint32 id % 100 + 1

abbrev pub decision : Bool → Reason → PolicyRow → HumanAuthGateDecision
decision answer why policy = record {
  allowed = answer;
  reason = why;
  policy_version = some policy.version;
}

abbrev pub deny : Reason → HumanAuthGateDecision
deny why = record { allowed = false; reason = why; policy_version = none }

-- `HUMAN_AUTH_COHORT_PERCENTAGES.includes`, of a column that may be NULL.
abbrev pub is_percentage : Option ℕ → Bool
is_percentage none = false
is_percentage (some n) = contains n human_auth_cohort_percentages

abbrev pub percentage_of : Option ℕ → ℕ
percentage_of none = 0
percentage_of (some n) = n

-- The part of `policyAllows` about a tenant under a pilot.
abbrev pub pilot_allows : TenantDigest → PolicyRow → Option ℕ → HumanAuthGateDecision
pilot_allows digest policy none = decision false policy_inconsistent policy
pilot_allows digest policy (some tenant) =
    if not (is policy.cohort_algorithm human_auth_cohort_algorithm)
      || not (is_percentage policy.cohort_percentage)
    then decision false policy_inconsistent policy
    else (let inside =
          leb (human_auth_tenant_cohort digest tenant) (percentage_of policy.cohort_percentage) in
        decision inside (if inside then pilot_cohort else outside_pilot_cohort) policy)

-- `policyAllows` on the state of a policy that is there.
abbrev pub state_allows :
    TenantDigest → StoredState → PolicyRow → Option ℕ → Bool → HumanAuthGateDecision
state_allows digest disabled policy tenant provider = decision false rollout_disabled policy
state_allows digest internal_provider policy tenant provider =
    decision provider (if provider then internal_provider_reason else rollout_disabled) policy
state_allows digest enabled policy tenant provider =
    if provider then decision true provider_scope policy else decision true enabled_reason policy
state_allows digest pilot policy tenant provider =
    if provider then decision true provider_scope policy else pilot_allows digest policy tenant

unfoldable pub policy_allows :
    TenantDigest → Option PolicyRow → Option ℕ → Bool → HumanAuthGateDecision
policy_allows digest none tenant provider = deny policy_missing
policy_allows digest (some policy) tenant provider =
    state_allows digest policy.state policy tenant provider

abbrev pub is_internal : Option PolicyRow → Bool
is_internal none = false
is_internal (some policy) = elim policy.state [ internal_provider ↦ true | _ ↦ false ]

abbrev pub version_of : Option PolicyRow → Option ℕ
version_of none = none
version_of (some policy) = some policy.version

abbrev pub global_policy : List PolicyRow → Option PolicyRow
global_policy = first (λ p. is_global p.scope)

abbrev pub tenant_policy : ℕ → List PolicyRow → Option PolicyRow
tenant_policy tenant = first (λ p. is_tenant tenant p.scope)

-- The policy of the tenant, once the global one lets it through.
abbrev pub tenant_decision : TenantDigest → List PolicyRow → Option ℕ → HumanAuthGateDecision
tenant_decision digest policies none = record {
  allowed = false;
  reason = tenant_context_required;
  policy_version = version_of (global_policy policies);
}
tenant_decision digest policies (some tenant) =
    policy_allows digest (tenant_policy tenant policies) (some tenant) false

-- The scope is the key of the table, so a map from scopes has the row that is found first.
unfoldable pub effective_decision :
    TenantDigest → List PolicyRow → Option ℕ → Bool → HumanAuthGateDecision
effective_decision digest policies tenant provider =
    let global_decision = policy_allows digest (global_policy policies) tenant provider in
    if not global_decision.allowed || provider || is_internal (global_policy policies)
    then global_decision
    else tenant_decision digest policies tenant

-- `lockedPolicies`: the rows of the scopes in order, the global one first.
unfoldable pub locked_policies : Option ℕ → List PolicyRow → List PolicyRow
locked_policies none policies = select (λ p. is_global p.scope) policies
locked_policies (some tenant) policies =
    select (λ p. is_global p.scope) policies ++ select (λ p. is_tenant tenant p.scope) policies

unfoldable pub evaluate : TenantDigest → List PolicyRow → Option ℕ → Bool → HumanAuthGateDecision
evaluate digest policies tenant provider =
    effective_decision digest (locked_policies tenant policies) tenant provider

-- The columns of `HumanProvisioningInvitation` that the gate reads.
pub record ProvisioningInvitation : Type 0 where
  pub token_digest : ℕ
  pub account_id : ℕ
  pub membership_id : ℕ
  pub consumed_at : Option ℕ
  pub disabled_at : Option ℕ
  pub expires_at : ℕ

-- The rows of each table; those of the memberships stand in the order of "createdAt" and id.
pub record RolloutTables : Type 0 where
  pub policies : List PolicyRow
  pub memberships : List HumanMembership
  pub invitations : List ProvisioningInvitation

abbrev preflight_state : StoredState → PolicyRow → HumanAuthGateDecision
preflight_state disabled policy = decision false rollout_disabled policy
preflight_state _ policy = decision true identity_pending policy

abbrev preflight_row : Option PolicyRow → HumanAuthGateDecision
preflight_row none = deny policy_missing
preflight_row (some policy) = preflight_state policy.state policy

pub preflight_global : List PolicyRow → HumanAuthGateDecision
preflight_global policies = preflight_row (head? (locked_policies none policies))

abbrev pub usable_invitation : ℕ → ℕ → ProvisioningInvitation → Bool
usable_invitation digest now i =
    i.token_digest == digest
    && is_none i.consumed_at
    && is_none i.disabled_at
    && ltb now i.expires_at

abbrev invited_membership : ProvisioningInvitation → HumanMembership → Bool
invited_membership i m = m.id == i.membership_id && m.account_id == i.account_id

abbrev pub gate_target :
    TenantDigest → List PolicyRow → Option HumanMembership → Reason → HumanAuthGateDecision
gate_target digest policies none why = deny why
gate_target digest policies (some m) why =
    evaluate digest policies m.condominio_id (is_provedor m.role)

-- The membership that an invitation joins with.
abbrev pub gate_invited :
    TenantDigest → RolloutTables → Option ProvisioningInvitation → HumanAuthGateDecision
gate_invited digest db none = deny invitation_unavailable
gate_invited digest db (some i) =
    gate_target digest db.policies (first (invited_membership i) db.memberships)
      invitation_unavailable

-- The invitation's digest is unique, and it names one membership.
pub preflight_invitation : TenantDigest → RolloutTables → ℕ → ℕ → HumanAuthGateDecision
preflight_invitation digest db token_digest now =
    gate_invited digest db (first (usable_invitation token_digest now) db.invitations)

abbrev pub is_active : MembershipStatus → Bool
is_active active = true
is_active _ = false

abbrev pub active_of : ℕ → HumanMembership → Bool
active_of account m = m.account_id == account && is_active m.status

-- Providers first, and otherwise the order of the table.
abbrev pub providers_first : ℕ → List HumanMembership → List HumanMembership
providers_first account ms =
    select (λ m. active_of account m && is_provedor m.role) ms
    ++ select (λ m. active_of account m && not (is_provedor m.role)) ms

-- The loop over the memberships: the first decision that allows.
pub first_allowed :
    TenantDigest → List PolicyRow → List HumanMembership → Option HumanAuthGateDecision
first_allowed digest policies [] = none
first_allowed digest policies (m ∷ ms) =
    let answer = evaluate digest policies m.condominio_id (is_provedor m.role) in
    if answer.allowed then some answer else first_allowed digest policies ms

abbrev pub or_denied : Option HumanAuthGateDecision → List HumanMembership → HumanAuthGateDecision
or_denied (some answer) ms = answer
or_denied none [] = deny no_active_membership
or_denied none (m ∷ ms) = deny rollout_disabled

pub gate_identity : TenantDigest → RolloutTables → ℕ → HumanAuthGateDecision
gate_identity digest db account =
    let ms = providers_first account db.memberships in
    or_denied (first_allowed digest db.policies ms) ms

pub gate_membership : TenantDigest → RolloutTables → ℕ → ℕ → HumanAuthGateDecision
gate_membership digest db membership account =
    gate_target digest db.policies
      (first (λ m. m.id == membership && active_of account m) db.memberships) membership_inactive
