-- ===== src/Rollout/Decision.antt =====
-- Whom the policies let in (effectiveDecision), and what widening a policy does.
use egogero.Common.{
  ℕ, ◌≤◌, ◌≡◌, refl, ◌↔◌, inl, inr, Bool, true, false, Option, none, some, List, arith, Bool-cases,
  Option-cases, contains,
}
use egogero.Rollout.{
  StoredState, disabled, internal_provider, pilot, enabled, PolicyRow, TenantDigest,
  human_auth_tenant_cohort, human_auth_cohort_algorithm, human_auth_cohort_percentages,
  policy_allows, effective_decision, global_policy, tenant_policy, state_allows, pilot_allows,
  is_internal,
}

-- A policy that takes in a tenant: it is enabled, or it is a pilot that is well formed and whose
-- share reaches the tenant's cohort.
pub data Covers (digest : TenantDigest) (tenant : ℕ) (p : PolicyRow) : Type 0 where
  everyone : p.state ≡ enabled → Covers digest tenant p
  cohort :
      (share : ℕ)
      → p.state ≡ pilot
      → p.cohort_algorithm ≡ some human_auth_cohort_algorithm
      → p.cohort_percentage ≡ some share
      → contains share human_auth_cohort_percentages ≡ true
      → human_auth_tenant_cohort digest tenant ≤ share
      → Covers digest tenant p

-- A tenant is let in when the global policy and the policy of its own take it in.
pub data TenantAdmitted (digest : TenantDigest) (policies : List PolicyRow) (tenant : ℕ)
    : Type 0 where
  admitted :
      (g p : PolicyRow)
      → global_policy policies ≡ some g
      → tenant_policy tenant policies ≡ some p
      → Covers digest tenant g
      → Covers digest tenant p
      → TenantAdmitted digest policies tenant

share_of :
    (digest : TenantDigest) (tenant : ℕ) (p : PolicyRow)
    → (pilot_allows digest p (some tenant)).allowed ≡ true
    → (p.cohort_algorithm ≡ some human_auth_cohort_algorithm)
      × ((share : ℕ) × (p.cohort_percentage ≡ some share)
          × (contains share human_auth_cohort_percentages ≡ true)
          × (human_auth_tenant_cohort digest tenant ≤ share))
share_of digest tenant p h = elim (Option-cases p.cohort_percentage) [
  | inl missing ↦ ground (arith, missing)
  | inr (share, e) ↦ (ground arith, (share, e, ground arith, ground arith))
]

Covers-at :
    (digest : TenantDigest) (tenant : ℕ) (p : PolicyRow) (s : StoredState)
    → p.state ≡ s
    → (state_allows digest s p (some tenant) false).allowed ≡ true
    → Covers digest tenant p
Covers-at digest tenant p disabled e h = absurd (cc)
Covers-at digest tenant p internal_provider e h = absurd (cc)
Covers-at digest tenant p enabled e h = Covers.everyone e
Covers-at digest tenant p pilot e h =
    let (a, (share, has, valid, inside)) = share_of digest tenant p h in
    Covers.cohort share e a has valid inside

Covers-of :
    (digest : TenantDigest) (tenant : ℕ) (p : PolicyRow)
    → (policy_allows digest (some p) (some tenant) false).allowed ≡ true
    → Covers digest tenant p
unfolding policy_allows
Covers-of digest tenant p h = Covers-at digest tenant p p.state refl h

allowed_of :
    (digest : TenantDigest) (tenant : ℕ) (p : PolicyRow)
    → Covers digest tenant p
    → (policy_allows digest (some p) (some tenant) false).allowed ≡ true
unfolding policy_allows
allowed_of digest tenant p (Covers.everyone s) = rw s refl
allowed_of digest tenant p (Covers.cohort share s a e valid inside) =
    rw (s, a, e, valid) (ground (arith, inside))

not_internal :
    (digest : TenantDigest) (tenant : ℕ) (p : PolicyRow)
    → Covers digest tenant p
    → is_internal (some p) ≡ false
not_internal digest tenant p (Covers.everyone s) = rw s refl
not_internal digest tenant p (Covers.cohort share s a e valid inside) = rw s refl

let_in :
    (digest : TenantDigest) (policies : List PolicyRow) (tenant : ℕ)
    → TenantAdmitted digest policies tenant
    → (effective_decision digest policies (some tenant) false).allowed ≡ true
unfolding effective_decision
let_in digest policies tenant (TenantAdmitted.admitted g p here own wide narrow) =
    rw (here, allowed_of digest tenant g wide, not_internal digest tenant g wide, own)
      (allowed_of digest tenant p narrow)

missing_denied :
    (digest : TenantDigest) (tenant : Option ℕ) (provider : Bool)
    → (policy_allows digest none tenant provider).allowed ≡ false
unfolding policy_allows
missing_denied digest tenant provider = refl

admitted_of :
    (digest : TenantDigest) (policies : List PolicyRow) (tenant : ℕ)
    → (effective_decision digest policies (some tenant) false).allowed ≡ true
    → TenantAdmitted digest policies tenant
unfolding effective_decision
admitted_of digest policies tenant h = elim (Option-cases (global_policy policies)) [
  | inl missing ↦ absurd (cc (rw (missing, missing_denied digest (some tenant) false) at h))
  | inr (g, here) ↦ elim (Bool-cases (policy_allows digest (some g) (some tenant) false).allowed) [
    | inl allowed ↦ elim (Option-cases (tenant_policy tenant policies)) [
      | inl missing ↦ absurd (
          cc (
            rw
              (
                here,
                allowed,
                not_internal digest tenant g (Covers-of digest tenant g allowed),
                missing,
                missing_denied digest (some tenant) false,
              )
              at h))
      | inr (p, own) ↦
          let wide = Covers-of digest tenant g allowed in
          TenantAdmitted.admitted g p here own wide (
            Covers-of digest tenant p
              (rw (here, allowed, not_internal digest tenant g wide, own) at h))
    ]
    | inr denied ↦ absurd (cc (rw (here, denied) at h))
  ]
]

-- A tenant's account is let in exactly when the global policy and the tenant's own take it in.
pub effective_decision-tenant_iff :
    (digest : TenantDigest) (policies : List PolicyRow) (tenant : ℕ)
    → ((effective_decision digest policies (some tenant) false).allowed ≡ true)
      ↔ TenantAdmitted digest policies tenant
effective_decision-tenant_iff digest policies tenant =
    (admitted_of digest policies tenant, let_in digest policies tenant)
