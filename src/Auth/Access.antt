-- ===== src/Auth/Access.antt =====
-- Who passes the authorization hook, and for what.
use egogero.Common.{
  ℕ, ◌≡◌, refl, sym, ap, subst, ◌≢◌, ◌↔◌, ◌⊎◌, inl, inr, true, Option, none, some, [], arith,
  Bool-cases,
}
use egogero.Auth.{
  Role, provedor, morador, Permission, includes, role_permissions, is_morador,
  AuthenticatedIdentity, oidc_session, development, device, provider, tenant, identity_id,
  identity_role, identity_condominiums, Authentication, identified, proceed, forbidden, covers,
  globally_authorized, check_scope, check_resident, authorize,
}

-- The request stays within what the identity may see: no condominium is named, or the identity is
-- the provider, or the condominium is one of its own.
abbrev pub InScope : AuthenticatedIdentity → Option ℕ → Type 0
InScope identity none = Unit {0}
InScope identity (some condominium) =
    (identity_role identity ≡ provedor)
    ⊎ (covers (identity_condominiums identity) condominium ≡ true)

-- No resident is named, or the identity is no resident, or it is the resident named.
abbrev pub ActsForItself : AuthenticatedIdentity → Option ℕ → Type 0
ActsForItself identity none = Unit {0}
ActsForItself identity (some resident) =
    (identity_role identity ≢ morador) ⊎ (identity_id identity ≡ resident)

abbrev pub Granted : Role → Permission → Type 0
Granted role permission = includes permission (role_permissions role) ≡ true

is_morador_iff : (r : Role) → (is_morador r ≡ true) ↔ (r ≡ morador)
is_morador_iff morador = ground arith
is_morador_iff _ = ground arith

check_resident_iff :
    (identity who : AuthenticatedIdentity) (resident : Option ℕ)
    → (check_resident identity resident ≡ proceed who)
      ↔ ((identity ≡ who) × ActsForItself identity resident)
unfolding check_resident
check_resident_iff identity who none = (λ h. (ground arith, tt), λ h. ground arith)
check_resident_iff identity who (some resident) = (
  λ h. ground (arith, is_morador_iff (identity_role identity)),
  λ h. ground (arith, is_morador_iff (identity_role identity)),
)

globally_authorized_iff :
    (identity : AuthenticatedIdentity)
    → (globally_authorized identity ≡ true) ↔ (identity_role identity ≡ provedor)
globally_authorized_iff (oidc_session (provider id) account session) = ground arith
globally_authorized_iff (oidc_session (tenant id role condominiums) account session) = ground arith
globally_authorized_iff (development (provider id)) = ground arith
globally_authorized_iff (development (tenant id role condominiums)) = ground arith
globally_authorized_iff (device id condominiums) = ground arith

check_scope_iff :
    (permission : Permission) (identity who : AuthenticatedIdentity)
    (condominium resident : Option ℕ)
    → ((check_scope permission identity condominium resident).0 ≡ proceed who)
      ↔ ((identity ≡ who) × InScope identity condominium × ActsForItself identity resident)
unfolding check_scope
check_scope_iff permission identity who none resident =
    let iff = check_resident_iff identity who resident in
    (λ h. let (e, self) = iff.0 h in (e, tt, self), λ (e, s, self). iff.1 (e, self))
check_scope_iff permission identity who (some condominium) resident =
    let iff = check_resident_iff identity who resident in
    (
      λ h. ground (arith, iff.0, globally_authorized_iff identity),
      λ (e, s, self). ground (arith, iff.1 (e, self), globally_authorized_iff identity),
    )

authorize-identified_iff :
    (identity : AuthenticatedIdentity) (permission : Permission) (condominium resident : Option ℕ)
    (who : AuthenticatedIdentity)
    → ((authorize (identified identity) permission condominium resident).0 ≡ proceed who) ↔ (
        (identity ≡ who)
        × Granted (identity_role identity) permission
        × InScope identity condominium
        × ActsForItself identity resident)
unfolding authorize
authorize-identified_iff identity permission condominium resident who =
    let iff = check_scope_iff permission identity who condominium resident in
    elim (Bool-cases (includes permission (role_permissions (identity_role identity)))) [
      | inl granted ↦ rw granted (
        (λ h. let (e, s, self) = iff.0 h in (e, refl, s, self)),
        λ (e, g, s, self). iff.1 (e, s, self),
      )
      | inr missing ↦ rw missing ((λ h. cc), λ (e, g, s, self). cc)
    ]

-- The hook lets a request through exactly when the authenticator identified it, its role has the
-- permission, the condominium named is in the identity's scope, and a resident acts for itself;
-- and it lets it through as that identity.
pub authorize-proceed_iff :
    (a : Authentication) (permission : Permission) (condominium resident : Option ℕ)
    (who : AuthenticatedIdentity)
    → ((authorize a permission condominium resident).0 ≡ proceed who) ↔ (
        (a ≡ identified who)
        × Granted (identity_role who) permission
        × InScope who condominium
        × ActsForItself who resident)
unfolding authorize
authorize-proceed_iff (identified identity) permission condominium resident who =
    let iff = authorize-identified_iff identity permission condominium resident who in
    (
      λ h.
          let (e, g, s, self) = iff.0 h in
          (
            ap identified e,
            subst (λ i. Granted (identity_role i) permission) e g,
            subst (λ i. InScope i condominium) e s,
            subst (λ i. ActsForItself i resident) e self,
          ),
      λ (e, g, s, self).
          let same : identity ≡ who = cc in
          iff.1 (
            same,
            subst (λ i. Granted (identity_role i) permission) (sym same) g,
            subst (λ i. InScope i condominium) (sym same) s,
            subst (λ i. ActsForItself i resident) (sym same) self,
          ),
    )
authorize-proceed_iff _ permission condominium resident who =
    (λ h. absurd (cc), λ (e, g, s, self). absurd (cc))

silent_InScope :
    (identity : AuthenticatedIdentity) (permission : Permission) (condominium : ℕ)
    (resident : Option ℕ)
    → Granted (identity_role identity) permission
    → (authorize (identified identity) permission (some condominium) resident).1 ≡ []
    → InScope identity (some condominium)
unfolding authorize
silent_InScope identity permission condominium resident g silent =
    ground (arith, globally_authorized_iff identity)

-- A cross-tenant alert is emitted exactly for a request that is identified and permitted and names
-- a condominium outside the identity's scope, and such a request is answered by 403.
pub authorize-alert_iff :
    (a : Authentication) (permission : Permission) (condominium resident : Option ℕ)
    → ((authorize a permission condominium resident).1 ≢ []) ↔ (
        (who : AuthenticatedIdentity) × (a ≡ identified who)
        × Granted (identity_role who) permission
        × ¬ InScope who condominium
        × ((authorize a permission condominium resident).0 ≡ forbidden))
unfolding authorize check_scope
authorize-alert_iff (identified identity) permission (some condominium) resident =
    let provider_iff = globally_authorized_iff identity in
    (
      λ h. (identity, refl, ground arith, λ s. ground (arith, provider_iff, s), ground arith),
      λ (who, e, g, out, f) silent.
          let same : identity ≡ who = cc in
          let granted = subst (λ i. Granted (identity_role i) permission) (sym same) g in
          out (
            subst (λ i. InScope i (some condominium)) same
              (silent_InScope identity permission condominium resident granted silent)),
    )
authorize-alert_iff (identified identity) permission none resident =
    (λ h. absurd (h (ground arith)), λ (who, e, g, out, f). absurd (out tt))
authorize-alert_iff _ permission condominium resident =
    (λ h. absurd (h refl), λ (who, e, g, out, f). absurd (cc))
