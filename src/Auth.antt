-- ===== src/Auth.antt =====
-- Roles, permissions and the authorization hook (src/auth.ts). An identifier is compared for
-- equality only: it is the number that its UUID stands for.
pub mod Access
mod Examples
use egogero.Common.{
  ℕ, zero, suc, ◌+◌, ◌-◌, ◌*◌, ◌/◌, ◌%◌, ◌^◌, ◌≤◌, ◌<◌, min, max, ◌≡◌, refl, sym, ap, subst, ◌∙◌,
  ◌≢◌, ◌↔◌, ◌⊎◌, inl, inr, Bool, true, false, not, ◌&&◌, ◌||◌, Option, none, some, List, [], ◌∷◌,
  ◌++◌, map, arith, ltb, leb, ◌==◌, if◌then◌else◌, ==_iff, ==_refl, ==_sym, Bool-cases,
  Option-cases, is, is_none, after, length, length-append, select, first, update, count, any, all,
  head?, count-append, count-le-length, contains, All,
}

pub data Role : Type 0 where
  provedor sindico morador portaria : Role

pub data Permission : Type 0 where
  condominios_manage moradores_manage convidados_manage convites_create : Permission
  convites_limits_manage dispositivos_manage convites_validate : Permission
  auditorias_read_own notificacoes_read : Permission

-- `===` on the literal types: distinct numbers for distinct literals.
abbrev pub permission_code : Permission → ℕ
permission_code condominios_manage = 0
permission_code moradores_manage = 1
permission_code convidados_manage = 2
permission_code convites_create = 3
permission_code convites_limits_manage = 4
permission_code dispositivos_manage = 5
permission_code convites_validate = 6
permission_code auditorias_read_own = 7
permission_code notificacoes_read = 8

abbrev pub includes : Permission → List Permission → Bool
includes permission = any (λ p. permission_code p == permission_code permission)

abbrev pub is_provedor : Role → Bool
is_provedor provedor = true
is_provedor _ = false

abbrev pub is_morador : Role → Bool
is_morador morador = true
is_morador _ = false

abbrev pub is_portaria : Role → Bool
is_portaria portaria = true
is_portaria _ = false

unfoldable pub role_permissions : Role → List Permission
role_permissions provedor =
    condominios_manage ∷ moradores_manage ∷ convidados_manage ∷ convites_create
    ∷ convites_limits_manage ∷ dispositivos_manage ∷ []
role_permissions sindico =
    moradores_manage ∷ convidados_manage ∷ convites_create ∷ convites_limits_manage
    ∷ dispositivos_manage ∷ []
role_permissions morador =
    convidados_manage ∷ convites_create ∷ auditorias_read_own ∷ notificacoes_read ∷ []
role_permissions portaria = convites_validate ∷ []

-- `Exclude<Role, 'provedor'>`.
pub data TenantRole : Type 0 where
  sindico_role morador_role portaria_role : TenantRole

abbrev pub to_role : TenantRole → Role
to_role sindico_role = sindico
to_role morador_role = morador
to_role portaria_role = portaria

pub data ScopedIdentity : Type 0 where
  provider : ℕ → ScopedIdentity
  tenant : ℕ → TenantRole → List ℕ → ScopedIdentity

-- The three members of the union: an OIDC session with its account and session, the development
-- headers, and a gatehouse device with its condominiums.
pub data AuthenticatedIdentity : Type 0 where
  oidc_session : ScopedIdentity → ℕ → ℕ → AuthenticatedIdentity
  development : ScopedIdentity → AuthenticatedIdentity
  device : ℕ → List ℕ → AuthenticatedIdentity

abbrev scoped_id : ScopedIdentity → ℕ
scoped_id (provider id) = id
scoped_id (tenant id role condominiums) = id

abbrev scoped_role : ScopedIdentity → Role
scoped_role (provider id) = provedor
scoped_role (tenant id role condominiums) = to_role role

abbrev scoped_condominiums : ScopedIdentity → Option (List ℕ)
scoped_condominiums (provider id) = none
scoped_condominiums (tenant id role condominiums) = some condominiums

abbrev pub identity_id : AuthenticatedIdentity → ℕ
identity_id (oidc_session s account session) = scoped_id s
identity_id (development s) = scoped_id s
identity_id (device id condominiums) = id

abbrev pub identity_role : AuthenticatedIdentity → Role
identity_role (oidc_session s account session) = scoped_role s
identity_role (development s) = scoped_role s
identity_role (device id condominiums) = portaria

-- `condominioIds`, null for the provider.
abbrev pub identity_condominiums : AuthenticatedIdentity → Option (List ℕ)
identity_condominiums (oidc_session s account session) = scoped_condominiums s
identity_condominiums (development s) = scoped_condominiums s
identity_condominiums (device id condominiums) = some condominiums

pub data AuthenticationCode : Type 0 where
  ambiguous_credentials authentication_required : AuthenticationCode
  authentication_temporarily_unavailable csrf_required : AuthenticationCode

-- What a call of an authenticator comes back with.
pub data Authentication : Type 0 where
  identified : AuthenticatedIdentity → Authentication
  unidentified : Authentication
  rejected : ℕ → AuthenticationCode → Authentication  -- an AuthenticationError
  crashed : Authentication  -- any other error

pub data Hook : Type 0 where
  proceed : AuthenticatedIdentity → Hook
  authentication_error : ℕ → AuthenticationCode → Hook
  unauthenticated : Hook  -- 401
  forbidden : Hook  -- 403
  rethrown : Hook

-- `condominioIds?.includes(id)`, false where there is no list.
abbrev pub covers : Option (List ℕ) → ℕ → Bool
covers none id = false
covers (some ids) id = contains id ids

abbrev pub globally_authorized : AuthenticatedIdentity → Bool
globally_authorized identity =
    is_provedor (identity_role identity) && is_none (identity_condominiums identity)

-- The last check of the hook: a resident acts for itself only.
unfoldable pub check_resident : AuthenticatedIdentity → Option ℕ → Hook
check_resident identity none = proceed identity
check_resident identity (some resident) =
    if is_morador (identity_role identity) && not (identity_id identity == resident)
    then forbidden
    else proceed identity

-- The reply, and the operations for which a `cross_tenant_access_denied` alert is emitted.
unfoldable pub check_scope :
    Permission → AuthenticatedIdentity → Option ℕ → Option ℕ → Hook × List Permission
check_scope permission identity none resident = (check_resident identity resident, [])
check_scope permission identity (some condominium) resident =
    if not (globally_authorized identity)
      && not (covers (identity_condominiums identity) condominium)
    then (forbidden, permission ∷ [])
    else (check_resident identity resident, [])

-- `authorize(authenticator, permission, getCondominioId, getMoradorId)` on a request: the two
-- getters are given by their results, none where the getter is absent or finds no UUID.
unfoldable pub authorize :
    Authentication → Permission → Option ℕ → Option ℕ → Hook × List Permission
unfolding role_permissions check_scope check_resident
authorize (rejected status code) permission condominium resident =
    (authentication_error status code, [])
authorize crashed permission condominium resident = (rethrown, [])
authorize unidentified permission condominium resident = (unauthenticated, [])
authorize (identified identity) permission condominium resident =
    if not (includes permission (role_permissions (identity_role identity)))
    then (forbidden, [])
    else check_scope permission identity condominium resident

-- `createCompositeAuthenticator`: the first that identifies the request, or fails.
unfoldable pub composite : List Authentication → Authentication
composite [] = unidentified
composite (unidentified ∷ rest) = composite rest
composite (a ∷ rest) = a
