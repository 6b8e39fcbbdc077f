-- ===== src/Session/Membership.antt =====
-- The memberships that a session may act under (src/sessions.ts: liveMembershipCondition,
-- chooseMembership, loadTargetMembership, lockLiveMembershipScope).
use egogero.Common.{
  ℕ, max, Bool, true, false, ◌&&◌, ◌||◌, Option, none, some, List, [], ◌∷◌, ltb, leb, ◌==◌,
  if◌then◌else◌, is, is_none, select, first, count, head?,
}
use egogero.Auth.{Role, provedor, sindico, morador, portaria}
use egogero.Invitation.Schema.{Condominio, Morador}
use egogero.Session.Schema.{
  Evidence, MembershipRow, BrowserSession, SessionTables, StoreConfig, accepts,
}
use egogero.Session.Load.{condominium_of, resident_of, is_active_membership}

abbrev pub live_condominium : Option Condominio → Bool
live_condominium none = false
live_condominium (some k) = is_none k.deleted_at

abbrev pub live_resident : Option Morador → Bool
live_resident none = false
live_resident (some r) = is_none r.deleted_at

-- The scope that a role needs; the join on the resident asks for the membership's condominium.
abbrev pub live_scope : Role → SessionTables → MembershipRow → Bool
live_scope provedor db m = is_none m.condominio_id && is_none m.resident_id
live_scope sindico db m = live_condominium (condominium_of db.condominios m)
live_scope portaria db m = live_condominium (condominium_of db.condominios m)
live_scope morador db m =
    live_condominium (condominium_of db.condominios m) && live_resident (resident_of db.moradores m)

abbrev pub live_membership : SessionTables → MembershipRow → Bool
live_membership db m = is_active_membership m.status && live_scope m.role db m

abbrev latest : Option ℕ → ℕ → Option ℕ
latest none t = some t
latest (some s) t = some (max s t)

-- MAX("createdAt") of the sessions under a membership.
abbrev pub last_used_at : MembershipRow → List BrowserSession → Option ℕ
last_used_at m [] = none
last_used_at m (s ∷ rows) =
    if s.active_membership_id == m.id && s.account_id == m.account_id
    then latest (last_used_at m rows) s.created_at
    else last_used_at m rows

abbrev older : MembershipRow → MembershipRow → Bool
older m n = ltb m.created_at n.created_at || (m.created_at == n.created_at && leb m.id n.id)

-- ORDER BY "lastUsedAt" DESC NULLS LAST, "createdAt" ASC, id ASC.
abbrev before : Option ℕ → Option ℕ → MembershipRow → MembershipRow → Bool
before (some s) (some t) m n = ltb t s || (s == t && older m n)
before (some s) none m n = true
before none (some t) m n = false
before none none m n = older m n

abbrev pub insert : List BrowserSession → MembershipRow → List MembershipRow → List MembershipRow
insert rows m [] = m ∷ []
insert rows m (n ∷ ms) =
    let later = n ∷ insert rows m ms in
    if before (last_used_at m rows) (last_used_at n rows) m n then m ∷ n ∷ ms else later

abbrev pub order_by_use : List BrowserSession → List MembershipRow → List MembershipRow
order_by_use rows [] = []
order_by_use rows (m ∷ ms) = insert rows m (order_by_use rows ms)

abbrev pub live_memberships : SessionTables → ℕ → List MembershipRow
live_memberships db account =
    select (λ m. m.account_id == account && live_membership db m) db.memberships

-- With evidence, the first membership whose role it satisfies; without a policy, the first.
unfoldable pub choose_membership : StoreConfig → ℕ → Evidence → SessionTables → Option MembershipRow
choose_membership config account evidence db =
    first (λ m. accepts config.mfa_policy m.role evidence)
      (order_by_use db.sessions (live_memberships db account))

-- `chooseMembership` without a policy.
unfoldable pub any_live_membership : ℕ → SessionTables → Option MembershipRow
any_live_membership account db = head? (order_by_use db.sessions (live_memberships db account))

unfoldable pub load_target_membership : ℕ → ℕ → SessionTables → Option MembershipRow
load_target_membership account id db =
    first (λ m. m.id == id && m.account_id == account && live_membership db m) db.memberships

abbrev scope_rows : Role → SessionTables → MembershipRow → Bool
scope_rows provedor db m = is_none m.condominio_id && is_none m.resident_id
scope_rows morador db m =
    count (λ k. is m.condominio_id k.id && is_none k.deleted_at) db.condominios == 1
    && count
        (λ r. is m.resident_id r.id && is m.condominio_id r.condominio_id && is_none r.deleted_at)
        db.moradores
      == 1
scope_rows _ db m = count (λ k. is m.condominio_id k.id && is_none k.deleted_at) db.condominios == 1

unfoldable pub lock_live_membership_scope : SessionTables → MembershipRow → Bool
lock_live_membership_scope db m = scope_rows m.role db m
