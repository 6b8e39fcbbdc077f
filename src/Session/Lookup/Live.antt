-- ===== src/Session/Lookup/Live.antt =====
-- A session is authenticated exactly where it is live.
use egogero.Common.{
  ℕ, ◌<◌, ◌≡◌, refl, sym, ap, subst, ◌∙◌, ◌≢◌, ◌↔◌, inl, inr, Bool, true, false, not, ◌&&◌, Option,
  none, some, arith, ==_iff, Bool-cases, is, is_none,
}
use mathlib.Core.Option.{some-injective}
use egogero.Auth.{Role, provedor, morador, is_provedor, is_morador, AuthenticatedIdentity}
use egogero.Invitation.Schema.{
  AccountStatus, active_account, MembershipStatus, active, Condominio, Morador,
}
use egogero.Session.Schema.{
  Denial, EventType, AuditReason, SessionTables, Token, StoreConfig, valid_session_token,
}
use egogero.Session.Load.{
  SessionRow, load_session, session_denial_reason, is_active_account, is_active_membership,
  condominium_deleted, resident_lost,
}
use egogero.Session.Lookup.{
  Clock, allowed_by, assured, refusal, identity_of, admit, authenticate_row, authenticate,
}

-- A resident that is there and not deleted, of the membership's condominium; or neither.
abbrev pub Keeps : Option ℕ → Option Morador → Type 0
Keeps condominio none = condominio ≡ none
Keeps condominio (some r) = (r.deleted_at ≡ none) × (condominio ≡ some r.condominio_id)

-- A session in its time, not revoked, of an active account and membership whose scope is there.
pub record IsLive (now : ℕ) (row : SessionRow) : Type 0 where
  pub unrevoked : row.session.revoked_at ≡ none
  pub in_time : now < row.session.absolute_expires_at
  pub in_use : now < row.session.idle_expires_at
  pub account : row.account.status ≡ active_account
  pub version : row.session.account_session_version ≡ row.account.session_version
  pub membership : row.membership.status ≡ active
  pub building :
      (k : Condominio)
      → row.membership.role ≢ provedor
      → row.condominium ≡ some k
      → k.deleted_at ≡ none
  pub resident : row.membership.role ≡ morador → Keeps row.membership.condominio_id row.resident

is_none_iff : {A : Type 0} (o : Option A) → (is_none o ≡ true) ↔ (o ≡ none)
is_none_iff none = ground arith
is_none_iff (some a) = ground arith

is_active_account_iff : (s : AccountStatus) → (is_active_account s ≡ true) ↔ (s ≡ active_account)
is_active_account_iff active_account = ground arith
is_active_account_iff _ = ground arith

is_active_membership_iff : (s : MembershipStatus) → (is_active_membership s ≡ true) ↔ (s ≡ active)
is_active_membership_iff active = ground arith
is_active_membership_iff _ = ground arith

is_provedor_iff : (r : Role) → (is_provedor r ≡ true) ↔ (r ≡ provedor)
is_provedor_iff provedor = ground arith
is_provedor_iff _ = ground arith

is_morador_iff : (r : Role) → (is_morador r ≡ true) ↔ (r ≡ morador)
is_morador_iff morador = ground arith
is_morador_iff _ = ground arith

condominium_deleted_iff :
    (o : Option Condominio)
    → (condominium_deleted o ≡ false) ↔ ((k : Condominio) → o ≡ some k → k.deleted_at ≡ none)
condominium_deleted_iff none = (λ h k e. absurd (cc), λ h. refl)
condominium_deleted_iff (some k) = (
  λ h l e.
      subst (λ (x : Condominio). x.deleted_at ≡ none)
        (ap {B = Condominio} (λ o. elim o [ none ↦ k | some x ↦ x ]) e)
        ((is_none_iff k.deleted_at).0 (ground (arith, h))),
  λ h. ground (arith, is_none_iff k.deleted_at, h k refl),
)

is_iff : (c : Option ℕ) (n : ℕ) → (is c n ≡ true) ↔ (c ≡ some n)
is_iff none n = ground arith
is_iff (some c) n = ground (arith, ==_iff c n)

resident_lost_iff : (c : Option ℕ) (o : Option Morador) → (resident_lost c o ≡ false) ↔ Keeps c o
resident_lost_iff none none = (λ h. refl, λ h. refl)
resident_lost_iff (some c) none = (λ h. absurd (cc), λ h. absurd (cc))
resident_lost_iff none (some r) = ground (arith, is_none_iff r.deleted_at)
resident_lost_iff (some c) (some r) =
    ground (arith, is_none_iff r.deleted_at, is_iff (some c) r.condominio_id)

building_iff :
    (role : Role) (o : Option Condominio)
    → (not (is_provedor role) && condominium_deleted o ≡ false)
      ↔ ((k : Condominio) → role ≢ provedor → o ≡ some k → k.deleted_at ≡ none)
building_iff role o = elim (Bool-cases (is_provedor role)) [
  | inl e ↦ (λ h k other there. absurd (other ((is_provedor_iff role).0 e)), λ h. rw e refl)
  | inr e ↦ (
    λ h k other there. (condominium_deleted_iff o).0 (rw e at h) k there,
    λ h. rw e (
        (condominium_deleted_iff o).1
          (λ k there. h k (λ same. absurd (cc ((is_provedor_iff role).1 same, e))) there)),
  )
]

resident_iff :
    (role : Role) (c : Option ℕ) (o : Option Morador)
    → (is_morador role && resident_lost c o ≡ false) ↔ (role ≡ morador → Keeps c o)
resident_iff role c o = elim (Bool-cases (is_morador role)) [
  | inl e ↦ (
    λ h own. (resident_lost_iff c o).0 (rw e at h),
    λ h. rw e ((resident_lost_iff c o).1 (h ((is_morador_iff role).0 e))),
  )
  | inr e ↦ (λ h own. absurd (cc ((is_morador_iff role).1 own, e)), λ h. rw e refl)
]

pub session_denial_reason_iff :
    (now : ℕ) (row : SessionRow) → (session_denial_reason now row ≡ none) ↔ IsLive now row
unfolding session_denial_reason
session_denial_reason_iff now row =
    let s_revoked = is_none_iff row.session.revoked_at in
    let s_account = is_active_account_iff row.account.status in
    let s_member = is_active_membership_iff row.membership.status in
    let s_building = building_iff row.membership.role row.condominium in
    let s_resident = resident_iff row.membership.role row.membership.condominio_id row.resident in
    (
      λ h. record {
        unrevoked = ground (arith, h, s_revoked);
        in_time = ground (arith, h);
        in_use = ground (arith, h);
        account = ground (arith, h, s_account);
        version =
            ground
              (arith, h, ==_iff row.session.account_session_version row.account.session_version);
        membership = ground (arith, h, s_member);
        building = s_building.0 (ground (arith, h));
        resident = s_resident.0 (ground (arith, h));
      },
      λ live. ground (
        arith,
        s_revoked.1 live.unrevoked,
        live.in_time,
        live.in_use,
        s_account.1 live.account,
        (==_iff _ _).1 live.version,
        s_member.1 live.membership,
        s_building.1 live.building,
        s_resident.1 live.resident,
      ),
    )

-- What a request needs to be answered with an identity: a token of the right form, whose session is
-- live, let in by the rollout, with evidence that its role accepts.
pub record Admits (config : StoreConfig) (now : ℕ) (token : Token) (db : SessionTables)
    (identity : AuthenticatedIdentity) : Type 0 where
  pub row : SessionRow
  pub well_formed : valid_session_token token ≡ true
  pub loaded : load_session (config.digest token) db ≡ some row
  pub live : IsLive now row
  pub let_in : allowed_by config row ≡ true
  pub sure : assured config row ≡ true
  pub same : identity_of row ≡ identity

pub refusal_iff :
    (config : StoreConfig) (row : SessionRow) (why : Option Denial)
    → (refusal config row why ≡ none)
      ↔ ((why ≡ none) × (allowed_by config row ≡ true) × (assured config row ≡ true))
refusal_iff config row none = ground arith
refusal_iff config row (some why) = ground arith

admit_iff :
    (at : Clock) (extend : Bool) (row : SessionRow) (why : Option (EventType × AuditReason))
    (db : SessionTables) (identity : AuthenticatedIdentity)
    → ((admit at extend row why db).0 ≡ some identity)
      ↔ ((why ≡ none) × (identity_of row ≡ identity))
admit_iff at extend row none db identity = ground arith
admit_iff at extend row (some (event, why)) db identity = ground arith

-- With a token of the right form and the row that it loads.
module _ (config : StoreConfig) (at : Clock) (token : Token) (extend : Bool) (db : SessionTables)
    (identity : AuthenticatedIdentity) (well_formed : valid_session_token token ≡ true) where
  row_iff :
      (found : Option SessionRow)
      → load_session (config.digest token) db ≡ found
      → ((authenticate_row config at extend found db).0 ≡ some identity)
        ↔ Admits config at.read_at token db identity
  row_iff none loaded = (λ h. absurd (cc), λ admitted. absurd (cc (loaded, admitted.loaded)))
  row_iff (some row) loaded =
      let admission =
        admit_iff at extend row (refusal config row (session_denial_reason at.read_at row)) db
          identity in
      let refused = refusal_iff config row (session_denial_reason at.read_at row) in
      (
        λ h.
            let (open_row, who) = admission.0 h in
            let (no_denial, let_in, sure) = refused.0 open_row in
            record {
              row = row;
              well_formed = well_formed;
              loaded = loaded;
              live = (session_denial_reason_iff at.read_at row).0 no_denial;
              let_in = let_in;
              sure = sure;
              same = who;
            },
        λ admitted.
            let (live, let_in, sure, who) =
              subst
                (λ r.
                  IsLive at.read_at r
                  × (allowed_by config r ≡ true)
                  × (assured config r ≡ true)
                  × (identity_of r ≡ identity))
                (some-injective _ _ (sym admitted.loaded ∙ loaded))
                (admitted.live, admitted.let_in, admitted.sure, admitted.same) in
            admission.1
              (refused.1 ((session_denial_reason_iff at.read_at row).1 live, let_in, sure), who),
      )

-- A request is answered with an identity exactly where its token has the right form and its session
-- is live at the time of the read, the rollout lets its membership in and its role accepts its
-- evidence; the identity is that of the session's membership.
pub authenticate_iff :
    (config : StoreConfig) (at : Clock) (token : Token) (extend : Bool) (db : SessionTables)
    (identity : AuthenticatedIdentity)
    → ((authenticate config at token extend db).0 ≡ some identity)
      ↔ Admits config at.read_at token db identity
unfolding authenticate
authenticate_iff config at token extend db identity =
    elim (Bool-cases (valid_session_token token)) [
      | inr bad ↦
          (λ h. absurd (cc (rw bad at h)), λ admitted. absurd (cc (bad, admitted.well_formed)))
      | inl ok ↦ rw ok (
          row_iff config at token extend db identity ok (load_session (config.digest token) db)
            refl)
    ]
