-- ===== src/Invitation/Access.antt =====
-- Validation of a token at the gate (src/convites.ts: validateAccess).
pub mod Outcome
pub mod Admission
pub mod SingleUse
pub mod Refusal
mod Examples
use egogero.Common.{
  ℕ, zero, suc, ◌+◌, ◌-◌, ◌*◌, ◌/◌, ◌%◌, ◌^◌, ◌≤◌, ◌<◌, min, max, ◌≡◌, refl, sym, ap, subst, ◌∙◌,
  ◌≢◌, ◌↔◌, ◌⊎◌, inl, inr, Bool, true, false, not, ◌&&◌, ◌||◌, Option, none, some, List, [], ◌∷◌,
  ◌++◌, map, arith, ltb, leb, ◌==◌, if◌then◌else◌, ==_iff, ==_refl, ==_sym, Bool-cases,
  Option-cases, is, is_none, after, length, length-append, select, first, update, count, any, all,
  head?, count-append, count-le-length, contains, All,
}
use Prim.Native.String.{String}
use egogero.Auth.{is_portaria}
use egogero.Invitation.Schema.{
  TipoConvite, AccessType, Resultado, permitido, negado, Condominio, Morador, Convidado, Convite,
  Dispositivo, active_account, active, HumanAccount, HumanMembership, AuditoriaAcesso,
  AuditoriaAcessoHumano, Notificacao, Database, guest_became_unavailable, unique_violation, Result,
  ok, err, Transaction, ◌>>=◌, Token, TokenSecret, verify_token_secret, is_open, AccountStatus,
  MembershipStatus,
}

pub record Args : Type 0 where
  pub token : Option Token
  pub condominium_id : ℕ
  pub device_id : Option ℕ
  pub account_id : Option ℕ
  pub membership_id : Option ℕ
  pub access_type : AccessType
  pub require_active_device : Bool

-- What the run takes from outside: `new Date()` of the audit, `clock_timestamp()` of the SELECT and
-- of the UPDATE, and the UUID of the audit row.
pub record Readings : Type 0 where
  pub now : ℕ
  pub selected_at : ℕ
  pub updated_at : ℕ
  pub audit_id : ℕ

pub record Event : Type 0 where
  pub invitation_id : ℕ
  pub condominium_id : ℕ
  pub resident_id : Option ℕ
  pub guest_id : Option ℕ
  pub invitation_type : Option TipoConvite
  pub used_at : ℕ

pub data ValidationResult : Type 0 where
  invalid_or_unavailable : ValidationResult
  entered : String → Event → ValidationResult  -- the guest's name, and the event

-- The row that an audit identifies, none for a null.
pub record Identified : Type 0 where
  pub convite_id : Option ℕ
  pub morador_id : Option ℕ
  pub convidado_id : Option ℕ

abbrev pub unidentified : Identified
unidentified = record { convite_id = none; morador_id = none; convidado_id = none }

abbrev pub identified : Convite → Identified
identified c = record {
  convite_id = some c.id;
  morador_id = c.morador_id;
  convidado_id = c.convidado_id;
}

-- `insertAudit`: the human table where account and membership are given, else the devices' table.
-- The column of the device there is not null: a call with neither a device nor an account, which
-- the source's types allow and no route makes, would fail where this row has none.
pub insert_audit_of :
    Option ℕ → Option ℕ → Args → ℕ → Resultado → Identified → ℕ → Database → Database
insert_audit_of (some account) (some membership) args audit_id resultado who created_at db =
    record db {
      auditorias_humanas =
          record {
            id = audit_id;
            created_at = created_at;
            condominio_id = args.condominium_id;
            account_id = account;
            membership_id = membership;
            convite_id = who.convite_id;
            morador_id = who.morador_id;
            convidado_id = who.convidado_id;
            tipo_acesso = args.access_type;
            resultado = resultado;
          }
          ∷ db.auditorias_humanas;
    }
insert_audit_of _ _ args audit_id resultado who created_at db = record db {
  auditorias =
      record {
        id = audit_id;
        created_at = created_at;
        condominio_id = args.condominium_id;
        dispositivo_id = args.device_id;
        convite_id = who.convite_id;
        morador_id = who.morador_id;
        convidado_id = who.convidado_id;
        tipo_acesso = args.access_type;
        resultado = resultado;
      }
      ∷ db.auditorias;
}

pub insert_audit : Args → ℕ → Resultado → Identified → ℕ → Database → Database
insert_audit args audit_id resultado who created_at db =
    insert_audit_of args.account_id args.membership_id args audit_id resultado who created_at db

-- `await insertAudit('negado', ...)` and the refusal.
pub refuse : Args → Readings → Identified → Transaction ValidationResult
refuse args at who db =
    ok (invalid_or_unavailable, insert_audit args at.audit_id negado who at.now db)

abbrev is_active_account : AccountStatus → Bool
is_active_account active_account = true
is_active_account _ = false

abbrev is_active : MembershipStatus → Bool
is_active active = true
is_active _ = false

abbrev account_ok : Option HumanAccount → Bool
account_ok none = false
account_ok (some a) = is_active_account a.status

abbrev membership_ok : ℕ → ℕ → Option HumanMembership → Bool
membership_ok account condominium none = false
membership_ok account condominium (some m) =
    m.account_id == account
    && is m.condominio_id condominium
    && is_portaria m.role
    && is_active m.status

abbrev condominium_ok : Option Condominio → Bool
condominium_ok none = false
condominium_ok (some c) = is_none c.deleted_at

-- The three guards of a human validation; each refuses alike.
abbrev pub human_ok : Option ℕ → Option ℕ → ℕ → Database → Bool
human_ok (some account) (some membership) condominium db =
    account_ok (first (λ a. a.id == account) db.accounts)
    && membership_ok account condominium (first (λ m. m.id == membership) db.memberships)
    && condominium_ok (first (λ c. c.id == condominium) db.condominios)
human_ok _ _ condominium db = true

abbrev pub live_condominium : ℕ → Database → Bool
live_condominium id db = any (λ c. c.id == id && is_none c.deleted_at) db.condominios

abbrev device_row : Args → Dispositivo → Bool
device_row args d =
    is args.device_id d.id
    && d.condominio_id == args.condominium_id
    && d.ativo
    && not (is_none d.api_key_digest)
    && is_none d.deleted_at

-- The rows of the join of the device with its condominium.
abbrev pub device_ok : Args → Database → Bool
device_ok args db =
    any (λ d. device_row args d && live_condominium d.condominio_id db) db.dispositivos

abbrev pub candidate_row : ℕ → ℕ → Convite → Bool
candidate_row digest condominium c = is c.token_digest digest && c.condominio_id == condominium

abbrev pub consumable : ℕ → ℕ → ℕ → ℕ → Convite → Bool
consumable id digest condominium now c =
    c.id == id && candidate_row digest condominium c && is_open now c

-- The guest of an invitation: the row of the join on the guest and the condominium.
abbrev pub guest_of : Convite → Database → Option Convidado
guest_of c db =
    first
      (λ g. is c.convidado_id g.id && g.condominio_id == c.condominio_id && is_none g.deleted_at)
      db.convidados

abbrev pub resident_ok : Convite → Database → Bool
resident_ok c db =
    any (λ r. is c.morador_id r.id && r.condominio_id == c.condominio_id && is_none r.deleted_at)
      db.moradores

abbrev pub joined : Database → Convite → Option (Convite × Convidado)
joined db c = elim (guest_of c db) [
  | none ↦ none
  | some g ↦ if resident_ok c db && live_condominium c.condominio_id db then some (c, g) else none
]

-- The SELECT of the active invitation; the identifier is the primary key, so one row at most fits.
abbrev pub active_invitation : ℕ → ℕ → ℕ → ℕ → Database → Option (Convite × Convidado)
active_invitation id digest condominium now db =
    elim (first (consumable id digest condominium now) db.convites) [
      | none ↦ none
      | some c ↦ joined db c
    ]

-- "tokenDigest" = NULL, "usedAt" = clock_timestamp().
abbrev pub consumed : ℕ → Convite → Convite
consumed now c = record c { token_digest = none; used_at = some now }

abbrev pub guest_row : Option ℕ → ℕ → Convidado → Bool
guest_row guest condominium g =
    is guest g.id && g.condominio_id == condominium && is_none g.deleted_at

abbrev pub entry_notification : Args → Convite → Convidado → ℕ → Notificacao
entry_notification args c g used_at = record {
  condominio_id = args.condominium_id;
  morador_id = c.morador_id;
  convidado_id = c.convidado_id;
  convite_id = c.id;
  nome_convidado = g.nome;
  entrou_em = used_at;
}

-- `insertEntryNotification` (src/notificacoes.ts): one notification for an invitation.
pub insert_entry_notification : Args → Convite → Convidado → ℕ → Database → Result Database
insert_entry_notification args c g used_at db =
    if any (λ n. n.convite_id == c.id) db.notificacoes
    then err unique_violation
    else ok (record db { notificacoes = entry_notification args c g used_at ∷ db.notificacoes })

abbrev pub event_of : Args → Convite → ℕ → Event
event_of args c used_at = record {
  invitation_id = c.id;
  condominium_id = args.condominium_id;
  resident_id = c.morador_id;
  guest_id = c.convidado_id;
  invitation_type = c.tipo;
  used_at = used_at;
}

-- From the UPDATE of the guest on: the invitation has been consumed.
pub admit : Args → Readings → Convite → Convidado → Transaction ValidationResult
admit args at c g db =
    let touched : Database = record db {
      convidados =
          update (guest_row c.convidado_id args.condominium_id)
            (λ row. record row { ultimo_uso_em = some at.updated_at }) db.convidados;
    } in
    if not (count (guest_row c.convidado_id args.condominium_id) db.convidados == 1)
    then err guest_became_unavailable
    else (insert_entry_notification args c g at.updated_at
          (insert_audit args at.audit_id permitido (identified c) at.updated_at touched)
        >>= (λ db'. ok (entered g.nome (event_of args c at.updated_at), db')))

-- The consumption of the active invitation that was read.
pub consume : ℕ → Args → Readings → Convite → Convidado → Transaction ValidationResult
consume digest args at c g db =
    let row = consumable c.id digest args.condominium_id at.updated_at in
    if any row db.convites
    then admit args at c g
        (record db { convites = update row (consumed at.updated_at) db.convites })
    else refuse args at (identified c) db

pub select_active : ℕ → Args → Readings → Convite → Transaction ValidationResult
select_active digest args at candidate db =
    elim (active_invitation candidate.id digest args.condominium_id at.selected_at db) [
      | none ↦ refuse args at (identified candidate) db
      | some (c, g) ↦ consume digest args at c g db
    ]

pub validate_digest : ℕ → Args → Readings → Transaction ValidationResult
validate_digest digest args at db =
    elim (first (candidate_row digest args.condominium_id) db.convites) [
      | none ↦ refuse args at unidentified db
      | some candidate ↦ select_active digest args at candidate db
    ]

pub validate_token : TokenSecret → Args → Readings → Option Token → Transaction ValidationResult
validate_token secret args at none db = refuse args at unidentified db
validate_token secret args at (some []) db = refuse args at unidentified db
validate_token secret args at (some (digit ∷ rest)) db =
    verify_token_secret secret db
    >>= (λ db'. validate_digest (secret.digest_token (digit ∷ rest)) args at db')

pub validate_access : TokenSecret → Args → Readings → Transaction ValidationResult
validate_access secret args at db =
    if not (human_ok args.account_id args.membership_id args.condominium_id db)
    then refuse args at unidentified db
    else if args.require_active_device && not (device_ok args db)
    then ok (invalid_or_unavailable, db)
    else validate_token secret args at args.token db
