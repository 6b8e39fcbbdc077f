-- ===== src/Invitation/Access/Outcome.antt =====
-- What a successful validation has found and done, step by step.
use egogero.Common.{
  ℕ, ◌≡◌, ap, subst, ◌∙◌, inl, inr, true, ◌&&◌, Option, none, some, ◌∷◌, arith, ◌==◌, Bool-cases,
  Option-cases, is, is_none, first, update, any, Memᴰ, first-mem,
}
use Prim.Native.String.{String}
use egogero.Invitation.Schema.{
  Convidado, Convite, Database, ok, Token, TokenSecret, is_open, permitido, Resultado,
}
use egogero.Invitation.Access.{
  Args, Readings, Event, ValidationResult, entered, Identified, identified, insert_audit,
  insert_audit_of, refuse, consumable, active_invitation, consumed, guest_row, entry_notification,
  insert_entry_notification, event_of, admit, consume, select_active, joined, guest_of,
}

module _ (args : Args) (at : Readings) (c : Convite) (g : Convidado) (db : Database) where
  abbrev pub touched : Database
  touched = record db {
    convidados =
        update (guest_row c.convidado_id args.condominium_id)
          (λ row. record row { ultimo_uso_em = some at.updated_at }) db.convidados;
  }

  abbrev pub admitted : Database
  admitted =
      let audited = insert_audit args at.audit_id permitido (identified c) at.updated_at touched in
      record audited {
        notificacoes = entry_notification args c g at.updated_at ∷ audited.notificacoes;
      }

  pub admit_inv :
      (r : ValidationResult) (db' : Database)
      → admit args at c g db ≡ ok (r, db')
      → (r ≡ entered g.nome (event_of args c at.updated_at)) × (db' ≡ admitted)
  unfolding admit insert_entry_notification
  admit_inv r db' h = ground arith

-- A refusal adds an audit row; the other tables keep their rows.
pub record Kept (db db' : Database) : Type 0 where
  pub convites : db'.convites ≡ db.convites
  pub convidados : db'.convidados ≡ db.convidados
  pub notificacoes : db'.notificacoes ≡ db.notificacoes
  pub condominios : db'.condominios ≡ db.condominios
  pub moradores : db'.moradores ≡ db.moradores

insert_audit_of-Kept :
    (account membership : Option ℕ) (args : Args) (id : ℕ) (r : Resultado) (who : Identified)
    (t : ℕ) (db : Database)
    → Kept db (insert_audit_of account membership args id r who t db)
unfolding insert_audit_of
insert_audit_of-Kept none membership args id r who t db = ground arith
insert_audit_of-Kept (some a) none args id r who t db = ground arith
insert_audit_of-Kept (some a) (some m) args id r who t db = ground arith

-- What a validation that lets someone in has found in the tables, and what it leaves in them.
pub record Entry (secret : TokenSecret) (args : Args) (at : Readings) (db : Database)
    (name : String) (event : Event) (db' : Database) (token : Token) (c : Convite) (g : Convidado)
    : Type 0 where
  pub given : args.token ≡ some token
  pub invited : Memᴰ c db.convites
  pub digest : c.token_digest ≡ some (secret.digest_token token)
  pub condominium : c.condominio_id ≡ args.condominium_id
  pub open_when_read : is_open at.selected_at c ≡ true
  pub guest : Memᴰ g db.convidados
  pub of_guest : c.convidado_id ≡ some g.id
  pub guest_live : g.deleted_at ≡ none
  pub greeted : name ≡ g.nome
  pub reported : event ≡ event_of args c at.updated_at
  pub open_when_used :
      any
        (consumable c.id (secret.digest_token token) args.condominium_id at.updated_at)
        db.convites
      ≡ true
  pub used :
      db'.convites
      ≡ update
          (consumable c.id (secret.digest_token token) args.condominium_id at.updated_at)
          (consumed at.updated_at)
          db.convites
  pub notified : db'.notificacoes ≡ entry_notification args c g at.updated_at ∷ db.notificacoes

consume_inv :
    (digest : ℕ) (args : Args) (at : Readings) (c : Convite) (g : Convidado) (db : Database)
    (name : String) (event : Event) (db' : Database)
    → consume digest args at c g db ≡ ok (entered name event, db')
    → let row = consumable c.id digest args.condominium_id at.updated_at in
      (any row db.convites ≡ true)
      × (name ≡ g.nome)
      × (event ≡ event_of args c at.updated_at)
      × (db'
          ≡ admitted args at c g
              (record db { convites = update row (consumed at.updated_at) db.convites }))
unfolding consume refuse
consume_inv digest args at c g db name event db' h =
    let row = consumable c.id digest args.condominium_id at.updated_at in
    elim (Bool-cases (any row db.convites)) [
      | inl found ↦
          let (e, same) =
            admit_inv args at c g
              (record db { convites = update row (consumed at.updated_at) db.convites })
              (entered name event) db' (rw found at h) in
          (found, cc, cc, same)
      | inr gone ↦ absurd (cc (rw gone at h))
    ]

pub insert_audit-Kept :
    (args : Args) (id : ℕ) (r : Resultado) (who : Identified) (t : ℕ) (db : Database)
    → Kept db (insert_audit args id r who t db)
unfolding insert_audit
insert_audit-Kept args id r who t db =
    insert_audit_of-Kept args.account_id args.membership_id args id r who t db

module _ (args : Args) (at : Readings) (c : Convite) (g : Convidado) (db : Database) where
  admitted-convites : (admitted args at c g db).convites ≡ db.convites
  admitted-convites =
      (insert_audit-Kept args at.audit_id permitido (identified c) at.updated_at
        (touched args at c g db)).convites

  admitted-notificacoes :
      (admitted args at c g db).notificacoes
      ≡ entry_notification args c g at.updated_at ∷ db.notificacoes
  admitted-notificacoes =
      ap (λ rest. entry_notification args c g at.updated_at ∷ rest)
        (insert_audit-Kept args at.audit_id permitido (identified c) at.updated_at
          (touched args at c g db)).notificacoes

joined_inv :
    (db : Database) (c c' : Convite) (g : Convidado)
    → joined db c ≡ some (c', g)
    → (c ≡ c') × (guest_of c db ≡ some g)
joined_inv db c c' g h = ground arith

active_inv :
    (id digest condominium now : ℕ) (db : Database) (c : Convite) (g : Convidado)
    → active_invitation id digest condominium now db ≡ some (c, g)
    → (first (consumable id digest condominium now) db.convites ≡ some c) × (guest_of c db ≡ some g)
active_inv id digest condominium now db c g h =
    elim (Option-cases (first (consumable id digest condominium now) db.convites)) [
      | inl missing ↦ absurd (cc (rw (missing, active_invitation) at h))
      | inr (x, found) ↦
          let (same, guest) = joined_inv db x c g (rw (found, active_invitation) at h) in
          (found ∙ ap some same, subst (λ y. guest_of y db ≡ some g) same guest)
    ]

consumable_inv :
    (id digest condominium now : ℕ) (c : Convite)
    → consumable id digest condominium now c ≡ true
    → (c.token_digest ≡ some digest) × (c.condominio_id ≡ condominium) × (is_open now c ≡ true)
consumable_inv id digest condominium now c h = ground arith

guest_inv :
    (guest : Option ℕ) (condominium : ℕ) (g : Convidado)
    → (is guest g.id && g.condominio_id == condominium && is_none g.deleted_at) ≡ true
    → (guest ≡ some g.id) × (g.deleted_at ≡ none)
guest_inv guest condominium g h = ground arith

pub select_active-Entry :
    (secret : TokenSecret) (token : Token) (args : Args) (at : Readings) (candidate : Convite)
    (db : Database) (name : String) (event : Event) (db' : Database)
    → args.token ≡ some token
    → select_active (secret.digest_token token) args at candidate db ≡ ok (entered name event, db')
    → (c : Convite) × (g : Convidado) × Entry secret args at db name event db' token c g
unfolding select_active refuse
select_active-Entry secret token args at candidate db name event db' given h =
    let digest = secret.digest_token token in
    let found = active_invitation candidate.id digest args.condominium_id at.selected_at db in
    elim (Option-cases found) [
      | inl missing ↦ absurd (cc (rw (missing, select_active) at h))
      | inr ((c, g), e) ↦
          let (row, guest) =
            active_inv candidate.id digest args.condominium_id at.selected_at db c g e in
          let (invited, fits) = first-mem _ db.convites row in
          let (d, k, o) =
            consumable_inv candidate.id digest args.condominium_id at.selected_at c fits in
          let (guest_mem, guest_fits) = first-mem _ db.convidados guest in
          let (of_guest, live) = guest_inv c.convidado_id c.condominio_id g guest_fits in
          let (still, greeted, reported, same) =
            consume_inv digest args at c g db name event db' (rw (e, select_active) at h) in
          (
            c,
            g,
            record {
              given = given;
              invited = invited;
              digest = d;
              condominium = k;
              open_when_read = o;
              guest = guest_mem;
              of_guest = of_guest;
              guest_live = live;
              greeted = greeted;
              reported = reported;
              open_when_used = still;
              used = ap (λ x. x.convites) same ∙ admitted-convites args at c g _;
              notified = ap (λ x. x.notificacoes) same ∙ admitted-notificacoes args at c g _;
            },
          )
    ]
