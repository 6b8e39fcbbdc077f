-- ===== src/Invitation/Revoke.antt =====
-- Revocation of an invitation (src/convites.ts: revokeActive).
pub mod Effect
mod Examples
use egogero.Common.{
  ℕ, zero, suc, ◌+◌, ◌-◌, ◌*◌, ◌/◌, ◌%◌, ◌^◌, ◌≤◌, ◌<◌, min, max, ◌≡◌, refl, sym, ap, subst, ◌∙◌,
  ◌≢◌, ◌↔◌, ◌⊎◌, inl, inr, Bool, true, false, not, ◌&&◌, ◌||◌, Option, none, some, List, [], ◌∷◌,
  ◌++◌, map, arith, ltb, leb, ◌==◌, if◌then◌else◌, ==_iff, ==_refl, ==_sym, Bool-cases,
  Option-cases, is, is_none, after, length, length-append, select, first, update, count, any, all,
  head?, count-append, count-le-length, contains, All, Memᴰ, first-mem, first_of-count, any-first,
  count-any, count-mem,
}
use egogero.Invitation.Schema.{Condominio, Morador, Convidado, Convite, Database, is_open}

pub record Request : Type 0 where
  pub id : ℕ
  pub condominio_id : ℕ
  pub morador_id : ℕ

pub data Revocation : Type 0 where
  revoked already_revoked unavailable : Revocation

-- The joined rows: the invitation's guest, resident and condominium, none of them deleted.
abbrev live_guest : Convite → Database → Bool
live_guest c db =
    any (λ g. is c.convidado_id g.id && g.condominio_id == c.condominio_id && is_none g.deleted_at)
      db.convidados

abbrev live_resident : Convite → Database → Bool
live_resident c db =
    any (λ m. is c.morador_id m.id && m.condominio_id == c.condominio_id && is_none m.deleted_at)
      db.moradores

abbrev live_condominium : Convite → Database → Bool
live_condominium c db = any (λ k. k.id == c.condominio_id && is_none k.deleted_at) db.condominios

abbrev pub joined : Convite → Database → Bool
joined c db = live_guest c db && live_resident c db && live_condominium c db

abbrev pub owned : Request → Convite → Bool
owned r c = c.id == r.id && c.condominio_id == r.condominio_id && is c.morador_id r.morador_id

-- The WHERE clause of the UPDATE at `now`.
abbrev pub revocable : Request → ℕ → Database → Convite → Bool
revocable r now db c = owned r c && is_open now c && joined c db

abbrev pub revoke_row : ℕ → Convite → Convite
revoke_row now c = record c { token_digest = none; revoked_at = some now }

-- The WHERE clause of the SELECT that follows.
abbrev pub revoked_before : Request → Database → Convite → Bool
revoked_before r db c =
    owned r c && is_none c.deleted_at && not (is_none c.revoked_at) && joined c db

pub revoke_active : Request → ℕ → Database → Revocation × Database
revoke_active r now db =
    let db' : Database = record db {
      convites = update (revocable r now db) (revoke_row now) db.convites;
    } in
    if count (revocable r now db) db.convites == 1 then (revoked, db') else (
      if count (revoked_before r db') db'.convites == 1 then already_revoked else unavailable,
      db',
    )
