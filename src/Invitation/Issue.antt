-- ===== src/Invitation/Issue.antt =====
-- Issuing a batch of invitations in one transaction (src/convites.ts: persistBatch).
pub mod Steps
pub mod Limit
pub mod Digests
mod Examples
use egogero.Common.{
  ℕ, zero, suc, ◌+◌, ◌-◌, ◌*◌, ◌/◌, ◌%◌, ◌^◌, ◌≤◌, ◌<◌, min, max, ◌≡◌, refl, sym, ap, subst, ◌∙◌,
  ◌≢◌, ◌↔◌, ◌⊎◌, inl, inr, Bool, true, false, not, ◌&&◌, ◌||◌, Option, none, some, List, [], ◌∷◌,
  ◌++◌, map, arith, ltb, leb, ◌==◌, if◌then◌else◌, ==_iff, ==_refl, ==_sym, Bool-cases,
  Option-cases, is, is_none, after, length, length-append, select, first, update, count, any, all,
  head?, count-append, count-le-length, contains, All, Memᴰ, first-mem, first_of-count, any-first,
  count-any, count-mem,
}
use Prim.Native.String.{String}
use egogero.Invitation.Schema.{
  TipoConvite, Condominio, Morador, Convidado, Convite, Database, Result, ok, err, ◌>>=◌, Error,
  invalid_condominium_time_zone, expiration_not_in_future, daily_invitation_limit_reached,
  token_collision, Token, TokenSecret, verify_token_secret, due,
}

-- `InvitationAllocation`, with the UUID that the table gives the row.
pub record Allocation : Type 0 where
  pub row_id : ℕ
  pub condominio_id : ℕ
  pub morador_id : ℕ
  pub convidado_id : ℕ
  pub tipo : TipoConvite
  pub expires_at : ℕ
  pub token : Token

-- Time zones as the platform knows them: whether a name is one, and the first instant of the civil
-- day of an instant and of the day after it (PostgreSQL's AT TIME ZONE).
pub record TimeZones : Type 0 where
  pub is_valid : String → Bool
  pub day_start : String → ℕ → ℕ
  pub day_end : String → ℕ → ℕ

-- The clock: `clock_timestamp()` of the UPDATE for a digest, and `readDatabaseTime`.
pub record Clock : Type 0 where
  pub released_at : ℕ → ℕ
  pub issued_at : ℕ

-- Used, revoked, expired and deleted rows no longer own a candidate digest.
abbrev pub released : ℕ → ℕ → Convite → Bool
released digest now c =
    is c.token_digest digest
    && (due c.expires_at now
        || not (is_none c.used_at)
        || not (is_none c.revoked_at)
        || not (is_none c.deleted_at))

abbrev pub without_digest : Convite → Convite
without_digest c = record c { token_digest = none }

-- The loop of UPDATE statements before the guests are read.
pub release_digests : TokenSecret → Clock → List Allocation → List Convite → List Convite
release_digests secret clock [] rows = rows
release_digests secret clock (a ∷ rest) rows =
    let digest = secret.digest_token a.token in
    release_digests secret clock rest
      (update (released digest (clock.released_at digest)) without_digest rows)

pub record ActiveGuest : Type 0 where
  pub id : ℕ
  pub resident_limit : Option ℕ
  pub condominium_limit : Option ℕ
  pub timezone : String

abbrev live_resident : ℕ → ℕ → Morador → Bool
live_resident id condominium m =
    m.id == id && m.condominio_id == condominium && is_none m.deleted_at

abbrev live_condominium_row : ℕ → Condominio → Bool
live_condominium_row id c = c.id == id && is_none c.deleted_at

abbrev pub requested : List Allocation → Convidado → Bool
requested allocations g = any (λ a. a.convidado_id == g.id) allocations

-- The conditions on the guest's own row.
abbrev pub active_guest_row : Allocation → List Allocation → Convidado → Bool
active_guest_row head rest g =
    requested (head ∷ rest) g
    && is g.morador_id head.morador_id
    && g.condominio_id == head.condominio_id
    && is_none g.deleted_at
    && is_none g.anonymized_at

abbrev guest_with : Option Morador → Option Condominio → Convidado → List ActiveGuest
guest_with (some m) (some c) g =
    record {
      id = g.id;
      resident_limit = m.daily_invitation_limit;
      condominium_limit = c.daily_invitation_limit;
      timezone = c.timezone;
    }
    ∷ []
guest_with _ _ g = []

-- The SELECT of the guests joined with resident and condominium, whose keys are unique.
pub active_guests :
    List Morador
    → List Condominio
    → Allocation
    → List Allocation
    → List Convidado
    → List ActiveGuest
active_guests moradores condominios head rest [] = []
active_guests moradores condominios head rest (g ∷ gs) =
    (if active_guest_row head rest g
      then guest_with (first (live_resident head.morador_id head.condominio_id) moradores)
          (first (live_condominium_row head.condominio_id) condominios) g
      else [])
    ++ active_guests moradores condominios head rest gs

abbrev pub earliest_expiration : ℕ → List Allocation → ℕ
earliest_expiration least [] = least
earliest_expiration least (a ∷ rest) = earliest_expiration (min least a.expires_at) rest

-- `residentLimit ?? condominiumLimit`.
abbrev pub limit_of : ActiveGuest → Option ℕ
limit_of g = elim g.resident_limit [ some n ↦ some n | none ↦ g.condominium_limit ]

-- The rows that count towards the limit: the resident's, not deleted, created in the civil day.
abbrev pub counted : Allocation → ℕ → ℕ → Convite → Bool
counted head from until c =
    c.condominio_id == head.condominio_id
    && is c.morador_id head.morador_id
    && is_none c.deleted_at
    && leb from c.created_at
    && ltb c.created_at until

abbrev pub within_limit : Option ℕ → ℕ → Bool
within_limit none issued = true
within_limit (some limit) issued = leb issued limit

abbrev pub new_row : TokenSecret → ℕ → Allocation → Convite
new_row secret issued_at a = record {
  id = a.row_id;
  created_at = issued_at;
  deleted_at = none;
  condominio_id = a.condominio_id;
  morador_id = some a.morador_id;
  convidado_id = some a.convidado_id;
  tipo = some a.tipo;
  expires_at = some a.expires_at;
  used_at = none;
  revoked_at = none;
  token_digest = some (secret.digest_token a.token);
}

-- The loop of `transaction.convite.create`; the digest column is unique (P2002).
pub insert_rows :
    TokenSecret → ℕ → List Allocation → List Convite → Result (List Convite × List Convite)
insert_rows secret issued_at [] rows = ok ([], rows)
insert_rows secret issued_at (a ∷ rest) rows =
    let later = insert_rows secret issued_at rest (new_row secret issued_at a ∷ rows) in
    if any (λ c. is c.token_digest (secret.digest_token a.token)) rows
    then err token_collision
    else later >>= (λ (created, rows'). ok (new_row secret issued_at a ∷ created, rows'))

-- The count of the civil day against the limit, and the rows.
pub issue_in_limit :
    TokenSecret
    → TimeZones
    → Clock
    → Allocation
    → List Allocation
    → ActiveGuest
    → Database
    → Result (Option (List Convite) × Database)
issue_in_limit secret zones clock head rest guest db =
    let zone = guest.timezone in
    let now = clock.issued_at in
    let today = counted head (zones.day_start zone now) (zones.day_end zone now) in
    if not (within_limit (limit_of guest) (count today db.convites + length (head ∷ rest)))
    then err daily_invitation_limit_reached
    else (insert_rows secret now (head ∷ rest) db.convites
        >>= (λ (created, rows). ok (some created, record db { convites = rows })))

-- From the check of the time zone on, with the guests' first row.
pub issue_for :
    TokenSecret
    → TimeZones
    → Clock
    → Allocation
    → List Allocation
    → ActiveGuest
    → Database
    → Result (Option (List Convite) × Database)
issue_for secret zones clock head rest guest db =
    if not (zones.is_valid guest.timezone)
    then err invalid_condominium_time_zone
    else if leb (earliest_expiration head.expires_at rest) clock.issued_at
    then err expiration_not_in_future
    else issue_in_limit secret zones clock head rest guest db

-- With the digests released and the guests read.
pub issue_to :
    TokenSecret
    → TimeZones
    → Clock
    → Allocation
    → List Allocation
    → List ActiveGuest
    → Database
    → Result (Option (List Convite) × Database)
issue_to secret zones clock head rest [] db = ok (none, db)
issue_to secret zones clock head rest (guest ∷ guests) db =
    if not (length (guest ∷ guests) == length (head ∷ rest))
    then ok (none, db)
    else issue_for secret zones clock head rest guest db

-- The whole batch; its callers refuse an empty one, so there is a first allocation.
pub persist_batch :
    TokenSecret
    → TimeZones
    → Clock
    → Allocation
    → List Allocation
    → Database
    → Result (Option (List Convite) × Database)
persist_batch secret zones clock head rest db = verify_token_secret secret db >>= (λ db1.
    let db2 : Database = record db1 {
      convites = release_digests secret clock (head ∷ rest) db1.convites;
    } in
    issue_to secret zones clock head rest
      (active_guests db2.moradores db2.condominios head rest db2.convidados) db2)
