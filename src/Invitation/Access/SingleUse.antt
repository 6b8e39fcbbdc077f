-- ===== src/Invitation/Access/SingleUse.antt =====
-- An invitation opens the gate once.
use egogero.Common.{
  ℕ, ◌+◌, ◌≤◌, ◌<◌, ◌≡◌, ap, ◌≢◌, inl, inr, Bool, true, ◌&&◌, List, [], ◌∷◌, arith, ◌==◌,
  if◌then◌else◌, ==_refl, is, is_none, update, count, any, count-mem,
}
use Prim.Native.String.{String}
use egogero.Invitation.Schema.{Convite, Database, Result-cases, ok, err, TokenSecret}
use egogero.Invitation.Access.{
  Args, Readings, Event, ValidationResult, invalid_or_unavailable, entered, consumable, consumed,
  validate_access,
}
use egogero.Invitation.Access.Admission.{validate_access-Entry}
use egogero.Invitation.Access.Refusal.{refused-Kept}

-- The rows of an invitation that are neither used nor revoked.
abbrev pub unused : ℕ → Convite → Bool
unused id c = c.id == id && is_none c.used_at && is_none c.revoked_at

abbrev pub has_id : ℕ → Convite → Bool
has_id id c = c.id == id

unused-le-id : (id : ℕ) (cs : List Convite) → count (unused id) cs ≤ count (has_id id) cs
unused-le-id id [] = omega arith
unused-le-id id (c ∷ cs) = ground (arith, unused-le-id id cs)

module _ (i id digest condominium now : ℕ) where
  unused-update :
      (cs : List Convite)
      → count (unused i) (update (consumable id digest condominium now) (consumed now) cs)
        ≤ count (unused i) cs
  unused-update [] = omega arith
  unused-update (c ∷ cs) = ground (arith, unused-update cs)

unused_drops :
    (id digest condominium now : ℕ) (cs : List Convite)
    → any (consumable id digest condominium now) cs ≡ true
    → count (unused id) (update (consumable id digest condominium now) (consumed now) cs)
      < count (unused id) cs
unused_drops id digest condominium now [] h = cc
unused_drops id digest condominium now (c ∷ cs) h = ground (
  arith,
  unused_drops id digest condominium now cs,
  unused-update id id digest condominium now cs,
)

-- The entries of an answer for one invitation.
abbrev pub entries : ℕ → ValidationResult → ℕ
entries id invalid_or_unavailable = 0
entries id (entered name event) = if event.invitation_id == id then 1 else 0

-- A history of validations; one that fails is rolled back.
abbrev pub total_entries : TokenSecret → ℕ → List (Args × Readings) → Database → ℕ
total_entries secret id [] db = 0
total_entries secret id ((args, at) ∷ calls) db = elim (validate_access secret args at db) [
  | err e ↦ total_entries secret id calls db
  | ok (r, db') ↦ entries id r + total_entries secret id calls db'
]

step_unused :
    (secret : TokenSecret) (id : ℕ) (args : Args) (at : Readings) (db : Database)
    (r : ValidationResult) (db' : Database)
    → validate_access secret args at db ≡ ok (r, db')
    → entries id r + count (unused id) db'.convites ≤ count (unused id) db.convites
step_unused secret id args at db invalid_or_unavailable db' h =
    rw (refused-Kept secret args at db db' h).convites (omega arith)
step_unused secret id args at db (entered name event) db' h =
    let (_, _, (token, c, g, e)) = validate_access-Entry secret args at db name event db' h in
    let digest = secret.digest_token token in
    (ground (
      arith,
      ap (λ (x : Event). x.invitation_id) e.reported,
      ap (count (unused id)) e.used,
      unused_drops c.id digest args.condominium_id at.updated_at db.convites e.open_when_used,
      unused-update id c.id digest args.condominium_id at.updated_at db.convites,
    ))

pub total_entries-le-unused :
    (secret : TokenSecret) (id : ℕ) (calls : List (Args × Readings)) (db : Database)
    → total_entries secret id calls db ≤ count (unused id) db.convites
total_entries-le-unused secret id [] db = omega arith
total_entries-le-unused secret id ((args, at) ∷ calls) db =
    elim (Result-cases (validate_access secret args at db)) [
      | inl (e, failed) ↦ rw (failed, total_entries) (total_entries-le-unused secret id calls db)
      | inr ((r, db'), done) ↦
          rw (done, total_entries)
            (omega (
              arith,
              step_unused secret id args at db r db' done,
              total_entries-le-unused secret id calls db',
            ))
    ]

-- Over any history of validations, by any devices and accounts, with any clock and any tokens, an
-- invitation lets someone in once at most. The identifier is the table's primary key.
pub total_entries-le-one :
    (secret : TokenSecret) (id : ℕ) (calls : List (Args × Readings)) (db : Database)
    → count (has_id id) db.convites ≤ 1
    → total_entries secret id calls db ≤ 1
total_entries-le-one secret id calls db key =
    omega (arith, total_entries-le-unused secret id calls db, unused-le-id id db.convites)

-- The rows that hold a digest.
abbrev pub holds : ℕ → Convite → Bool
holds digest c = is c.token_digest digest

holds-update :
    (id digest condominium now : ℕ) (cs : List Convite)
    → count (holds digest) (update (consumable id digest condominium now) (consumed now) cs)
      ≤ count (holds digest) cs
holds-update id digest condominium now [] = omega arith
holds-update id digest condominium now (c ∷ cs) =
    ground (arith, holds-update id digest condominium now cs)

holds_drops :
    (id digest condominium now : ℕ) (cs : List Convite)
    → any (consumable id digest condominium now) cs ≡ true
    → count (holds digest) (update (consumable id digest condominium now) (consumed now) cs)
      < count (holds digest) cs
holds_drops id digest condominium now [] h = cc
holds_drops id digest condominium now (c ∷ cs) h =
    ground
      (arith, holds_drops id digest condominium now cs, holds-update id digest condominium now cs)

-- A token is good for one entry: after it, no validation of the same token succeeds on the tables
-- that the entry left, whoever asks and at whatever time. The digest column is unique.
pub token_spent :
    (secret : TokenSecret) (args : Args) (at : Readings) (db : Database) (name : String)
    (event : Event) (db' : Database) (args' : Args) (at' : Readings) (name' : String)
    (event' : Event) (db'' : Database)
    → ((digest : ℕ) → count (holds digest) db.convites ≤ 1)
    → validate_access secret args at db ≡ ok (entered name event, db')
    → args'.token ≡ args.token
    → validate_access secret args' at' db' ≢ ok (entered name' event', db'')
token_spent secret args at db name event db' args' at' name' event' db'' keys h same again =
    let (_, _, (token, c, g, e)) = validate_access-Entry secret args at db name event db' h in
    let (_, _, (token', c', g', e')) =
      validate_access-Entry secret args' at' db' name' event' db'' again in
    let digest = secret.digest_token token in
    let same_token : token' ≡ token = cc in
    let held : is c'.token_digest digest ≡ true = rw (e'.digest, same_token) (==_refl digest) in
    omega (
      arith,
      keys digest,
      holds_drops c.id digest args.condominium_id at.updated_at db.convites e.open_when_used,
      count-mem (holds digest) e'.invited held,
      ap (count (holds digest)) e.used,
    )
