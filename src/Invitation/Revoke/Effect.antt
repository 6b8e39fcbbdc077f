-- ===== src/Invitation/Revoke/Effect.antt =====
-- What a revocation does to the table and to the gate.
use egogero.Common.{
  ℕ, ◌+◌, ◌≤◌, ◌≡◌, refl, ap, ◌∙◌, ◌≢◌, inl, inr, List, [], ◌∷◌, arith, Bool-cases, update, count,
}
use egogero.Invitation.Schema.{Convite, Database, TokenSecret}
use egogero.Invitation.Revoke.{
  Request, revoked, already_revoked, revocable, revoke_row, revoked_before, revoke_active,
}
use egogero.Invitation.Access.{Args, Readings}
use egogero.Invitation.Access.SingleUse.{has_id, unused, total_entries, total_entries-le-unused}

unused-update :
    (r : Request) (now i : ℕ) (db : Database) (rows : List Convite)
    → count (unused i) (update (revocable r now db) (revoke_row now) rows) ≤ count (unused i) rows
unused-update r now i db [] = omega arith
unused-update r now i db (c ∷ rows) = ground (arith, unused-update r now i db rows)

unused-revoked :
    (r : Request) (now : ℕ) (db : Database) (rows : List Convite)
    → count (revocable r now db) rows
        + count (unused r.id) (update (revocable r now db) (revoke_row now) rows)
      ≤ count (unused r.id) rows
unused-revoked r now db [] = omega arith
unused-revoked r now db (c ∷ rows) = ground (arith, unused-revoked r now db rows)

unused-le-id : (id : ℕ) (rows : List Convite) → count (unused id) rows ≤ count (has_id id) rows
unused-le-id id [] = omega arith
unused-le-id id (c ∷ rows) = ground (arith, unused-le-id id rows)

id-update :
    (r : Request) (now : ℕ) (db : Database) (rows : List Convite)
    → count (has_id r.id) (update (revocable r now db) (revoke_row now) rows)
      ≡ count (has_id r.id) rows
id-update r now db [] = refl
id-update r now db (c ∷ rows) = ground (arith, id-update r now db rows)

revoked_before-le-id :
    (r : Request) (db : Database) (rows : List Convite)
    → count (revoked_before r db) rows ≤ count (has_id r.id) rows
revoked_before-le-id r db [] = omega arith
revoked_before-le-id r db (c ∷ rows) = ground (arith, revoked_before-le-id r db rows)

revocable-le-id :
    (r : Request) (now : ℕ) (db : Database) (rows : List Convite)
    → count (revocable r now db) rows ≤ count (has_id r.id) rows
revocable-le-id r now db [] = omega arith
revocable-le-id r now db (c ∷ rows) = ground (arith, revocable-le-id r now db rows)

-- The revoked rows are found by the SELECT.
revocable-le-revoked_before :
    (r : Request) (now : ℕ) (db : Database) (rows : List Convite)
    → count (revocable r now db) rows
      ≤ count (revoked_before r db) (update (revocable r now db) (revoke_row now) rows)
revocable-le-revoked_before r now db [] = omega arith
revocable-le-revoked_before r now db (c ∷ rows) =
    ground (arith, revocable-le-revoked_before r now db rows)

-- What is not open for this request stays as it is.
update_of-count :
    (r : Request) (now : ℕ) (db : Database) (rows : List Convite)
    → count (revocable r now db) rows ≡ 0
    → update (revocable r now db) (revoke_row now) rows ≡ rows
update_of-count r now db [] h = refl
update_of-count r now db (c ∷ rows) h = elim (Bool-cases (revocable r now db c)) [
  | inl hit ↦ ground arith
  | inr miss ↦ rw miss (ap (λ cs. c ∷ cs) (update_of-count r now db rows (ground arith)))
]

-- The answer is `revoked` when the UPDATE changed one row.
pub revoke_active-revoked_inv :
    (r : Request) (now : ℕ) (db : Database)
    → (revoke_active r now db).0 ≡ revoked
    → count (revocable r now db) db.convites ≡ 1
unfolding revoke_active
revoke_active-revoked_inv r now db h = ground arith

revoke_active-table :
    (r : Request) (now : ℕ) (db : Database)
    → (revoke_active r now db).1
      ≡ record db { convites = update (revocable r now db) (revoke_row now) db.convites }
unfolding revoke_active
revoke_active-table r now db = ground arith

-- After `revoked` is answered, the invitation opens the gate for nobody, over any history of
-- validations that follows. The identifier is the table's primary key.
pub revoked_shut :
    (r : Request) (now : ℕ) (db : Database) (secret : TokenSecret) (calls : List (Args × Readings))
    → count (has_id r.id) db.convites ≤ 1
    → (revoke_active r now db).0 ≡ revoked
    → total_entries secret r.id calls (revoke_active r now db).1 ≡ 0
revoked_shut r now db secret calls key h = omega (
  arith,
  total_entries-le-unused secret r.id calls (revoke_active r now db).1,
  ap (λ (d : Database). count (unused r.id) d.convites) (revoke_active-table r now db),
  unused-revoked r now db db.convites,
  unused-le-id r.id db.convites,
  revoke_active-revoked_inv r now db h,
)

no_row :
    (r : Request) (now : ℕ) (db : Database)
    → count (has_id r.id) db.convites ≤ 1
    → (revoke_active r now db).0 ≢ revoked
    → count (revocable r now db) db.convites ≡ 0
unfolding revoke_active
no_row r now db key h = ground (arith, revocable-le-id r now db db.convites)

-- Any other answer leaves the tables as they were. The identifier is the table's primary key.
pub revoke_active_unchanged :
    (r : Request) (now : ℕ) (db : Database)
    → count (has_id r.id) db.convites ≤ 1
    → (revoke_active r now db).0 ≢ revoked
    → (revoke_active r now db).1 ≡ db
revoke_active_unchanged r now db key h =
    revoke_active-table r now db
    ∙ ap (λ rows. record db { convites = rows })
        (update_of-count r now db db.convites (no_row r now db key h))

-- No revoked row is revocable again, at any later time.
again_row :
    (r : Request) (now later : ℕ) (db : Database) (rows : List Convite)
    → count (revocable r later db) (update (revocable r now db) (revoke_row now) rows)
        + count (revocable r now db) rows
      ≤ count (has_id r.id) rows
again_row r now later db [] = omega arith
again_row r now later db (c ∷ rows) = ground (arith, again_row r now later db rows)

already :
    (r : Request) (now : ℕ) (db : Database)
    → count (revocable r now db) db.convites ≡ 0
    → count (revoked_before r db) db.convites ≡ 1
    → revoke_active r now db ≡ (already_revoked, db)
unfolding revoke_active
already r now db none_open found =
    rw (none_open, update_of-count r now db db.convites none_open, found) refl

-- A second revocation, at any time, says that the invitation is already revoked and changes
-- nothing. The identifier is the table's primary key.
pub revoke_again :
    (r : Request) (now later : ℕ) (db : Database)
    → count (has_id r.id) db.convites ≤ 1
    → (revoke_active r now db).0 ≡ revoked
    → revoke_active r later (revoke_active r now db).1
      ≡ (already_revoked, (revoke_active r now db).1)
revoke_again r now later db key h =
    let one = revoke_active-revoked_inv r now db h in
    let rows = update (revocable r now db) (revoke_row now) db.convites in
    rw (revoke_active-table r now db) (
      already r later (record db { convites = rows })
        (omega (arith, one, key, again_row r now later db db.convites))
        (omega (
          arith,
          one,
          key,
          revocable-le-revoked_before r now db db.convites,
          revoked_before-le-id r (record db { convites = rows }) rows,
          id-update r now db db.convites,
        )))
