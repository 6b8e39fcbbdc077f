-- ===== src/Invitation/Issue/Digests.antt =====
-- No two rows ever hold one digest, and every issued token has its row.
use egogero.Common.{
  ℕ, ◌≤◌, ◌≡◌, refl, subst, inl, inr, Bool, false, some, List, [], ◌∷◌, map, arith, ◌==◌, ==_iff,
  Bool-cases, is, update, count, any, Memᴰ,
}
use egogero.Invitation.Schema.{Convite, Database, ok, >>=-eq-ok, TokenSecret}
use egogero.Invitation.Issue.{
  Allocation, TimeZones, Clock, released, without_digest, release_digests, new_row, insert_rows,
  persist_batch,
}
use egogero.Invitation.Issue.Steps.{insert_rows-Inserted, persist_batch-Issued}

abbrev pub holds : ℕ → Convite → Bool
holds digest c = is c.token_digest digest

holds-update :
    (d digest now : ℕ) (rows : List Convite)
    → count (holds d) (update (released digest now) without_digest rows) ≤ count (holds d) rows
holds-update d digest now [] = omega arith
holds-update d digest now (c ∷ rows) = ground (arith, holds-update d digest now rows)

holds-release_digests :
    (d : ℕ) (secret : TokenSecret) (clock : Clock) (allocations : List Allocation)
    (rows : List Convite)
    → count (holds d) (release_digests secret clock allocations rows) ≤ count (holds d) rows
unfolding release_digests
holds-release_digests d secret clock [] rows = omega arith
holds-release_digests d secret clock (a ∷ rest) rows =
    let digest = secret.digest_token a.token in
    omega (
      arith,
      holds-update d digest (clock.released_at digest) rows,
      holds-release_digests d secret clock rest
          (update (released digest (clock.released_at digest)) without_digest rows),
    )

none-count : (d : ℕ) (rows : List Convite) → any (holds d) rows ≡ false → count (holds d) rows ≡ 0
none-count d [] h = refl
none-count d (c ∷ rows) h = ground (arith, none-count d rows)

holds-new_row :
    (secret : TokenSecret) (now d : ℕ) (a : Allocation) (rows : List Convite)
    → any (holds (secret.digest_token a.token)) rows ≡ false
    → count (holds d) rows ≤ 1
    → count (holds d) (new_row secret now a ∷ rows) ≤ 1
holds-new_row secret now d a rows h k = elim (Bool-cases (secret.digest_token a.token == d)) [
  | inl same ↦
      let e = (==_iff (secret.digest_token a.token) d).0 same in
      let free = none-count d rows (rw e at h) in rw same (omega (arith, free))
  | inr other ↦ rw other (omega arith)
]

holds-insert_rows :
    (secret : TokenSecret) (now d : ℕ) (allocations : List Allocation)
    (rows created rows' : List Convite)
    → insert_rows secret now allocations rows ≡ ok (created, rows')
    → count (holds d) rows ≤ 1
    → count (holds d) rows' ≤ 1
unfolding insert_rows
holds-insert_rows secret now d [] rows created rows' h k =
    let same : rows ≡ rows' = cc in subst (λ x. count (holds d) x ≤ 1) same k
holds-insert_rows secret now d (a ∷ rest) rows created rows' h k =
    elim (Bool-cases (any (holds (secret.digest_token a.token)) rows)) [
      | inl taken ↦ absurd (cc (rw taken at h))
      | inr free ↦
          let ((more, after'), done, same) =
            >>=-eq-ok (insert_rows secret now rest (new_row secret now a ∷ rows)) _
              (rw free at h) in
          let final : after' ≡ rows' = cc in
          subst (λ x. count (holds d) x ≤ 1) final
            (holds-insert_rows secret now d rest (new_row secret now a ∷ rows) more after' done
              (holds-new_row secret now d a rows free k))
    ]

-- If no two rows hold one digest, then a batch that is issued leaves it so; it has made one row
-- for each allocation, in order, with the digest of its token, its expiration, and no use or
-- revocation, and each of them stands in the table.
pub persist_batch_unique :
    (secret : TokenSecret) (zones : TimeZones) (clock : Clock) (head : Allocation)
    (rest : List Allocation) (db : Database) (created : List Convite) (db' : Database)
    → ((d : ℕ) → count (holds d) db.convites ≤ 1)
    → persist_batch secret zones clock head rest db ≡ ok (some created, db')
    → ((d : ℕ) → count (holds d) db'.convites ≤ 1)
      × (created ≡ map (new_row secret clock.issued_at) (head ∷ rest))
      × ((c : Convite) → Memᴰ c created → Memᴰ c db'.convites)
persist_batch_unique secret zones clock head rest db created db' unique h =
    let rows = release_digests secret clock (head ∷ rest) db.convites in
    let (guest, others, _, _, issued) =
      persist_batch-Issued secret zones clock head rest db created db' h in
    let (made, _, _, adds) =
      insert_rows-Inserted secret clock.issued_at (head ∷ rest) rows created db'.convites
        issued.inserted in
    (
      λ d.
          holds-insert_rows secret clock.issued_at d (head ∷ rest) rows created db'.convites
            issued.inserted
            (omega
              (arith, unique d, holds-release_digests d secret clock (head ∷ rest) db.convites)),
      made,
      adds,
    )
