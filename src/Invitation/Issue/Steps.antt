-- ===== src/Invitation/Issue/Steps.antt =====
-- What a successful batch has gone through.
use egogero.Common.{
  ℕ, ◌+◌, ◌<◌, ◌≡◌, refl, sym, ap, subst, ◌∙◌, inl, inr, Bool, true, some, List, [], ◌∷◌, map,
  arith, leb, ◌==◌, ==_iff, Bool-cases, is, length, count, any, Memᴰ,
}
use egogero.Invitation.Schema.{
  Convite, Database, ok, >>=-eq-ok, TokenSecret, verify_token_secret, verify_token_secret_inv,
}
use egogero.Invitation.Issue.{
  Allocation, TimeZones, Clock, release_digests, ActiveGuest, active_guests, earliest_expiration,
  limit_of, counted, within_limit, new_row, insert_rows, issue_in_limit, issue_for, issue_to,
  persist_batch,
}

-- The rows that an insertion adds, in the order of the batch, and the table after it.
abbrev pub Inserted :
    TokenSecret → ℕ → List Allocation → List Convite → List Convite → List Convite → Type 0
Inserted secret now allocations rows created rows' =
    (created ≡ map (new_row secret now) allocations)
    × ((p : Convite → Bool) → count p rows' ≡ count p created + count p rows)
    × ((c : Convite) → Memᴰ c rows → Memᴰ c rows')
    × ((c : Convite) → Memᴰ c created → Memᴰ c rows')

no_mem : {c : Convite} → Memᴰ c [] → ⊥
no_mem m = elim m [ ]

-- The first created row stands in the table that the others are added to.
mem_created :
    {c row : Convite} {more : List Convite} (rows after' : List Convite)
    → (Memᴰ c (row ∷ rows) → Memᴰ c after')
    → (Memᴰ c more → Memᴰ c after')
    → Memᴰ c (row ∷ more)
    → Memᴰ c after'
mem_created rows after' keep add (Memᴰ.head same) = keep (Memᴰ.head same)
mem_created rows after' keep add (Memᴰ.tail m) = add m

pub insert_rows-Inserted :
    (secret : TokenSecret) (now : ℕ) (allocations : List Allocation)
    (rows created rows' : List Convite)
    → insert_rows secret now allocations rows ≡ ok (created, rows')
    → Inserted secret now allocations rows created rows'
unfolding insert_rows
insert_rows-Inserted secret now [] rows created rows' h =
    let none_made : created ≡ [] = cc in
    let same : rows ≡ rows' = cc in
    (
      none_made,
      λ p. rw (none_made, ← same) (omega arith),
      λ c m. subst (Memᴰ c) same m,
      λ c m. absurd (no_mem (subst (Memᴰ c) none_made m)),
    )
insert_rows-Inserted secret now (a ∷ rest) rows created rows' h =
    let row : Convite = new_row secret now a in
    elim (Bool-cases (any (λ c. is c.token_digest (secret.digest_token a.token)) rows)) [
      | inl taken ↦ absurd (cc (rw taken at h))
      | inr free ↦
          let ((more, after'), done, same) =
            >>=-eq-ok (insert_rows secret now rest (row ∷ rows)) _ (rw free at h) in
          let (made, counts, keeps, adds) =
            insert_rows-Inserted secret now rest (row ∷ rows) more after' done in
          let all_made : row ∷ more ≡ created = cc in
          let final : after' ≡ rows' = cc in
          (
            sym all_made ∙ ap (◌∷◌ row) made,
            λ p. rw (← all_made, ← final) (omega (arith, counts p)),
            λ c m. subst (Memᴰ c) final (keeps c (Memᴰ.tail m)),
            λ c m.
                subst (Memᴰ c) final
                  (mem_created rows after' (keeps c) (adds c) (subst (Memᴰ c) (sym all_made) m)),
          )
    ]

-- The check of the limit and the insertion, of a batch that is issued.
pub record Issued (secret : TokenSecret) (zones : TimeZones) (clock : Clock) (head : Allocation)
    (rest : List Allocation) (guest : ActiveGuest) (rows : List Convite)
    (created rows' : List Convite) : Type 0 where
  pub zone_valid : zones.is_valid guest.timezone ≡ true
  pub in_future : clock.issued_at < earliest_expiration head.expires_at rest
  pub limited :
      within_limit (limit_of guest) (
        count
          (counted head
            (zones.day_start guest.timezone clock.issued_at)
            (zones.day_end guest.timezone clock.issued_at))
          rows
        + length (head ∷ rest))
      ≡ true
  pub inserted : insert_rows secret clock.issued_at (head ∷ rest) rows ≡ ok (created, rows')

issue_limited :
    (secret : TokenSecret) (zones : TimeZones) (clock : Clock) (head : Allocation)
    (rest : List Allocation) (guest : ActiveGuest) (db : Database) (created : List Convite)
    (db' : Database)
    → zones.is_valid guest.timezone ≡ true
    → clock.issued_at < earliest_expiration head.expires_at rest
    → issue_in_limit secret zones clock head rest guest db ≡ ok (some created, db')
    → Issued secret zones clock head rest guest db.convites created db'.convites
unfolding issue_in_limit
issue_limited secret zones clock head rest guest db created db' valid ahead h =
    let today =
      counted head (zones.day_start guest.timezone clock.issued_at)
        (zones.day_end guest.timezone clock.issued_at) in
    elim (Bool-cases
      (within_limit (limit_of guest) (count today db.convites + length (head ∷ rest)))) [
        | inr over ↦ absurd (cc (rw over at h))
        | inl limited ↦
            let ((more, rows), done, same) =
              >>=-eq-ok (insert_rows secret clock.issued_at (head ∷ rest) db.convites) _
                (rw limited at h) in
            let made : more ≡ created = cc in
            let made_db : Database = record db { convites = rows } in
            let tables : made_db ≡ db' = cc in
            let table : rows ≡ db'.convites = ap (λ x. x.convites) tables in
            record {
              zone_valid = valid;
              in_future = ahead;
              limited = limited;
              inserted = rw (← made, ← table) done;
            }
      ]

pub issue_for-Issued :
    (secret : TokenSecret) (zones : TimeZones) (clock : Clock) (head : Allocation)
    (rest : List Allocation) (guest : ActiveGuest) (db : Database) (created : List Convite)
    (db' : Database)
    → issue_for secret zones clock head rest guest db ≡ ok (some created, db')
    → Issued secret zones clock head rest guest db.convites created db'.convites
unfolding issue_for
issue_for-Issued secret zones clock head rest guest db created db' h =
    elim (Bool-cases (zones.is_valid guest.timezone)) [
      | inr invalid ↦ absurd (cc (rw invalid at h))
      | inl valid ↦
          elim (Bool-cases (leb (earliest_expiration head.expires_at rest) clock.issued_at)) [
            | inl late ↦ absurd (cc (rw (valid, late) at h))
            | inr ahead ↦
                issue_limited secret zones clock head rest guest db created db' valid (ground arith)
                  (rw (valid, ahead) at h)
          ]
    ]

issue_to-Issued :
    (secret : TokenSecret) (zones : TimeZones) (clock : Clock) (head : Allocation)
    (rest : List Allocation) (guests : List ActiveGuest) (db : Database) (created : List Convite)
    (db' : Database)
    → issue_to secret zones clock head rest guests db ≡ ok (some created, db')
    → (guest : ActiveGuest) × (others : List ActiveGuest) × (guests ≡ guest ∷ others)
      × (length guests ≡ length (head ∷ rest))
      × Issued secret zones clock head rest guest db.convites created db'.convites
unfolding issue_to
issue_to-Issued secret zones clock head rest [] db created db' h = absurd (cc)
issue_to-Issued secret zones clock head rest (guest ∷ others) db created db' h =
    elim (Bool-cases (length (guest ∷ others) == length (head ∷ rest))) [
      | inr few ↦ absurd (cc (rw few at h))
      | inl enough ↦ (
        guest,
        others,
        refl,
        (==_iff _ _).0 enough,
        issue_for-Issued secret zones clock head rest guest db created db' (rw enough at h),
      )
    ]

-- A batch that is issued: the guests of the allocations are all active, and the rows are added to
-- the table in which the candidates' digests were released.
pub persist_batch-Issued :
    (secret : TokenSecret) (zones : TimeZones) (clock : Clock) (head : Allocation)
    (rest : List Allocation) (db : Database) (created : List Convite) (db' : Database)
    → persist_batch secret zones clock head rest db ≡ ok (some created, db')
    → let rows = release_digests secret clock (head ∷ rest) db.convites in
      (guest : ActiveGuest) × (others : List ActiveGuest) × (active_guests db.moradores
          db.condominios head rest db.convidados
        ≡ guest ∷ others)
      × (length (active_guests db.moradores db.condominios head rest db.convidados)
          ≡ length (head ∷ rest))
      × Issued secret zones clock head rest guest rows created db'.convites
unfolding persist_batch
persist_batch-Issued secret zones clock head rest db created db' h =
    let (db1, verified, h1) = >>=-eq-ok (verify_token_secret secret db) _ h in
    let key = verify_token_secret_inv secret db db1 verified in
    let rows = release_digests secret clock (head ∷ rest) db.convites in
    let db2 : Database = record db {
      invitation_token_key = some secret.fingerprint;
      convites = rows;
    } in
    issue_to-Issued secret zones clock head rest
      (active_guests db.moradores db.condominios head rest db.convidados) db2 created db'
      (rw key at h1)
