-- ===== src/Invitation/Issue/Limit.antt =====
-- The daily limit of a resident.
use egogero.Common.{
  ℕ, suc, ◌≤◌, ◌<◌, ◌≡◌, refl, sym, ap, ◌∙◌, true, Option, none, some, List, [], ◌∷◌, map, arith,
  length, count, count-le-length,
}
use egogero.Invitation.Schema.{Convite, Database, ok, TokenSecret}
use egogero.Invitation.Issue.{
  Allocation, TimeZones, Clock, release_digests, ActiveGuest, active_guests, earliest_expiration,
  limit_of, counted, within_limit, new_row, persist_batch,
}
use egogero.Invitation.Issue.Steps.{insert_rows-Inserted, persist_batch-Issued}

length-map : {A B : Type 0} (f : A → B) (xs : List A) → length (map f xs) ≡ length xs
length-map f [] = refl
length-map f (x ∷ xs) = ap suc (length-map f xs)

-- No more than the limit, where there is one.
pub data IsWithin : Option ℕ → ℕ → Type 0 where
  unlimited : (n : ℕ) → IsWithin none n
  limited : (limit n : ℕ) → n ≤ limit → IsWithin (some limit) n

within_limit-IsWithin :
    (limit : Option ℕ) (m n : ℕ) → m ≤ n → within_limit limit n ≡ true → IsWithin limit m
within_limit-IsWithin none m n le h = IsWithin.unlimited m
within_limit-IsWithin (some k) m n le h = IsWithin.limited k m (ground arith)

-- After a batch has been issued, the resident has no more invitations created in the civil day
-- than the limit allows: the resident's own limit, or else the condominium's, as it stands with the
-- first of the guests; and every expiration was in the future.
pub persist_batch-IsWithin :
    (secret : TokenSecret) (zones : TimeZones) (clock : Clock) (head : Allocation)
    (rest : List Allocation) (db : Database) (created : List Convite) (db' : Database)
    → persist_batch secret zones clock head rest db ≡ ok (some created, db')
    → (guest : ActiveGuest) × (others : List ActiveGuest) × (active_guests db.moradores
          db.condominios head rest db.convidados
        ≡ guest ∷ others)
      × (length (active_guests db.moradores db.condominios head rest db.convidados)
          ≡ length created)
      × (clock.issued_at < earliest_expiration head.expires_at rest)
      × IsWithin (limit_of guest) (
          count
            (counted head
              (zones.day_start guest.timezone clock.issued_at)
              (zones.day_end guest.timezone clock.issued_at))
            db'.convites)
persist_batch-IsWithin secret zones clock head rest db created db' h =
    let rows = release_digests secret clock (head ∷ rest) db.convites in
    let (guest, others, found, enough, issued) =
      persist_batch-Issued secret zones clock head rest db created db' h in
    let (made, counts, _, _) =
      insert_rows-Inserted secret clock.issued_at (head ∷ rest) rows created db'.convites
        issued.inserted in
    let today =
      counted head (zones.day_start guest.timezone clock.issued_at)
        (zones.day_end guest.timezone clock.issued_at) in
    let size : length created ≡ length (head ∷ rest) =
      ap length made ∙ length-map (new_row secret clock.issued_at) (head ∷ rest) in
    (
      guest,
      others,
      found,
      enough ∙ sym size,
      issued.in_future,
      within_limit-IsWithin (limit_of guest) _ _
          (omega (arith, counts today, count-le-length today created, size)) issued.limited,
    )
