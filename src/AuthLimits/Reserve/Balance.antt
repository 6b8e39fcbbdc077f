-- ===== src/AuthLimits/Reserve/Balance.antt =====
-- What is reserved and what is counted stay within the limit.
use egogero.Common.{
  ℕ, ◌+◌, ◌≤◌, ◌≡◌, refl, inl, inr, Bool, subst, ltb, ◌==◌, not, Option, none, some, List, [], ◌∷◌,
  arith, Bool-cases, length, select, first, count, count-le-length, first-mem, count-mem,
}
use mathlib.Core.Option.{some-injective}
use egogero.AuthLimits.{Policy, window_over}
use egogero.AuthLimits.Reserve.{
  Reservation, Ledger, ensured, renewed, is_full, reserve_in, reserve, has_id, settle, finalize,
  is_expired, released, cleanup,
}

-- The counter of reservations is their number, no two have one identifier, and with the calls that
-- are counted they stay within the limit.
pub record IsBalanced (p : Policy) (l : Ledger) : Type 0 where
  pub reserved : l.bucket.reserved_count ≡ length l.reservations
  pub within : l.bucket.count + l.bucket.reserved_count ≤ p.limit
  pub unique : (id : ℕ) → count (has_id id) l.reservations ≤ 1

renewed-IsBalanced :
    (p : Policy) (now : ℕ) (l : Ledger) → IsBalanced p l → IsBalanced p (renewed p now l)
renewed-IsBalanced p now l good = elim (Bool-cases (window_over p now l.bucket)) [
  | inl over ↦
      rw over (record { reserved = refl; within = omega arith; unique = λ id. omega arith })
  | inr running ↦ rw running good
]

renewed-fresh :
    (p : Policy) (now id : ℕ) (l : Ledger)
    → count (has_id id) l.reservations ≡ 0
    → count (has_id id) (renewed p now l).reservations ≡ 0
renewed-fresh p now id l h = elim (Bool-cases (window_over p now l.bucket)) [
  | inl over ↦ rw over refl
  | inr running ↦ rw running h
]

reserve_in-IsBalanced :
    (p : Policy) (id now : ℕ) (l : Ledger)
    → IsBalanced p l
    → count (has_id id) l.reservations ≡ 0
    → IsBalanced p (reserve_in p id now l).1
reserve_in-IsBalanced p id now l good unknown = elim (Bool-cases (is_full p now l.bucket)) [
  | inl full ↦
      rw full (record { reserved = good.reserved; within = good.within; unique = good.unique })
  | inr room ↦ rw room (record {
    reserved = omega (arith, good.reserved);
    within = ground (arith, room);
    unique = λ other. ground (arith, good.unique other, unknown);
  })
]

-- A reservation under a new identifier keeps the balance, granted or denied, in a running window or
-- a new one.
pub reserve-IsBalanced :
    (p : Policy) (id now : ℕ) (l : Ledger)
    → IsBalanced p l
    → count (has_id id) l.reservations ≡ 0
    → IsBalanced p (reserve p id now (some l)).1
unfolding reserve
reserve-IsBalanced p id now l good unknown =
    reserve_in-IsBalanced p id now (renewed p now l) (renewed-IsBalanced p now l good)
      (renewed-fresh p now id l unknown)

length-select :
    (p : Reservation → Bool) (rs : List Reservation)
    → length (select (λ q. not (p q)) rs) + count p rs ≡ length rs
length-select p [] = refl
length-select p (r ∷ rs) = ground (arith, length-select p rs)

count-select :
    (p : Reservation → Bool) (other : ℕ) (rs : List Reservation)
    → count (has_id other) (select (λ q. not (p q)) rs) ≤ count (has_id other) rs
count-select p other [] = omega arith
count-select p other (r ∷ rs) = ground (arith, count-select p other rs)

settle-IsBalanced :
    (p : Policy) (id : ℕ) (consume : Bool) (now : ℕ) (r : Option Reservation) (l : Ledger)
    → first (has_id id) l.reservations ≡ r
    → IsBalanced p l
    → IsBalanced p (settle p id consume now r l)
settle-IsBalanced p id consume now none l found good = good
settle-IsBalanced p id consume now (some r) l found good =
    let (m, hit) = first-mem (has_id id) l.reservations found in
    let some_there = count-mem (has_id id) m hit in
    record {
      reserved = omega (
        arith,
        good.reserved,
        length-select (has_id id) l.reservations,
        good.unique id,
        some_there,
      );
      within = ground (
        arith,
        good.within,
        good.reserved,
        some_there,
        count-le-length (has_id id) l.reservations,
      );
      unique =
          λ other. omega (arith, good.unique other, count-select (has_id id) other l.reservations);
    }

-- Settling a reservation, known or not, consumed or released, in time or late, keeps the balance.
pub finalize-IsBalanced :
    (p : Policy) (id : ℕ) (consume : Bool) (now : ℕ) (l : Ledger)
    → IsBalanced p l
    → IsBalanced p (finalize p id consume now l)
unfolding finalize
finalize-IsBalanced p id consume now l good =
    settle-IsBalanced p id consume now (first (has_id id) l.reservations) l refl good

-- The cleanup keeps the balance of the row that it leaves.
released-IsBalanced :
    (p : Policy) (now : ℕ) (l : Ledger) → IsBalanced p l → IsBalanced p (released now l)
released-IsBalanced p now l good = elim (Bool-cases (count (is_expired now) l.reservations == 0)) [
  | inl no_one ↦ rw no_one good
  | inr some_over ↦ rw some_over (record {
    reserved = omega (arith, good.reserved, length-select (is_expired now) l.reservations);
    within = omega (arith, good.within);
    unique = λ other.
        omega (arith, good.unique other, count-select (is_expired now) other l.reservations);
  })
]

cleanup-IsBalanced :
    (p : Policy) (released_at now : ℕ) (l l' : Ledger)
    → cleanup released_at now l ≡ some l'
    → IsBalanced p l
    → IsBalanced p l'
unfolding cleanup
cleanup-IsBalanced p released_at now l l' e good =
    elim (Bool-cases (ltb ((released released_at l).bucket.updated_at + 86_400_000) now)) [
      | inl old ↦ absurd (cc (rw old at e))
      | inr recent ↦
          subst (IsBalanced p) (some-injective _ _ (rw recent at e))
            (released-IsBalanced p released_at l good)
    ]

first_of-none :
    (id : ℕ) (rs : List Reservation) → first (has_id id) (select (λ q. not (has_id id q)) rs) ≡ none
first_of-none id [] = refl
first_of-none id (r ∷ rs) = ground (arith, first_of-none id rs)

settled :
    (p : Policy) (id : ℕ) (consume : Bool) (now : ℕ) (r : Option Reservation) (l : Ledger)
    → first (has_id id) l.reservations ≡ r
    → first (has_id id) (settle p id consume now r l).reservations ≡ none
settled p id consume now none l found = found
settled p id consume now (some r) l found = first_of-none id l.reservations

-- A reservation is settled once: whatever the second outcome and its time, it changes nothing.
pub finalize-finalize :
    (p : Policy) (id : ℕ) (consume again : Bool) (now later : ℕ) (l : Ledger)
    → finalize p id again later (finalize p id consume now l) ≡ finalize p id consume now l
unfolding finalize
finalize-finalize p id consume again now later l =
    rw (settled p id consume now (first (has_id id) l.reservations) l refl) refl

-- The ledgers that reservations under new identifiers, settlements and cleanups reach.
pub data Reached (p : Policy) : Ledger → Type 0 where
  opens : (id now : ℕ) → Reached p (reserve p id now none).1
  reserves :
      {l : Ledger}
      → Reached p l
      → (id now : ℕ) → count (has_id id) l.reservations ≡ 0
      → Reached p (reserve p id now (some l)).1
  finalizes :
      {l : Ledger}
      → Reached p l
      → (id : ℕ) (consume : Bool) (now : ℕ) → Reached p (finalize p id consume now l)
  cleans :
      {l l' : Ledger}
      → Reached p l
      → (released_at now : ℕ) → cleanup released_at now l ≡ some l'
      → Reached p l'

opens-IsBalanced : (p : Policy) (id now : ℕ) → IsBalanced p (reserve p id now none).1
unfolding reserve
opens-IsBalanced p id now =
    let empty : Ledger = ensured now none in
    let good : IsBalanced p empty = record {
      reserved = refl;
      within = omega arith;
      unique = λ other. omega arith;
    } in
    reserve_in-IsBalanced p id now (renewed p now empty) (renewed-IsBalanced p now empty good)
      (renewed-fresh p now id empty refl)

-- However reservations under new identifiers, settlements and cleanups follow each other, and
-- whatever the clock reads, the calls reserved and counted stay within the limit, the counter is the
-- number of reservations, and no two have one identifier.
pub Reached-IsBalanced : (p : Policy) (l : Ledger) → Reached p l → IsBalanced p l
Reached-IsBalanced p l (Reached.opens id now) = opens-IsBalanced p id now
Reached-IsBalanced p l (Reached.reserves {l = before} reached id now unknown) =
    reserve-IsBalanced p id now before (Reached-IsBalanced p before reached) unknown
Reached-IsBalanced p l (Reached.finalizes {l = before} reached id consume now) =
    finalize-IsBalanced p id consume now before (Reached-IsBalanced p before reached)
Reached-IsBalanced p l (Reached.cleans {l = before} reached released_at now e) =
    cleanup-IsBalanced p released_at now before l e (Reached-IsBalanced p before reached)
