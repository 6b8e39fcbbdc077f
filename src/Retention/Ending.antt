-- ===== src/Retention/Ending.antt =====
-- The job ends; what it does to the guests' rows, and what it counts.
use egogero.Common.{
  ℕ, zero, suc, ◌+◌, ◌≤◌, ◌<◌, ◌≡◌, refl, ◌⊎◌, inl, inr, Bool, Option, some, List, [], ◌∷◌, arith,
  ◌==◌, ==_iff, Bool-cases, is_none, update, count, select,
}
use egogero.Retention.{
  Guest, RetentionTables, chosen_guest, anonymized, guest_candidates, anonymize_old_guest_data,
  count_eligible_guests, Locks, run_batches, JobOutcome, finished, left_eligible,
  run_anonymization_job, names_one,
}
use egogero.Retention.Forgets.{
  Cleans, Cleans-trans, update-Forgets, update-Notes, chosen-Hides, select-there,
}

abbrev is_undated : Guest → Bool
is_undated g = is_none g.anonymized_at

-- The guests without a date of anonymization.
abbrev pub undated_guests : RetentionTables → ℕ
undated_guests db = count is_undated db.guests

count-anonymized :
    (candidates : List Guest) (now : ℕ) (rows : List Guest)
    → count (chosen_guest candidates) rows
        + count is_undated (update (chosen_guest candidates) (anonymized now) rows)
      ≡ count is_undated rows
count-anonymized candidates now [] = refl
count-anonymized candidates now (g ∷ rows) = ground (arith, count-anonymized candidates now rows)

batch-undated :
    (locked : ℕ → Bool) (batch cutoff now : ℕ) (db : RetentionTables)
    → (anonymize_old_guest_data locked batch cutoff now db).0
        + undated_guests (anonymize_old_guest_data locked batch cutoff now db).1
      ≡ undated_guests db
unfolding anonymize_old_guest_data
batch-undated locked batch cutoff now db =
    count-anonymized (guest_candidates locked batch cutoff db) now db.guests

batch-Cleans :
    (locked : ℕ → Bool) (batch cutoff now : ℕ) (db : RetentionTables)
    → Cleans now db (anonymize_old_guest_data locked batch cutoff now db).1
unfolding anonymize_old_guest_data
batch-Cleans locked batch cutoff now db =
    let chosen = chosen_guest (guest_candidates locked batch cutoff db) in
    (
      update-Forgets (guest_candidates locked batch cutoff db) now _ db.guests (λ g m hit.
          chosen-Hides (select chosen db.guests) db.notifications g
            (select-there chosen db.guests m hit)),
      update-Notes (names_one (select chosen db.guests)) db.notifications,
    )

record IsFinal (now total : ℕ) (db : RetentionTables) (answer : Option (ℕ × RetentionTables))
    : Type 0 where
  counted : ℕ
  left : RetentionTables
  reached : answer ≡ some (counted, left)
  accounted : counted + undated_guests left ≡ total + undated_guests db
  cleans : Cleans now db left

run_batches-IsFinal :
    (fuel : ℕ) (locks : Locks) (batch cutoff now total : ℕ) (db : RetentionTables)
    → undated_guests db < fuel
    → 1 ≤ batch
    → IsFinal now total db (run_batches fuel locks batch cutoff now total db)
unfolding run_batches
run_batches-IsFinal zero locks batch cutoff now total db enough some_batch = absurd (omega arith)
run_batches-IsFinal (suc fuel) locks batch cutoff now total db enough some_batch =
    let answer = anonymize_old_guest_data (locks fuel) batch cutoff now db in
    let balance = batch-undated (locks fuel) batch cutoff now db in
    elim (Bool-cases (answer.0 == batch)) [
      | inl full ↦
          let same = (==_iff answer.0 batch).0 full in
          let rest =
            run_batches-IsFinal fuel locks batch cutoff now (total + answer.0) answer.1
              (omega arith) some_batch in
          record {
            counted = rest.counted;
            left = rest.left;
            reached = rw full rest.reached;
            accounted = omega (arith, rest.accounted, balance);
            cleans =
                Cleans-trans now db answer.1 rest.left
                  (batch-Cleans (locks fuel) batch cutoff now db) rest.cleans;
          }
      | inr last ↦ record {
        counted = total + answer.0;
        left = answer.1;
        reached = rw last refl;
        accounted = omega (arith, balance);
        cleans = batch-Cleans (locks fuel) batch cutoff now db;
      }
    ]

-- The job's outcome: each guest is as before or has lost name, email and telephone, also in its
-- notifications, the count is the number of the latter, and the job ends without an error exactly
-- where no eligible guest is left.
pub record IsEnd (cutoff now : ℕ) (db : RetentionTables) (answer : Option JobOutcome) : Type 0 where
  pub counted : ℕ
  pub left : RetentionTables
  pub accounted : counted + undated_guests left ≡ undated_guests db
  pub cleans : Cleans now db left
  pub ended :
      ((answer ≡ some (finished counted left)) × (count_eligible_guests cutoff left ≡ 0))
      ⊎ ((answer ≡ some (left_eligible (count_eligible_guests cutoff left) left))
          × (0 < count_eligible_guests cutoff left))

-- On more fuel than there are guests without a date of anonymization, and with batches of one guest
-- or more, the job ends whatever is locked. Each guest's row is as before, or it had no such date
-- and now has it, the neutral name, and neither email nor telephone, and every notification about
-- it has the neutral name and message; each notification is as before or so neutral. The job counts
-- exactly the guests of the second kind, and it either leaves no eligible guest or throws since
-- some are left.
pub run_anonymization_job-IsEnd :
    (fuel : ℕ) (locks : Locks) (batch cutoff now : ℕ) (db : RetentionTables)
    → undated_guests db < fuel
    → 1 ≤ batch
    → IsEnd cutoff now db (run_anonymization_job fuel locks batch cutoff now db)
unfolding run_anonymization_job
run_anonymization_job-IsEnd fuel locks batch cutoff now db enough some_batch =
    let final = run_batches-IsFinal fuel locks batch cutoff now 0 db enough some_batch in
    record {
      counted = final.counted;
      left = final.left;
      accounted = omega (arith, final.accounted);
      cleans = final.cleans;
      ended = elim (Bool-cases (count_eligible_guests cutoff final.left == 0)) [
        | inl clean ↦ inl (rw (final.reached, clean) refl, (==_iff _ 0).0 clean)
        | inr dirty ↦ inr (
          rw (final.reached, dirty) refl,
          ground (arith, dirty, ==_iff (count_eligible_guests cutoff final.left) 0),
        )
      ];
    }
