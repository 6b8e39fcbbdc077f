-- ===== src/Retention.antt =====
-- The job that anonymizes guests whose invitations are long over (src/jobs/anonymize-old-guests.ts:
-- anonymizeOldGuestData, countEligibleGuests and runAnonymizationJob), on the columns that it reads
-- and writes. The cutoff, a date that many months before now, is an argument.
pub mod Forgets
pub mod Ending
mod Examples
use egogero.Common.{
  ℕ, zero, suc, ◌+◌, ◌-◌, ◌*◌, ◌/◌, ◌%◌, ◌^◌, ◌≤◌, ◌<◌, min, max, ◌≡◌, refl, sym, ap, subst, ◌∙◌,
  ◌≢◌, ◌↔◌, ◌⊎◌, inl, inr, Bool, true, false, not, ◌&&◌, ◌||◌, Option, none, some, List, [], ◌∷◌,
  ◌++◌, map, arith, ltb, leb, ◌==◌, if◌then◌else◌, ==_iff, ==_refl, ==_sym, Bool-cases,
  Option-cases, is, is_none, after, length, length-append, select, first, update, count, any, all,
  head?, count-append, count-le-length, contains, All, Memᴰ, first-mem, first_of-count, any-first,
  count-any, count-mem,
}
use Prim.Native.String.{String}

pub record Guest : Type 0 where
  pub id : ℕ
  pub condominio_id : ℕ
  pub created_at : ℕ
  pub nome : String
  pub email : Option String
  pub telefone : Option String
  pub anonymized_at : Option ℕ

pub record GuestInvitation : Type 0 where
  pub convidado_id : Option ℕ
  pub condominio_id : ℕ
  pub expires_at : Option ℕ

pub record GuestNotification : Type 0 where
  pub convidado_id : Option ℕ
  pub nome_convidado : String
  pub mensagem : String

pub record RetentionTables : Type 0 where
  pub guests : List Guest
  pub invitations : List GuestInvitation
  pub notifications : List GuestNotification

abbrev pub anonymized_guest_name : String
anonymized_guest_name = "Convidado anonimizado"

abbrev pub anonymized_entry_message : String
anonymized_entry_message = "Visitante anonimizado entrou no condomínio"

abbrev pub invited_with : Guest → GuestInvitation → Bool
invited_with g i = is i.convidado_id g.id && i.condominio_id == g.condominio_id

-- An invitation without an end, or with one after the cutoff.
abbrev pub outlasts : ℕ → GuestInvitation → Bool
outlasts cutoff i = is_none i.expires_at || after i.expires_at cutoff

abbrev pub is_over : ℕ → List GuestInvitation → Guest → Bool
is_over cutoff invitations g =
    let invited = any (invited_with g) invitations in
    (invited && not (any (λ i. invited_with g i && outlasts cutoff i) invitations))
    || (leb g.created_at cutoff && not invited)

abbrev pub is_eligible : ℕ → List GuestInvitation → Guest → Bool
is_eligible cutoff invitations g = is_none g.anonymized_at && is_over cutoff invitations g

abbrev pub insert_guest : Guest → List Guest → List Guest
insert_guest g [] = g ∷ []
insert_guest g (h ∷ rows) =
    let later = h ∷ insert_guest g rows in if leb g.id h.id then g ∷ h ∷ rows else later

abbrev pub by_id : List Guest → List Guest
by_id [] = []
by_id (g ∷ rows) = insert_guest g (by_id rows)

abbrev pub first_guests : ℕ → List Guest → List Guest
first_guests zero rows = []
first_guests (suc n) [] = []
first_guests (suc n) (g ∷ rows) = g ∷ first_guests n rows

-- `locked` are the guests that another transaction holds, which SKIP LOCKED leaves out.
unfoldable pub guest_candidates : (ℕ → Bool) → (batch cutoff : ℕ) → RetentionTables → List Guest
guest_candidates locked batch cutoff db =
    first_guests batch
      (by_id (select (λ g. is_eligible cutoff db.invitations g && not (locked g.id)) db.guests))

abbrev pub chosen_guest : List Guest → Guest → Bool
chosen_guest candidates g = any (λ c. c.id == g.id) candidates && is_none g.anonymized_at

abbrev pub anonymized : ℕ → Guest → Guest
anonymized now g = record g {
  nome = anonymized_guest_name;
  email = none;
  telefone = none;
  anonymized_at = some now;
}

abbrev pub names_one : List Guest → GuestNotification → Bool
names_one rows n = any (λ g. is n.convidado_id g.id) rows

abbrev pub neutral : GuestNotification → GuestNotification
neutral n = record n { nome_convidado = anonymized_guest_name; mensagem = anonymized_entry_message }

-- One transaction: how many guests it anonymizes, and the tables.
unfoldable pub anonymize_old_guest_data :
    (ℕ → Bool) → (batch cutoff now : ℕ) → RetentionTables → ℕ × RetentionTables
anonymize_old_guest_data locked batch cutoff now db =
    let candidates = guest_candidates locked batch cutoff db in
    (
      count (chosen_guest candidates) db.guests,
      record db {
        guests = update (chosen_guest candidates) (anonymized now) db.guests;
        notifications =
            update (names_one (select (chosen_guest candidates) db.guests)) neutral
              db.notifications;
      },
    )

unfoldable pub count_eligible_guests : ℕ → RetentionTables → ℕ
count_eligible_guests cutoff db = count (is_eligible cutoff db.invitations) db.guests

-- What is locked at each batch, by the batches that the fuel leaves.
abbrev pub Locks : Type 0
Locks = ℕ → ℕ → Bool

abbrev pub again :
    Bool → (ℕ × RetentionTables) → Option (ℕ × RetentionTables) → Option (ℕ × RetentionTables)
again true done rest = rest
again false done rest = some done

-- The loop of batches until one is not full, on fuel.
unfoldable pub run_batches :
    ℕ → Locks → (batch cutoff now : ℕ) → ℕ → RetentionTables → Option (ℕ × RetentionTables)
run_batches zero locks batch cutoff now total db = none
run_batches (suc fuel) locks batch cutoff now total db =
    let answer = anonymize_old_guest_data (locks fuel) batch cutoff now db in
    let rest = run_batches fuel locks batch cutoff now (total + answer.0) answer.1 in
    again (answer.0 == batch) (total + answer.0, answer.1) rest

-- The job ends, or throws since eligible guests are left that were locked.
pub data JobOutcome : Type 0 where
  finished left_eligible : ℕ → RetentionTables → JobOutcome

abbrev pub job_outcome : ℕ → Option (ℕ × RetentionTables) → Option JobOutcome
job_outcome cutoff none = none
job_outcome cutoff (some (total, db)) =
    if count_eligible_guests cutoff db == 0
    then some (finished total db)
    else some (left_eligible (count_eligible_guests cutoff db) db)

unfoldable pub run_anonymization_job :
    (fuel : ℕ) → Locks → (batch cutoff now : ℕ) → RetentionTables → Option JobOutcome
run_anonymization_job fuel locks batch cutoff now db =
    job_outcome cutoff (run_batches fuel locks batch cutoff now 0 db)
