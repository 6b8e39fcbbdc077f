-- ===== src/Invitation/Access/Examples.antt =====
-- An entry and a refusal at the gate.
use egogero.Common.{
  ℕ, ◌≤◌, ◌≡◌, refl, ◌≢◌, ◌⊎◌, true, false, not, ◌&&◌, none, some, [], ◌∷◌, arith, count,
}
use egogero.Invitation.Schema.{
  Convidado, Convite, Database, Result, ok, err, Token, verify_token_secret,
}
use egogero.Invitation.Access.{
  Event, ValidationResult, invalid_or_unavailable, entered, insert_audit, insert_audit_of, refuse,
  insert_entry_notification, event_of, admit, consume, select_active, validate_digest,
  validate_token, validate_access, human_ok, device_ok,
}
use egogero.Invitation.Sample.{secret, invitation, gate, by_device, at, ok_token}
use egogero.Invitation.Access.Outcome.{Entry}
use egogero.Invitation.Access.Admission.{validate_access-Entry}
use egogero.Invitation.Access.Refusal.{Refused, is_inactive, validate_access-Refused}
use egogero.Invitation.Access.SingleUse.{holds, total_entries, total_entries-le-one, token_spent}

abbrev bad_token : Token
bad_token = 9 ∷ []

abbrev result_of : Result (ValidationResult × Database) → ValidationResult
result_of (ok (r, db)) = r
result_of (err e) = invalid_or_unavailable

abbrev tables_of : Result (ValidationResult × Database) → Database
tables_of (ok (r, db)) = db
tables_of (err e) = gate

abbrev after_entry : Database
after_entry = tables_of (validate_access secret (by_device ok_token) at gate)

abbrev entry_event : Event
entry_event = event_of (by_device ok_token) invitation 102

let_in :
    validate_access secret (by_device ok_token) at gate
    ≡ ok (entered "Ana" entry_event, after_entry)
unfolding validate_access validate_token validate_digest select_active consume admit refuse
    insert_audit insert_audit_of insert_entry_notification verify_token_secret
let_in = refl

abbrev after_refusal : Database
after_refusal = tables_of (validate_access secret (by_device bad_token) at gate)

kept_out :
    validate_access secret (by_device bad_token) at gate
    ≡ ok (invalid_or_unavailable, after_refusal)
unfolding validate_access validate_token validate_digest select_active consume admit refuse
    insert_audit insert_audit_of insert_entry_notification verify_token_secret
kept_out = refl

validate_access-Entry_example :
    (human_ok none none 1 gate ≡ true)
    × ((true && not (device_ok (by_device ok_token) gate)) ≡ false)
    × ((token : Token) × (c : Convite) × (g : Convidado) × Entry secret
          (by_device ok_token)
          at
          gate
          "Ana"
          entry_event
          after_entry
          token
          c
          g)
validate_access-Entry_example =
    validate_access-Entry secret (by_device ok_token) at gate "Ana" entry_event after_entry let_in

-- A device that the table does not have is refused with nothing written.
inactive_device :
    validate_access secret (record (by_device ok_token) { device_id = some 999 }) at gate
    ≡ ok (invalid_or_unavailable, gate)
unfolding validate_access
inactive_device = refl

validate_access-Refused_example :
    ((is_inactive (by_device bad_token) gate ≡ false)
      × Refused (by_device bad_token) at gate after_refusal)
    ⊎ ((is_inactive (by_device bad_token) gate ≡ true) × (after_refusal ≡ gate))
validate_access-Refused_example =
    validate_access-Refused secret (by_device bad_token) at gate after_refusal kept_out

total_entries-le-one_example :
    total_entries secret 500 ((by_device ok_token, at) ∷ (by_device ok_token, at) ∷ []) gate ≤ 1
total_entries-le-one_example =
    total_entries-le-one secret 500 ((by_device ok_token, at) ∷ (by_device ok_token, at) ∷ []) gate
      (omega arith)

digests_unique : (digest : ℕ) → count (holds digest) gate.convites ≤ 1
digests_unique digest = ground arith

token_spent_example :
    validate_access secret (by_device ok_token) at after_entry
    ≢ ok (entered "Ana" entry_event, after_entry)
token_spent_example =
    token_spent secret (by_device ok_token) at gate "Ana" entry_event after_entry
      (by_device ok_token) at "Ana" entry_event after_entry digests_unique let_in refl
