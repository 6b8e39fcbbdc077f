-- ===== src/Recovery/Alerts.antt =====
-- The alert on events that are not settled in time (src/jobs/process-recovery-revocations.ts:
-- alertOverdueRecoveryRevocations).
use egogero.Common.{
  ℕ, ◌+◌, Bool, true, false, not, ◌&&◌, some, List, [], ◌∷◌, leb, if◌then◌else◌, is_none, length,
  select, update,
}
use egogero.Recovery.{RecoveryEvent, RecoveryStatus, acknowledged, earlier, sorted, up_to, among}

abbrev recovery_revocation_slo_ms : ℕ
recovery_revocation_slo_ms = 5_000

abbrev is_acknowledged : RecoveryStatus → Bool
is_acknowledged acknowledged = true
is_acknowledged _ = false

abbrev unalerted : ℕ → RecoveryEvent → Bool
unalerted now e =
    not (is_acknowledged e.status)
    && is_none e.slo_alerted_at
    && leb (e.created_at + recovery_revocation_slo_ms) now

abbrev alerted_as : ℕ → RecoveryEvent → RecoveryEvent
alerted_as now e = record e { slo_alerted_at = some now }

abbrev alert_rows : Bool → ℕ → List RecoveryEvent → List RecoveryEvent → ℕ × List RecoveryEvent
alert_rows sent now [] rows = (0, rows)
alert_rows false now (e ∷ chosen) rows = (0, rows)
alert_rows true now (e ∷ chosen) rows = (
  length (e ∷ chosen),
  update (λ r. among (e ∷ chosen) r && is_none r.slo_alerted_at) (alerted_as now) rows,
)

-- `acquired` is the advisory lock, and `sent` whether the sink of alerts throws nothing.
unfoldable pub alert_overdue_recovery_revocations :
    (acquired sent : Bool) → (read_at now : ℕ) → List RecoveryEvent → ℕ × List RecoveryEvent
alert_overdue_recovery_revocations acquired sent read_at now rows =
    if not acquired
    then (0, rows)
    else alert_rows sent now
        (up_to 100 (sorted (earlier (λ e. e.created_at)) (select (unalerted read_at) rows))) rows
