-- ===== src/AuthLimits/Reserve.antt =====
-- Reservations of a limit (src/auth-rate-limits.ts: reserve, finalize and cleanup), on the row and the
-- reservations of one action and subject.
pub mod Balance
mod Examples
use egogero.Common.{
  ℕ, zero, suc, ◌+◌, ◌-◌, ◌*◌, ◌/◌, ◌%◌, ◌^◌, ◌≤◌, ◌<◌, min, max, ◌≡◌, refl, sym, ap, subst, ◌∙◌,
  ◌≢◌, ◌↔◌, ◌⊎◌, inl, inr, Bool, true, false, not, ◌&&◌, ◌||◌, Option, none, some, List, [], ◌∷◌,
  ◌++◌, map, arith, ltb, leb, ◌==◌, if◌then◌else◌, ==_iff, ==_refl, ==_sym, Bool-cases,
  Option-cases, is, is_none, after, length, length-append, select, first, update, count, any, all,
  head?, count-append, count-le-length, contains, All, Memᴰ, first-mem, first_of-count, any-first,
  count-any, count-mem,
}
use egogero.AuthLimits.{Policy, Bucket, AuthRateLimitDecision, window_over, blocked_or}

pub record Reservation : Type 0 where
  pub id : ℕ
  pub expires_at : ℕ

pub record Ledger : Type 0 where
  pub bucket : Bucket
  pub reservations : List Reservation

-- INSERT ... ON CONFLICT DO NOTHING.
abbrev pub ensured : ℕ → Option Ledger → Ledger
ensured now none = record {
  bucket = record {
    window_started_at = now;
    count = 0;
    denied_count = 0;
    reserved_count = 0;
    blocked_until = none;
    updated_at = now;
  };
  reservations = [];
}
ensured now (some l) = l

abbrev pub reset : ℕ → Bucket → Bucket
reset now b = record {
  window_started_at = now;
  count = 0;
  denied_count = 0;
  reserved_count = 0;
  blocked_until = none;
  updated_at = now;
}

-- A window that is over takes its reservations with it.
abbrev pub renewed : Policy → ℕ → Ledger → Ledger
renewed p now l =
    if window_over p now l.bucket
    then record { bucket = reset now l.bucket; reservations = [] }
    else l

abbrev pub is_full : Policy → ℕ → Bucket → Bool
is_full p now b = after b.blocked_until now || leb p.limit (b.count + b.reserved_count)

abbrev pub denied_block : Policy → ℕ → Bucket → Option ℕ
denied_block p now b =
    if ltb 0 p.backoff_ms
    then some
        (min (b.window_started_at + p.window_ms) (now + 2 ^ min 4 b.denied_count * p.backoff_ms))
    else b.blocked_until

abbrev pub deny_call : Policy → ℕ → Bucket → Bucket
deny_call p now b = record b {
  denied_count = b.denied_count + 1;
  blocked_until = denied_block p now b;
  updated_at = now;
}

abbrev or_zero : Option ℕ → ℕ
or_zero none = 0
or_zero (some t) = t

abbrev denied_decision : Policy → ℕ → Bucket → AuthRateLimitDecision
denied_decision p now b = record {
  allowed = false;
  retry_after_seconds = min 3_600 (
      max 1
        ((max (b.window_started_at + p.window_ms) (or_zero b.blocked_until) - now + 999) / 1_000));
  repeated_excess = leb 3 b.denied_count;
}

abbrev granted_decision : AuthRateLimitDecision
granted_decision = record { allowed = true; retry_after_seconds = 0; repeated_excess = false }

abbrev pub book : Policy → ℕ → ℕ → Ledger → Ledger
book p id now l = record {
  bucket = record l.bucket { reserved_count = l.bucket.reserved_count + 1; updated_at = now };
  reservations =
      record { id = id; expires_at = l.bucket.window_started_at + p.window_ms } ∷ l.reservations;
}

-- From the row on, after it has been read and, where its window is over, reset.
abbrev pub reserve_in : Policy → ℕ → ℕ → Ledger → AuthRateLimitDecision × Ledger
reserve_in p id now l =
    if is_full p now l.bucket
    then (
      denied_decision p now (deny_call p now l.bucket),
      record l { bucket = deny_call p now l.bucket },
    )
    else (granted_decision, book p id now l)

pub reserve : Policy → ℕ → ℕ → Option Ledger → AuthRateLimitDecision × Ledger
reserve p id now l = reserve_in p id now (renewed p now (ensured now l))

abbrev pub has_id : ℕ → Reservation → Bool
has_id id r = r.id == id

abbrev pub consumes : Policy → Bool → ℕ → Reservation → Bucket → Bool
consumes p consume now r b = consume && ltb now r.expires_at && not (window_over p now b)

abbrev pub settle : Policy → ℕ → Bool → ℕ → Option Reservation → Ledger → Ledger
settle p id consume now none l = l
settle p id consume now (some r) l = record {
  bucket = record l.bucket {
    reserved_count = l.bucket.reserved_count - 1;
    count = l.bucket.count + (if consumes p consume now r l.bucket then 1 else 0);
    updated_at = now;
  };
  reservations = select (λ q. not (has_id id q)) l.reservations;
}

-- `GREATEST(0, "reservedCount" - 1)`; the outcome is consume or release.
pub finalize : Policy → ℕ → Bool → ℕ → Ledger → Ledger
finalize p id consume now l = settle p id consume now (first (has_id id) l.reservations) l

abbrev day_ms : ℕ
day_ms = 86_400_000

abbrev pub is_expired : ℕ → Reservation → Bool
is_expired now r = leb r.expires_at now

-- The reservations that are over are deleted, and the row that had some is updated.
abbrev pub released : ℕ → Ledger → Ledger
released now l = if count (is_expired now) l.reservations == 0 then l else record {
  bucket = record l.bucket {
    reserved_count = l.bucket.reserved_count - count (is_expired now) l.reservations;
    updated_at = now;
  };
  reservations = select (λ r. not (is_expired now r)) l.reservations;
}

-- A row that nothing changed for a day goes, with its reservations.
abbrev pub kept : ℕ → Ledger → Option Ledger
kept now l = if ltb (l.bucket.updated_at + day_ms) now then none else some l

-- `cleanup`, with the clock of its two statements.
unfoldable pub cleanup : (released_at now : ℕ) → Ledger → Option Ledger
cleanup released_at now l = kept now (released released_at l)
