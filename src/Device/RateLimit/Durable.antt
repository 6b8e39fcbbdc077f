-- ===== src/Device/RateLimit/Durable.antt =====
-- The limiter on a table does what the one in memory does, for the devices that exist.
use egogero.Common.{
  ℕ, ◌≡◌, refl, sym, ap, subst, ◌∙◌, ◌⊎◌, inl, inr, Bool, true, false, Option, some, none, arith,
  ◌==◌, ==_iff, if◌then◌else◌, Bool-cases,
}
use egogero.Device.RateLimit.{
  RateLimitResult, Limits, RateLimitRow, RateLimitTable, passes_checks, inserted_row, row_limits,
  limits_row, decided_row, locked_row, States, state_of, or_fresh, fresh, consume, consume_row,
  rate_limit_decision,
}
use egogero.Device.RateLimit.Bounds.{IsBounded, fresh-IsBounded, rate_limit_decision-IsBounded}

abbrev as_limits : Option RateLimitRow → Option Limits
as_limits none = none
as_limits (some row) = some (row_limits row)

-- What the limiter in memory keeps, for the rows of a table.
abbrev pub states_of : RateLimitTable → States
states_of rows device = as_limits (rows device)

-- The row of a device satisfies the constraints of its table: the CHECKs and the foreign key.
abbrev pub IsSoundRow : Bool → Option RateLimitRow → Type 0
IsSoundRow known none = Unit
IsSoundRow known (some row) = (known ≡ true) × (passes_checks row ≡ true)

-- What a call on the table leaves and answers, by the call in memory.
pub record IsSameCall (known : ℕ → Bool) (rows : RateLimitTable) (device now other : ℕ)
    : Type 0 where
  pub exists : known device ≡ true
  pub result : (consume_row known rows device now).0 ≡ some (consume (states_of rows) device now).0
  pub left :
      states_of (consume_row known rows device now).1 other
      ≡ (consume (states_of rows) device now).1 other
  pub sound : IsSoundRow (known other) ((consume_row known rows device now).1 other)

pub record IsFailedCall (known : ℕ → Bool) (rows : RateLimitTable) (device now other : ℕ)
    : Type 0 where
  pub unknown : known device ≡ false
  pub missing : rows device ≡ none
  pub failed : (consume_row known rows device now).0 ≡ none
  pub kept : (consume_row known rows device now).1 other ≡ rows other

passes_checks-IsBounded :
    (row : RateLimitRow) → passes_checks row ≡ true → IsBounded (row_limits row)
passes_checks-IsBounded row h = ground (arith, h)

IsBounded-passes_checks : (s : Limits) → IsBounded s → passes_checks (limits_row s) ≡ true
IsBounded-passes_checks s h = ground (arith, h.few, h.level)

decided_row-passes :
    (rows : RateLimitTable) (device : ℕ) (d : RateLimitResult × Limits)
    → passes_checks (limits_row d.1) ≡ true
    → decided_row rows device d
      ≡ (some d.0, λ other. if other == device then some (limits_row d.1) else rows other)
decided_row-passes rows device (result, next) ok = rw ok refl

module _ (known : ℕ → Bool) (rows : RateLimitTable) (device now other : ℕ)
    (sound : IsSoundRow (known other) (rows other)) where
  -- The row after the decision, where the state before it is bounded and that of the device.
  decided-IsSameCall :
      (s : Limits)
      → known device ≡ true
      → IsBounded s
      → state_of (states_of rows) device ≡ s
      → consume_row known rows device now ≡ decided_row rows device (rate_limit_decision s now)
      → IsSameCall known rows device now other
  unfolding consume
  decided-IsSameCall s there bounded same run =
      let d = rate_limit_decision s now in
      let ok = IsBounded-passes_checks d.1 (rate_limit_decision-IsBounded s now bounded) in
      let e = run ∙ decided_row-passes rows device d ok in
      record {
        exists = there;
        result = ap (λ x. x.0) e ∙ ap (λ s. some (rate_limit_decision s now).0) (sym same);
        left = ap (λ x. states_of x.1 other) e ∙ elim (Bool-cases (other == device)) [
          | inl hit ↦ rw hit (ap (λ s. some (rate_limit_decision s now).1) (sym same))
          | inr apart ↦ rw apart refl
        ];
        sound =
            subst (λ x. IsSoundRow (known other) (x.1 other)) (sym e)
              (elim (Bool-cases (other == device)) [
                | inl hit ↦ simp hit (ap known ((==_iff other device).0 hit) ∙ there, ok)
                | inr apart ↦ simp apart sound
              ]);
      }

  found-call :
      (exists : Bool) (row : Option RateLimitRow)
      → known device ≡ exists
      → rows device ≡ row
      → IsSoundRow exists row
      → consume_row known rows device now ≡ locked_row rows device now (inserted_row exists row)
      → IsSameCall known rows device now other ⊎ IsFailedCall known rows device now other
  found-call exists (some row) there found (is_known, checked) run = inl (
      decided-IsSameCall (row_limits row) (there ∙ is_known) (passes_checks-IsBounded row checked)
        (ap (λ o. or_fresh (as_limits o)) found) run)
  found-call true none there found h run =
      inl (
        decided-IsSameCall fresh there fresh-IsBounded (ap (λ o. or_fresh (as_limits o)) found) run)
  found-call false none there found h run = inr (record {
    unknown = there;
    missing = found;
    failed = ap (λ x. x.0) run;
    kept = ap (λ x. x.1 other) run;
  })

-- On rows that satisfy the constraints of the table, a call for a device that exists gives the
-- result of the limiter in memory and leaves what it leaves for every device, in rows that satisfy
-- the constraints again; a call for a device that does not exist, which has no row, fails and
-- leaves every row as it is.
pub consume_row-consume :
    (known : ℕ → Bool) (rows : RateLimitTable) (device now other : ℕ)
    → IsSoundRow (known device) (rows device)
    → IsSoundRow (known other) (rows other)
    → IsSameCall known rows device now other ⊎ IsFailedCall known rows device now other
unfolding consume_row
consume_row-consume known rows device now other own sound =
    found-call known rows device now other sound (known device) (rows device) refl refl own refl
