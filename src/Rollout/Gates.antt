-- ===== src/Rollout/Gates.antt =====
-- What the gates answer over a whole table of policies (humanAuthRolloutGate).
use egogero.Common.{
  ℕ, ◌≡◌, refl, sym, ◌∙◌, inl, inr, Bool, true, false, not, ◌&&◌, ◌||◌, Option, none, some, List,
  [], ◌∷◌, ◌++◌, arith, Bool-cases, Option-cases, select, first, any, head?,
}
use egogero.Auth.{is_provedor}
use egogero.Invitation.Schema.{HumanMembership}
use egogero.Rollout.{
  disabled, PolicyRow, TenantDigest, RolloutTables, is_global, is_tenant, ProvisioningInvitation,
  policy_allows, effective_decision, global_policy, locked_policies, evaluate, gate_identity,
  gate_membership, preflight_global, preflight_invitation, first_allowed, providers_first,
  or_denied, active_of, gate_target, gate_invited, Reason, global_scope, tenant_scope,
}

-- The policy that switches the feature off: the global one is missing or disabled.
pub data SwitchedOff (policies : List PolicyRow) : Type 0 where
  unset : global_policy policies ≡ none → SwitchedOff policies
  disabled_row :
      (g : PolicyRow) → global_policy policies ≡ some g → g.state ≡ disabled → SwitchedOff policies

module _ {A : Type 0} (p : A → Bool) where
  first-select : (xs : List A) → first p (select p xs) ≡ first p xs
  first-select [] = refl
  first-select (x ∷ xs) = ground (arith, first-select xs)

  first-append : (xs ys : List A) → first p xs ≡ none → first p (xs ++ ys) ≡ first p ys
  first-append [] ys h = refl
  first-append (x ∷ xs) ys h = ground (arith, first-append xs ys)

  first-append_found : (xs ys : List A) (a : A) → first p xs ≡ some a → first p (xs ++ ys) ≡ some a
  first-append_found [] ys a h = absurd (cc)
  first-append_found (x ∷ xs) ys a h = ground (arith, first-append_found xs ys a)

  first-select_disjoint :
      (q : A → Bool)
      → ((a : A) → q a ≡ true → p a ≡ false)
      → (xs : List A) → first p (select q xs) ≡ none
  first-select_disjoint q apart [] = refl
  first-select_disjoint q apart (x ∷ xs) = ground (arith, apart x, first-select_disjoint q apart xs)

  head-select : (xs : List A) → head? (select p xs) ≡ first p xs
  head-select [] = refl
  head-select (x ∷ xs) = ground (arith, head-select xs)

apart : (t : ℕ) (p : PolicyRow) → is_tenant t p.scope ≡ true → is_global p.scope ≡ false
apart t p h =
    elim p.scope as (λ s. is_tenant t s ≡ true → is_global s ≡ false) [
      | global_scope ↦ λ e. absurd (cc)
      | tenant_scope id ↦ λ e. refl
    ]
      h

-- The rows that are locked decide as the whole table does.
locked-global :
    (tenant : Option ℕ) (policies : List PolicyRow)
    → global_policy (locked_policies tenant policies) ≡ global_policy policies
unfolding locked_policies
locked-global none policies = first-select (λ p. is_global p.scope) policies
locked-global (some t) policies =
    let own = select (λ p. is_tenant t p.scope) policies in
    let shared = select (λ p. is_global p.scope) policies in
    elim (Option-cases (first (λ p. is_global p.scope) shared)) [
      | inl none_there ↦
          first-append (λ p. is_global p.scope) shared own none_there
          ∙ first-select_disjoint (λ p. is_global p.scope) (λ p. is_tenant t p.scope) (apart t)
              policies
          ∙ sym none_there
          ∙ first-select (λ p. is_global p.scope) policies
      | inr (g, there) ↦
          first-append_found (λ p. is_global p.scope) shared own g there
          ∙ sym there
          ∙ first-select (λ p. is_global p.scope) policies
    ]

-- With the feature switched off, no evaluation allows anything, a provider's included.
evaluate_off :
    (digest : TenantDigest) (policies : List PolicyRow) (tenant : Option ℕ) (provider : Bool)
    → SwitchedOff policies
    → (evaluate digest policies tenant provider).allowed ≡ false
unfolding evaluate effective_decision policy_allows
evaluate_off digest policies tenant provider (SwitchedOff.unset e) =
    rw (locked-global tenant policies, e) refl
evaluate_off digest policies tenant provider (SwitchedOff.disabled_row g e s) =
    rw (locked-global tenant policies, e, s) refl

module _ (digest : TenantDigest) (policies : List PolicyRow) where
  abbrev pub allows : HumanMembership → Bool
  allows m = (evaluate digest policies m.condominio_id (is_provedor m.role)).allowed

  first_allowed-any :
      (ms whole : List HumanMembership)
      → (or_denied (first_allowed digest policies ms) whole).allowed ≡ any allows ms
  unfolding first_allowed
  first_allowed-any [] [] = refl
  first_allowed-any [] (m ∷ ms) = refl
  first_allowed-any (m ∷ ms) whole = elim (Bool-cases (allows m)) [
    | inl yes_it_is ↦ rw yes_it_is refl
    | inr denied ↦ rw denied (first_allowed-any ms whole)
  ]

any-append : {A : Type 0} (p : A → Bool) (xs ys : List A) → any p (xs ++ ys) ≡ any p xs || any p ys
any-append p [] ys = refl
any-append p (x ∷ xs) ys = ground (arith, any-append p xs ys)

any-split :
    {A : Type 0} (p q r : A → Bool) (xs : List A)
    → (any p (select (λ x. q x && r x) xs) || any p (select (λ x. q x && not (r x)) xs))
      ≡ any (λ x. q x && p x) xs
any-split p q r [] = refl
any-split p q r (x ∷ xs) = ground (arith, any-split p q r xs)

-- An account is let in exactly when one of its active memberships is allowed, whatever their order.
pub gate_identity-any :
    (digest : TenantDigest) (db : RolloutTables) (account : ℕ)
    → (gate_identity digest db account).allowed
      ≡ any (λ m. active_of account m && allows digest db.policies m) db.memberships
unfolding gate_identity
gate_identity-any digest db account =
    let ms = providers_first account db.memberships in
    first_allowed-any digest db.policies ms ms
    ∙ any-append (allows digest db.policies)
        (select (λ m. active_of account m && is_provedor m.role) db.memberships)
        (select (λ m. active_of account m && not (is_provedor m.role)) db.memberships)
    ∙ any-split (allows digest db.policies) (active_of account) (λ m. is_provedor m.role)
        db.memberships

preflight_off :
    (policies : List PolicyRow) → SwitchedOff policies → (preflight_global policies).allowed ≡ false
unfolding preflight_global locked_policies
preflight_off policies (SwitchedOff.unset e) =
    rw (head-select (λ p. is_global p.scope) policies, e) refl
preflight_off policies (SwitchedOff.disabled_row g e s) =
    rw (head-select (λ p. is_global p.scope) policies, e, s) refl

none_allowed :
    (digest : TenantDigest) (policies : List PolicyRow) (account : ℕ) (ms : List HumanMembership)
    → SwitchedOff policies
    → any (λ m. active_of account m && allows digest policies m) ms ≡ false
none_allowed digest policies account [] off = refl
none_allowed digest policies account (m ∷ ms) off =
    rw (evaluate_off digest policies m.condominio_id (is_provedor m.role) off)
      (ground (arith, none_allowed digest policies account ms off))

target_off :
    (digest : TenantDigest) (policies : List PolicyRow) (m : Option HumanMembership) (why : Reason)
    → SwitchedOff policies
    → (gate_target digest policies m why).allowed ≡ false
target_off digest policies none why off = refl
target_off digest policies (some m) why off =
    evaluate_off digest policies m.condominio_id (is_provedor m.role) off

invited_off :
    (digest : TenantDigest) (db : RolloutTables) (i : Option ProvisioningInvitation)
    → SwitchedOff db.policies
    → (gate_invited digest db i).allowed ≡ false
invited_off digest db none off = refl
invited_off digest db (some i) off = target_off digest db.policies _ _ off

-- The switch: while the global policy is missing or disabled, every gate refuses, a provider too.
pub SwitchedOff-refused :
    (digest : TenantDigest) (db : RolloutTables) (account membership token now : ℕ)
    → SwitchedOff db.policies
    → ((preflight_global db.policies).allowed ≡ false)
      × ((preflight_invitation digest db token now).allowed ≡ false)
      × ((gate_identity digest db account).allowed ≡ false)
      × ((gate_membership digest db membership account).allowed ≡ false)
unfolding gate_membership preflight_invitation
SwitchedOff-refused digest db account membership token now off = (
  preflight_off db.policies off,
  invited_off digest db _ off,
  gate_identity-any digest db account ∙ none_allowed digest db.policies account db.memberships off,
  target_off digest db.policies _ _ off,
)
