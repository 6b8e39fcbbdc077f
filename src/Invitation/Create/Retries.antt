-- ===== src/Invitation/Create/Retries.antt =====
-- Which attempt decides the result.
use egogero.Common.{
  ℕ, zero, suc, ◌+◌, ◌≡◌, refl, sym, ap, ◌∙◌, true, false, List, ◌∷◌, arith, leb, any,
}
use native.Mathlib.Nat.{zero-add, add-zero, suc-add}
use egogero.Invitation.Schema.{Database, err, token_generation_exhausted}
use egogero.Invitation.Create.{
  CreateData, Draw, Store, attempt, collided, create_loop, create_invitations,
}

module _ (store : Store) (invitations : List CreateData) (draws : ℕ → ℕ → Draw)
    (db : Database) where
  -- The attempts from `number` on, `count` of them, end in a collision of active tokens.
  abbrev pub AllCollide : ℕ → ℕ → Type 0
  AllCollide number zero = Unit
  AllCollide number (suc n) =
      (collided (attempt store invitations (draws number) db) ≡ true) × AllCollide (suc number) n

  loop_skips :
      (n attempts number : ℕ)
      → AllCollide number n
      → create_loop store invitations draws (n + attempts) number db
        ≡ create_loop store invitations draws attempts (number + n) db
  unfolding create_loop
  loop_skips zero attempts number h = rw (zero-add, add-zero)
  loop_skips (suc n) attempts number h =
      rw (suc-add, h.0)
        (loop_skips n attempts (suc number) h.1
          ∙ ap (λ k. create_loop store invitations draws attempts k db) (omega arith))

  loop_decides :
      (attempts number : ℕ)
      → collided (attempt store invitations (draws number) db) ≡ false
      → create_loop store invitations draws (suc attempts) number db
        ≡ attempt store invitations (draws number) db
  unfolding create_loop
  loop_decides attempts number h = rw h

  loop_ends :
      (number : ℕ)
      → create_loop store invitations draws 0 number db ≡ err token_generation_exhausted
  unfolding create_loop
  loop_ends number = refl

-- For a batch with a first invitation, each expiring after `now`, whose first `n` attempts meet an
-- active token and whose next one does not: where more than `n` attempts are allowed, the result is
-- that of the next one, success or error; where only `n` are, the tokens are exhausted.
pub create_invitations-first :
    (store : Store) (i : CreateData) (rest : List CreateData) (draws : ℕ → ℕ → Draw) (now n m : ℕ)
    (db : Database)
    → any (λ j. leb j.expires_at now) (i ∷ rest) ≡ false
    → AllCollide store (i ∷ rest) draws db 0 n
    → collided (attempt store (i ∷ rest) (draws n) db) ≡ false
    → (create_invitations store (i ∷ rest) draws now (n + suc m) db
        ≡ attempt store (i ∷ rest) (draws n) db)
      × (create_invitations store (i ∷ rest) draws now n db ≡ err token_generation_exhausted)
unfolding create_invitations
create_invitations-first store i rest draws now n m db ahead collide h = (
  rw ahead (
      loop_skips store (i ∷ rest) draws db n (suc m) 0 collide
      ∙ rw zero-add (loop_decides store (i ∷ rest) draws db m n h)),
  rw ahead (
      ap (λ k. create_loop store (i ∷ rest) draws k 0 db) (sym (add-zero n))
      ∙ loop_skips store (i ∷ rest) draws db n 0 0 collide
      ∙ loop_ends store (i ∷ rest) draws db (0 + n)),
)
