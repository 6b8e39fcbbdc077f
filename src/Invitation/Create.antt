-- ===== src/Invitation/Create.antt =====
-- Allocation of tokens with retries (src/convites.ts: createInvitations, inTransaction).
pub mod Retries
mod Examples
use egogero.Common.{
  ℕ, zero, suc, ◌+◌, ◌-◌, ◌*◌, ◌/◌, ◌%◌, ◌^◌, ◌≤◌, ◌<◌, min, max, ◌≡◌, refl, sym, ap, subst, ◌∙◌,
  ◌≢◌, ◌↔◌, ◌⊎◌, inl, inr, Bool, true, false, not, ◌&&◌, ◌||◌, Option, none, some, List, [], ◌∷◌,
  ◌++◌, map, arith, ltb, leb, ◌==◌, if◌then◌else◌, ==_iff, ==_refl, ==_sym, Bool-cases,
  Option-cases, is, is_none, after, length, length-append, select, first, update, count, any, all,
  head?, count-append, count-le-length, contains, All, Memᴰ, first-mem, first_of-count, any-first,
  count-any, count-mem,
}
use egogero.Invitation.Schema.{
  TipoConvite, Convite, Database, Result, ok, err, ◌>>=◌, Error, token_collision,
  token_generation_exhausted, invalid_token_generated, at_least_one_invitation, type_error,
  expiration_not_in_future, Token, TokenSecret, verify_token_secret,
}
use egogero.Invitation.Token.{matches_token_pattern}
use egogero.Invitation.Issue.{Allocation, TimeZones, Clock, persist_batch}

abbrev pub max_token_attempts : ℕ
max_token_attempts = 32

-- `InvitationCreateData`.
pub record CreateData : Type 0 where
  pub condominio_id : ℕ
  pub morador_id : ℕ
  pub convidado_id : ℕ
  pub tipo : TipoConvite
  pub expires_at : ℕ

-- `createBatchActive`: the transaction of a batch. An empty one has no first allocation to read.
pub create_batch_active :
    TokenSecret
    → TimeZones
    → Clock
    → List Allocation
    → Database
    → Result (Option (List Convite) × Database)
create_batch_active secret zones clock [] db =
    verify_token_secret secret db >>= (λ db'. err type_error)
create_batch_active secret zones clock (head ∷ rest) db =
    persist_batch secret zones clock head rest db

-- One draw of a token and a row's UUID.
abbrev pub Draw : Type 0
Draw = Token × ℕ

abbrev pub allocate : CreateData → Draw → Allocation
allocate i (token, row_id) = record {
  row_id = row_id;
  condominio_id = i.condominio_id;
  morador_id = i.morador_id;
  convidado_id = i.convidado_id;
  tipo = i.tipo;
  expires_at = i.expires_at;
  token = token;
}

-- `invitations.map(...)`: the draws of the attempt, by position.
pub allocations_from : ℕ → (ℕ → Draw) → List CreateData → List Allocation
allocations_from position draw [] = []
allocations_from position draw (i ∷ rest) =
    allocate i (draw position) ∷ allocations_from (suc position) draw rest

pub tokens_of : List Allocation → List Token
tokens_of [] = []
tokens_of (a ∷ rest) = a.token ∷ tokens_of rest

-- `convites.map((convite, index) => ({ convite, token: tokens[index]! }))`.
pub with_tokens : List Convite → List Token → List (Convite × Token)
with_tokens (c ∷ cs) (t ∷ ts) = (c, t) ∷ with_tokens cs ts
with_tokens _ _ = []

abbrev pub Store : Type 0
Store = List Allocation → Database → Result (Option (List Convite) × Database)

abbrev pub Created : Type 0
Created = Option (List (Convite × Token)) × Database

abbrev pub paired : List Token → Option (List Convite) × Database → Created
paired tokens (none, db) = (none, db)
paired tokens (some rows, db) = (some (with_tokens rows tokens), db)

-- The body of the loop, the draws being those of the attempt.
pub attempt : Store → List CreateData → (ℕ → Draw) → Database → Result Created
attempt store invitations draw db =
    let allocations = allocations_from 0 draw invitations in
    if any (λ t. not (matches_token_pattern t)) (tokens_of allocations)
    then err invalid_token_generated
    else (store allocations db >>= (λ made. ok (paired (tokens_of allocations) made)))

abbrev pub is_collision : Error → Bool
is_collision token_collision = true
is_collision _ = false

abbrev pub collided : Result Created → Bool
collided (err e) = is_collision e
collided (ok made) = false

-- The loop: `attempts` rounds are left, and `number` counts those behind.
pub create_loop : Store → List CreateData → (ℕ → ℕ → Draw) → ℕ → ℕ → Database → Result Created
create_loop store invitations draws zero number db = err token_generation_exhausted
create_loop store invitations draws (suc attempts) number db =
    let again = create_loop store invitations draws attempts (suc number) db in
    let result = attempt store invitations (draws number) db in
    if collided result then again else result

-- `createInvitations(store, invitations, { generateToken, now, maxAttempts })`.
pub create_invitations :
    Store → List CreateData → (ℕ → ℕ → Draw) → ℕ → ℕ → Database → Result Created
create_invitations store [] draws now attempts db = err at_least_one_invitation
create_invitations store (i ∷ rest) draws now attempts db =
    if any (λ j. leb j.expires_at now) (i ∷ rest)
    then err expiration_not_in_future
    else create_loop store (i ∷ rest) draws attempts 0 db
