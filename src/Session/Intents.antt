-- ===== src/Session/Intents.antt =====
-- The intents that start a reauthentication (src/sessions.ts: createReauthenticationStartIntent,
-- consumeReauthenticationStartIntent).
use egogero.Common.{
  ℕ, zero, suc, ◌+◌, Bool, not, ◌&&◌, ◌||◌, Option, none, some, List, [], ◌∷◌, ltb, leb, ◌==◌,
  if◌then◌else◌, is_none, select, first, update, any,
}
use egogero.Session.Schema.{
  ReturnTo, StartIntent, Denial, SessionTables, Token, StoreConfig, valid_session_token,
  reauthentication_start_ttl_ms,
}
use egogero.Session.Load.{SessionRow, load_session, session_denial_reason}

-- The intents that are swept: a hundred at most of those that are over or used, the oldest first.
abbrev spent : ℕ → StartIntent → Bool
spent now i = leb i.expires_at now || not (is_none i.consumed_at)

abbrev sooner : StartIntent → StartIntent → Bool
sooner i j = ltb i.expires_at j.expires_at || (i.expires_at == j.expires_at && leb i.id j.id)

abbrev insert_intent : StartIntent → List StartIntent → List StartIntent
insert_intent i [] = i ∷ []
insert_intent i (j ∷ rows) =
    let later = j ∷ insert_intent i rows in if sooner i j then i ∷ j ∷ rows else later

abbrev by_expiry : List StartIntent → List StartIntent
by_expiry [] = []
by_expiry (i ∷ rows) = insert_intent i (by_expiry rows)

abbrev limit : ℕ → List StartIntent → List StartIntent
limit zero rows = []
limit (suc n) [] = []
limit (suc n) (i ∷ rows) = i ∷ limit n rows

abbrev pub swept : ℕ → List StartIntent → List StartIntent
swept now rows =
    let doomed = limit 100 (by_expiry (select (spent now) rows)) in
    select (λ i. not (any (λ j. j.id == i.id) doomed)) rows

abbrev pub create_for :
    StoreConfig
    → ℕ
    → ℕ
    → Token
    → ReturnTo
    → SessionRow
    → Option Denial
    → SessionTables
    → Option Token × SessionTables
create_for config now id token return_to row (some why) db = (none, db)
create_for config now id token return_to row none db = (
  some token,
  record db {
    intents =
        record {
          id = id;
          expires_at = now + reauthentication_start_ttl_ms;
          consumed_at = none;
          token_digest = config.digest token;
          account_id = row.session.account_id;
          family_id = row.session.family_id;
          return_to = return_to;
        }
        ∷ swept now db.intents;
  },
)

abbrev pub create_row :
    StoreConfig
    → ℕ
    → ℕ
    → ℕ
    → Token
    → ReturnTo
    → Option SessionRow
    → SessionTables
    → Option Token × SessionTables
create_row config read_at now id token return_to none db = (none, db)
create_row config read_at now id token return_to (some row) db =
    create_for config now id token return_to row (session_denial_reason read_at row) db

-- `id` and `drawn` are the random identifier and token of the new intent.
unfoldable pub create_reauthentication_start_intent :
    StoreConfig
    → ℕ
    → ℕ
    → ℕ
    → Token
    → Token
    → ReturnTo
    → SessionTables
    → Option Token × SessionTables
create_reauthentication_start_intent config read_at now id drawn token return_to db =
    if not (valid_session_token token)
    then (none, db)
    else create_row config read_at now id drawn return_to (load_session (config.digest token) db) db

abbrev pub usable_intent : ℕ → ℕ → SessionRow → StartIntent → Bool
usable_intent digest now row i =
    i.token_digest == digest
    && i.account_id == row.session.account_id
    && i.family_id == row.session.family_id
    && is_none i.consumed_at
    && ltb now i.expires_at

abbrev pub used_intent : ℕ → StartIntent → StartIntent
used_intent now i = record i { consumed_at = some now }

pub record ConsumedIntent : Type 0 where
  pub account_id : ℕ
  pub family_id : ℕ
  pub return_to : ReturnTo

abbrev pub consumed_as : SessionRow → Option StartIntent → Option ConsumedIntent
consumed_as row none = none
consumed_as row (some i) = some (record {
  account_id = row.session.account_id;
  family_id = row.session.family_id;
  return_to = i.return_to;
})

abbrev pub consume_for :
    ℕ → ℕ → SessionRow → Option Denial → SessionTables → Option ConsumedIntent × SessionTables
consume_for now digest row (some why) db = (none, db)
consume_for now digest row none db = (
  consumed_as row (first (usable_intent digest now row) db.intents),
  record db { intents = update (usable_intent digest now row) (used_intent now) db.intents },
)

abbrev pub consume_row :
    ℕ → ℕ → ℕ → Option SessionRow → SessionTables → Option ConsumedIntent × SessionTables
consume_row read_at now digest none db = (none, db)
consume_row read_at now digest (some row) db =
    consume_for now digest row (session_denial_reason read_at row) db

unfoldable pub consume_reauthentication_start_intent :
    StoreConfig → ℕ → ℕ → Token → Token → SessionTables → Option ConsumedIntent × SessionTables
consume_reauthentication_start_intent config read_at now token intent db =
    if not (valid_session_token token && valid_session_token intent)
    then (none, db)
    else consume_row read_at now (config.digest intent) (load_session (config.digest token) db) db
