-- ===== src/Invitation/Issue/Examples.antt =====
-- A batch for one guest of one resident.
use egogero.Common.{
  ℕ, ◌+◌, ◌*◌, ◌/◌, ◌≤◌, ◌<◌, ◌≡◌, refl, true, none, some, List, [], ◌∷◌, map, arith, length, count,
  Memᴰ,
}
use egogero.Invitation.Schema.{
  Condominio, Morador, Convidado, Convite, Database, Result, Result-cases, ok, err, ◌>>=◌,
  >>=-eq-ok, Error, invalid_condominium_time_zone, expiration_not_in_future,
  daily_invitation_limit_reached, token_collision, Token, TokenSecret, verify_token_secret,
  verify_token_secret_inv, due, is_open,
}
use egogero.Invitation.Issue.{
  Allocation, TimeZones, Clock, release_digests, ActiveGuest, active_guests, earliest_expiration,
  limit_of, counted, new_row, insert_rows, issue_in_limit, issue_for, issue_to, persist_batch,
}
use egogero.Invitation.Issue.Digests.{holds, persist_batch_unique}
use egogero.Invitation.Issue.Limit.{IsWithin, persist_batch-IsWithin}

abbrev number : Token → ℕ
number [] = 0
number (digit ∷ rest) = digit + 10 * number rest

abbrev secret : TokenSecret
secret = record { digest_token = number; fingerprint = 5 }

-- Days of 1000 milliseconds, in every zone.
abbrev zones : TimeZones
zones = record {
  is_valid = λ zone. true;
  day_start = λ zone t. t / 1_000 * 1_000;
  day_end = λ zone t. t / 1_000 * 1_000 + 1_000;
}

abbrev clock : Clock
clock = record { released_at = λ digest. 2_001; issued_at = 2_002 }

abbrev tables : Database
tables = record {
  invitation_token_key = some 5;
  condominios =
      record {
        id = 1;
        deleted_at = none;
        nome = "Solar";
        timezone = "America/Recife";
        daily_invitation_limit = some 9;
      }
      ∷ [];
  moradores =
      record {
        id = 2;
        deleted_at = none;
        nome = "Rui";
        condominio_id = 1;
        daily_invitation_limit = some 1;
      }
      ∷ [];
  convidados =
      record {
        id = 3;
        deleted_at = none;
        anonymized_at = none;
        nome = "Ana";
        condominio_id = 1;
        morador_id = some 2;
        ultimo_uso_em = none;
      }
      ∷ [];
  convites = [];
  dispositivos = [];
  accounts = [];
  memberships = [];
  auditorias = [];
  auditorias_humanas = [];
  notificacoes = [];
}

abbrev one_guest : Allocation
one_guest = record {
  row_id = 70;
  condominio_id = 1;
  morador_id = 2;
  convidado_id = 3;
  tipo = egogero.Invitation.Schema.visitante;
  expires_at = 9_000;
  token = 1 ∷ 2 ∷ [];
}

abbrev issued_row : Convite
issued_row = new_row secret 2_002 one_guest

abbrev issued_tables : Database
issued_tables = record tables { convites = issued_row ∷ [] }

issue_one :
    persist_batch secret zones clock one_guest [] tables
    ≡ ok (some (issued_row ∷ []), issued_tables)
unfolding persist_batch verify_token_secret release_digests active_guests issue_to issue_for
    issue_in_limit insert_rows
issue_one = refl

-- The resident's limit of one is used up.
limit_reached :
    persist_batch secret zones clock
      (record one_guest { row_id = 71; token = 3 ∷ [] })
      []
      issued_tables
    ≡ err daily_invitation_limit_reached
unfolding persist_batch verify_token_secret release_digests active_guests issue_to issue_for
    issue_in_limit insert_rows
limit_reached = refl

persist_batch_unique_example :
    ((d : ℕ) → count (holds d) issued_tables.convites ≤ 1)
    × (issued_row ∷ [] ≡ map (new_row secret clock.issued_at) (one_guest ∷ []))
    × ((c : Convite) → Memᴰ c (issued_row ∷ []) → Memᴰ c issued_tables.convites)
persist_batch_unique_example =
    persist_batch_unique secret zones clock one_guest [] tables (issued_row ∷ []) issued_tables
      (λ d. omega arith) issue_one

persist_batch-IsWithin_example :
    (guest : ActiveGuest) × (others : List ActiveGuest) × (active_guests tables.moradores
        tables.condominios one_guest [] tables.convidados
      ≡ guest ∷ others)
    × (length (active_guests tables.moradores tables.condominios one_guest [] tables.convidados)
        ≡ length (issued_row ∷ []))
    × (clock.issued_at < earliest_expiration one_guest.expires_at [])
    × IsWithin (limit_of guest) (
        count
          (counted one_guest
            (zones.day_start guest.timezone clock.issued_at)
            (zones.day_end guest.timezone clock.issued_at))
          issued_tables.convites)
persist_batch-IsWithin_example =
    persist_batch-IsWithin secret zones clock one_guest [] tables (issued_row ∷ []) issued_tables
      issue_one
