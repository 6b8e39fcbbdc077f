-- ===== src/Invitation/Create/Examples.antt =====
-- A store whose first attempt meets an active token.
use egogero.Common.{ℕ, suc, ◌+◌, ◌≡◌, refl, false, none, List, [], ◌∷◌, ◌==◌, if◌then◌else◌, count}
use egogero.Invitation.Schema.{
  Database, ok, err, token_collision, token_generation_exhausted, visitante,
}
use egogero.Invitation.Create.{
  CreateData, Draw, Store, attempt, allocations_from, tokens_of, collided, create_invitations,
}
use egogero.Invitation.Issue.{Allocation}
use egogero.Invitation.Create.Retries.{AllCollide, create_invitations-first}
use egogero.Invitation.Token.{matches_token_pattern, generate_six_digit_token}

abbrev no_tables : Database
no_tables = record {
  invitation_token_key = none;
  condominios = [];
  moradores = [];
  convidados = [];
  convites = [];
  dispositivos = [];
  accounts = [];
  memberships = [];
  auditorias = [];
  auditorias_humanas = [];
  notificacoes = [];
}

abbrev invitation : CreateData
invitation = record {
  condominio_id = 1;
  morador_id = 2;
  convidado_id = 3;
  tipo = visitante;
  expires_at = 900;
}

-- The digit that the first token ends in.
abbrev last_digit : List Allocation → ℕ
last_digit [] = 0
last_digit (a ∷ rest) = count (λ c. c == b'7') a.token

-- The token 000007 is taken; any other batch is answered by null.
abbrev taken_seven : Store
taken_seven allocations db =
    if last_digit allocations == 1 then err token_collision else ok (none, db)

abbrev draws : ℕ → ℕ → Draw
draws number position = (generate_six_digit_token (7 + number), 50 + number)

first_collides : AllCollide taken_seven (invitation ∷ []) draws no_tables 0 1
unfolding attempt allocations_from tokens_of matches_token_pattern generate_six_digit_token
first_collides = (refl, tt)

second_fits : collided (attempt taken_seven (invitation ∷ []) (draws 1) no_tables) ≡ false
unfolding attempt allocations_from tokens_of matches_token_pattern generate_six_digit_token
second_fits = refl

create_invitations-first_example :
    (create_invitations taken_seven (invitation ∷ []) draws 10 (1 + suc 30) no_tables
      ≡ attempt taken_seven (invitation ∷ []) (draws 1) no_tables)
    × (create_invitations taken_seven (invitation ∷ []) draws 10 1 no_tables
        ≡ err token_generation_exhausted)
create_invitations-first_example =
    create_invitations-first taken_seven invitation [] draws 10 1 30 no_tables refl first_collides
      second_fits
