-- ===== src/Invitation/Sample.antt =====
-- One condominium, one guest with an invitation, and one device at the gate: data for tests.
use egogero.Common.{ℕ, ◌+◌, ◌*◌, true, none, some, [], ◌∷◌}
use egogero.Invitation.Schema.{
  Convidado, Convite, Database, Token, TokenSecret, pedestre, visitante,
}
use egogero.Invitation.Access.{Args, Readings}

abbrev pub number : Token → ℕ
number [] = 0
number (digit ∷ rest) = digit + 10 * number rest

abbrev pub secret : TokenSecret
secret = record { digest_token = number; fingerprint = 99 }

abbrev pub invitation : Convite
invitation = record {
  id = 500;
  created_at = 10;
  deleted_at = none;
  condominio_id = 1;
  morador_id = some 20;
  convidado_id = some 30;
  tipo = some visitante;
  expires_at = some 1_000;
  used_at = none;
  revoked_at = none;
  token_digest = some 321;
}

abbrev pub visitor : Convidado
visitor = record {
  id = 30;
  deleted_at = none;
  anonymized_at = none;
  nome = "Ana";
  condominio_id = 1;
  morador_id = some 20;
  ultimo_uso_em = none;
}

abbrev pub gate : Database
gate = record {
  invitation_token_key = none;
  condominios =
      record {
        id = 1;
        deleted_at = none;
        nome = "Solar";
        timezone = "America/Sao_Paulo";
        daily_invitation_limit = none;
      }
      ∷ [];
  moradores =
      record {
        id = 20;
        deleted_at = none;
        nome = "Rui";
        condominio_id = 1;
        daily_invitation_limit = none;
      }
      ∷ [];
  convidados = visitor ∷ [];
  convites = invitation ∷ [];
  dispositivos =
      record {
        id = 40;
        deleted_at = none;
        condominio_id = 1;
        ativo = true;
        api_key_digest = some 8;
      }
      ∷ [];
  accounts = [];
  memberships = [];
  auditorias = [];
  auditorias_humanas = [];
  notificacoes = [];
}

abbrev pub by_device : Token → Args
by_device token = record {
  token = some token;
  condominium_id = 1;
  device_id = some 40;
  account_id = none;
  membership_id = none;
  access_type = pedestre;
  require_active_device = true;
}

abbrev pub at : Readings
at = record { now = 100; selected_at = 101; updated_at = 102; audit_id = 900 }

abbrev pub ok_token : Token
ok_token = 1 ∷ 2 ∷ 3 ∷ []
