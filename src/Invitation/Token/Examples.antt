-- ===== src/Invitation/Token/Examples.antt =====
-- Tokens of small and large draws.
use egogero.Common.{◌≡◌, refl, true, none, some, [], ◌∷◌, arith}
use egogero.Invitation.Schema.{Convite}
use egogero.Invitation.Token.{matches_token_pattern, generate_six_digit_token}
use egogero.Invitation.Token.Format.{value, generate_six_digit_token_lem}

leading_zeros : generate_six_digit_token 4_207 ≡ b'0' ∷ b'0' ∷ b'4' ∷ b'2' ∷ b'0' ∷ b'7' ∷ []
unfolding generate_six_digit_token
leading_zeros = refl

generate_six_digit_token_example :
    (matches_token_pattern (generate_six_digit_token 4_207) ≡ true)
    × (value (generate_six_digit_token 4_207) ≡ 4_207)
generate_six_digit_token_example = generate_six_digit_token_lem 4_207 (omega arith)

abbrev fresh_row : Convite
fresh_row = record {
  id = 1;
  created_at = 10;
  deleted_at = none;
  condominio_id = 1;
  morador_id = none;
  convidado_id = none;
  tipo = none;
  expires_at = some 20;
  used_at = none;
  revoked_at = none;
  token_digest = none;
}
