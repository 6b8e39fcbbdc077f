-- ===== src/Invitation/Revoke/Examples.antt =====
-- The invitation of the sample is revoked by its resident.
use egogero.Common.{◌≡◌, refl, ap, ◌≢◌, [], ◌∷◌, arith}
use egogero.Invitation.Schema.{Database}
use egogero.Invitation.Sample.{secret, gate, by_device, at, ok_token, invitation}
use egogero.Invitation.Access.SingleUse.{total_entries}
use egogero.Invitation.Revoke.{
  Request, revoked, already_revoked, unavailable, revoke_row, revoke_active,
}
use egogero.Invitation.Revoke.Effect.{revoked_shut, revoke_again, revoke_active_unchanged}

abbrev request : Request
request = record { id = 500; condominio_id = 1; morador_id = 20 }

abbrev stranger : Request
stranger = record { id = 500; condominio_id = 1; morador_id = 21 }

abbrev revoked_gate : Database
revoked_gate = record gate { convites = revoke_row 100 invitation ∷ [] }

revoke_sample : revoke_active request 100 gate ≡ (revoked, revoked_gate)
unfolding revoke_active
revoke_sample = refl

revoke_by_stranger : (revoke_active stranger 100 gate).0 ≡ unavailable
unfolding revoke_active
revoke_by_stranger = refl

refused : (revoke_active stranger 100 gate).0 ≢ revoked
refused h = cc (h, revoke_by_stranger)

revoked_shut_example :
    total_entries secret 500 ((by_device ok_token, at) ∷ []) (revoke_active request 100 gate).1 ≡ 0
revoked_shut_example =
    revoked_shut request 100 gate secret ((by_device ok_token, at) ∷ []) (omega arith)
      (ap (λ a. a.0) revoke_sample)

revoke_again_example :
    revoke_active request 200 (revoke_active request 100 gate).1
    ≡ (already_revoked, (revoke_active request 100 gate).1)
revoke_again_example = revoke_again request 100 200 gate (omega arith) (ap (λ a. a.0) revoke_sample)

revoke_active_unchanged_example : (revoke_active stranger 100 gate).1 ≡ gate
revoke_active_unchanged_example = revoke_active_unchanged stranger 100 gate (omega arith) refused
