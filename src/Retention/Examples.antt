-- ===== src/Retention/Examples.antt =====
-- Two guests, one of whom has an invitation that lasts.
use egogero.Common.{◌≡◌, refl, true, false, none, some, [], ◌∷◌, map, arith, ◌==◌, is_none}
use egogero.Retention.{
  Guest, RetentionTables, guest_candidates, anonymize_old_guest_data, run_anonymization_job,
}
use egogero.Retention.Ending.{IsEnd, run_anonymization_job-IsEnd}

abbrev ana : Guest
ana = record {
  id = 1;
  condominio_id = 4;
  created_at = 10;
  nome = "Ana";
  email = some "ana@example.org";
  telefone = none;
  anonymized_at = none;
}

abbrev rui : Guest
rui = record ana { id = 2; nome = "Rui" }

abbrev tables : RetentionTables
tables = record {
  guests = ana ∷ rui ∷ [];
  invitations =
      record { convidado_id = some 1; condominio_id = 4; expires_at = some 50 }
      ∷ record { convidado_id = some 2; condominio_id = 4; expires_at = some 500 }
      ∷ [];
  notifications =
      record { convidado_id = some 1; nome_convidado = "Ana"; mensagem = "Ana entrou" } ∷ [];
}

one_guest :
    map
      (λ g. is_none g.anonymized_at)
      (anonymize_old_guest_data (λ id. false) 10 100 900 tables).1.guests
    ≡ false ∷ true ∷ []
unfolding anonymize_old_guest_data guest_candidates
one_guest = refl

locked_guest : (anonymize_old_guest_data (λ id. id == 1) 10 100 900 tables).0 ≡ 0
unfolding anonymize_old_guest_data guest_candidates
locked_guest = refl

run_anonymization_job-IsEnd_example :
    IsEnd 100 900 tables (run_anonymization_job 3 (λ round id. false) 1 100 900 tables)
run_anonymization_job-IsEnd_example =
    run_anonymization_job-IsEnd 3 (λ round id. false) 1 100 900 tables (omega arith) (omega arith)
