-- ===== src/AuthLimits/Reserve/Examples.antt =====
-- Two reservations under a limit of two, one of them consumed.
use egogero.Common.{◌≡◌, refl, true, false, none, some, count}
use egogero.AuthLimits.{Policy}
use egogero.AuthLimits.Reserve.{Ledger, has_id, reserve, finalize}
use egogero.AuthLimits.Reserve.Balance.{IsBalanced, Reached, Reached-IsBalanced, finalize-finalize}

abbrev two : Policy
two = record { limit = 2; window_ms = 1_000; backoff_ms = 100 }

abbrev one_reserved : Ledger
one_reserved = (reserve two 1 50 none).1

abbrev both_reserved : Ledger
both_reserved = (reserve two 2 60 (some one_reserved)).1

third_denied : (reserve two 3 70 (some both_reserved)).0.allowed ≡ false
unfolding reserve
third_denied = refl

new_identifier : count (has_id 2) one_reserved.reservations ≡ 0
unfolding reserve
new_identifier = refl

one_consumed : (finalize two 1 true 80 both_reserved).bucket.count ≡ 1
unfolding reserve finalize
one_consumed = refl

to_consumed : Reached two (finalize two 1 true 80 both_reserved)
to_consumed =
    Reached.finalizes (Reached.reserves (Reached.opens 1 50) 2 60 new_identifier) 1 true 80

Reached-IsBalanced_example : IsBalanced two (finalize two 1 true 80 both_reserved)
Reached-IsBalanced_example =
    Reached-IsBalanced two (finalize two 1 true 80 both_reserved) to_consumed

finalize-finalize_example :
    finalize two 1 false 90 (finalize two 1 true 80 both_reserved)
    ≡ finalize two 1 true 80 both_reserved
finalize-finalize_example = finalize-finalize two 1 true false 80 90 both_reserved
