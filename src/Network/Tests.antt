-- ===== src/Network/Tests.antt =====
-- Runs of a transaction, and each theorem at one.
use phala_cloud.Common.{ℕ, zero, suc, Bool, true, false, some, List, [], ◌∷◌, ◌≡◌, refl, arith}
use phala_cloud.Network.{
  Receipt, no_receipt, receipt_at, PollRound, resolved, too_few, poll_once, poll_from,
  wait_for_transaction_receipt, sent, Callback, on_submitted, on_confirmed, Outcome, returns,
  hash_of, caught, after_wait, execute_transaction,
}
use phala_cloud.Network.Execute.{IsExecuted, execute_transaction_returns, execute_transaction_ends}

runs : Unit {0}
unfolding too_few poll_once poll_from wait_for_transaction_receipt hash_of caught after_wait
    execute_transaction
runs = tt

abbrev mined : Bool → Receipt
mined success = record { success = success; block_number = 7 }

-- Nothing at first, then too few confirmations, then enough.
abbrev polls : Bool → ℕ → PollRound
polls success zero = record { answer = no_receipt; elapsed = 0 }
polls success (suc zero) = record { answer = receipt_at (mined success) 7; elapsed = 2000 }
polls success (suc (suc n)) = record { answer = receipt_at (mined success) 8; elapsed = 4000 }

executed :
    execute_transaction 60000 2 (sent 5) (polls true) 3
    ≡ some (on_submitted 5 ∷ on_confirmed (mined true) ∷ [], returns 5 (mined true) true)
unfolding runs
executed = refl

waited : wait_for_transaction_receipt 60000 2 (polls false) 3 ≡ some (resolved (mined false))
unfolding runs
waited = refl

execute_transaction_returns_example :
    IsExecuted 2
      (sent 5)
      (polls true)
      (on_submitted 5 ∷ on_confirmed (mined true) ∷ [])
      5
      (mined true)
      true
execute_transaction_returns_example =
    execute_transaction_returns 60000 2 (sent 5) (polls true) 3
      (on_submitted 5 ∷ on_confirmed (mined true) ∷ []) 5 (mined true) true executed

execute_transaction_ends_example :
    (end : List Callback × Outcome) × (execute_transaction 3000 3 (sent 5) (polls true) 4
      ≡ some end)
execute_transaction_ends_example =
    execute_transaction_ends 3000 3 (sent 5) (polls true) 2 4 (omega arith) (omega arith)
