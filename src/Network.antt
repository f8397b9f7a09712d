-- ===== src/Network.antt =====
-- js/src/utils/network.ts: polling for a receipt, and the execution of a transaction. What the chain
-- answers at each poll and the time that has passed then are parameters; numbers stand for hashes.
pub mod Poll
pub mod Execute
mod Tests
use phala_cloud.Common.{
  ℕ, zero, suc, ◌+◌, ◌-◌, Text, lit, Bool, true, false, not, ◌&&◌, Option, none, some, List, [],
  ◌∷◌, ◌++◌, if◌then◌else◌, ltb, leb, is_some,
}

pub record Receipt : Type 0 where
  pub success : Bool
  pub block_number : ℕ

-- What a poll meets: no receipt, an error of a call, or a receipt with the number of the current
-- block, which is asked for only where more than one confirmation is wanted.
pub data Answer : Type 0 where
  no_receipt : Answer
  call_fails : Text → Answer
  receipt_at : Receipt → ℕ → Answer

pub record PollRound : Type 0 where
  pub answer : Answer
  pub elapsed : ℕ

-- The messages of the timeouts, the last with the error that the call met.
pub data WaitEnd : Type 0 where
  resolved : Receipt → WaitEnd
  confirmation_timeout : WaitEnd
  receipt_timeout : Option Text → WaitEnd

-- confirmationCount < confirmations, in integers: currentBlock - blockNumber + 1 may be below 0
unfoldable pub too_few : ℕ → Receipt → ℕ → Bool
too_few confirmations r current = ltb (current + 1) (confirmations + r.block_number)

-- A round of `poll`: it settles the promise, or polls again.
unfoldable pub poll_once : ℕ → ℕ → PollRound → Option WaitEnd
unfolding too_few
poll_once timeout confirmations p =
    let late = leb timeout p.elapsed in
    elim p.answer [
      | no_receipt ↦ if late then some (receipt_timeout none) else none
      | call_fails message ↦ if late then some (receipt_timeout (some message)) else none
      | receipt_at r current ↦
          if ltb 1 confirmations && too_few confirmations r current
          then (if late then some confirmation_timeout else none)
          else some (resolved r)
    ]

-- The polls from the i-th on, on fuel; `none` where the fuel has run out.
unfoldable pub poll_from : ℕ → ℕ → (ℕ → PollRound) → ℕ → ℕ → Option WaitEnd
unfolding poll_once
poll_from timeout confirmations polls zero i = none
poll_from timeout confirmations polls (suc fuel) i =
    elim (poll_once timeout confirmations (polls i)) [
      | some done ↦ some done
      | none ↦ poll_from timeout confirmations polls fuel (suc i)
    ]

-- waitForTransactionReceipt
unfoldable pub wait_for_transaction_receipt : ℕ → ℕ → (ℕ → PollRound) → ℕ → Option WaitEnd
unfolding poll_from
wait_for_transaction_receipt timeout confirmations polls fuel =
    poll_from timeout confirmations polls fuel 0

pub data TxError : Type 0 where
  failed_on_chain : ℕ → Receipt → TxError
  timed_out : ℕ → WaitEnd → TxError
  execution_failed : Text → TxError

-- The calls of the caller's callbacks; the second argument of onError is the hash.
pub data Callback : Type 0 where
  on_submitted : ℕ → Callback
  on_confirmed : Receipt → Callback
  on_error : TxError → Option ℕ → Callback

pub data Outcome : Type 0 where
  returns : ℕ → Receipt → Bool → Outcome
  throws : TxError → Outcome

-- The hash of a TransactionError.
unfoldable pub hash_of : TxError → Option ℕ
hash_of (failed_on_chain hash r) = some hash
hash_of (timed_out hash w) = some hash
hash_of (execution_failed message) = none

-- The catch block, behind the callbacks before it.
unfoldable pub caught : List Callback → TxError → List Callback × Outcome
unfolding hash_of
caught before e = (before ++ on_error e (hash_of e) ∷ [], throws e)

unfoldable pub after_wait : ℕ → WaitEnd → List Callback × Outcome
unfolding caught
after_wait hash (resolved r) =
    if r.success
    then (on_submitted hash ∷ on_confirmed r ∷ [], returns hash r true)
    else caught (on_submitted hash ∷ on_error (failed_on_chain hash r) (some hash) ∷ [])
        (failed_on_chain hash r)
after_wait hash confirmation_timeout =
    caught (on_submitted hash ∷ []) (timed_out hash confirmation_timeout)
after_wait hash (receipt_timeout cause) =
    caught (on_submitted hash ∷ []) (timed_out hash (receipt_timeout cause))

-- What the operation gives: the hash, or the message of its error.
pub data Submitted : Type 0 where
  sent : ℕ → Submitted
  refused : Text → Submitted

-- executeTransaction; `none` where the fuel has run out
unfoldable pub execute_transaction :
    ℕ → ℕ → Submitted → (ℕ → PollRound) → ℕ → Option (List Callback × Outcome)
unfolding wait_for_transaction_receipt after_wait caught
execute_transaction timeout confirmations (refused message) polls fuel =
    some (caught [] (execution_failed message))
execute_transaction timeout confirmations (sent hash) polls fuel =
    elim (wait_for_transaction_receipt timeout confirmations polls fuel) [
      | none ↦ none
      | some done ↦ some (after_wait hash done)
    ]
