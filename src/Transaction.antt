-- ===== src/Transaction.antt =====
-- js/src/utils/transaction.ts: the tracker of one transaction as a state machine, and the execution of
-- many. An event is what happens to the tracker between two waits; times of day are left out. The errors
-- that callbacks throw are taken to be no TransactionErrors, and execute is taken not to be called while
-- a call of it runs.
pub mod Sound
pub mod Settles
pub mod Batch
pub mod Retry
mod Tests
use phala_cloud.Common.{
  ℕ, ◌+◌, Text, lit, Bool, true, false, Option, none, some, List, [], ◌∷◌, ◌++◌, if◌then◌else◌, ltb,
  decimal,
}
use phala_cloud.Network.{Receipt, WaitEnd, resolved, confirmation_timeout, receipt_timeout}

-- TransactionState; "error" and "timeout" are `failed` and `overdue`.
pub data TransactionState : Type 0 where
  idle submitting pending success failed overdue : TransactionState

pub record Status : Type 0 where
  pub state : TransactionState
  pub hash : Option ℕ
  pub receipt : Option Receipt
  pub error : Option Text
  pub aborted : Option Bool

pub record TransactionError : Type 0 where
  pub message : Text
  pub hash : Option ℕ

pub data Callback : Type 0 where
  on_submitted : ℕ → Callback
  on_confirmed : Receipt → Callback
  on_error : TransactionError → Option ℕ → Callback

-- What a call of execute ends with.
pub data Ended : Type 0 where
  returned : ℕ → Receipt → Ended
  thrown : TransactionError → Ended

-- What settles the race first: the wait for the receipt, or the listener of the abort signal.
pub data Race : Type 0 where
  waited : WaitEnd → Race
  interrupted : Race

-- Where the call of execute stands.
pub data Phase : Type 0 where
  resting at_operation : Phase
  at_receipt : ℕ → Option Race → Phase
  settled : Ended → Phase

-- The variables of the closure (`controller` tells whether its signal is aborted, `timer` whether the
-- timeout is set), and of the call of execute, with the callbacks it has called.
pub record Tracker : Type 0 where
  pub status : Status
  pub controller : Option Bool
  pub timer : Bool
  pub phase : Phase
  pub calls : List Callback

abbrev pub submitting_status : Status
submitting_status = record {
  state = submitting;
  hash = none;
  receipt = none;
  error = none;
  aborted = some false;
}

abbrev pub idle_status : Status
idle_status = record { state = idle; hash = none; receipt = none; error = none; aborted = none }

-- createTransactionTracker
abbrev pub new_tracker : Tracker
new_tracker = record {
  status = idle_status;
  controller = none;
  timer = false;
  phase = resting;
  calls = [];
}

-- The listener of a signal that is aborted now.
abbrev pub interrupt : Option Bool → Phase → Phase
interrupt (some false) (at_receipt hash none) = at_receipt hash (some interrupted)
interrupt _ phase = phase

abbrev pub abort_signal : Option Bool → Option Bool
abort_signal none = none
abort_signal (some b) = some true

unfoldable pub reset : Tracker → Tracker
reset t = record t {
  status = idle_status;
  controller = none;
  timer = false;
  phase = interrupt t.controller t.phase;
}

unfoldable pub abort : Tracker → Tracker
abort t = record t {
  status = record t.status {
    state = failed;
    aborted = some true;
    error = some (lit "Transaction aborted by user");
  };
  controller = abort_signal t.controller;
  timer = false;
  phase = interrupt t.controller t.phase;
}

-- What the operation gives: a hash, a TransactionError, or another error with its message.
pub data Operated : Type 0 where
  sent : ℕ → Operated
  refused : TransactionError → Operated
  crashed : Text → Operated

pub data Event : Type 0 where
  execute_called : Option Bool → Event
  operation_ends : Operated → Event
  wait_ends : WaitEnd → Event
  timer_fires resumes abort_called reset_called : Event

-- "<what> after <timeout>ms"
abbrev pub after_ms : Text → ℕ → Text
after_ms what timeout = what ++ (lit " after " ++ (decimal timeout ++ lit "ms"))

abbrev pub on_chain : ℕ → TransactionError
on_chain hash = record { message = lit "Transaction failed on-chain"; hash = some hash }

-- What the catch block throws: its error, or the error of onError.
abbrev pub thrown_by : TransactionError → Option Text → TransactionError
thrown_by e none = e
thrown_by e (some message) = record { message = message; hash = none }

-- The message of the error that a call of a callback throws, if it throws.
module _ (breaks : Callback → Option Text) where
  -- The catch block, for a TransactionError.
  unfoldable pub fail : TransactionError → Tracker → Tracker
  fail e t = record t {
    status = record t.status { state = failed; error = some e.message };
    phase = settled (thrown (thrown_by e (breaks (on_error e t.status.hash))));
    calls = t.calls ++ (on_error e t.status.hash ∷ []);
  }

  -- The catch block, for another error.
  unfoldable pub fail_with : Text → Tracker → Tracker
  unfolding fail
  fail_with message t =
      fail
        (record { message = lit "Transaction execution failed: " ++ message; hash = t.status.hash })
        t

  -- A call of execute, up to the call of the operation; `signal` tells whether the caller's is aborted.
  unfoldable pub execute : Option Bool → Tracker → Tracker
  unfolding reset fail
  execute signal t =
      let fresh : Tracker = record (reset t) {
        controller = some false;
        phase = at_operation;
        calls = [];
      } in
      elim signal [
        | none ↦ record fresh { status = submitting_status }
        | some is_aborted ↦
            if is_aborted
            then fail
                (record { message = lit "Operation was aborted before execution"; hash = none })
                fresh
            else record fresh { status = submitting_status }
      ]

  -- Behind a callback in the try block.
  abbrev pub unless_broken : Option Text → Tracker → Tracker
  unfolding fail_with
  unless_broken none t = t
  unless_broken (some message) t = fail_with message t

  -- A receipt of success.
  abbrev pub confirmed_with : ℕ → Receipt → Tracker → Tracker
  confirmed_with hash r t = record t {
    status = record t.status { state = success; receipt = some r; error = none };
    timer = false;
    phase = settled (returned hash r);
    calls = t.calls ++ (on_confirmed r ∷ []);
  }

  unfoldable pub succeed : ℕ → Receipt → Tracker → Tracker
  unfolding fail_with
  succeed hash r t = unless_broken (breaks (on_confirmed r)) (confirmed_with hash r t)

  -- A receipt of failure: the error is reported, and thrown to the catch block.
  abbrev pub unreported : ℕ → Receipt → Tracker → Tracker
  unreported hash r t = record t {
    status = record t.status {
      state = failed;
      receipt = some r;
      error = some (lit "Transaction failed on-chain");
    };
    timer = false;
    calls = t.calls ++ (on_error (on_chain hash) (some hash) ∷ []);
  }

  unfoldable pub revert : ℕ → Receipt → Tracker → Tracker
  unfolding fail fail_with
  revert hash r t = elim (breaks (on_error (on_chain hash) (some hash))) [
    | none ↦ fail (on_chain hash) (unreported hash r t)
    | some message ↦ fail_with message (unreported hash r t)
  ]

  unfoldable pub received : ℕ → Receipt → Tracker → Tracker
  unfolding succeed revert
  received hash r t = if r.success then succeed hash r t else revert hash r t

  abbrev pub told_submitted : ℕ → Tracker → Tracker
  told_submitted hash t = record t {
    status = record t.status { state = pending; hash = some hash };
    calls = t.calls ++ (on_submitted hash ∷ []);
  }

  unfoldable pub started : ℕ → ℕ → Tracker → Tracker
  unfolding fail_with
  started timeout hash t = elim (breaks (on_submitted hash)) [
    | some message ↦ fail_with message (told_submitted hash t)
    | none ↦ record t {
      status = record t.status { state = pending; hash = some hash };
      timer = ltb 0 timeout;
      phase = at_receipt hash none;
      calls = t.calls ++ (on_submitted hash ∷ []);
    }
  ]

  -- `no_signal` is the engine's message for reading `signal` of undefined.
  module _ (timeout : ℕ) (no_signal : Text) where
    -- Behind the operation that gave a hash, by the signal of the controller.
    unfoldable pub submitted : Option Bool → ℕ → Tracker → Tracker
    unfolding fail fail_with started
    submitted none hash t = fail_with no_signal t
    submitted (some true) hash t =
        fail (record { message = lit "Transaction aborted after submission"; hash = some hash }) t
    submitted (some false) hash t = started timeout hash t

    -- The rest of execute, behind the operation.
    unfoldable pub operated : Operated → Tracker → Tracker
    unfolding submitted fail fail_with
    operated (sent hash) t = submitted t.controller hash t
    operated (refused e) t = fail e t
    operated (crashed message) t = fail_with message t

    -- The rest of execute, behind the race.
    unfoldable pub raced : ℕ → Race → Tracker → Tracker
    unfolding received fail
    raced hash (waited (resolved r)) t = received hash r t
    raced hash (waited confirmation_timeout) t =
        fail
          (record {
            message = after_ms (lit "Transaction confirmation timeout") timeout;
            hash = some hash;
          })
          t
    raced hash (waited (receipt_timeout cause)) t =
        fail
          (record {
            message = after_ms (lit "Transaction receipt timeout") timeout;
            hash = some hash;
          })
          t
    raced hash interrupted t =
        fail
          (record {
            message = lit "Transaction aborted while waiting for receipt";
            hash = some hash;
          })
          t

    overdue_now : Tracker → Tracker
    overdue_now t = record t {
      timer = false;
      status = record t.status {
        state = overdue;
        error = some (after_ms (lit "Transaction timeout") timeout);
      };
    }

    -- The callback of setTimeout, by its test.
    unfoldable pub timed_out : TransactionState → Option Bool → Tracker → Tracker
    unfolding overdue_now
    timed_out pending (some true) t = record t { timer = false }
    timed_out pending none t = overdue_now t
    timed_out pending (some false) t = overdue_now t
    timed_out _ controller t = record t { timer = false }

    -- What an event does where the call of execute stands. A call of execute while one runs is left out.
    unfoldable pub step_at : Phase → Event → Tracker → Tracker
    unfolding execute operated raced timed_out abort reset
    step_at phase abort_called t = abort t
    step_at phase reset_called t = reset t
    step_at phase timer_fires t = if t.timer then timed_out t.status.state t.controller t else t
    step_at resting (execute_called signal) t = execute signal t
    step_at (settled e) (execute_called signal) t = execute signal t
    step_at at_operation (operation_ends o) t = operated o t
    step_at (at_receipt hash none) (wait_ends w) t = record t {
      phase = at_receipt hash (some (waited w));
    }
    step_at (at_receipt hash (some race)) resumes t = raced hash race t
    step_at phase e t = t

    abbrev pub step : Event → Tracker → Tracker
    step e t = step_at t.phase e t

    abbrev pub run : List Event → Tracker → Tracker
    run [] t = t
    run (e ∷ es) t = run es (step e t)
