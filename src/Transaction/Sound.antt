-- ===== src/Transaction/Sound.antt =====
-- What holds of a tracker whatever happens to it.
use phala_cloud.Common.{
  ℕ, Text, Bool, true, false, Option, none, some, List, [], ◌∷◌, ◌++◌, ◌≡◌, refl, sym, subst, ap,
  ◌∙◌, lit, if◌then◌else◌,
}
use phala_cloud.Network.{Receipt, resolved, confirmation_timeout, receipt_timeout}
use phala_cloud.Transaction.{
  TransactionState, idle, submitting, pending, success, failed, overdue, Status, TransactionError,
  Callback, on_submitted, on_confirmed, on_error, returned, thrown, Race, waited, interrupted,
  Phase, resting, at_operation, at_receipt, settled, Tracker, new_tracker, interrupt, reset, abort,
  fail, fail_with, execute, started, Operated, sent, refused, crashed, Event, execute_called,
  operation_ends, wait_ends, timer_fires, resumes, abort_called, reset_called, submitted, operated,
  succeed, revert, on_chain, unreported, overdue_now, step_at, received, raced, timed_out, step,
  run,
}

-- Callbacks that do not throw.
abbrev pub never : Callback → Option Text
never c = none

-- What may be called before an error is reported: nothing, the submission, or this and the error of a
-- transaction that failed on the chain.
pub data IsBefore : List Callback → Type 0 where
  nothing : IsBefore []
  submission : {hash : ℕ} → IsBefore (on_submitted hash ∷ [])
  failure :
      {hash : ℕ} {e : TransactionError} → IsBefore (on_submitted hash ∷ on_error e (some hash) ∷ [])

-- The callbacks called, by where the call of execute stands.
pub data IsCalled : Phase → List Callback → Type 0 where
  not_yet : IsCalled resting []
  not_submitted : IsCalled at_operation []
  while_waiting :
      {hash : ℕ} {race : Option Race} → IsCalled (at_receipt hash race) (on_submitted hash ∷ [])
  confirmed :
      {hash : ℕ} {r : Receipt}
      → r.success ≡ true
      → IsCalled (settled (returned hash r)) (on_submitted hash ∷ on_confirmed r ∷ [])
  reported :
      {e : TransactionError} {before : List Callback}
      → (hash : Option ℕ) → IsBefore before
      → IsCalled (settled (thrown e)) (before ++ (on_error e hash ∷ []))

-- What the state tells of the call of execute.
abbrev pub IsStateOf : TransactionState → Status → Phase → Type 0
IsStateOf idle s phase = Unit
IsStateOf failed s phase = Unit
IsStateOf submitting s phase = phase ≡ at_operation
IsStateOf pending s phase =
    (hash : ℕ) × (race : Option Race) × (phase ≡ at_receipt hash race) × (s.hash ≡ some hash)
IsStateOf overdue s phase =
    (hash : ℕ) × (race : Option Race) × (phase ≡ at_receipt hash race) × (s.hash ≡ some hash)
IsStateOf success s phase =
    (hash : ℕ) × (r : Receipt) × (phase ≡ settled (returned hash r)) × (s.receipt ≡ some r)

pub record IsSound (t : Tracker) : Type 0 where
  pub called : IsCalled t.phase t.calls
  pub told : IsStateOf t.status.state t.status t.phase

IsCalled-interrupt :
    (controller : Option Bool) (phase : Phase) (calls : List Callback)
    → IsCalled phase calls
    → IsCalled (interrupt controller phase) calls
IsCalled-interrupt none phase calls c = c
IsCalled-interrupt (some true) phase calls c = c
IsCalled-interrupt (some false) resting calls c = c
IsCalled-interrupt (some false) at_operation calls c = c
IsCalled-interrupt (some false) (settled e) calls c = c
IsCalled-interrupt (some false) (at_receipt hash (some r)) calls c = c
IsCalled-interrupt (some false) (at_receipt hash none) calls while_waiting = while_waiting

reset-IsSound : (t : Tracker) → IsSound t → IsSound (reset t)
unfolding reset
reset-IsSound t s = record {
  called = IsCalled-interrupt t.controller t.phase t.calls s.called;
  told = tt;
}

abort-IsSound : (t : Tracker) → IsSound t → IsSound (abort t)
unfolding abort
abort-IsSound t s = record {
  called = IsCalled-interrupt t.controller t.phase t.calls s.called;
  told = tt;
}

fail-IsSound : (e : TransactionError) (t : Tracker) → IsBefore t.calls → IsSound (fail never e t)
unfolding fail
fail-IsSound e t b = record { called = reported t.status.hash b; told = tt }

fail_with-IsSound :
    (message : Text) (t : Tracker) → IsBefore t.calls → IsSound (fail_with never message t)
unfolding fail_with
fail_with-IsSound message t b = fail-IsSound _ t b

execute-IsSound : (signal : Option Bool) (t : Tracker) → IsSound (execute never signal t)
unfolding execute
execute-IsSound none t = record { called = not_submitted; told = refl }
execute-IsSound (some true) t =
    fail-IsSound (record { message = lit "Operation was aborted before execution"; hash = none })
      (record (reset t) { controller = some false; phase = at_operation; calls = [] }) nothing
execute-IsSound (some false) t = record { called = not_submitted; told = refl }

calls-at_operation : (calls : List Callback) → IsCalled at_operation calls → calls ≡ []
calls-at_operation calls not_submitted = refl

calls-at_receipt :
    (hash : ℕ) (race : Option Race) (calls : List Callback)
    → IsCalled (at_receipt hash race) calls
    → calls ≡ on_submitted hash ∷ []
calls-at_receipt hash race calls while_waiting = refl

IsBefore-nil : (calls : List Callback) → calls ≡ [] → IsBefore calls
IsBefore-nil calls e = rw e nothing

IsBefore-submission :
    (hash : ℕ) (calls : List Callback) → calls ≡ on_submitted hash ∷ [] → IsBefore calls
IsBefore-submission hash calls e = rw e submission

succeed-IsSound :
    (hash : ℕ) (r : Receipt) (t : Tracker)
    → t.calls ≡ on_submitted hash ∷ []
    → r.success ≡ true
    → IsSound (succeed never hash r t)
unfolding succeed fail_with
succeed-IsSound hash r t c e = record {
  called =
      subst (λ l. IsCalled (settled (returned hash r)) (l ++ (on_confirmed r ∷ []))) (sym c)
        (confirmed e);
  told = (hash, r, refl, refl);
}

revert-IsSound :
    (hash : ℕ) (r : Receipt) (t : Tracker)
    → t.calls ≡ on_submitted hash ∷ []
    → IsSound (revert never hash r t)
unfolding revert
revert-IsSound hash r t c =
    fail-IsSound (on_chain hash) (unreported never hash r t)
      (subst (λ l. IsBefore (l ++ (on_error (on_chain hash) (some hash) ∷ []))) (sym c) failure)

received-IsSound :
    (hash : ℕ) (r : Receipt) (t : Tracker)
    → t.calls ≡ on_submitted hash ∷ []
    → IsSound (received never hash r t)
unfolding received
received-IsSound hash r t c = go r.success refl
  where
    go :
        (b : Bool)
        → r.success ≡ b
        → IsSound (if b then succeed never hash r t else revert never hash r t)
    go true e = succeed-IsSound hash r t c e
    go false e = revert-IsSound hash r t c

if-IsSound : (b : Bool) (t u : Tracker) → IsSound t → IsSound u → IsSound (if b then t else u)
if-IsSound true t u h k = h
if-IsSound false t u h k = k

IsStateOf-at_receipt :
    (state : TransactionState) (s : Status) (hash : ℕ) (race race' : Option Race)
    → IsStateOf state s (at_receipt hash race)
    → IsStateOf state s (at_receipt hash race')
IsStateOf-at_receipt idle s hash race race' h = tt
IsStateOf-at_receipt failed s hash race race' h = tt
IsStateOf-at_receipt submitting s hash race race' h = absurd (cc h)
IsStateOf-at_receipt pending s hash race race' (k, r, e, i) =
    let same : hash ≡ k = cc e in (hash, race', refl, i ∙ ap some (sym same))
IsStateOf-at_receipt overdue s hash race race' (k, r, e, i) =
    let same : hash ≡ k = cc e in (hash, race', refl, i ∙ ap some (sym same))
IsStateOf-at_receipt success s hash race race' (k, r, e, i) = absurd (cc e)

IsCalled-at_receipt :
    (hash : ℕ) (race race' : Option Race) (calls : List Callback)
    → IsCalled (at_receipt hash race) calls
    → IsCalled (at_receipt hash race') calls
IsCalled-at_receipt hash race race' calls while_waiting = while_waiting

-- The wait has ended, and nothing has looked at it yet.
wait_ends-IsSound :
    (hash : ℕ) (race race' : Option Race) (t : Tracker)
    → IsSound t
    → t.phase ≡ at_receipt hash race
    → IsSound (record t { phase = at_receipt hash race' })
wait_ends-IsSound hash race race' t s at = record {
  called =
      IsCalled-at_receipt hash race race' t.calls (subst (λ p. IsCalled p t.calls) at s.called);
  told =
      IsStateOf-at_receipt t.status.state t.status hash race race'
        (subst (λ p. IsStateOf t.status.state t.status p) at s.told);
}

module _ (timeout : ℕ) (no_signal : Text) where
  submitted-IsSound :
      (controller : Option Bool) (hash : ℕ) (t : Tracker)
      → t.calls ≡ []
      → IsSound (submitted never timeout no_signal controller hash t)
  unfolding submitted started
  submitted-IsSound none hash t c = fail_with-IsSound no_signal t (IsBefore-nil t.calls c)
  submitted-IsSound (some true) hash t c = fail-IsSound _ t (IsBefore-nil t.calls c)
  submitted-IsSound (some false) hash t c = record {
    called =
        subst (λ l. IsCalled (at_receipt hash none) (l ++ (on_submitted hash ∷ []))) (sym c)
          while_waiting;
    told = (hash, none, refl, refl);
  }

  raced-IsSound :
      (hash : ℕ) (race : Race) (t : Tracker)
      → t.calls ≡ on_submitted hash ∷ []
      → IsSound (raced never timeout no_signal hash race t)
  unfolding raced
  raced-IsSound hash (waited (resolved r)) t c = received-IsSound hash r t c
  raced-IsSound hash (waited confirmation_timeout) t c =
      fail-IsSound _ t (IsBefore-submission hash t.calls c)
  raced-IsSound hash (waited (receipt_timeout cause)) t c =
      fail-IsSound _ t (IsBefore-submission hash t.calls c)
  raced-IsSound hash interrupted t c = fail-IsSound _ t (IsBefore-submission hash t.calls c)

  overdue_now-IsSound :
      (t : Tracker)
      → IsSound t
      → t.status.state ≡ pending
      → IsSound (overdue_now never timeout no_signal t)
  unfolding overdue_now
  overdue_now-IsSound t s e = record {
    called = s.called;
    told = subst (λ x. IsStateOf x t.status t.phase) e s.told;
  }

  stopped-IsSound : (t : Tracker) → IsSound t → IsSound (record t { timer = false })
  stopped-IsSound t s = record { called = s.called; told = s.told }

  timed_out-IsSound :
      (state : TransactionState) (controller : Option Bool) (t : Tracker)
      → IsSound t
      → t.status.state ≡ state
      → IsSound (timed_out never timeout no_signal state controller t)
  unfolding timed_out
  timed_out-IsSound pending none t s e = overdue_now-IsSound t s e
  timed_out-IsSound pending (some true) t s e = stopped-IsSound t s
  timed_out-IsSound pending (some false) t s e = overdue_now-IsSound t s e
  timed_out-IsSound idle controller t s e = stopped-IsSound t s
  timed_out-IsSound submitting controller t s e = stopped-IsSound t s
  timed_out-IsSound success controller t s e = stopped-IsSound t s
  timed_out-IsSound failed controller t s e = stopped-IsSound t s
  timed_out-IsSound overdue controller t s e = stopped-IsSound t s

  operated-IsSound :
      (o : Operated) (t : Tracker) → t.calls ≡ [] → IsSound (operated never timeout no_signal o t)
  unfolding operated
  operated-IsSound (sent hash) t c = submitted-IsSound t.controller hash t c
  operated-IsSound (refused e) t c = fail-IsSound e t (IsBefore-nil t.calls c)
  operated-IsSound (crashed message) t c = fail_with-IsSound message t (IsBefore-nil t.calls c)

  step_at-IsSound :
      (phase : Phase) (e : Event) (t : Tracker)
      → t.phase ≡ phase
      → IsSound t
      → IsSound (step_at never timeout no_signal phase e t)
  unfolding step_at
  step_at-IsSound phase abort_called t at s = abort-IsSound t s
  step_at-IsSound phase reset_called t at s = reset-IsSound t s
  step_at-IsSound phase timer_fires t at s =
      if-IsSound t.timer (timed_out never timeout no_signal t.status.state t.controller t) t
        (timed_out-IsSound t.status.state t.controller t s refl) s
  step_at-IsSound resting (execute_called signal) t at s = execute-IsSound signal t
  step_at-IsSound (settled e) (execute_called signal) t at s = execute-IsSound signal t
  step_at-IsSound at_operation (operation_ends o) t at s =
      operated-IsSound o t
        (calls-at_operation t.calls (subst (λ p. IsCalled p t.calls) at s.called))
  step_at-IsSound (at_receipt hash none) (wait_ends w) t at s =
      wait_ends-IsSound hash none (some (waited w)) t s at
  step_at-IsSound (at_receipt hash (some race)) resumes t at s =
      raced-IsSound hash race t
        (calls-at_receipt hash (some race) t.calls (subst (λ p. IsCalled p t.calls) at s.called))
  step_at-IsSound _ _ t at s = s

  run-IsSound_from :
      (es : List Event) (t : Tracker) → IsSound t → IsSound (run never timeout no_signal es t)
  run-IsSound_from [] t s = s
  run-IsSound_from (e ∷ es) t s =
      run-IsSound_from es (step never timeout no_signal e t) (step_at-IsSound t.phase e t refl s)

  run-IsSound-never : (es : List Event) → IsSound (run never timeout no_signal es new_tracker)
  run-IsSound-never es = run-IsSound_from es new_tracker (record { called = not_yet; told = tt })

-- Where no callback throws and execute is not called while a call of it runs, whatever else happens to
-- a new tracker, aborts, resets and the timer at any moment included: a call of execute has called back
-- nothing before the hash is there, and onSubmitted alone while it waits; it returns behind onSubmitted
-- and onConfirmed, with a receipt of success, and throws behind onError with the error thrown, which
-- follows at most onSubmitted and an earlier onError, and no onConfirmed. The state is "submitting" only
-- while the operation runs, "pending" or "timeout" only while the receipt is waited for, with the hash,
-- and "success" only when the call has returned, with the receipt.
pub run-IsSound :
    (breaks : Callback → Option Text) (timeout : ℕ) (no_signal : Text) (es : List Event)
    → ((c : Callback) → breaks c ≡ none)
    → IsSound (run breaks timeout no_signal es new_tracker)
run-IsSound breaks timeout no_signal es h =
    let same : breaks ≡ never = λ i c. h c i in
    subst (λ b. IsSound (run b timeout no_signal es new_tracker)) (sym same)
      (run-IsSound-never timeout no_signal es)
