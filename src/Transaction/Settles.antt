-- ===== src/Transaction/Settles.antt =====
-- How a call of execute that waits for its receipt ends.
use phala_cloud.Common.{
  ℕ, Text, lit, Bool, true, false, Option, none, some, List, [], ◌∷◌, ◌++◌, ◌≡◌, refl, ap, ◌∙◌, All,
  if◌then◌else◌,
}
use phala_cloud.Network.{Receipt, resolved, confirmation_timeout, receipt_timeout}
use phala_cloud.Transaction.Sound.{never}
use phala_cloud.Transaction.{
  Callback, TransactionState, idle, submitting, pending, success, failed, overdue, Ended, returned,
  thrown, Race, waited, interrupted, Phase, resting, at_operation, at_receipt, settled, Tracker,
  interrupt, reset, abort, fail, Event, execute_called, operation_ends, wait_ends, timer_fires,
  resumes, abort_called, reset_called, received, succeed, revert, raced, timed_out, overdue_now,
  after_ms, step_at, step, run,
}

-- What happens to a call that goes on waiting: the timer, or an end of what it does not wait for.
abbrev pub is_idle : Event → Bool
is_idle timer_fires = true
is_idle resumes = true
is_idle (operation_ends o) = true
is_idle _ = false

-- What happens to a call that is about to go on, or has ended: no new call of execute, and the call has
-- not gone on.
abbrev pub is_quiet : Event → Bool
is_quiet (execute_called signal) = false
is_quiet resumes = false
is_quiet _ = true

abbrev pub calls_again : Event → Bool
calls_again (execute_called signal) = true
calls_again _ = false

-- What an event ends the wait with, if it does.
abbrev pub race_of : Event → Option Race
race_of (wait_ends w) = some (waited w)
race_of abort_called = some interrupted
race_of reset_called = some interrupted
race_of _ = none

abbrev error_with : Text → ℕ → Ended
error_with message hash = thrown (record { message = message; hash = some hash })

-- How execute ends, by what ended the wait.
abbrev pub ended_by : ℕ → ℕ → Race → Ended
ended_by timeout hash (waited (resolved r)) =
    if r.success then returned hash r else error_with (lit "Transaction failed on-chain") hash
ended_by timeout hash (waited confirmation_timeout) =
    error_with (after_ms (lit "Transaction confirmation timeout") timeout) hash
ended_by timeout hash (waited (receipt_timeout cause)) =
    error_with (after_ms (lit "Transaction receipt timeout") timeout) hash
ended_by timeout hash interrupted =
    error_with (lit "Transaction aborted while waiting for receipt") hash

-- The call waits for the receipt, and its signal is not aborted.
pub record IsWaiting (hash : ℕ) (t : Tracker) : Type 0 where
  pub at : t.phase ≡ at_receipt hash none
  pub listening : t.controller ≡ some false

phase-received :
    (timeout hash : ℕ) (r : Receipt) (t : Tracker)
    → (received never hash r t).phase ≡ settled (ended_by timeout hash (waited (resolved r)))
unfolding received succeed revert fail
phase-received timeout hash r t = go r.success
  where
    go :
        (b : Bool)
        → (if b then succeed never hash r t else revert never hash r t).phase
          ≡ settled
              (if b then returned hash r else error_with (lit "Transaction failed on-chain") hash)
    go true = refl
    go false = refl

interrupted_at :
    (hash : ℕ) (race : Race) (t : Tracker)
    → interrupted ≡ race
    → IsWaiting hash t
    → interrupt t.controller t.phase ≡ at_receipt hash (some race)
interrupted_at hash race t is w =
    ap (λ c. interrupt c t.phase) w.listening
    ∙ ap (interrupt (some false)) w.at
    ∙ ap (λ r. at_receipt hash (some r)) is

interrupt-race :
    (hash : ℕ) (race : Race) (controller : Option Bool) (phase : Phase)
    → phase ≡ at_receipt hash (some race)
    → interrupt controller phase ≡ at_receipt hash (some race)
interrupt-race hash race none phase p = p
interrupt-race hash race (some true) phase p = p
interrupt-race hash race (some false) phase p = ap (interrupt (some false)) p

interrupt-settled :
    (end : Ended) (controller : Option Bool) (phase : Phase)
    → phase ≡ settled end
    → interrupt controller phase ≡ settled end
interrupt-settled end none phase p = p
interrupt-settled end (some true) phase p = p
interrupt-settled end (some false) phase p = ap (interrupt (some false)) p

module _ (timeout : ℕ) (no_signal : Text) where
  phase-raced :
      (hash : ℕ) (race : Race) (t : Tracker)
      → (raced never timeout no_signal hash race t).phase ≡ settled (ended_by timeout hash race)
  unfolding raced fail
  phase-raced hash (waited (resolved r)) t = phase-received timeout hash r t
  phase-raced hash (waited confirmation_timeout) t = refl
  phase-raced hash (waited (receipt_timeout cause)) t = refl
  phase-raced hash interrupted t = refl

  -- The timer leaves the call and its signal as they are.
  record IsKept (t u : Tracker) : Type 0 where
    phase : u.phase ≡ t.phase
    controller : u.controller ≡ t.controller

  timed_out-IsKept :
      (state : TransactionState) (controller : Option Bool) (t : Tracker)
      → IsKept t (timed_out never timeout no_signal state controller t)
  unfolding timed_out overdue_now
  timed_out-IsKept pending none t = record { phase = refl; controller = refl }
  timed_out-IsKept pending (some true) t = record { phase = refl; controller = refl }
  timed_out-IsKept pending (some false) t = record { phase = refl; controller = refl }
  timed_out-IsKept idle controller t = record { phase = refl; controller = refl }
  timed_out-IsKept submitting controller t = record { phase = refl; controller = refl }
  timed_out-IsKept success controller t = record { phase = refl; controller = refl }
  timed_out-IsKept failed controller t = record { phase = refl; controller = refl }
  timed_out-IsKept overdue controller t = record { phase = refl; controller = refl }

  if-IsKept : (b : Bool) (t u : Tracker) → IsKept t u → IsKept t (if b then u else t)
  if-IsKept true t u k = k
  if-IsKept false t u k = record { phase = refl; controller = refl }

  timer-IsKept :
      (t : Tracker)
      → IsKept t
          (if t.timer then timed_out never timeout no_signal t.status.state t.controller t else t)
  timer-IsKept t =
      if-IsKept t.timer t (timed_out never timeout no_signal t.status.state t.controller t)
        (timed_out-IsKept t.status.state t.controller t)

  step_at-IsWaiting :
      (hash : ℕ) (phase : Phase) (e : Event) (t : Tracker)
      → phase ≡ at_receipt hash none
      → is_idle e ≡ true
      → IsWaiting hash t
      → IsWaiting hash (step_at never timeout no_signal phase e t)
  unfolding step_at
  step_at-IsWaiting hash phase timer_fires t p i w =
      let k = timer-IsKept t in
      record { at = k.phase ∙ w.at; listening = k.controller ∙ w.listening }
  step_at-IsWaiting hash (at_receipt h none) resumes t p i w = w
  step_at-IsWaiting hash (at_receipt h none) (operation_ends o) t p i w = w
  step_at-IsWaiting hash (at_receipt h (some race)) e t p i w = absurd (cc)
  step_at-IsWaiting hash resting e t p i w = absurd (cc p)
  step_at-IsWaiting hash at_operation e t p i w = absurd (cc p)
  step_at-IsWaiting hash (settled end) e t p i w = absurd (cc p)
  step_at-IsWaiting hash phase e t p i w = absurd (cc i)

  step_at-race :
      (hash : ℕ) (race : Race) (phase : Phase) (e : Event) (t : Tracker)
      → phase ≡ at_receipt hash none
      → race_of e ≡ some race
      → IsWaiting hash t
      → (step_at never timeout no_signal phase e t).phase ≡ at_receipt hash (some race)
  unfolding step_at abort reset
  step_at-race hash race phase abort_called t p r w =
      let is : interrupted ≡ race = cc r in interrupted_at hash race t is w
  step_at-race hash race phase reset_called t p r w =
      let is : interrupted ≡ race = cc r in interrupted_at hash race t is w
  step_at-race hash race (at_receipt h none) (wait_ends w') t p r w =
      let is : waited w' ≡ race = cc r in let same : h ≡ hash = cc p in rw is (rw same refl)
  step_at-race hash race (at_receipt h (some race')) e t p r w = absurd (cc)
  step_at-race hash race resting e t p r w = absurd (cc p)
  step_at-race hash race at_operation e t p r w = absurd (cc p)
  step_at-race hash race (settled end) e t p r w = absurd (cc p)
  step_at-race hash race phase e t p r w = absurd (cc r)

  step_at-going_on :
      (hash : ℕ) (race : Race) (phase : Phase) (e : Event) (t : Tracker)
      → phase ≡ at_receipt hash (some race)
      → t.phase ≡ phase
      → is_quiet e ≡ true
      → (step_at never timeout no_signal phase e t).phase ≡ at_receipt hash (some race)
  unfolding step_at abort reset
  step_at-going_on hash race phase abort_called t p at q =
      interrupt-race hash race t.controller t.phase (at ∙ p)
  step_at-going_on hash race phase reset_called t p at q =
      interrupt-race hash race t.controller t.phase (at ∙ p)
  step_at-going_on hash race phase timer_fires t p at q = (timer-IsKept t).phase ∙ at ∙ p
  step_at-going_on hash race phase (execute_called signal) t p at q = absurd (cc q)
  step_at-going_on hash race phase resumes t p at q = absurd (cc q)
  step_at-going_on hash race (at_receipt h (some race')) (operation_ends o) t p at q = at ∙ p
  step_at-going_on hash race (at_receipt h (some race')) (wait_ends w) t p at q = at ∙ p
  step_at-going_on hash race (at_receipt h none) e t p at q = absurd (cc p)
  step_at-going_on hash race resting e t p at q = absurd (cc p)
  step_at-going_on hash race at_operation e t p at q = absurd (cc p)
  step_at-going_on hash race (settled end) e t p at q = absurd (cc p)

  step_at-resumes :
      (hash : ℕ) (race : Race) (phase : Phase) (t : Tracker)
      → phase ≡ at_receipt hash (some race)
      → (step_at never timeout no_signal phase resumes t).phase
        ≡ settled (ended_by timeout hash race)
  unfolding step_at
  step_at-resumes hash race phase t p = rw p (phase-raced hash race t)

  step_at-settled :
      (end : Ended) (phase : Phase) (e : Event) (t : Tracker)
      → phase ≡ settled end
      → t.phase ≡ phase
      → calls_again e ≡ false
      → (step_at never timeout no_signal phase e t).phase ≡ settled end
  unfolding step_at abort reset
  step_at-settled end phase abort_called t p at q =
      interrupt-settled end t.controller t.phase (at ∙ p)
  step_at-settled end phase reset_called t p at q =
      interrupt-settled end t.controller t.phase (at ∙ p)
  step_at-settled end phase timer_fires t p at q = (timer-IsKept t).phase ∙ at ∙ p
  step_at-settled end phase (execute_called signal) t p at q = absurd (cc q)
  step_at-settled end (settled x) e t p at q = at ∙ p
  step_at-settled end (at_receipt h race) e t p at q = absurd (cc p)
  step_at-settled end resting e t p at q = absurd (cc p)
  step_at-settled end at_operation e t p at q = absurd (cc p)

  run-IsWaiting :
      (hash : ℕ) (es fs : List Event) (t : Tracker) (P : Tracker → Type 0)
      → All (λ e. is_idle e ≡ true) es
      → IsWaiting hash t
      → ((u : Tracker) → IsWaiting hash u → P (run never timeout no_signal fs u))
      → P (run never timeout no_signal (es ++ fs) t)
  run-IsWaiting hash [] fs t P i w k = k t w
  run-IsWaiting hash (e ∷ es) fs t P (i, is) w k =
      run-IsWaiting hash es fs (step never timeout no_signal e t) P is
        (step_at-IsWaiting hash t.phase e t w.at i w) k

  run-settled_from :
      (end : Ended) (es : List Event) (t : Tracker)
      → t.phase ≡ settled end
      → All (λ e. calls_again e ≡ false) es
      → (run never timeout no_signal es t).phase ≡ settled end
  run-settled_from end [] t p c = p
  run-settled_from end (e ∷ es) t p (c, cs) =
      run-settled_from end es (step never timeout no_signal e t)
        (step_at-settled end t.phase e t p refl c) cs

  run-going_on :
      (hash : ℕ) (race : Race) (es fs : List Event) (t : Tracker)
      → t.phase ≡ at_receipt hash (some race)
      → All (λ e. is_quiet e ≡ true) es
      → All (λ e. calls_again e ≡ false) fs
      → (run never timeout no_signal (es ++ (resumes ∷ fs)) t).phase
        ≡ settled (ended_by timeout hash race)
  run-going_on hash race [] fs t p q c =
      run-settled_from (ended_by timeout hash race) fs (step never timeout no_signal resumes t)
        (step_at-resumes hash race t.phase t p) c
  run-going_on hash race (e ∷ es) fs t p (q, qs) c =
      run-going_on hash race es fs (step never timeout no_signal e t)
        (step_at-going_on hash race t.phase e t p refl q) qs c

  run-ends-never :
      (hash : ℕ) (t : Tracker) (before : List Event) (e : Event) (race : Race)
      (behind rest : List Event)
      → IsWaiting hash t
      → All (λ e. is_idle e ≡ true) before
      → race_of e ≡ some race
      → All (λ e. is_quiet e ≡ true) behind
      → All (λ e. calls_again e ≡ false) rest
      → (run never timeout no_signal (before ++ (e ∷ (behind ++ (resumes ∷ rest)))) t).phase
        ≡ settled (ended_by timeout hash race)
  run-ends-never hash t before e race behind rest w i r q c =
      run-IsWaiting hash before (e ∷ (behind ++ (resumes ∷ rest))) t
        (λ u. u.phase ≡ settled (ended_by timeout hash race)) i w
        (λ u v.
          run-going_on hash race behind rest (step never timeout no_signal e u)
            (step_at-race hash race u.phase e u v.at r v) q c)

-- Where no callback throws, a call of execute that waits for the receipt of a transaction with a signal that is not aborted ends
-- by what comes first: with the result or the error of the wait's own end, or with the error of an
-- abort where an abort or a reset comes first, the wait then needing no end. It ends so once it has
-- gone on, and stays so, whatever the timer does and whatever comes behind the first of these, if
-- execute is not called again.
pub run-ends :
    (breaks : Callback → Option Text) (timeout : ℕ) (no_signal : Text) (hash : ℕ) (t : Tracker)
    (before : List Event) (e : Event) (race : Race) (behind rest : List Event)
    → ((c : Callback) → breaks c ≡ none)
    → IsWaiting hash t
    → All (λ e. is_idle e ≡ true) before
    → race_of e ≡ some race
    → All (λ e. is_quiet e ≡ true) behind
    → All (λ e. calls_again e ≡ false) rest
    → (run breaks timeout no_signal (before ++ (e ∷ (behind ++ (resumes ∷ rest)))) t).phase
      ≡ settled (ended_by timeout hash race)
run-ends breaks timeout no_signal hash t before e race behind rest h w i r q c =
    let same : breaks ≡ never = λ i c. h c i in
    let all_events = before ++ (e ∷ (behind ++ (resumes ∷ rest))) in
    ap (λ b. (run b timeout no_signal all_events t).phase) same
    ∙ run-ends-never timeout no_signal hash t before e race behind rest w i r q c
