-- ===== src/Watch/Retry/Bounds.antt =====
-- How often `watchCvmState` tries.
use phala_cloud.Common.{
  ℕ, zero, suc, ◌+◌, ◌≤◌, Text, lit, false, Option, none, some, [], ◌∷◌, ◌≡◌, ◌≢◌, refl, ap, ◌++◌,
  arith, Bool-cases, inl, inr, ◌||◌, ◌&&◌, not, ltb, ◌==◌, if◌then◌else◌,
}
use phala_cloud.Common.Json.{Json, truthy_json}
use phala_cloud.Watch.{Signal, aborted}
use phala_cloud.Watch.Retry.{
  Response, rejected, answered, is_ok, http_message, error_event, Watch, WatchEnd, running, threw,
  other_error, start, Failure, AttemptEnd, abort_failure, terminal, other, got, failed, exceeds,
  sleep_then, on_failure, on_end, watch_single_attempt, watch_loop, watch_cvm_state, after_attempt,
}

module _ (parse_json : Text → Option Json) (target : Text) (signal : Signal) (most : ℕ) where
  -- It has ended, within one attempt more than the retries allowed.
  abbrev IsBounded : Watch × WatchEnd → Type 0
  IsBounded (w, r) = (w.attempt ≤ most + 1) × (r ≢ running)

  sleep_then-IsBounded :
      (next : Watch → Watch × WatchEnd) (w : Watch)
      → w.attempt ≤ most + 1
      → ((v : Watch) → v.attempt ≡ w.attempt → IsBounded (next v))
      → IsBounded (sleep_then parse_json target signal (some most) next w)
  unfolding sleep_then
  sleep_then-IsBounded next w low h =
      elim (Bool-cases (aborted signal w.looks || aborted signal (suc w.looks))) [
        | inl e ↦ rw e (low, λ c. cc)
        | inr e ↦ rw e (h (record w { looks = suc (suc w.looks) }) refl)
      ]

  on_failure-IsBounded :
      (next : Watch → Watch × WatchEnd) (w : Watch) (e : Failure)
      → w.attempt ≤ most + 1
      → ((v : Watch) → v.attempt ≡ w.attempt → w.attempt ≤ most → IsBounded (next v))
      → IsBounded (on_failure parse_json target signal (some most) next w e)
  unfolding on_failure exceeds
  on_failure-IsBounded next w abort_failure low h = (low, λ c. cc)
  on_failure-IsBounded next w (terminal m) low h = (low, λ c. cc)
  on_failure-IsBounded next w (other m) low h = elim (Bool-cases (exceeds w.attempt (some most))) [
    | inl e ↦ rw e (low, λ c. cc)
    | inr e ↦ rw e (sleep_then-IsBounded next _ low (λ v same. h v same (ground arith)))
  ]

  on_end-IsBounded :
      (next : Watch → Watch × WatchEnd) (w : Watch) (r : AttemptEnd)
      → w.attempt ≤ most + 1
      → ((v : Watch) → v.attempt ≡ w.attempt → w.attempt ≤ most → IsBounded (next v))
      → IsBounded (on_end parse_json target signal (some most) next w r)
  unfolding on_end exceeds
  on_end-IsBounded next w (got j) low h = elim (Bool-cases (truthy_json j)) [
    | inl e ↦ rw e (low, λ c. cc)
    | inr e ↦ rw e (elim (Bool-cases (exceeds w.attempt (some most))) [
      | inl x ↦ rw x (low, λ c. cc)
      | inr x ↦ rw x (sleep_then-IsBounded next w low (λ v same. h v same (ground arith)))
    ])
  ]
  on_end-IsBounded next w (failed e) low h = elim (Bool-cases (aborted signal w.looks)) [
    | inl a ↦ rw a (low, λ c. cc)
    | inr a ↦ rw a (on_failure-IsBounded next _ e low h)
  ]

  watch_loop-IsBounded :
      (respond : ℕ → Response) (fuel : ℕ) (w : Watch)
      → w.attempt ≤ most + 1
      → most + 2 ≤ fuel + w.attempt
      → IsBounded (watch_loop parse_json target signal (some most) respond fuel w)
  unfolding watch_loop
  watch_loop-IsBounded respond zero w low room = absurd (omega arith)
  watch_loop-IsBounded respond (suc fuel) w low room =
      elim (Bool-cases (exceeds w.attempt (some most))) [
        | inl x ↦ rw x (low, λ c. cc)
        | inr x ↦ rw x (elim (Bool-cases (aborted signal w.looks)) [
          | inl a ↦ rw a (low, λ c. cc)
          | inr a ↦ rw a (
              let tried =
                watch_single_attempt parse_json target signal (suc w.looks)
                  (respond (suc w.attempt)) in
              on_end-IsBounded (watch_loop parse_json target signal (some most) respond fuel)
                (after_attempt parse_json target signal (some most) w tried) tried.ended
                (unfold exceeds in ground arith)
                (λ v same up.
                  watch_loop-IsBounded respond fuel v (omega (arith, same)) (omega (arith, same))))
        ])
      ]

-- With a finite number of retries, whatever the responses, the chunks and the abort, the watch ends
-- and has made at most one attempt more than the retries allowed, given fuel for these rounds and
-- one more.
pub watch_cvm_state_bounded :
    (parse_json : Text → Option Json) (target : Text) (signal : Signal) (most : ℕ)
    (respond : ℕ → Response) (fuel : ℕ)
    → most + 2 ≤ fuel
    → ((watch_cvm_state parse_json target signal (some most) respond fuel).0.attempt ≤ most + 1)
      × ((watch_cvm_state parse_json target signal (some most) respond fuel).1 ≢ running)
unfolding watch_cvm_state
watch_cvm_state_bounded parse_json target signal most respond fuel room =
    watch_loop-IsBounded parse_json target signal most respond fuel start (omega arith)
      (omega arith)

-- The message of the error that a response makes an attempt throw, if it is one to retry: `fetch`
-- rejects, the status is 408, 429 or from 500 on, or there is no body.
unfoldable pub retryable_message : Response → Option Text
retryable_message (rejected m) = some m
retryable_message (answered code text body) =
    if is_ok code
    then elim body [ none ↦ some (lit "Response body is null") | some b ↦ none ]
    else if ltb code 500 && not (code == 429) && not (code == 408)
    then none
    else some (http_message code text)

module _ (parse_json : Text → Option Json) (target : Text) (signal : Signal) where
  watch_single_attempt-retryable :
      (r : Response) (looks : ℕ) (m : Text)
      → retryable_message r ≡ some m
      → watch_single_attempt parse_json target signal looks r
        ≡ record { emitted = []; looks = looks; ended = failed (other m) }
  unfolding watch_single_attempt retryable_message
  watch_single_attempt-retryable (rejected t) looks m h = ground arith
  watch_single_attempt-retryable (answered code text none) looks m h = ground arith
  watch_single_attempt-retryable (answered code text (some b)) looks m h = ground arith

module _ (parse_json : Text → Option Json) (target : Text) (most : ℕ) (respond : ℕ → Response)
    (message : ℕ → Text)
    (refused : (n : ℕ) → retryable_message (respond n) ≡ some (message n)) where
  refused_loop :
      (fuel : ℕ) (w : Watch)
      → w.attempt ≤ most
      → w.last_server_error ≡ none
      → most + 1 ≤ fuel + w.attempt
      → ((watch_loop parse_json target none (some most) respond fuel w).0.attempt ≡ most + 1)
        × ((watch_loop parse_json target none (some most) respond fuel w).1
            ≡ threw (other_error (message (most + 1))))
  unfolding watch_loop aborted
  refused_loop zero w low nothing room = absurd (omega arith)
  refused_loop (suc fuel) w low nothing room =
      let within : exceeds w.attempt (some most) ≡ false = unfold exceeds in ground arith in
      rw within (
        rw
          (watch_single_attempt-retryable parse_json target none (respond (suc w.attempt))
            (suc w.looks) (message (suc w.attempt)) (refused (suc w.attempt)))
          (elim (Bool-cases (exceeds (suc w.attempt) (some most))) [
            | inl x ↦
                let last : suc w.attempt ≡ most + 1 = unfold exceeds in ground arith in
                rw (x, nothing) (last, ap (λ (n : ℕ). threw (other_error (message n))) last)
            | inr x ↦ rw x (
                refused_loop fuel
                  (record {
                    attempt = suc w.attempt;
                    last_server_error = w.last_server_error;
                    events = (w.events ++ []) ++ error_event (message (suc w.attempt)) ∷ [];
                    looks = suc (suc (suc (suc w.looks)));
                  })
                  (unfold exceeds in ground arith) nothing (omega arith))
          ]))

-- Without an abort signal, if every response makes its attempt fail with an error to retry, then the
-- watch makes exactly one attempt more than the retries allowed and throws the last attempt's own
-- error, not `MaxRetriesExceededError`.
pub watch_cvm_state_refused :
    (parse_json : Text → Option Json) (target : Text) (most : ℕ) (respond : ℕ → Response)
    (message : ℕ → Text) (fuel : ℕ)
    → ((n : ℕ) → retryable_message (respond n) ≡ some (message n))
    → most + 1 ≤ fuel
    → ((watch_cvm_state parse_json target none (some most) respond fuel).0.attempt ≡ most + 1)
      × ((watch_cvm_state parse_json target none (some most) respond fuel).1
          ≡ threw (other_error (message (most + 1))))
unfolding watch_cvm_state
watch_cvm_state_refused parse_json target most respond message fuel refused room =
    refused_loop parse_json target most respond message refused fuel start (omega arith) refl
      (omega arith)
