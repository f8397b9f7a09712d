-- ===== src/Watch/Retry/Returns.antt =====
-- What `watchCvmState` returns.
use phala_cloud.Common.{
  ℕ, zero, suc, Text, lit, Bool, true, false, Option, none, some, List, [], ◌∷◌, ◌++◌, ◌≡◌, refl,
  Bool-cases, inl, inr, ◌||◌, if◌then◌else◌, text_eq,
}
use phala_cloud.Common.Json.{Json, truthy_json}
use phala_cloud.Watch.{SseEvent, Signal, aborted}
use phala_cloud.Watch.Stream.{gave, abort_error, stream_error, StreamEnd}
use phala_cloud.Watch.Stream.Reached.{
  last_state, last_state_from, last_event, EndsComplete, parse_sse_stream_reached, newer_state,
}
use phala_cloud.Watch.Retry.{
  Response, rejected, answered, WatchError, watch_aborted, terminal_error, Watch, WatchEnd, threw,
  returned, start, is_ok, Failure, AttemptEnd, abort_failure, terminal, other, got, failed, exceeds,
  sleep_then, on_failure, on_end, watch_single_attempt, watch_loop, watch_cvm_state, after_attempt,
  attempt_end,
}

last_state_from-some :
    (es : List SseEvent) (acc acc' : Option Json) (j : Json)
    → last_state_from none es ≡ some j
    → last_state_from acc es ≡ some j
unfolding last_state_from
last_state_from-some [] acc acc' j h = cc
last_state_from-some (e ∷ es) acc acc' j h = elim (Bool-cases (text_eq e.type (lit "state"))) [
  | inl t ↦ rw t (rw t at h)
  | inr t ↦ rw t (last_state_from-some es acc acc' j (rw t at h))
]

last_state_from-append_list :
    (ds es : List SseEvent) (acc : Option Json)
    → last_state_from acc (ds ++ es) ≡ last_state_from (last_state_from acc ds) es
unfolding last_state_from
last_state_from-append_list [] es acc = refl
last_state_from-append_list (d ∷ ds) es acc = last_state_from-append_list ds es (newer_state acc d)

last_event-append_list :
    (ds es : List SseEvent) (e : SseEvent) → last_event es ≡ some e → last_event (ds ++ es) ≡ some e
unfolding last_event
last_event-append_list [] es e h = h
last_event-append_list (d ∷ []) [] e h = cc
last_event-append_list (d ∷ []) (f ∷ es) e h = h
last_event-append_list (d ∷ c ∷ ds) es e h = last_event-append_list (c ∷ ds) es e h

-- The events have ended with a complete event for the target, and the state is the last.
pub record IsReached (target : Text) (es : List SseEvent) (j : Json) : Type 0 where
  pub completed : EndsComplete target es
  pub newest : last_state es ≡ some j
  pub real : truthy_json j ≡ true

IsReached-append :
    (target : Text) (ds es : List SseEvent) (j : Json)
    → IsReached target es j
    → IsReached target (ds ++ es) j
unfolding last_state
IsReached-append target ds es j r = record {
  completed = record {
    event = r.completed.event;
    last = last_event-append_list ds es r.completed.event r.completed.last;
    completes = r.completed.completes;
    reached = r.completed.reached;
  };
  newest =
      rw (last_state_from-append_list ds es none)
        (last_state_from-some es (last_state_from none ds) none j r.newest);
  real = r.real;
}

attempt_end-eq-got : (r : StreamEnd) (j : Json) → attempt_end r ≡ got j → r ≡ gave j
unfolding attempt_end
attempt_end-eq-got (gave i) j h = cc
attempt_end-eq-got abort_error j h = cc
attempt_end-eq-got (stream_error m) j h = cc

module _ (parse_json : Text → Option Json) (target : Text) (signal : Signal) where
  watch_single_attempt-IsReached :
      (looks : ℕ) (r : Response) (j : Json)
      → (watch_single_attempt parse_json target signal looks r).ended ≡ got j
      → truthy_json j ≡ true
      → IsReached target (watch_single_attempt parse_json target signal looks r).emitted j
  unfolding watch_single_attempt
  watch_single_attempt-IsReached looks (rejected m) j h t = cc
  watch_single_attempt-IsReached looks (answered code text none) j h t =
      elim (Bool-cases (is_ok code)) [
        | inl e ↦ let bad = rw e at h in cc
        | inr e ↦ let bad = rw e at h in cc
      ]
  watch_single_attempt-IsReached looks (answered code text (some body)) j h t =
      elim (Bool-cases (is_ok code)) [
        | inr e ↦ let bad = rw e at h in cc
        | inl e ↦
            let both =
              parse_sse_stream_reached parse_json target signal looks body j
                (attempt_end-eq-got _ j (rw e at h)) t in
            rw e (record { completed = both.1; newest = both.0; real = t })
      ]

  module _ (most : Option ℕ) where
    -- If it returns a state, it is the state of a stream that has reached the target.
    record IsGood (x : Watch × WatchEnd) : Type 0 where
      pub good : (j : Json) → x.1 ≡ returned j → IsReached target x.0.events j

    IsGood-threw : (w : Watch) (e : WatchError) → IsGood (w, threw e)
    IsGood-threw w e = record { good = λ j h. cc }

    IsGood-if :
        (b : Bool) (x y : Watch × WatchEnd) → IsGood x → IsGood y → IsGood (if b then x else y)
    IsGood-if true x y h k = h
    IsGood-if false x y h k = k

    sleep_then-IsGood :
        (next : Watch → Watch × WatchEnd) (w : Watch)
        → ((v : Watch) → IsGood (next v))
        → IsGood (sleep_then parse_json target signal most next w)
    unfolding sleep_then
    sleep_then-IsGood next w h =
        IsGood-if (aborted signal w.looks || aborted signal (suc w.looks)) _ _
          (IsGood-threw w watch_aborted) (h (record w { looks = suc (suc w.looks) }))

    on_failure-IsGood :
        (next : Watch → Watch × WatchEnd) (w : Watch) (e : Failure)
        → ((v : Watch) → IsGood (next v))
        → IsGood (on_failure parse_json target signal most next w e)
    unfolding on_failure
    on_failure-IsGood next w abort_failure h = IsGood-threw w watch_aborted
    on_failure-IsGood next w (terminal m) h = IsGood-threw w (terminal_error m)
    on_failure-IsGood next w (other m) h =
        IsGood-if (exceeds w.attempt most) _ _ (IsGood-threw w _) (sleep_then-IsGood next _ h)

    on_end-IsGood :
        (next : Watch → Watch × WatchEnd) (w : Watch) (r : AttemptEnd)
        → ((j : Json) → r ≡ got j → truthy_json j ≡ true → IsReached target w.events j)
        → ((v : Watch) → IsGood (next v))
        → IsGood (on_end parse_json target signal most next w r)
    unfolding on_end
    on_end-IsGood next w (got j) reached h = elim (Bool-cases (truthy_json j)) [
      | inl t ↦
          rw t (record { good = λ i e. let same : j ≡ i = cc e in rw (← same) (reached j refl t) })
      | inr t ↦
          rw t
            (IsGood-if (exceeds w.attempt most) _ _ (IsGood-threw w _) (sleep_then-IsGood next w h))
    ]
    on_end-IsGood next w (failed e) reached h =
        IsGood-if (aborted signal w.looks) _ _ (IsGood-threw w watch_aborted)
          (on_failure-IsGood next (record w { looks = suc w.looks }) e h)

    watch_loop-IsGood :
        (respond : ℕ → Response) (fuel : ℕ) (w : Watch)
        → IsGood (watch_loop parse_json target signal most respond fuel w)
    unfolding watch_loop
    watch_loop-IsGood respond zero w = record { good = λ j e. cc }
    watch_loop-IsGood respond (suc fuel) w =
        IsGood-if (exceeds w.attempt most) _ _ (IsGood-threw w _) (
          IsGood-if (aborted signal w.looks) _ _ (IsGood-threw w watch_aborted) (
            let tried =
              watch_single_attempt parse_json target signal (suc w.looks)
                (respond (suc w.attempt)) in
            on_end-IsGood (watch_loop parse_json target signal most respond fuel)
              (after_attempt parse_json target signal most w tried) tried.ended
              (λ j e t.
                IsReached-append target w.events tried.emitted j
                  (watch_single_attempt-IsReached (suc w.looks) (respond (suc w.attempt)) j e t))
              (watch_loop-IsGood respond fuel)))

-- Whatever the responses, the retries and the abort, if the watch returns a state then the last event
-- that `onEvent` got is a complete event whose status and target are both the target, and the state
-- is the payload of the last state event, and counts as true.
pub watch_cvm_state_returns :
    (parse_json : Text → Option Json) (target : Text) (signal : Signal) (most : Option ℕ)
    (respond : ℕ → Response) (fuel : ℕ) (j : Json)
    → (watch_cvm_state parse_json target signal most respond fuel).1 ≡ returned j
    → IsReached target (watch_cvm_state parse_json target signal most respond fuel).0.events j
unfolding watch_cvm_state
watch_cvm_state_returns parse_json target signal most respond fuel j h =
    (watch_loop-IsGood parse_json target signal most respond fuel start).good j h
