-- ===== src/Watch/Retry.antt =====
-- js/src/actions/cvms/watch_cvm_state.ts: `watchSingleAttempt` on the response to its request, and
-- the loop of `watchCvmState`. The n-th attempt gets the response `respond n`, counted from 1.
pub mod Bounds
pub mod Returns
mod Tests
use phala_cloud.Common.{
  ℕ, zero, suc, ◌+◌, Text, lit, Bool, true, false, not, ◌&&◌, ◌||◌, Option, none, some, List, [],
  ◌∷◌, ◌++◌, if◌then◌else◌, ltb, leb, ◌==◌, text_eq, decimal,
}
use phala_cloud.Common.Json.{Json, null, str, obj, end, field, truthy_json}
use phala_cloud.Watch.{SseEvent, Signal, aborted}
use phala_cloud.Watch.Stream.{Body, StreamEnd, gave, abort_error, stream_error, parse_sse_stream}

-- `fetch` rejects with a message, or there is a status, its text and perhaps a body.
pub data Response : Type 0 where
  rejected : Text → Response
  answered : ℕ → Text → Option Body → Response

-- What an attempt throws: `WatchAbortedError`, `TerminalWatchError` or another error.
pub data Failure : Type 0 where
  abort_failure : Failure
  terminal other : Text → Failure

pub data AttemptEnd : Type 0 where
  got : Json → AttemptEnd
  failed : Failure → AttemptEnd

pub record Attempt : Type 0 where
  pub emitted : List SseEvent
  pub looks : ℕ
  pub ended : AttemptEnd

attempt_end : StreamEnd → AttemptEnd
attempt_end (gave j) = got j
attempt_end abort_error = failed abort_failure
attempt_end (stream_error m) = failed (other m)

-- response.ok
abbrev is_ok : ℕ → Bool
is_ok code = leb 200 code && ltb code 300

pub is_terminal : ℕ → Bool
is_terminal code = ltb code 500 && not (code == 429) && not (code == 408)

-- `HTTP ${response.status}: ${response.statusText}`
unfoldable pub http_message : ℕ → Text → Text
http_message code text = lit "HTTP " ++ (decimal code ++ (lit ": " ++ text))

-- The message of an error, as an event for `onEvent`.
abbrev error_event : Text → SseEvent
error_event message = record {
  type = lit "error";
  payload = obj (field (lit "error") (str message) end);
}

-- The variables of `watchCvmState`, with the events that `onEvent` has had.
pub record Watch : Type 0 where
  pub attempt : ℕ
  pub last_server_error : Option Json
  pub events : List SseEvent
  pub looks : ℕ

pub data WatchError : Type 0 where
  watch_aborted : WatchError
  max_retries_exceeded : ℕ → Option Json → Option Text → WatchError
  terminal_error other_error : Text → WatchError

-- `running` is an end that only a lack of fuel gives.
pub data WatchEnd : Type 0 where
  returned : Json → WatchEnd
  threw : WatchError → WatchEnd
  running : WatchEnd

abbrev pub start : Watch
start = record { attempt = 0; last_server_error = none; events = []; looks = 0 }

-- The data of the last "error" event, kept by `handleEvent`.
pub server_error : Option Json → List SseEvent → Option Json
server_error last [] = last
server_error last (e ∷ es) =
    server_error (if text_eq e.type (lit "error") then some e.payload else last) es

-- attempt > maxRetries, where `none` is Infinity
exceeds : ℕ → Option ℕ → Bool
exceeds n none = false
exceeds n (some most) = ltb most n

abbrev is_truthy : Option Json → Bool
is_truthy none = false
is_truthy (some j) = truthy_json j

module _ (parse_json : Text → Option Json) (target : Text) (signal : Signal) where
  -- watchSingleAttempt
  unfoldable pub watch_single_attempt : ℕ → Response → Attempt
  unfolding attempt_end is_terminal http_message
  watch_single_attempt looks (rejected message) = record {
    emitted = [];
    looks = looks;
    ended = failed (other message);
  }
  watch_single_attempt looks (answered code text body) =
      if not (is_ok code)
      then record {
        emitted = [];
        looks = looks;
        ended = failed (
            if is_terminal code
            then terminal (http_message code text)
            else other (http_message code text));
      }
      else elim body [
        | none ↦ record {
          emitted = [];
          looks = looks;
          ended = failed (other (lit "Response body is null"));
        }
        | some b ↦
            let (p, r) = parse_sse_stream parse_json target signal looks b in
            record { emitted = p.emitted; looks = p.looks; ended = attempt_end r }
      ]

  module _ (max_retries : Option ℕ) where
    -- sleep(retryDelay, signal), then the next round; the signal is looked at before and after.
    sleep_then : (Watch → Watch × WatchEnd) → Watch → Watch × WatchEnd
    sleep_then next w =
        if aborted signal w.looks || aborted signal (suc w.looks)
        then (w, threw watch_aborted)
        else next (record w { looks = suc (suc w.looks) })

    -- The `catch` block, past its look at the signal.
    on_failure : (Watch → Watch × WatchEnd) → Watch → Failure → Watch × WatchEnd
    on_failure next w abort_failure = (w, threw watch_aborted)
    on_failure next w (terminal m) = (w, threw (terminal_error m))
    on_failure next w (other m) =
        if exceeds w.attempt max_retries
        then (
          w,
          threw (
              if is_truthy w.last_server_error
              then max_retries_exceeded w.attempt w.last_server_error (some m)
              else other_error m),
        )
        else sleep_then next (record w { events = w.events ++ error_event m ∷ [] })

    -- What follows the attempt. A throw of `MaxRetriesExceededError` passes the `catch` block's look.
    on_end : (Watch → Watch × WatchEnd) → Watch → AttemptEnd → Watch × WatchEnd
    on_end next w (got j) =
        if truthy_json j
        then (w, returned j)
        else if exceeds w.attempt max_retries
        then (
          w,
          threw (
              if aborted signal w.looks
              then watch_aborted
              else max_retries_exceeded w.attempt w.last_server_error none),
        )
        else sleep_then next w
    on_end next w (failed e) =
        if aborted signal w.looks
        then (w, threw watch_aborted)
        else on_failure next (record w { looks = suc w.looks }) e

    abbrev pub after_attempt : Watch → Attempt → Watch
    after_attempt w a = record {
      attempt = suc w.attempt;
      last_server_error = server_error w.last_server_error a.emitted;
      events = w.events ++ a.emitted;
      looks = a.looks;
    }

    -- The loop of `watchCvmState`
    unfoldable pub watch_loop : (ℕ → Response) → ℕ → Watch → Watch × WatchEnd
    unfolding on_end on_failure sleep_then exceeds server_error
    watch_loop respond zero w = (w, running)
    watch_loop respond (suc fuel) w =
        if exceeds w.attempt max_retries
        then (w, threw (max_retries_exceeded w.attempt w.last_server_error none))
        else if aborted signal w.looks
        then (w, threw watch_aborted)
        else let a = watch_single_attempt (suc w.looks) (respond (suc w.attempt)) in
          on_end (watch_loop respond fuel) (after_attempt w a) a.ended

    -- watchCvmState, past the validation of its request
    unfoldable pub watch_cvm_state : (ℕ → Response) → ℕ → Watch × WatchEnd
    unfolding watch_loop
    watch_cvm_state respond fuel = watch_loop respond fuel start
