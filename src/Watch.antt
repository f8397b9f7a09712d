-- ===== src/Watch.antt =====
-- js/src/actions/cvms/watch_cvm_state.ts: the values that a watch works with, and one line of an
-- event stream. `JSON.parse` is a parameter. The signal is aborted from its `abort_at`-th look on.
pub mod Stream
pub mod Retry
use phala_cloud.Common.{
  ℕ, suc, ◌+◌, Text, lit, Bool, true, false, not, ◌&&◌, Option, none, some, List, [], ◌∷◌, ◌++◌,
  if◌then◌else◌, leb, text_eq, is_empty, trim, starts_with, drop,
}
use phala_cloud.Common.Json.{Json, null, str, obj, end, field, get_field, json_is_text}

-- SSEEvent; the data of an event is what `JSON.parse` returned
pub record SseEvent : Type 0 where
  pub type : Text
  pub payload : Json

-- What the signal shows: `none` if there is no signal or it is never aborted.
abbrev pub Signal : Type 0
Signal = Option ℕ

-- signal?.aborted, at the n-th look
unfoldable pub aborted : Signal → ℕ → Bool
aborted none n = false
aborted (some k) n = leb k n

-- The variables of `parseSSEStream` that a line changes, with the events passed to `onEvent`.
pub record Parser : Type 0 where
  pub current_event : Text
  pub current_data : Text
  pub final_state : Option Json
  pub emitted : List SseEvent
  pub looks : ℕ

-- What `processLine` ends with: it returns null, "complete" or "timeout", or throws
-- `WatchAbortedError` or, on a member of `null`, a `TypeError`.
pub data Verdict : Type 0 where
  go_on complete timed_out was_aborted type_error : Verdict

-- event.data.status === target && event.data.target === target; `none` if it throws
unfoldable pub is_reached : Text → Json → Option Bool
unfolding get_field json_is_text
is_reached target null = none
is_reached target (obj fs) = some (
    json_is_text (get_field (lit "status") fs) target
    && json_is_text (get_field (lit "target") fs) target)
is_reached target _ = some false

abbrev verdict_of : Option Bool → Verdict
verdict_of none = type_error
verdict_of (some b) = if b then complete else timed_out

module _ (parse_json : Text → Option Json) where
  -- parseSSEEvent
  unfoldable pub parse_sse_event : Text → Text → SseEvent
  parse_sse_event type text = elim (parse_json text) [
    | some j ↦ record { type = type; payload = j }
    | none ↦ record {
      type = lit "error";
      payload = obj (field (lit "error") (str (lit "Failed to parse SSE event")) end);
    }
  ]

  module _ (target : Text) (signal : Signal) where
    -- The tests on a complete event, after `onEvent` has had it.
    judge : SseEvent → ℕ → Verdict
    judge event look =
        if aborted signal look
        then was_aborted
        else if text_eq event.type (lit "complete")
        then verdict_of (is_reached target event.payload)
        else if text_eq event.type (lit "timeout")
        then timed_out
        else go_on

    -- The end of a message that has an event name and data.
    finish_message : Parser → SseEvent → Parser × Verdict
    finish_message p event = (
      record p {
        final_state =
            if text_eq event.type (lit "state") then some event.payload else p.final_state;
        emitted = p.emitted ++ event ∷ [];
        looks = suc p.looks;
      },
      judge event p.looks,
    )

    -- Reset for the next message, unless `processLine` has returned or thrown before.
    reset_message : Parser × Verdict → Parser × Verdict
    reset_message (p, go_on) = (record p { current_event = []; current_data = [] }, go_on)
    reset_message (p, v) = (p, v)

    -- processLine
    unfoldable pub process_line : Parser → Text → Parser × Verdict
    unfolding finish_message reset_message judge parse_sse_event is_reached aborted
    process_line p line =
        if starts_with (lit "event:") line
        then (record p { current_event = trim (drop 6 line) }, go_on)
        else if starts_with (lit "data:") line
        then (record p { current_data = trim (drop 5 line) }, go_on)
        else if not (is_empty line)
        then (p, go_on)
        else reset_message (
            if not (is_empty p.current_event) && not (is_empty p.current_data)
            then finish_message p (parse_sse_event p.current_event p.current_data)
            else (p, go_on))
