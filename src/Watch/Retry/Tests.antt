-- ===== src/Watch/Retry/Tests.antt =====
-- Runs of a watch, and each theorem at one.
use phala_cloud.Common.{
  ℕ, ◌+◌, ◌≤◌, Text, lit, true, Option, none, some, [], ◌∷◌, ◌++◌, ◌≡◌, ◌≢◌, refl, if◌then◌else◌,
  text_eq, trim, is_space, starts_with, arith, decimal, ◌==◌,
}
use phala_cloud.Common.Json.{Json, str, obj, end, field, truthy_json, get_field}
use phala_cloud.Watch.{aborted, process_line}
use phala_cloud.Watch.Stream.{
  Body, closed, gave, parse_sse_stream, split_lines, empty_parser, process_lines,
}
use phala_cloud.Watch.Stream.Chunks.{concat, by_lines, parse_sse_stream-by_lines}
use phala_cloud.Watch.Stream.Reached.{last_state, EndsComplete, parse_sse_stream_reached}
use phala_cloud.Watch.Retry.{
  Response, rejected, answered, running, threw, returned, other_error, watch_cvm_state,
  watch_single_attempt,
}
use phala_cloud.Watch.Retry.Bounds.{
  watch_cvm_state_bounded, watch_cvm_state_refused, retryable_message,
}
use phala_cloud.Watch.Retry.Returns.{IsReached, watch_cvm_state_returns}

abbrev up : Json
up = obj (field (lit "status") (str (lit "up")) (field (lit "target") (str (lit "up")) end))

-- A parser that reads one text, as an object, and nothing else.
abbrev reads_up : Text → Option Json
reads_up t = if text_eq t (lit "{}") then some up else none

runs : Unit {0}
unfolding watch_cvm_state parse_sse_stream process_lines split_lines text_eq trim is_space
    starts_with truthy_json get_field decimal aborted process_line watch_single_attempt
runs = tt

abbrev lf : Text
lf = 10 ∷ []

abbrev message : Text → Text
message name = lit "event:" ++ (name ++ (lf ++ (lit "data: {}" ++ (lf ++ lf))))

abbrev body : Body
body = record {
  chunks =
      message (lit "state")
      ∷ lit "event: comp"
      ∷ (lit "lete" ++ (lf ++ (lit "data:{}" ++ (lf ++ lf))))
      ∷ [];
  closing = closed;
}

parsed : (parse_sse_stream reads_up (lit "up") none 0 body).1 ≡ gave up
unfolding runs
parsed = refl

not_parsed : (parse_sse_stream reads_up (lit "down") none 0 body).1 ≡ gave Json.null
unfolding runs
not_parsed = refl

parse_sse_stream-by_lines_example :
    (
      (parse_sse_stream reads_up (lit "up") none 0 body).0.emitted,
      (parse_sse_stream reads_up (lit "up") none 0 body).1,
    )
    ≡ by_lines reads_up (lit "up") (empty_parser 0) (split_lines (concat body.chunks)).0 closed
parse_sse_stream-by_lines_example = parse_sse_stream-by_lines reads_up (lit "up") 0 body

up_is_true : truthy_json up ≡ true
unfolding truthy_json
up_is_true = refl

parse_sse_stream_reached_example :
    (last_state (parse_sse_stream reads_up (lit "up") none 0 body).0.emitted ≡ some up)
    × EndsComplete (lit "up") (parse_sse_stream reads_up (lit "up") none 0 body).0.emitted
parse_sse_stream_reached_example =
    parse_sse_stream_reached reads_up (lit "up") none 0 body up parsed up_is_true

-- A refused request, and then the body.
abbrev second_time : ℕ → Response
second_time n =
    if ◌==◌ n 1 then answered 503 (lit "busy") none else answered 200 (lit "OK") (some body)

watched : (watch_cvm_state reads_up (lit "up") none (some 2) second_time 4).1 ≡ returned up
unfolding runs
watched = refl

watch_cvm_state_returns_example :
    IsReached
      (lit "up")
      (watch_cvm_state reads_up (lit "up") none (some 2) second_time 4).0.events
      up
watch_cvm_state_returns_example =
    watch_cvm_state_returns reads_up (lit "up") none (some 2) second_time 4 up watched

watch_cvm_state_bounded_example :
    ((watch_cvm_state reads_up (lit "up") (some 9) (some 2) second_time 4).0.attempt ≤ 2 + 1)
    × ((watch_cvm_state reads_up (lit "up") (some 9) (some 2) second_time 4).1 ≢ running)
watch_cvm_state_bounded_example =
    watch_cvm_state_bounded reads_up (lit "up") (some 9) 2 second_time 4 (omega arith)

abbrev unreachable : ℕ → Response
unreachable n = rejected (lit "down")

always_refused : (n : ℕ) → retryable_message (unreachable n) ≡ some (lit "down")
unfolding retryable_message
always_refused n = refl

watch_cvm_state_refused_example :
    ((watch_cvm_state reads_up (lit "up") none (some 2) unreachable 3).0.attempt ≡ 2 + 1)
    × ((watch_cvm_state reads_up (lit "up") none (some 2) unreachable 3).1
        ≡ threw (other_error (lit "down")))
watch_cvm_state_refused_example =
    watch_cvm_state_refused reads_up (lit "up") 2 unreachable (λ n. lit "down") 3 always_refused
      (omega arith)
