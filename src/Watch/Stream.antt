-- ===== src/Watch/Stream.antt =====
-- js/src/actions/cvms/watch_cvm_state.ts: `parseSSEStream`, over a body that arrives in chunks of
-- decoded text and then closes or fails.
pub mod Chunks
pub mod Reached
use phala_cloud.Common.{
  ℕ, suc, ◌+◌, Text, lit, Bool, true, false, Option, none, some, List, [], ◌∷◌, ◌++◌, if◌then◌else◌,
  ◌==◌, trim,
}
use phala_cloud.Common.Json.{Json, null}
use phala_cloud.Watch.{
  SseEvent, Signal, aborted, Parser, Verdict, go_on, complete, timed_out, was_aborted, type_error,
  process_line,
}

-- What comes after the last chunk: the stream is done, or `reader.read` rejects with a message.
pub data Closing : Type 0 where
  closed : Closing
  failed : Text → Closing

pub record Body : Type 0 where
  pub chunks : List Text
  pub closing : Closing

pub data StreamEnd : Type 0 where
  gave : Json → StreamEnd
  abort_error : StreamEnd
  stream_error : Text → StreamEnd

abbrev pub empty_parser : ℕ → Parser
empty_parser looks = record {
  current_event = [];
  current_data = [];
  final_state = none;
  emitted = [];
  looks = looks;
}

add_to_line : ℕ → List Text × Text → List Text × Text
add_to_line c ([], rest) = ([], c ∷ rest)
add_to_line c (l ∷ ls, rest) = ((c ∷ l) ∷ ls, rest)

-- buffer.split("\n"), with the last part apart
unfoldable pub split_lines : Text → List Text × Text
unfolding add_to_line
split_lines [] = ([], [])
split_lines (c ∷ s) =
    let (ls, rest) = split_lines s in
    if c == b'\n' then ([] ∷ ls, rest) else add_to_line c (ls, rest)

abbrev pub or_null : Option Json → Json
or_null none = null
or_null (some j) = j

-- What a verdict on a line makes `parseSSEStream` return or throw; `go_on` stands for the end of a
-- stream that closed.
abbrev pub end_of : Verdict → Parser → StreamEnd
end_of complete p = gave (or_null p.final_state)
end_of timed_out p = gave null
end_of was_aborted p = abort_error
end_of type_error p =
    stream_error (lit "SSE stream error: Cannot read properties of null (reading 'status')")
end_of go_on p = gave null

module _ (parse_json : Text → Option Json) (target : Text) (signal : Signal) where
  -- The loop over the complete lines of the buffer.
  unfoldable pub process_lines : Parser → List Text → Parser × Verdict
  process_lines p [] = (p, go_on)
  process_lines p (l ∷ ls) =
      let (p', v) = process_line parse_json target signal p (trim l) in
      elim v [ go_on ↦ process_lines p' ls | w ↦ (p', w) ]

  at_end : Closing → Parser → Parser × StreamEnd
  at_end (failed message) p = (p, stream_error (lit "SSE stream error: " ++ message))
  at_end closed p =
      (record p { looks = suc p.looks }, if aborted signal p.looks then abort_error else gave null)

  -- The loop of `parseSSEStream`; the signal is looked at before and after each read.
  unfoldable pub read_loop : Closing → Parser → Text → List Text → Parser × StreamEnd
  unfolding at_end
  read_loop closing p buffer [] =
      if aborted signal p.looks
      then (record p { looks = suc p.looks }, abort_error)
      else at_end closing (record p { looks = suc p.looks })
  read_loop closing p buffer (c ∷ cs) =
      if aborted signal p.looks
      then (record p { looks = suc p.looks }, abort_error)
      else if aborted signal (suc p.looks)
      then (record p { looks = suc (suc p.looks) }, abort_error)
      else let (ls, rest) = split_lines (buffer ++ c) in
        let (p', v) = process_lines (record p { looks = suc (suc p.looks) }) ls in
        elim v [ go_on ↦ read_loop closing p' rest cs | w ↦ (p', end_of w p') ]

  -- parseSSEStream
  unfoldable pub parse_sse_stream : ℕ → Body → Parser × StreamEnd
  unfolding read_loop
  parse_sse_stream looks body = read_loop body.closing (empty_parser looks) [] body.chunks
