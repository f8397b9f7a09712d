-- ===== src/Watch/Stream/Chunks.antt =====
-- How a body's text is divided into chunks does not matter.
use phala_cloud.Common.{
  ℕ, suc, Text, lit, false, Option, none, List, [], ◌∷◌, ◌++◌, ◌≡◌, refl, ◌==◌, trim, arith,
  append_assoc, append-nil, ap, ◌∙◌, sym, Bool-cases, inl, inr,
}
use phala_cloud.Common.Json.{Json, null}
use phala_cloud.Watch.{
  SseEvent, aborted, Parser, Verdict, go_on, complete, timed_out, was_aborted, type_error,
  process_line,
}
use phala_cloud.Watch.Stream.{
  Closing, closed, failed, Body, StreamEnd, gave, stream_error, empty_parser, split_lines, end_of,
  process_lines, read_loop, parse_sse_stream, add_to_line,
}

abbrev pub concat : List Text → Text
concat [] = []
concat (c ∷ cs) = c ++ concat cs

join_lines : List Text → List Text × Text → List Text × Text
join_lines ls (ms, rest) = (ls ++ ms, rest)

split_lines-cons :
    (c : ℕ) (s : Text) → (c == b'\n') ≡ false → split_lines (c ∷ s) ≡ add_to_line c (split_lines s)
unfolding split_lines
split_lines-cons c s e = rw e

add_to_line-append :
    (c : ℕ) (t : Text) (parts : List Text × Text)
    → (c == b'\n') ≡ false
    → add_to_line c (join_lines parts.0 (split_lines (parts.1 ++ t)))
      ≡ join_lines (add_to_line c parts).0 (split_lines ((add_to_line c parts).1 ++ t))
unfolding add_to_line join_lines
add_to_line-append c t ([], rest) e = sym (split_lines-cons c (rest ++ t) e)
add_to_line-append c t (l ∷ ls, rest) e = refl

-- To split a text that goes on is to split its first part, and then the rest of that with what
-- follows.
split_lines-append :
    (s t : Text)
    → split_lines (s ++ t) ≡ join_lines (split_lines s).0 (split_lines ((split_lines s).1 ++ t))
unfolding split_lines join_lines
split_lines-append [] t = refl
split_lines-append (c ∷ s) t = elim (Bool-cases (c == b'\n')) [
  | inl e ↦ rw e (rw (split_lines-append s t))
  | inr e ↦ rw e (rw (split_lines-append s t) (add_to_line-append c t (split_lines s) e))
]

lines-append :
    (s t : Text)
    → (split_lines (s ++ t)).0 ≡ (split_lines s).0 ++ (split_lines ((split_lines s).1 ++ t)).0
unfolding join_lines
lines-append s t = ap (λ (w : List Text × Text). w.0) (split_lines-append s t)

split_lines-rest : (s : Text) → split_lines (split_lines s).1 ≡ ([], (split_lines s).1)
unfolding split_lines
split_lines-rest [] = refl
split_lines-rest (c ∷ s) = ground (arith, split_lines-rest s)

-- The parser but for the number of looks at the signal.
abbrev settle : Parser → Parser
settle p = record p { looks = 0 }

module _ (parse_json : Text → Option Json) (target : Text) where
  settle-process_line :
      (p q : Parser) (line : Text)
      → settle p ≡ settle q
      → (settle (process_line parse_json target none p line).0
          ≡ settle (process_line parse_json target none q line).0)
        × ((process_line parse_json target none p line).1
            ≡ (process_line parse_json target none q line).1)
  unfolding process_line
  settle-process_line p q line h = ground arith

  settle-process_lines :
      (ls : List Text) (p q : Parser)
      → settle p ≡ settle q
      → (settle (process_lines parse_json target none p ls).0
          ≡ settle (process_lines parse_json target none q ls).0)
        × ((process_lines parse_json target none p ls).1
            ≡ (process_lines parse_json target none q ls).1)
  unfolding process_lines
  settle-process_lines [] p q h = (h, refl)
  settle-process_lines (l ∷ ls) p q h =
      let one = settle-process_line p q (trim l) h in
      let pl = (process_line parse_json target none p (trim l)).0 in
      let ql = (process_line parse_json target none q (trim l)).0 in
      ground (arith, one, settle-process_lines ls pl ql)

  process_lines-append :
      (ls ms : List Text) (p : Parser)
      → process_lines parse_json target none p (ls ++ ms) ≡ (
          let (p', v) = process_lines parse_json target none p ls in
          elim v [ go_on ↦ process_lines parse_json target none p' ms | w ↦ (p', w) ])
  unfolding process_lines
  process_lines-append [] ms p = refl
  process_lines-append (l ∷ ls) ms p =
      let pl = (process_line parse_json target none p (trim l)).0 in
      ground (arith, process_lines-append ls ms pl)

  -- What is shown of a run over the lines of a whole text, if the body then ends so.
  abbrev shown : Closing → Parser × Verdict → List SseEvent × StreamEnd
  shown closed (p, go_on) = (p.emitted, gave null)
  shown (failed message) (p, go_on) =
      (p.emitted, stream_error (lit "SSE stream error: " ++ message))
  shown closing (p, v) = (p.emitted, end_of v p)

  -- The events and the result of a stream, read off the lines of its text taken at once.
  abbrev pub by_lines : Parser → List Text → Closing → List SseEvent × StreamEnd
  by_lines p ls closing = shown closing (process_lines parse_json target none p ls)

  shown-settle :
      (closing : Closing) (p q : Parser) (v w : Verdict)
      → settle p ≡ settle q
      → v ≡ w
      → shown closing (p, v) ≡ shown closing (q, w)
  shown-settle closed p q v w h e = ground arith
  shown-settle (failed m) p q v w h e = ground arith

  by_lines-settle :
      (ls : List Text) (p q : Parser) (closing : Closing)
      → settle p ≡ settle q
      → by_lines p ls closing ≡ by_lines q ls closing
  by_lines-settle ls p q closing h =
      let both = settle-process_lines ls p q h in
      shown-settle closing (process_lines parse_json target none p ls).0
        (process_lines parse_json target none q ls).0 (process_lines parse_json target none p ls).1
        (process_lines parse_json target none q ls).1 both.0 both.1

  abbrev pub outcome : Parser × StreamEnd → List SseEvent × StreamEnd
  outcome (p, r) = (p.emitted, r)

  -- After the lines of one chunk.
  after_chunk :
      (closing : Closing) (at : Parser × Verdict) (rest : Text) (cs ms : List Text)
      → ((p' : Parser)
          → outcome (read_loop parse_json target none closing p' rest cs) ≡ by_lines p' ms closing)
      → outcome (elim at.1 [
        | go_on ↦ read_loop parse_json target none closing at.0 rest cs
        | w ↦ (at.0, end_of w at.0)
      ])
        ≡ shown closing
            (elim at.1 [ go_on ↦ process_lines parse_json target none at.0 ms | w ↦ (at.0, w) ])
  after_chunk closing (p, go_on) rest cs ms ih = ih p
  after_chunk closed (p, complete) rest cs ms ih = refl
  after_chunk (failed m) (p, complete) rest cs ms ih = refl
  after_chunk closed (p, timed_out) rest cs ms ih = refl
  after_chunk (failed m) (p, timed_out) rest cs ms ih = refl
  after_chunk closed (p, was_aborted) rest cs ms ih = refl
  after_chunk (failed m) (p, was_aborted) rest cs ms ih = refl
  after_chunk closed (p, type_error) rest cs ms ih = refl
  after_chunk (failed m) (p, type_error) rest cs ms ih = refl

  read_loop-by_lines :
      (cs : List Text) (p : Parser) (buffer : Text) (closing : Closing)
      → split_lines buffer ≡ ([], buffer)
      → outcome (read_loop parse_json target none closing p buffer cs)
        ≡ by_lines p (split_lines (buffer ++ concat cs)).0 closing
  unfolding read_loop aborted
  read_loop-by_lines [] p buffer closed h = rw (append-nil, h) (unfold process_lines in refl)
  read_loop-by_lines [] p buffer (failed m) h = rw (append-nil, h) (unfold process_lines in refl)
  read_loop-by_lines (c ∷ cs) p buffer closing h =
      let p2 = record p { looks = suc (suc p.looks) } in
      let parts = split_lines (buffer ++ c) in
      let ms = (split_lines (parts.1 ++ concat cs)).0 in
      after_chunk closing (process_lines parse_json target none p2 parts.0) parts.1 cs ms
        (λ p'. read_loop-by_lines cs p' parts.1 closing (split_lines-rest (buffer ++ c)))
      ∙ ap (shown closing) (sym (process_lines-append parts.0 ms p2))
      ∙ by_lines-settle (parts.0 ++ ms) p2 p closing refl
      ∙ ap (λ (w : List Text). by_lines p w closing)
          (sym (lines-append (buffer ++ c) (concat cs))
            ∙ ap (λ (w : Text). (split_lines w).0) (append_assoc buffer c (concat cs)))

-- Without an abort signal, the events that `onEvent` gets and what `parseSSEStream` returns or
-- throws are those of the complete lines of the body's text taken at once, however the text is
-- divided into chunks.
pub parse_sse_stream-by_lines :
    (parse_json : Text → Option Json) (target : Text) (looks : ℕ) (body : Body)
    → (
      (parse_sse_stream parse_json target none looks body).0.emitted,
      (parse_sse_stream parse_json target none looks body).1,
    )
      ≡ by_lines parse_json target
          (empty_parser 0)
          (split_lines (concat body.chunks)).0
          body.closing
unfolding parse_sse_stream
parse_sse_stream-by_lines parse_json target looks body =
    read_loop-by_lines parse_json target body.chunks (empty_parser looks) [] body.closing
      (unfold split_lines in refl)
    ∙ by_lines-settle parse_json target (split_lines (concat body.chunks)).0 (empty_parser looks)
        (empty_parser 0) body.closing refl
