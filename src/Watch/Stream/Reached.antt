-- ===== src/Watch/Stream/Reached.antt =====
-- When a stream gives a state.
use phala_cloud.Common.{
  ℕ, suc, Text, lit, Bool, true, false, Option, none, some, List, [], ◌∷◌, ◌++◌, ◌≡◌, refl,
  if◌then◌else◌, trim, arith, Bool-cases, inl, inr, text_eq, text_eq_iff, ap, starts_with, drop,
  not, is_empty, ◌&&◌,
}
use phala_cloud.Common.Json.{
  Json, null, bool, num, str, arr, obj, Fields, get_field, json_is_text, truthy_json,
}
use phala_cloud.Watch.{
  SseEvent, Signal, aborted, Parser, Verdict, go_on, complete, timed_out, was_aborted, type_error,
  process_line, is_reached, parse_sse_event, finish_message, judge, reset_message,
}
use phala_cloud.Watch.Stream.{
  Closing, closed, failed, Body, StreamEnd, gave, empty_parser, split_lines, end_of, process_lines,
  read_loop, parse_sse_stream, or_null,
}

abbrev pub newer_state : Option Json → SseEvent → Option Json
newer_state acc e = if text_eq e.type (lit "state") then some e.payload else acc

unfoldable pub last_state_from : Option Json → List SseEvent → Option Json
last_state_from acc [] = acc
last_state_from acc (e ∷ es) = last_state_from (newer_state acc e) es

-- The payload of the last "state" event.
unfoldable pub last_state : List SseEvent → Option Json
unfolding last_state_from
last_state es = last_state_from none es

unfoldable pub last_event : List SseEvent → Option SseEvent
last_event [] = none
last_event (e ∷ []) = some e
last_event (e ∷ f ∷ es) = last_event (f ∷ es)

last_state_from-append :
    (acc : Option Json) (es : List SseEvent) (e : SseEvent)
    → last_state_from acc (es ++ e ∷ []) ≡ newer_state (last_state_from acc es) e
unfolding last_state_from
last_state_from-append acc [] e = refl
last_state_from-append acc (f ∷ es) e = last_state_from-append (newer_state acc f) es e

last_event-append : (es : List SseEvent) (e : SseEvent) → last_event (es ++ e ∷ []) ≡ some e
unfolding last_event
last_event-append [] e = refl
last_event-append (f ∷ []) e = refl
last_event-append (f ∷ g ∷ es) e = last_event-append (g ∷ es) e

-- An object whose status and whose target are both the target.
abbrev pub Names : Text → Json → Type 0
Names target j =
    (fs : Fields) × (j ≡ obj fs)
    × (get_field (lit "status") fs ≡ some (str target))
    × (get_field (lit "target") fs ≡ some (str target))

json_is_text-eq-true : (o : Option Json) (s : Text) → json_is_text o s ≡ true → o ≡ some (str s)
unfolding json_is_text
json_is_text-eq-true (some (str t)) s h = ap (λ u. some (str u)) ((text_eq_iff t s).0 h)
json_is_text-eq-true none s h = cc
json_is_text-eq-true (some null) s h = cc
json_is_text-eq-true (some (bool b)) s h = cc
json_is_text-eq-true (some (num t)) s h = cc
json_is_text-eq-true (some (arr js)) s h = cc
json_is_text-eq-true (some (obj fs)) s h = cc

is_reached-Names : (target : Text) (j : Json) → is_reached target j ≡ some true → Names target j
unfolding is_reached
is_reached-Names target null h = cc
is_reached-Names target (bool b) h = cc
is_reached-Names target (num t) h = cc
is_reached-Names target (str t) h = cc
is_reached-Names target (arr js) h = cc
is_reached-Names target (obj fs) h = (
  fs,
  refl,
  json_is_text-eq-true (get_field (lit "status") fs) target (ground arith),
  json_is_text-eq-true (get_field (lit "target") fs) target (ground arith),
)

-- The last event is a complete event whose status and target are both the target.
pub record EndsComplete (target : Text) (es : List SseEvent) : Type 0 where
  pub event : SseEvent
  pub last : last_event es ≡ some event
  pub completes : event.type ≡ lit "complete"
  pub reached : Names target event.payload

abbrev IsTracked : Parser → Type 0
IsTracked p = p.final_state ≡ last_state p.emitted

-- A line leaves the state tracked, and completes only with such an event.
record IsRight (target : Text) (x : Parser × Verdict) : Type 0 where
  tracked : IsTracked x.0
  completes : x.1 ≡ complete → EndsComplete target x.0.emitted

IsRight-go_on : (target : Text) (p : Parser) → IsTracked p → IsRight target (p, go_on)
IsRight-go_on target p t = record { tracked = t; completes = λ e. cc }

IsRight-if :
    (target : Text) (b : Bool) (x y : Parser × Verdict)
    → IsRight target x
    → IsRight target y
    → IsRight target (if b then x else y)
IsRight-if target true x y h k = h
IsRight-if target false x y h k = k

IsRight-reset_message :
    (parse_json : Text → Option Json) (target : Text) (signal : Signal) (x : Parser × Verdict)
    → IsRight target x
    → IsRight target (reset_message parse_json target signal x)
unfolding reset_message
IsRight-reset_message j target s (p, go_on) h = IsRight-go_on target _ h.tracked
IsRight-reset_message j target s (p, complete) h = h
IsRight-reset_message j target s (p, timed_out) h = h
IsRight-reset_message j target s (p, was_aborted) h = h
IsRight-reset_message j target s (p, type_error) h = h

module _ (parse_json : Text → Option Json) (target : Text) (signal : Signal) where
  judge-eq-complete :
      (e : SseEvent) (look : ℕ)
      → judge parse_json target signal e look ≡ complete
      → (e.type ≡ lit "complete") × (is_reached target e.payload ≡ some true)
  unfolding judge
  judge-eq-complete e look h = ground (arith, text_eq_iff e.type (lit "complete"))

  finish_message-IsRight :
      (p : Parser) (e : SseEvent)
      → IsTracked p
      → IsRight target (finish_message parse_json target signal p e)
  unfolding finish_message last_state
  finish_message-IsRight p e t = record {
    tracked = rw (last_state_from-append none p.emitted e) (ground arith);
    completes = λ h.
        let both = judge-eq-complete e p.looks h in
        record {
          event = e;
          last = last_event-append p.emitted e;
          completes = both.0;
          reached = is_reached-Names target e.payload both.1;
        };
  }

  process_line-IsRight :
      (p : Parser) (line : Text)
      → IsTracked p
      → IsRight target (process_line parse_json target signal p line)
  unfolding process_line
  process_line-IsRight p line t =
      IsRight-if target (starts_with (lit "event:") line) _ _
        (IsRight-go_on target (record p { current_event = trim (drop 6 line) }) t)
        (IsRight-if target (starts_with (lit "data:") line) _ _
          (IsRight-go_on target (record p { current_data = trim (drop 5 line) }) t)
          (IsRight-if target (not (is_empty line)) _ _ (IsRight-go_on target p t) (
            IsRight-reset_message parse_json target signal _ (
              IsRight-if target (not (is_empty p.current_event) && not (is_empty p.current_data)) _
                _
                (finish_message-IsRight p
                  (parse_sse_event parse_json p.current_event p.current_data) t)
                (IsRight-go_on target p t)))))

  process_lines-IsRight :
      (ls : List Text) (p : Parser)
      → IsTracked p
      → IsRight target (process_lines parse_json target signal p ls)
  unfolding process_lines
  process_lines-IsRight [] p t = IsRight-go_on target p t
  process_lines-IsRight (l ∷ ls) p t =
      go (process_line parse_json target signal p (trim l)) (process_line-IsRight p (trim l) t)
        (process_lines-IsRight ls)
    where
      go :
          (x : Parser × Verdict)
          → IsRight target x
          → ((q : Parser)
              → IsTracked q
              → IsRight target (process_lines parse_json target signal q ls))
          → IsRight target
              (elim x.1 [ go_on ↦ process_lines parse_json target signal x.0 ls | w ↦ (x.0, w) ])
      go (q, go_on) h ih = ih q h.tracked
      go (q, complete) h ih = h
      go (q, timed_out) h ih = h
      go (q, was_aborted) h ih = h
      go (q, type_error) h ih = h

  -- A stream that gives a state that counts as true was completed, and gives the last state.
  abbrev GivesReached : Parser × StreamEnd → Type 0
  GivesReached (p, r) =
      (j : Json)
      → r ≡ gave j
      → truthy_json j ≡ true
      → (last_state p.emitted ≡ some j) × EndsComplete target p.emitted

  or_null-truthy : (o : Option Json) (j : Json) → or_null o ≡ j → truthy_json j ≡ true → o ≡ some j
  unfolding truthy_json
  or_null-truthy none null h t = cc
  or_null-truthy none _ h t = cc
  or_null-truthy (some i) j h t = ap some h

  ended-GivesReached :
      (closing : Closing) (x : Parser × Verdict) (rest : Text) (cs : List Text)
      → IsRight target x
      → ((q : Parser)
          → IsTracked q
          → GivesReached (read_loop parse_json target signal closing q rest cs))
      → GivesReached (elim x.1 [
        | go_on ↦ read_loop parse_json target signal closing x.0 rest cs
        | w ↦ (x.0, end_of w x.0)
      ])
  unfolding truthy_json
  ended-GivesReached closing (p, go_on) rest cs h ih = ih p h.tracked
  ended-GivesReached closing (p, complete) rest cs h ih = λ j e t.
      let same : or_null p.final_state ≡ j = cc e in
      (cc (h.tracked, or_null-truthy p.final_state j same t), h.completes refl)
  ended-GivesReached closing (p, timed_out) rest cs h ih = λ j e t. ground arith
  ended-GivesReached closing (p, was_aborted) rest cs h ih = λ j e t. cc
  ended-GivesReached closing (p, type_error) rest cs h ih = λ j e t. cc

  read_loop-GivesReached :
      (cs : List Text) (p : Parser) (buffer : Text) (closing : Closing)
      → IsTracked p
      → GivesReached (read_loop parse_json target signal closing p buffer cs)
  unfolding read_loop truthy_json
  read_loop-GivesReached [] p buffer closed t = λ j e b. ground arith
  read_loop-GivesReached [] p buffer (failed m) t = λ j e b. ground arith
  read_loop-GivesReached (c ∷ cs) p buffer closing t = elim (Bool-cases (aborted signal p.looks)) [
    | inl a ↦ rw a (λ j e b. cc)
    | inr a ↦ elim (Bool-cases (aborted signal (suc p.looks))) [
      | inl b ↦ rw (a, b) (λ j e b. cc)
      | inr b ↦
          rw (a, b)
            (ended-GivesReached closing _ _ cs
              (process_lines-IsRight (split_lines (buffer ++ c)).0
                (record p { looks = suc (suc p.looks) }) t)
              (λ q tq. read_loop-GivesReached cs q (split_lines (buffer ++ c)).1 closing tq))
    ]
  ]

-- Whatever the chunks and whenever the signal is aborted, a stream that gives a state counting as
-- true has ended with a complete event whose status and target are both the target, and the state
-- is the payload of the last state event.
pub parse_sse_stream_reached :
    (parse_json : Text → Option Json) (target : Text) (signal : Signal) (looks : ℕ) (body : Body)
    (j : Json)
    → (parse_sse_stream parse_json target signal looks body).1 ≡ gave j
    → truthy_json j ≡ true
    → (last_state (parse_sse_stream parse_json target signal looks body).0.emitted ≡ some j)
      × EndsComplete target (parse_sse_stream parse_json target signal looks body).0.emitted
unfolding parse_sse_stream
parse_sse_stream_reached parse_json target signal looks body j e t =
    read_loop-GivesReached parse_json target signal body.chunks (empty_parser looks) [] body.closing
      (unfold last_state last_state_from in refl) j e t
