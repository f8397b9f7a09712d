-- ===== src/Client/Laws.antt =====
-- What the listeners of a client get, and what its calls throw.
use phala_cloud.Common.{
  ℕ, Text, lit, true, false, not, ◌&&◌, Option, none, some, List, [], ◌∷◌, ◌==◌, ◌≡◌, refl, ap, ◌∙◌,
  inl, inr, arith, Bool-cases, is_some, length, is_empty,
}
use phala_cloud.Common.Json.{
  Json, null, bool, num, str, arr, obj, Items, nil, cons, Fields, get_field, truthy_json,
}
use phala_cloud.Errors.{
  FetchError, RequestError, from_error, from_fetch_error, copied, parse_schema, api_error_from,
  optional_text, is_detail, are_detail_items, is_detail_item, detail_or, is_timeout,
  fallback_detail, member?, member,
}
use phala_cloud.Errors.Parse.{PhalaCloudError, parse_api_error}
use phala_cloud.Errors.Laws.{has_null, null_in_list, is_some-parse_api_error}
use phala_cloud.Client.{
  fetch_error, Fetched, answered, failed, Outcome, returned, threw, type_error, Run, emit_error,
  fails_with, request, is_redirect, convert_to_request_error, bare_error, SafeResult, success,
  failure, api_failure, safe_end, safe_request, recovered,
}

-- The events of a call by its end: the error thrown, if it is a PhalaCloudError.
pub events_of : Outcome → List PhalaCloudError
events_of (returned j) = []
events_of (threw e) = e ∷ []
events_of type_error = []

IsTold : Run → Type 0
IsTold r = r.events ≡ events_of r.outcome

emit_error-IsTold : (o : Option PhalaCloudError) → IsTold (emit_error o)
unfolding IsTold emit_error events_of
emit_error-IsTold none = refl
emit_error-IsTold (some e) = refl

-- The listeners get exactly the PhalaCloudError that a call throws, once, and nothing of a call that
-- returns or throws a TypeError.
pub events-request : (f : Fetched) → (request f).events ≡ events_of (request f).outcome
unfolding request events_of fails_with IsTold
events-request (answered r) = elim (Bool-cases (is_redirect r)) [
  | inl e ↦ rw e (
      emit_error-IsTold
        (parse_api_error (bare_error (lit "API redirects are not allowed") r.status r.status_text)))
  | inr e ↦ rw e refl
]
events-request (failed t) = emit_error-IsTold (parse_api_error (convert_to_request_error t))

-- The error that parseApiError makes of an error of the engine, which is always one.
pub parsed : Option PhalaCloudError → List PhalaCloudError
parsed none = []
parsed (some e) = e ∷ []

-- The error that a safe call comes with: the one in its result, or the parsed form of it.
pub error_in : SafeResult → List PhalaCloudError
unfolding parsed
error_in (success j) = []
error_in (failure e) = parsed (parse_api_error e)
error_in (api_failure e) = e ∷ []

pub failures : SafeResult → ℕ
failures (success j) = 0
failures (failure e) = 1
failures (api_failure e) = 1

is_some-parse_plain : (m : Text) → is_some (parse_api_error (from_error m)) ≡ true
unfolding from_error detail_or truthy_json null_in_list
is_some-parse_plain m = elim (Bool-cases (is_empty m)) [
  | inl e ↦ is_some-parse_api_error (from_error m) ∙ rw e refl
  | inr e ↦ is_some-parse_api_error (from_error m) ∙ rw e refl
]

-- The listeners got exactly the error in the result, once.
pub record IsReported (told : List PhalaCloudError) (r : SafeResult) : Type 0 where
  pub same : told ≡ error_in r
  pub once : length told ≡ failures r

recovered-parsed : (o : Option PhalaCloudError) → recovered [] o ≡ parsed o
unfolding recovered parsed
recovered-parsed none = refl
recovered-parsed (some x) = refl

length-recovered : (o : Option PhalaCloudError) → is_some o ≡ true → length (recovered [] o) ≡ 1
unfolding recovered
length-recovered none h = cc
length-recovered (some x) h = refl

parsed-IsReported :
    (e : RequestError)
    → is_some (parse_api_error e) ≡ true
    → IsReported (recovered [] (parse_api_error e)) (failure e)
unfolding error_in failures
parsed-IsReported e h = record {
  same = recovered-parsed (parse_api_error e);
  once = length-recovered (parse_api_error e) h;
}

safe_end-IsReported :
    (message : Text) (end : Outcome)
    → IsReported (safe_end message (events_of end) end).0 (safe_end message (events_of end) end).1
unfolding safe_end events_of failures error_in
safe_end-IsReported message (returned j) = record { same = refl; once = refl }
safe_end-IsReported message (threw e) = record { same = refl; once = refl }
safe_end-IsReported message type_error =
    parsed-IsReported (from_error message) (is_some-parse_plain message)

-- Where the error listeners do not throw, whatever the transport does, the listeners get the error in
-- the result of a safe call, in its parsed form, exactly once, and nothing of a call that succeeds.
pub safe_request-IsReported :
    (message : Text) (f : Fetched)
    → IsReported (safe_request message (request f)).0 (safe_request message (request f)).1
unfolding safe_request
safe_request-IsReported message f =
    rw (events-request f) (safe_end-IsReported message (request f).outcome)

are_detail_items-null : (js : Items) → has_null js ≡ true → are_detail_items js ≡ false
unfolding are_detail_items has_null is_detail_item
are_detail_items-null nil h = cc
are_detail_items-null (cons null js) h = refl
are_detail_items-null (cons (bool b) js) h = refl
are_detail_items-null (cons (num t) js) h = refl
are_detail_items-null (cons (str s) js) h = refl
are_detail_items-null (cons (arr is) js) h = refl
are_detail_items-null (cons (obj fs) js) h = let rest = are_detail_items-null js h in ground arith

api_error_from-bad :
    (d : Option Json) (t c : Option (Option Text))
    → is_detail d ≡ false
    → api_error_from d t c ≡ none
unfolding api_error_from
api_error_from-bad d none c h = refl
api_error_from-bad d (some t) none h = refl
api_error_from-bad d (some t) (some c) h = rw h refl

parse_schema-bad :
    (fs : Fields) (js : Items)
    → get_field (lit "detail") fs ≡ some (arr js)
    → has_null js ≡ true
    → parse_schema (some (obj fs)) ≡ none
unfolding parse_schema is_detail
parse_schema-bad fs js d n =
    api_error_from-bad (get_field (lit "detail") fs) (optional_text (get_field (lit "type") fs))
      (optional_text (get_field (lit "code") fs)) (rw d (are_detail_items-null js n))

null_list_detail :
    (e : FetchError) (fs : Fields) (js : Items)
    → e.body ≡ some (obj fs)
    → get_field (lit "detail") fs ≡ some (arr js)
    → fallback_detail e ≡ arr js
unfolding fallback_detail detail_or truthy_json member? member
null_list_detail e fs js b d = rw b (rw d refl)

-- What is left of a response with a list of details that the schema refuses.
record IsRefused (e : FetchError) (js : Items) : Type 0 where
  listed : (from_fetch_error e).detail ≡ arr js
  unprocessable : (from_fetch_error e).status ≡ 422

from_fetch_error-IsRefused :
    (e : FetchError) (fs : Fields) (js : Items)
    → e.status ≡ some 422
    → e.body ≡ some (obj fs)
    → get_field (lit "detail") fs ≡ some (arr js)
    → has_null js ≡ true
    → is_timeout e ≡ false
    → IsRefused e js
unfolding from_fetch_error copied
from_fetch_error-IsRefused e fs js s b d n t =
    let refused : parse_schema e.body ≡ none = ap parse_schema b ∙ parse_schema-bad fs js d n in
    record {
      listed = rw (refused, t, from_fetch_error) (null_list_detail e fs js b d);
      unprocessable = rw (refused, t, from_fetch_error) (rw s refl);
    }

emit_none :
    (o : Option PhalaCloudError)
    → is_some o ≡ false
    → emit_error o ≡ record { events = []; outcome = type_error }
unfolding emit_error
emit_none none h = refl
emit_none (some e) h = cc

-- Where a response of status 422, not a timeout, has a list with null among its items for detail, the
-- call throws a TypeError and no PhalaCloudError, and the listeners get nothing.
pub request-null_list :
    (e : FetchError) (fs : Fields) (js : Items)
    → e.status ≡ some 422
    → e.body ≡ some (obj fs)
    → get_field (lit "detail") fs ≡ some (arr js)
    → has_null js ≡ true
    → is_timeout e ≡ false
    → request (failed (fetch_error e)) ≡ record { events = []; outcome = type_error }
unfolding request fails_with convert_to_request_error null_in_list
request-null_list e fs js s b d n t =
    let i = from_fetch_error-IsRefused e fs js s b d n t in
    emit_none (parse_api_error (from_fetch_error e)) (
      is_some-parse_api_error (from_fetch_error e)
      ∙ ap (λ (k : Json). not (null_in_list (from_fetch_error e).status k)) i.listed
      ∙ ap (λ (k : ℕ). not (k == 422 && has_null js)) i.unprocessable
      ∙ rw n refl)
