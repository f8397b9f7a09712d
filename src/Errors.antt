-- ===== src/Errors.antt =====
-- js/src/utils/errors.ts: from a failed fetch to the error that the client throws. A request stands as
-- its URL, and the response object, which is only handed on, is left out.
pub mod Messages
pub mod Parse
pub mod Laws
pub mod Shown
mod Tests
use phala_cloud.Common.{
  ℕ, ◌-◌, Text, lit, Bool, true, false, not, ◌&&◌, ◌||◌, Option, none, some, List, [], ◌∷◌, ◌++◌,
  if◌then◌else◌, or_else, is_empty, is_some, trim, decimal, includes, text_eq, leb,
}
use phala_cloud.Common.Json.{
  Json, null, bool, num, str, arr, obj, Items, nil, cons, Fields, end, field, get_field,
  truthy_json,
}

-- What is read of ofetch's FetchError; `none` is undefined, and a method that is no string is `none`.
pub record FetchError : Type 0 where
  pub message : Text
  pub body : Option Json
  pub status : Option ℕ
  pub status_text : Option Text
  pub request : Option Text
  pub method : Option Text
  pub header_request_id : Option Text
  pub cause_name : Option Text

-- The fields of PhalaCloudError, and `type` of RequestError.
pub record RequestError : Type 0 where
  pub message : Text
  pub status : ℕ
  pub status_text : Text
  pub detail : Json
  pub request_id : Option Text
  pub request : Option Text
  pub request_method : Option Text
  pub body : Option Json
  pub code : Option Text
  pub type : Option Text

-- value.field, on a JSON value that is not null
unfoldable pub member : Text → Json → Option Json
unfolding get_field
member k (obj fs) = get_field k fs
member k _ = none

unfoldable pub text_or_none : Option Json → Option Text
text_or_none (some (str s)) = some s
text_or_none _ = none

-- value?.field
unfoldable pub member? : Text → Option Json → Option Json
unfolding member
member? k none = none
member? k (some j) = member k j

-- extractRequestId
unfoldable pub extract_request_id : Option Json → Option Text
unfolding text_or_none member?
extract_request_id body = text_or_none (member? (lit "request_id") body)

upper : ℕ → ℕ
upper c = if leb b'a' c && leb c b'z' then c - 32 else c

upper_text : Text → Text
unfolding upper
upper_text [] = []
upper_text (c ∷ s) = upper c ∷ upper_text s

-- extractRequestMethod; a method is of ASCII letters
unfoldable pub extract_request_method : Option Text → Option Text
unfolding upper_text trim
extract_request_method none = none
extract_request_method (some m) =
    let normalized = upper_text (trim m) in if is_empty normalized then none else some normalized

-- An optional string of a schema: `none` where the value is of another type.
unfoldable pub optional_text : Option Json → Option (Option Text)
optional_text none = some none
optional_text (some (str s)) = some (some s)
optional_text (some _) = none

is_text_or_none : Option Json → Bool
is_text_or_none none = true
is_text_or_none (some (str s)) = true
is_text_or_none (some _) = false

is_object_or_none : Option Json → Bool
is_object_or_none none = true
is_object_or_none (some (obj fs)) = true
is_object_or_none (some _) = false

are_locations : Items → Bool
are_locations nil = true
are_locations (cons (str s) js) = are_locations js
are_locations (cons (num t) js) = are_locations js
are_locations (cons _ js) = false

is_location_or_none : Option Json → Bool
unfolding are_locations
is_location_or_none none = true
is_location_or_none (some (arr js)) = are_locations js
is_location_or_none (some _) = false

-- The object of the schema for one item of a list of details.
unfoldable pub is_detail_item : Json → Bool
unfolding is_text_or_none is_object_or_none is_location_or_none text_or_none get_field
is_detail_item (obj fs) =
    is_some (text_or_none (get_field (lit "msg") fs))
    && is_text_or_none (get_field (lit "type") fs)
    && is_object_or_none (get_field (lit "ctx") fs)
    && is_location_or_none (get_field (lit "loc") fs)
is_detail_item _ = false

unfoldable pub are_detail_items : Items → Bool
unfolding is_detail_item
are_detail_items nil = true
are_detail_items (cons j js) = is_detail_item j && are_detail_items js

-- The union of the schema for the detail.
unfoldable pub is_detail : Option Json → Bool
unfolding are_detail_items
is_detail none = true
is_detail (some (str s)) = true
is_detail (some (arr js)) = are_detail_items js
is_detail (some (obj fs)) = true
is_detail (some null) = false
is_detail (some (bool b)) = false
is_detail (some (num t)) = false

pub record ApiError : Type 0 where
  pub detail : Option Json
  pub type : Option Text
  pub code : Option Text

unfoldable pub api_error_from :
    Option Json → Option (Option Text) → Option (Option Text) → Option ApiError
unfolding is_detail
api_error_from detail none code = none
api_error_from detail (some type) none = none
api_error_from detail (some type) (some code) =
    if is_detail detail then some (record { detail = detail; type = type; code = code }) else none

-- ApiErrorSchema.safeParse; zod may order the keys of the items anew, which nothing depends on
unfoldable pub parse_schema : Option Json → Option ApiError
unfolding api_error_from optional_text get_field
parse_schema (some (obj fs)) =
    api_error_from (get_field (lit "detail") fs) (optional_text (get_field (lit "type") fs))
      (optional_text (get_field (lit "code") fs))
parse_schema _ = none

-- options?.detail || message
unfoldable pub detail_or : Option Json → Text → Json
unfolding truthy_json
detail_or none message = str message
detail_or (some j) message = if truthy_json j then j else str message

abbrev pub or_status : Option ℕ → ℕ
or_status none = 0
or_status (some n) = n

abbrev or_text : Option Text → Text → Text
or_text none t = t
or_text (some s) t = s

-- The error data itself, where it is an object with an error code.
unfoldable pub coded : Option Json → Option Json
unfolding member?
coded body = if is_some (member? (lit "error_code") body) then body else none

abbrev timeout_message : Text
timeout_message = lit "Request timed out. The server did not respond in time."

unfoldable pub is_timeout : FetchError → Bool
unfolding text_eq includes
is_timeout e =
    elim e.cause_name [ none ↦ false | some n ↦ text_eq n (lit "TimeoutError") ]
    || includes (lit "[TimeoutError]") e.message

-- error.data?.detail || error.message || "Unknown API error"
unfoldable pub fallback_detail : FetchError → Json
unfolding detail_or member?
fallback_detail e =
    detail_or (member? (lit "detail") e.body)
      (if is_empty e.message then lit "Unknown API error" else e.message)

-- What each branch of `fromFetchError` copies from the error.
unfoldable pub copied : FetchError → RequestError
unfolding extract_request_id extract_request_method
copied e = record {
  message = e.message;
  status = or_status e.status;
  status_text = or_text e.status_text (lit "Unknown Error");
  detail = null;
  request_id = or_else (extract_request_id e.body) e.header_request_id;
  request = e.request;
  request_method = extract_request_method e.method;
  body = e.body;
  code = none;
  type = none;
}

-- RequestError.fromFetchError
unfoldable pub from_fetch_error : FetchError → RequestError
unfolding copied parse_schema coded detail_or is_timeout fallback_detail decimal
from_fetch_error e =
    let base = copied e in
    elim (parse_schema e.body) [
      | some a ↦ record base {
        detail = detail_or (or_else a.detail (coded e.body)) e.message;
        code = a.code;
        type = a.type;
      }
      | none ↦
          if is_timeout e
          then record base {
            message = timeout_message;
            status = 0;
            status_text = lit "Request Timeout";
            detail = str timeout_message;
            code = some (lit "TIMEOUT");
          }
          else record base {
            detail = fallback_detail e;
            code = elim e.status [ none ↦ none | some n ↦ some (decimal n) ];
          }
    ]

-- RequestError.fromError
unfoldable pub from_error : Text → RequestError
unfolding detail_or
from_error message = record {
  message = message;
  status = 0;
  status_text = lit "Unknown Error";
  detail = detail_or (some (str message)) message;
  request_id = none;
  request = none;
  request_method = none;
  body = none;
  code = none;
  type = none;
}
