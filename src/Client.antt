-- ===== src/Client.antt =====
-- js/src/client.ts: the configuration of a client and its requests. What the transport gives is a
-- parameter; debug logging, the headers of single requests and the binding of actions are left out. The
-- listeners of error events are taken not to throw.
pub mod Laws
pub mod Config
mod Tests
use phala_cloud.Common.{
  ℕ, Text, lit, Bool, true, false, not, ◌&&◌, ◌||◌, Option, none, some, List, [], ◌∷◌, ◌++◌,
  if◌then◌else◌, leb, ltb, is_empty, is_some, text_eq, trim, any,
}
use phala_cloud.Common.Json.{Json, str}
use phala_cloud.Common.JsMap
use phala_cloud.Errors.{FetchError, RequestError, from_fetch_error, from_error}
use phala_cloud.Errors.Parse.{PhalaCloudError, parse_api_error}

-- What the transport throws: a RequestError, an object with data, another Error, or anything else.
pub data Thrown : Type 0 where
  request_error : RequestError → Thrown
  fetch_error : FetchError → Thrown
  plain_error : Text → Thrown
  no_error : Thrown

pub record Response : Type 0 where
  pub opaque_redirect : Bool
  pub status : ℕ
  pub status_text : Text
  pub content : Json

pub data Fetched : Type 0 where
  answered : Response → Fetched
  failed : Thrown → Fetched

-- new RequestError(message, { status, statusText }), without a detail of its own
unfoldable pub bare_error : Text → ℕ → Text → RequestError
bare_error message status status_text = record {
  message = message;
  status = status;
  status_text = status_text;
  detail = str message;
  request_id = none;
  request = none;
  request_method = none;
  body = none;
  code = none;
  type = none;
}

-- convertToRequestError
unfoldable pub convert_to_request_error : Thrown → RequestError
unfolding from_fetch_error from_error bare_error
convert_to_request_error (request_error e) = e
convert_to_request_error (fetch_error e) = from_fetch_error e
convert_to_request_error (plain_error message) = from_error message
convert_to_request_error no_error =
    bare_error (lit "Unknown error occurred") 0 (lit "Unknown Error")

pub data Outcome : Type 0 where
  returned : Json → Outcome
  threw : PhalaCloudError → Outcome
  type_error : Outcome

-- The error events that the listeners get, and how the call ends.
pub record Run : Type 0 where
  pub events : List PhalaCloudError
  pub outcome : Outcome

-- emitError, and the throw of what it returns; the parsing itself may throw
unfoldable pub emit_error : Option PhalaCloudError → Run
emit_error none = record { events = []; outcome = type_error }
emit_error (some e) = record { events = e ∷ []; outcome = threw e }

unfoldable pub fails_with : RequestError → Run
unfolding emit_error parse_api_error
fails_with e = emit_error (parse_api_error e)

unfoldable pub is_redirect : Response → Bool
is_redirect r = r.opaque_redirect || (leb 300 r.status && ltb r.status 400)

-- request, get, post, put, patch and delete: fetchData in the try block
unfoldable pub request : Fetched → Run
unfolding fails_with is_redirect convert_to_request_error bare_error
request (answered r) =
    if is_redirect r
    then fails_with (bare_error (lit "API redirects are not allowed") r.status r.status_text)
    else record { events = []; outcome = returned r.content }
request (failed t) = fails_with (convert_to_request_error t)

-- SafeResult
pub data SafeResult : Type 0 where
  success : Json → SafeResult
  failure : RequestError → SafeResult
  api_failure : PhalaCloudError → SafeResult

-- What safeRequest makes of a TypeError: the listeners get its parsed form.
unfoldable pub recovered : List PhalaCloudError → Option PhalaCloudError → List PhalaCloudError
recovered events none = events
recovered events (some e) = events ++ e ∷ []

safe_end : Text → List PhalaCloudError → Outcome → List PhalaCloudError × SafeResult
unfolding recovered from_error parse_api_error
safe_end message events (returned j) = (events, success j)
safe_end message events (threw e) = (events, api_failure e)
safe_end message events type_error =
    (recovered events (parse_api_error (from_error message)), failure (from_error message))

-- safeRequest around one of the methods; the message of the engine's TypeError is a parameter
unfoldable pub safe_request : Text → Run → List PhalaCloudError × SafeResult
unfolding safe_end
safe_request message run = safe_end message run.events run.outcome
