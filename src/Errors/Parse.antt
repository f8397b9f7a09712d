-- ===== src/Errors/Parse.antt =====
-- `parseApiError`.
use phala_cloud.Common.{
  ℕ, Text, lit, ◌||◌, Option, none, some, List, if◌then◌else◌, ◌==◌, is_empty, or_else,
}
use phala_cloud.Common.Json.{Json, null, bool, num, str, arr, obj, Fields, get_field}
use phala_cloud.Errors.{RequestError, text_or_none}
use phala_cloud.Errors.Messages.{
  ValidationErrorItem, validation_items, summary, ErrorType, validation, auth, business, server,
  unknown, categorize_error_type,
}

-- What a structured response gives beyond its message and request.
pub record Structured : Type 0 where
  pub error_code : Text
  pub message : Text
  pub request_id : Option Text
  pub details : Option Json
  pub suggestions : Option Json
  pub links : Option Json

-- The subclasses of PhalaCloudError with the members that they add.
pub data ErrorClass : Type 0 where
  resource_error : Structured → ErrorClass
  validation_error : List ValidationErrorItem → ErrorClass
  auth_error business_error server_error unknown_error : ErrorClass

-- `kept` holds the fields that the request error had, with the message of the new error.
pub record PhalaCloudError : Type 0 where
  pub class : ErrorClass
  pub kept : RequestError

unfoldable pub structured_from : Option Text → Option Text → Fields → Option Structured
unfolding text_or_none get_field
structured_from none message fs = none
structured_from (some code) none fs = none
structured_from (some code) (some message) fs =
    if is_empty code || is_empty message
    then none
    else some (record {
      error_code = code;
      message = message;
      request_id = text_or_none (get_field (lit "request_id") fs);
      details = get_field (lit "details") fs;
      suggestions = get_field (lit "suggestions") fs;
      links = get_field (lit "links") fs;
    })

-- parseStructuredError
unfoldable pub parse_structured_error : Json → Option Structured
unfolding structured_from text_or_none get_field
parse_structured_error (obj fs) =
    structured_from (text_or_none (get_field (lit "error_code") fs))
      (text_or_none (get_field (lit "message") fs)) fs
parse_structured_error _ = none

unfoldable pub summary_of : Option (List ValidationErrorItem) → Option Text
unfolding summary
summary_of none = none
summary_of (some is) = some (summary is)

unfoldable pub message_of : Option Text → Text → Text
message_of none t = t
message_of (some s) t = s

-- extractPrimaryMessage; `none` is a TypeError
unfoldable pub extract_primary_message : ℕ → Json → Text → Option Text
unfolding summary_of message_of validation_items text_or_none get_field
extract_primary_message status (arr js) t =
    if status == 422 then summary_of (validation_items js) else some t
extract_primary_message status (str s) t = some s
extract_primary_message status (obj fs) t =
    some (message_of (text_or_none (get_field (lit "message") fs)) t)
extract_primary_message status null t = some t
extract_primary_message status (bool b) t = some t
extract_primary_message status (num n) t = some t

-- The class where the detail is not structured.
unfoldable pub class_of : ErrorType → Json → Option ErrorClass
unfolding validation_items
class_of validation (arr js) = elim (validation_items js) [
  | none ↦ none
  | some is ↦ some (validation_error is)
]
class_of validation _ = some unknown_error
class_of auth detail = some auth_error
class_of business detail = some business_error
class_of server detail = some server_error
class_of unknown detail = some unknown_error

unfoldable pub unstructured :
    RequestError → Option Text → Option ErrorClass → Option PhalaCloudError
unstructured e none c = none
unstructured e (some t) none = none
unstructured e (some t) (some c) =
    some (record { class = c; kept = record e { message = t; type = none } })

-- parseApiError; `none` is a TypeError
unfoldable pub parse_api_error : RequestError → Option PhalaCloudError
unfolding parse_structured_error unstructured extract_primary_message class_of categorize_error_type
parse_api_error e = elim (parse_structured_error e.detail) [
  | some s ↦ some (record {
    class = resource_error s;
    kept = record e {
      message = s.message;
      request_id = or_else s.request_id e.request_id;
      code = none;
      type = none;
    };
  })
  | none ↦
      unstructured e (extract_primary_message e.status e.detail e.message)
        (class_of (categorize_error_type e.status) e.detail)
]
