-- ===== src/Errors/Tests.antt =====
-- Runs on small responses, and each theorem at one.
use phala_cloud.Common.{
  Text, lit, Option, none, some, ◌≡◌, refl, text_eq, trim, trim_start, trim_end, is_space, includes,
  starts_with, decimal,
}
use phala_cloud.Common.Json.{str, arr, obj, nil, cons, Fields, end, field, get_field, truthy_json}
use phala_cloud.Errors.{
  FetchError, RequestError, member, member?, text_or_none, extract_request_id,
  extract_request_method, optional_text, is_detail_item, are_detail_items, is_detail,
  api_error_from, parse_schema, detail_or, coded, is_timeout, fallback_detail, copied,
  from_fetch_error, from_error,
}
use phala_cloud.Errors.Messages.{
  template_text, extract_field_path, validation_item, add_item, validation_items, summary,
  categorize_error_type,
}
use phala_cloud.Errors.Parse.{
  Structured, PhalaCloudError, resource_error, structured_from, parse_structured_error, summary_of,
  message_of, extract_primary_message, class_of, unstructured, parse_api_error,
}
use phala_cloud.Errors.Laws.{has_null, null_in_list}
use phala_cloud.Errors.Shown.{IsShown, IsApiBody, parse_api_error-structured}

runs : Unit {0}
unfolding member member? text_or_none extract_request_id extract_request_method optional_text
    is_detail_item are_detail_items is_detail api_error_from parse_schema detail_or coded is_timeout
    fallback_detail copied from_fetch_error from_error template_text extract_field_path
    validation_item add_item validation_items summary categorize_error_type structured_from
    parse_structured_error summary_of message_of extract_primary_message class_of unstructured
    parse_api_error has_null null_in_list text_eq trim trim_start trim_end is_space includes
    starts_with decimal get_field truthy_json
runs = tt

abbrev shown : Option PhalaCloudError → Option Text
shown none = none
shown (some p) = some p.kept.message

abbrev response : Fields → FetchError
response fs = record {
  message = lit "[POST] /cvms: 409";
  body = some (obj fs);
  status = some 409;
  status_text = some (lit "Conflict");
  request = some (lit "/cvms");
  method = some (lit "post");
  header_request_id = some (lit "r1");
  cause_name = none;
}

abbrev busy : Fields
busy = field (lit "detail") (str (lit "CVM is busy")) end

abbrev quota : Fields
quota = field (lit "error_code") (str (lit "ERR-01-001")) (
    field (lit "message") (str (lit "No such type"))
      (field (lit "request_id") (str (lit "r2")) end))

abbrev short_name : Fields
short_name =
    field (lit "detail")
      (arr (
        cons
          (obj (
            field (lit "loc") (arr (cons (str (lit "body")) (cons (str (lit "name")) nil)))
              (field (lit "msg") (str (lit "too short")) end)))
          nil))
      end

busy_shown : shown (parse_api_error (from_fetch_error (response busy))) ≡ some (lit "CVM is busy")
unfolding runs
busy_shown = refl

validation_shown :
    shown (parse_api_error (from_fetch_error (record (response short_name) { status = some 422 })))
    ≡ some (lit "Validation failed: too short")
unfolding runs
validation_shown = refl

method_upper : (from_fetch_error (response busy)).request_method ≡ some (lit "POST")
unfolding runs
method_upper = refl

busy-IsApiBody : IsApiBody busy
unfolding runs
busy-IsApiBody = record { typed = refl; coded_text = refl }

quota-IsApiBody : IsApiBody quota
unfolding runs
quota-IsApiBody = record { typed = refl; coded_text = refl }

busy_detail : get_field (lit "detail") busy ≡ some (str (lit "CVM is busy"))
unfolding runs
busy_detail = refl

quota_detail : get_field (lit "detail") quota ≡ none
unfolding runs
quota_detail = refl

quota_code : get_field (lit "error_code") quota ≡ some (str (lit "ERR-01-001"))
unfolding runs
quota_code = refl

quota_message : get_field (lit "message") quota ≡ some (str (lit "No such type"))
unfolding runs
quota_message = refl

parse_api_error-structured_example :
    (p : PhalaCloudError) × (parse_api_error (from_fetch_error (response quota)) ≡ some p)
    × IsShown (response quota) (lit "No such type") p
    × (s : Structured) × (p.class ≡ resource_error s)
    × (s.error_code ≡ lit "ERR-01-001")
parse_api_error-structured_example =
    parse_api_error-structured (response quota) quota (lit "ERR-01-001") (lit "No such type") refl
      quota-IsApiBody quota_detail quota_code quota_message refl refl

abbrev refused : RequestError
refused = record (from_error (lit "no name")) { status = 422 }

refused_detail : refused.detail ≡ str (lit "no name")
unfolding runs
refused_detail = refl
