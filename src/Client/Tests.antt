-- ===== src/Client/Tests.antt =====
-- Runs of a client, and each theorem at one.
use phala_cloud.Common.{lit, true, false, none, some, [], ◌≡◌, refl, text_eq, includes, starts_with}
use phala_cloud.Common.Json.{null, arr, obj, nil, cons, Fields, end, field, get_field}
use phala_cloud.Errors.{FetchError, is_timeout}
use phala_cloud.Errors.Laws.{has_null}
use phala_cloud.Client.{failed, fetch_error, type_error, request, safe_request}
use phala_cloud.Client.Config.{Environment, ClientConfig}
use phala_cloud.Client.Laws.{
  events_of, events-request, IsReported, safe_request-IsReported, request-null_list,
}

abbrev null_listed : Fields
null_listed = field (lit "detail") (arr (cons null nil)) end

abbrev refused : FetchError
refused = record {
  message = lit "[POST] /cvms: 422";
  body = some (obj null_listed);
  status = some 422;
  status_text = none;
  request = none;
  method = none;
  header_request_id = none;
  cause_name = none;
}

listed : get_field (lit "detail") null_listed ≡ some (arr (cons null nil))
unfolding get_field text_eq
listed = refl

holds_null : has_null (cons null nil) ≡ true
unfolding has_null
holds_null = refl

in_time : is_timeout refused ≡ false
unfolding is_timeout includes starts_with
in_time = refl

request-null_list_example :
    request (failed (fetch_error refused)) ≡ record { events = []; outcome = type_error }
request-null_list_example =
    request-null_list refused null_listed (cons null nil) refl refl listed holds_null in_time

events-request_example :
    (request (failed (fetch_error refused))).events
    ≡ events_of (request (failed (fetch_error refused))).outcome
events-request_example = events-request (failed (fetch_error refused))

safe_request-IsReported_example :
    IsReported
      (safe_request (lit "x is null") (request (failed (fetch_error refused)))).0
      (safe_request (lit "x is null") (request (failed (fetch_error refused)))).1
safe_request-IsReported_example =
    safe_request-IsReported (lit "x is null") (failed (fetch_error refused))

abbrev environment : Environment
environment = record {
  api_key = some (lit "k");
  oidc_token = none;
  workspace = none;
  api_prefix = none;
}

abbrev config : ClientConfig
config = record {
  api_key = none;
  bearer_token = none;
  workspace = some (lit " w ");
  base_url = none;
  version = some (lit "2020-01-01");
  timeout = 60000;
  use_cookie_auth = false;
  headers = [];
}
