-- ===== src/Errors/Shown.antt =====
-- What the error of a failed response shows of its body.
use phala_cloud.Common.{
  Text, lit, true, false, Option, none, some, ◌≡◌, refl, sym, ap, ◌∙◌, is_empty, is_some, or_else,
}
use phala_cloud.Common.Json.{Json, str, obj, Fields, get_field, truthy_json}
use phala_cloud.Errors.{
  FetchError, RequestError, ApiError, parse_schema, api_error_from, optional_text, is_detail,
  detail_or, coded, from_fetch_error, copied, or_status, extract_request_id, member?, member,
  text_or_none,
}
use phala_cloud.Errors.Parse.{
  Structured, resource_error, PhalaCloudError, parse_structured_error, structured_from,
  parse_api_error,
}
use phala_cloud.Errors.Laws.{parse_structured}

-- The message, the status of the response, its body, and its request id: the body's before the
-- header's.
pub record IsShown (e : FetchError) (message : Text) (p : PhalaCloudError) : Type 0 where
  pub shown : p.kept.message ≡ message
  pub status_kept : p.kept.status ≡ or_status e.status
  pub body_kept : p.kept.body ≡ e.body
  pub request_id_kept : p.kept.request_id ≡ or_else (extract_request_id e.body) e.header_request_id

-- The members type and code of a body are texts or absent.
pub record IsApiBody (fs : Fields) : Type 0 where
  pub typed : is_some (optional_text (get_field (lit "type") fs)) ≡ true
  pub coded_text : is_some (optional_text (get_field (lit "code") fs)) ≡ true

api_error_from-some :
    (d : Option Json) (t c : Option (Option Text))
    → is_detail d ≡ true
    → is_some t ≡ true
    → is_some c ≡ true
    → (a : ApiError) × (api_error_from d t c ≡ some a) × (a.detail ≡ d)
unfolding api_error_from
api_error_from-some d none c h i j = absurd (cc)
api_error_from-some d (some t) none h i j = absurd (cc)
api_error_from-some d (some t) (some c) h i j =
    (record { detail = d; type = t; code = c }, rw h refl, refl)

parse_schema-some :
    (fs : Fields)
    → IsApiBody fs
    → is_detail (get_field (lit "detail") fs) ≡ true
    → (a : ApiError) × (parse_schema (some (obj fs)) ≡ some a)
      × (a.detail ≡ get_field (lit "detail") fs)
unfolding parse_schema
parse_schema-some fs b h =
    api_error_from-some (get_field (lit "detail") fs) (optional_text (get_field (lit "type") fs))
      (optional_text (get_field (lit "code") fs)) h b.typed b.coded_text

-- The request error of a body that meets the schema.
record IsParsed (e : FetchError) (fs : Fields) (r : RequestError) : Type 0 where
  same : from_fetch_error e ≡ r
  detail : r.detail ≡ detail_or (or_else (get_field (lit "detail") fs) (coded e.body)) e.message
  status : r.status ≡ or_status e.status
  body : r.body ≡ e.body
  request_id : r.request_id ≡ or_else (extract_request_id e.body) e.header_request_id

from_fetch_error-IsParsed :
    (e : FetchError) (fs : Fields)
    → e.body ≡ some (obj fs)
    → IsApiBody fs
    → is_detail (get_field (lit "detail") fs) ≡ true
    → (r : RequestError) × IsParsed e fs r
unfolding from_fetch_error copied
from_fetch_error-IsParsed e fs h b d =
    let (a, p, q) = parse_schema-some fs b d in
    let accepted : parse_schema e.body ≡ some a = ap parse_schema h ∙ p in
    (
      record (copied e) {
        detail = detail_or (or_else a.detail (coded e.body)) e.message;
        code = a.code;
        type = a.type;
      },
      record {
        same = rw (accepted, from_fetch_error) refl;
        detail = ap (λ o. detail_or (or_else o (coded e.body)) e.message) q;
        status = refl;
        body = refl;
        request_id = refl;
      },
    )

or_else_idem : (o p : Option Text) → or_else o (or_else o p) ≡ or_else o p
or_else_idem none p = refl
or_else_idem (some s) p = refl

structured_body :
    (fs : Fields) (code message : Text)
    → get_field (lit "error_code") fs ≡ some (str code)
    → get_field (lit "message") fs ≡ some (str message)
    → is_empty code ≡ false
    → is_empty message ≡ false
    → (s : Structured) × (parse_structured_error (obj fs) ≡ some s)
      × (s.error_code ≡ code)
      × (s.message ≡ message)
      × (s.request_id ≡ extract_request_id (some (obj fs)))
unfolding parse_structured_error structured_from text_or_none extract_request_id member? member
structured_body fs code message c m n o = (
  record {
    error_code = code;
    message = message;
    request_id = text_or_none (get_field (lit "request_id") fs);
    details = get_field (lit "details") fs;
    suggestions = get_field (lit "suggestions") fs;
    links = get_field (lit "links") fs;
  },
  rw (c, m, n, o) refl,
  refl,
  refl,
  refl,
)

-- A failed response whose body has an error code and a message that are not empty, and no detail, with
-- type and code texts or absent, becomes a ResourceError with this code and message, which keeps the
-- status, the body and the request id.
pub parse_api_error-structured :
    (e : FetchError) (fs : Fields) (code message : Text)
    → e.body ≡ some (obj fs)
    → IsApiBody fs
    → get_field (lit "detail") fs ≡ none
    → get_field (lit "error_code") fs ≡ some (str code)
    → get_field (lit "message") fs ≡ some (str message)
    → is_empty code ≡ false
    → is_empty message ≡ false
    → (p : PhalaCloudError) × (parse_api_error (from_fetch_error e) ≡ some p)
      × IsShown e message p
      × (s : Structured) × (p.class ≡ resource_error s)
      × (s.error_code ≡ code)
unfolding is_detail detail_or truthy_json coded member? member
parse_api_error-structured e fs code message h b d c m n o =
    let (r, i) = from_fetch_error-IsParsed e fs h b (rw d refl) in
    let (s, parsed, s_code, s_message, s_id) = structured_body fs code message c m n o in
    let whole : r.detail ≡ obj fs =
      i.detail
      ∙ ap (λ x. detail_or (or_else x (coded e.body)) e.message) d
      ∙ ap (λ x. detail_or (coded x) e.message) h
      ∙ rw c refl in
    (
      record {
        class = resource_error s;
        kept = record r {
          message = s.message;
          request_id = or_else s.request_id r.request_id;
          code = none;
          type = none;
        };
      },
      ap parse_api_error i.same ∙ parse_structured r s (ap parse_structured_error whole ∙ parsed),
      record {
        shown = s_message;
        status_kept = i.status;
        body_kept = i.body;
        request_id_kept =
            ap (λ x. or_else x r.request_id) (s_id ∙ ap extract_request_id (sym h))
            ∙ ap (or_else (extract_request_id e.body)) i.request_id
            ∙ or_else_idem (extract_request_id e.body) e.header_request_id;
      },
      s,
      refl,
      s_code,
    )
