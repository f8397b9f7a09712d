-- ===== src/Errors/Laws.antt =====
-- What the errors that `parseApiError` makes keep of the response.
use phala_cloud.Common.{
  ℕ, Text, Bool, true, false, not, ◌&&◌, Option, none, some, List, ◌==◌, ◌≡◌, ◌≢◌, refl, sym, ap,
  ◌∙◌, inl, inr, arith, Bool-cases, Option-cases, is_some, or_else,
}
use phala_cloud.Common.Json.{Json, null, bool, num, str, arr, obj, Items, nil, cons}
use phala_cloud.Errors.{RequestError}
use phala_cloud.Errors.Messages.{
  ValidationErrorItem, validation_item, add_item, validation_items, ErrorType, validation, auth,
  business, server, unknown, categorize_error_type,
}
use phala_cloud.Errors.Parse.{
  Structured, ErrorClass, resource_error, PhalaCloudError, parse_structured_error, summary_of,
  extract_primary_message, class_of, unstructured, parse_api_error,
}

unfoldable pub has_null : Items → Bool
has_null nil = false
has_null (cons null js) = true
has_null (cons (bool b) js) = has_null js
has_null (cons (num t) js) = has_null js
has_null (cons (str s) js) = has_null js
has_null (cons (arr is) js) = has_null js
has_null (cons (obj fs) js) = has_null js

-- A list of validation errors that holds null.
unfoldable pub null_in_list : ℕ → Json → Bool
unfolding has_null
null_in_list status (arr js) = status == 422 && has_null js
null_in_list status _ = false

is_some-add_item :
    (i : ValidationErrorItem) (os : Option (List ValidationErrorItem))
    → is_some (add_item (some i) os) ≡ is_some os
unfolding add_item
is_some-add_item i none = refl
is_some-add_item i (some is) = refl

is_some-validation_items : (js : Items) → is_some (validation_items js) ≡ not (has_null js)
unfolding validation_items validation_item has_null add_item
is_some-validation_items nil = refl
is_some-validation_items (cons null js) = refl
is_some-validation_items (cons (bool b) js) =
    is_some-add_item _ (validation_items js) ∙ is_some-validation_items js
is_some-validation_items (cons (num t) js) =
    is_some-add_item _ (validation_items js) ∙ is_some-validation_items js
is_some-validation_items (cons (str s) js) =
    is_some-add_item _ (validation_items js) ∙ is_some-validation_items js
is_some-validation_items (cons (arr is) js) =
    is_some-add_item _ (validation_items js) ∙ is_some-validation_items js
is_some-validation_items (cons (obj fs) js) =
    is_some-add_item _ (validation_items js) ∙ is_some-validation_items js

is_some-unstructured :
    (e : RequestError) (t : Option Text) (c : Option ErrorClass)
    → is_some (unstructured e t c) ≡ (is_some t && is_some c)
unfolding unstructured
is_some-unstructured e none c = refl
is_some-unstructured e (some t) none = refl
is_some-unstructured e (some t) (some c) = refl

is_some-summary_of : (is : Option (List ValidationErrorItem)) → is_some (summary_of is) ≡ is_some is
unfolding summary_of
is_some-summary_of none = refl
is_some-summary_of (some is) = refl

class_of_list :
    (status : ℕ) (js : Items)
    → (status == 422) ≡ false
    → is_some (class_of (categorize_error_type status) (arr js)) ≡ true
unfolding class_of categorize_error_type
class_of_list status js h = ground arith

is_some-class_of_other :
    (c : ErrorType) (d : Json) → ((js : Items) → d ≢ arr js) → is_some (class_of c d) ≡ true
unfolding class_of
is_some-class_of_other validation null h = refl
is_some-class_of_other validation (bool b) h = refl
is_some-class_of_other validation (num t) h = refl
is_some-class_of_other validation (str s) h = refl
is_some-class_of_other validation (arr js) h = absurd (h js refl)
is_some-class_of_other validation (obj fs) h = refl
is_some-class_of_other auth d h = refl
is_some-class_of_other business d h = refl
is_some-class_of_other server d h = refl
is_some-class_of_other unknown d h = refl

categorize_422 : (status : ℕ) → (status == 422) ≡ true → categorize_error_type status ≡ validation
unfolding categorize_error_type
categorize_422 status h = ground arith

is_some-class_of_list :
    (js : Items) → is_some (class_of validation (arr js)) ≡ is_some (validation_items js)
unfolding class_of
is_some-class_of_list js = ground arith

list_422 :
    (js : Items)
    → (is_some (summary_of (validation_items js)) && is_some (class_of validation (arr js)))
      ≡ not (has_null js)
list_422 js =
    rw
      (
        is_some-summary_of (validation_items js),
        is_some-class_of_list js,
        is_some-validation_items js,
      )
      (ground arith)

-- The end of `parseApiError` for a detail that is not structured.
unfoldable pub unstructured_end : RequestError → Option PhalaCloudError
unstructured_end e =
    unstructured e (extract_primary_message e.status e.detail e.message)
      (class_of (categorize_error_type e.status) e.detail)

is_some-unstructured_end :
    (e : RequestError) (d : Json)
    → e.detail ≡ d
    → is_some (unstructured_end e) ≡ not (null_in_list e.status d)
unfolding unstructured_end extract_primary_message null_in_list
is_some-unstructured_end e null h =
    is_some-unstructured e _ _
    ∙ rw h (is_some-class_of_other (categorize_error_type e.status) null (λ js p. cc))
is_some-unstructured_end e (bool b) h =
    is_some-unstructured e _ _
    ∙ rw h (is_some-class_of_other (categorize_error_type e.status) (bool b) (λ js p. cc))
is_some-unstructured_end e (num t) h =
    is_some-unstructured e _ _
    ∙ rw h (is_some-class_of_other (categorize_error_type e.status) (num t) (λ js p. cc))
is_some-unstructured_end e (str s) h =
    is_some-unstructured e _ _
    ∙ rw h (is_some-class_of_other (categorize_error_type e.status) (str s) (λ js p. cc))
is_some-unstructured_end e (obj fs) h =
    is_some-unstructured e _ _
    ∙ rw h (is_some-class_of_other (categorize_error_type e.status) (obj fs) (λ js p. cc))
is_some-unstructured_end e (arr js) h =
    is_some-unstructured e _ _
    ∙ rw h (elim (Bool-cases (e.status == 422)) [
      | inl v ↦ rw (v, categorize_422 e.status v) (list_422 js)
      | inr n ↦ rw n (class_of_list e.status js n)
    ])

pub parse_unstructured :
    (e : RequestError)
    → parse_structured_error e.detail ≡ none
    → parse_api_error e ≡ unstructured_end e
unfolding parse_api_error unstructured_end
parse_unstructured e h = rw (h, parse_api_error) refl

pub parse_structured :
    (e : RequestError) (s : Structured)
    → parse_structured_error e.detail ≡ some s
    → parse_api_error e
      ≡ some (record {
        class = resource_error s;
        kept = record e {
          message = s.message;
          request_id = or_else s.request_id e.request_id;
          code = none;
          type = none;
        };
      })
unfolding parse_api_error
parse_structured e s h = rw (h, parse_api_error) refl

structured_no_list :
    (d : Json) (s : Structured) (status : ℕ)
    → parse_structured_error d ≡ some s
    → null_in_list status d ≡ false
unfolding parse_structured_error null_in_list
structured_no_list null s status h = refl
structured_no_list (bool b) s status h = refl
structured_no_list (num t) s status h = refl
structured_no_list (str t) s status h = refl
structured_no_list (arr js) s status h = cc
structured_no_list (obj fs) s status h = refl

-- parseApiError makes an error of every RequestError but one: at status 422 and a list with null among
-- its items it throws a TypeError.
pub is_some-parse_api_error :
    (e : RequestError) → is_some (parse_api_error e) ≡ not (null_in_list e.status e.detail)
is_some-parse_api_error e = elim (Option-cases (parse_structured_error e.detail)) [
  | inl n ↦ ap is_some (parse_unstructured e n) ∙ is_some-unstructured_end e e.detail refl
  | inr (s, h) ↦
      ap is_some (parse_structured e s h) ∙ sym (ap not (structured_no_list e.detail s e.status h))
]
