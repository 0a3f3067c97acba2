-- ===== src/Adapters/Kinds.antt =====
-- What the exceptions of the SDKs of app/providers/ stand for, by tables, and what a code in the body
-- of a rate limit says.
use model_route.Adapters.{
  api_timeout, builtin_timeout, rate_limited, authentication_failed, permission_denied, bad_request,
  unprocessable, internal_server, api_connection, api_status, SdkClass,
}
use model_route.Adapters.Gemini.{rate_limit_source, source_of_body, source_of_error, source_of_code}
use model_route.Base.{
  List, [], ◌∷◌, ℕ, String, ◌≡◌, inl, inr, refl, Bool, Option, none, some, leb, str_eq,
  if◌then◌else◌, Option-cases,
}
use model_route.Errors.{timeout, rate_limit, unavailable, authentication, request}
use model_route.Json.{Json, null, bool, num, real, arr, obj, str, get_field}
use model_route.Providers.{Reply, generated, failed, crashed}

-- What becomes of an exception: an error of one of the five classes, by their names in
-- app/exceptions.py, or the exception itself.
pub data Kind : Type 0 where
  timed_out limited refused_key refused_request out_of_service passed_on : Kind

abbrev pub kind_of : Reply → Kind
kind_of (generated result) = passed_on
kind_of (failed (timeout _ _ _)) = timed_out
kind_of (failed (rate_limit _ _ _)) = limited
kind_of (failed (authentication _ _)) = refused_key
kind_of (failed (request _ _)) = refused_request
kind_of (failed (unavailable _ _)) = out_of_service
kind_of (crashed e) = passed_on

-- An API status error: an outage from 500 on, and else a refusal of the request.
abbrev pub status_kind : ℕ → Kind
status_kind status = if leb 500 status then out_of_service else refused_request

-- What each class stands for, the first that applies.
abbrev pub openai_kinds : ℕ → List (SdkClass × Kind)
openai_kinds status =
    (builtin_timeout, timed_out)
    ∷ (api_timeout, timed_out)
    ∷ (rate_limited, limited)
    ∷ (authentication_failed, refused_key)
    ∷ (permission_denied, refused_key)
    ∷ (bad_request, refused_request)
    ∷ (internal_server, out_of_service)
    ∷ (api_connection, out_of_service)
    ∷ (api_status, status_kind status)
    ∷ []

abbrev pub gemini_kinds : ℕ → List (SdkClass × Kind)
gemini_kinds status =
    (api_timeout, timed_out)
    ∷ (builtin_timeout, timed_out)
    ∷ (rate_limited, limited)
    ∷ (authentication_failed, refused_key)
    ∷ (permission_denied, refused_key)
    ∷ (bad_request, refused_request)
    ∷ (unprocessable, refused_request)
    ∷ (internal_server, out_of_service)
    ∷ (api_connection, out_of_service)
    ∷ (api_status, status_kind status)
    ∷ []

abbrev pub first_kind : (SdkClass → Bool) → List (SdkClass × Kind) → Kind
first_kind is_instance [] = passed_on
first_kind is_instance ((c, kind) ∷ rest) =
    if is_instance c then kind else first_kind is_instance rest

-- The text at `error`, `code` of a body, if it has one there.
abbrev pub text_of : Json → Option String
text_of (str s) = some s
text_of _ = none

abbrev pub field_of : String → Json → Option Json
field_of key (obj fields) = get_field key fields
field_of key _ = none

abbrev pub and_then : {A B : Type 0} → Option A → (A → Option B) → Option B
and_then none f = none
and_then (some a) f = f a

abbrev pub code_at : Option Json → Option String
code_at body =
    and_then body (λ b. and_then (field_of "error" b) (λ e. and_then (field_of "code" e) text_of))

-- What a code says of a rate limit.
abbrev pub meaning_of : Option String → String
meaning_of none = "unknown_429"
meaning_of (some code) =
    if str_eq code "quota_exceeded"
    then "daily_quota"
    else if str_eq code "rate_limit_exceeded"
    then "short_term"
    else "unknown_429"

source_of_code_lem : (code : Json) → source_of_code code ≡ meaning_of (text_of code)
unfolding source_of_code
source_of_code_lem (str code) = refl
source_of_code_lem null = refl
source_of_code_lem (bool b) = refl
source_of_code_lem (num n) = refl
source_of_code_lem (real r) = refl
source_of_code_lem (arr xs) = refl
source_of_code_lem (obj fields) = refl

source_of_error_lem :
    (error : Json) → source_of_error error ≡ meaning_of (and_then (field_of "code" error) text_of)
unfolding source_of_error
source_of_error_lem (obj fields) = elim (Option-cases (get_field "code" fields)) [
  | inl missing ↦ rw (missing, source_of_error) refl
  | inr (code, found) ↦ rw (found, source_of_error) (source_of_code_lem code)
]
source_of_error_lem null = refl
source_of_error_lem (bool b) = refl
source_of_error_lem (num n) = refl
source_of_error_lem (real r) = refl
source_of_error_lem (str t) = refl
source_of_error_lem (arr xs) = refl

source_of_body_lem : (body : Json) → source_of_body body ≡ meaning_of (code_at (some body))
unfolding source_of_body
source_of_body_lem (obj fields) = elim (Option-cases (get_field "error" fields)) [
  | inl missing ↦ rw (missing, source_of_body) refl
  | inr (error, found) ↦ rw (found, source_of_body) (source_of_error_lem error)
]
source_of_body_lem null = refl
source_of_body_lem (bool b) = refl
source_of_body_lem (num n) = refl
source_of_body_lem (real r) = refl
source_of_body_lem (str t) = refl
source_of_body_lem (arr xs) = refl

pub rate_limit_source_lem :
    (body : Option Json) → rate_limit_source body ≡ meaning_of (code_at body)
unfolding rate_limit_source
rate_limit_source_lem none = refl
rate_limit_source_lem (some body) = source_of_body_lem body
