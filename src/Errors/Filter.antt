-- ===== src/Errors/Filter.antt =====
-- src/core/filter/error.filter.ts, src/core/interceptor/error.interceptor.ts and
-- src/core/interceptor/apiResponse.interceptor.ts, with `JSON.stringify` as a parameter.
use text.Mathlib.Text.{find?}
use coupang_eats_backend_v.Base.{
  ℕ, String, Bool, true, false, ◌||◌, Option, none, some, [], ◌∷◌, ◌++◌, ◌==◌, if◌then◌else◌, leb,
}
use coupang_eats_backend_v.Http.{Result, ok, err}
use coupang_eats_backend_v.Errors.Objects.{
  Field, text_field, number_field, flag_field, Object, field, truthy,
}

-- `HttpException.getResponse()`
pub data Payload : Type 0 where
  text_payload : String → Payload
  object_payload : Object → Payload

-- a thrown error; an `HttpException` has a status and a payload
pub record Thrown : Type 0 where
  pub name : String
  pub message : String
  pub stack : String
  pub http : Option (ℕ × Payload)

pub record HttpRequest : Type 0 where
  pub method : String
  pub url : String
  pub body : Object

-- `JSON.stringify`, which throws for a circular object
abbrev pub Stringify : Type 0
Stringify = Object → Result String

-- `t.includes(s)`
abbrev pub has_text : String → String → Bool
has_text t s = elim (find? t s) [ none ↦ false | some i ↦ true ]

abbrev pub is_auth_request : String → Bool
is_auth_request url = has_text url "/auth/signup" || has_text url "/auth/signin"

abbrev pub logged_body : HttpRequest → Object
logged_body request =
    if is_auth_request request.url
    then request.body ++ (("password", text_field "******") ∷ [])
    else request.body

-- `getRequestBody`; the `catch` writes the empty object
unfoldable pub get_request_body : Stringify → HttpRequest → String
get_request_body stringify request = elim (stringify (logged_body request)) [
  | ok t ↦ t
  | err e ↦ "{}"
]

abbrev pub non_empty : String → String → String
non_empty t other = if t == "" then other else t

abbrev pub truthy_or : Option Field → Field → Field
truthy_or none other = other
truthy_or (some f) other = if truthy f then f else other

unfoldable pub status_code : Option (ℕ × Payload) → ℕ
status_code none = 500
status_code (some (code, payload)) = code

unfoldable pub error_message : Thrown → Option (ℕ × Payload) → Field
error_message e none = text_field (non_empty e.message "Internal Server Error")
error_message e (some (code, text_payload t)) = text_field t
error_message e (some (code, object_payload o)) =
    truthy_or (field "message" o) (text_field (non_empty e.message "Internal Server Error"))

unfoldable pub payload_of : Option (ℕ × Payload) → Object
payload_of (some (code, object_payload o)) = o
payload_of _ = []

-- `ErrorResponse`
unfoldable pub error_response : Bool → HttpRequest → Thrown → Object
error_response is_production request e =
    ("statusCode", number_field (status_code e.http))
    ∷ ("message", error_message e e.http)
    ∷ ("path", text_field request.url)
    ∷ ("error", text_field (non_empty e.name "Error"))
    ∷ (if is_production then [] else (("stack", text_field e.stack) ∷ []))

-- what the filter answers, and what it logs
pub record Caught : Type 0 where
  pub status : ℕ
  pub reply : Object
  -- the entry at the level of an error, from 500 on
  pub error_logged : Option Object
  -- the warning: the body of the request, the response
  pub warned_body : String
  pub warned_response : Object
  -- and the stack of the error, the status, and what the request was
  pub warned_exception : String
  pub warned_status : ℕ
  pub warned_method : String
  pub warned_url : String

-- `ErrorFilter.catch`
unfoldable pub catch_error : Bool → Stringify → HttpRequest → Thrown → Caught
catch_error is_production stringify request e =
    let response = error_response is_production request e in
    record {
      status = status_code e.http;
      reply = (("success", flag_field false) ∷ []) ++ (response ++ payload_of e.http);
      error_logged = if leb 500 (status_code e.http) then some response else none;
      warned_body = get_request_body stringify request;
      warned_response = response;
      warned_exception = e.stack;
      warned_status = status_code e.http;
      warned_method = request.method;
      warned_url = request.url;
    }

-- `ErrorInterceptor.intercept` for an error: the status, and the body that takes its place
unfoldable pub intercept_error : Thrown → ℕ × Object
intercept_error e =
    let base = ("success", flag_field false) ∷ ("message", text_field e.message) ∷ [] in
    elim e.http [
      | none ↦ (500, base)
      | some (code, text_payload t) ↦ (code, base ++ (("message", text_field t) ∷ []))
      | some (code, object_payload o) ↦ (code, base ++ o)
    ]

-- `ApiResponseInterceptor.intercept`
pub record ApiResponse (A : Type 0) : Type 0 where
  pub success : Bool
  pub response_data : A

unfoldable pub api_response : {A : Type 0} → A → ApiResponse A
api_response data' = record { success = true; response_data = data' }
