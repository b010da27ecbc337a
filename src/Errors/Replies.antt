-- ===== src/Errors/Replies.antt =====
-- What the client and the log get for an error in production.
use coupang_eats_backend_v.Base.{ℕ, ◌≡◌, refl, true, false, ◌⊎◌, inl, inr, Option, none, some}
use coupang_eats_backend_v.Errors.Objects.{text_field, number_field, flag_field, Object, field}
use coupang_eats_backend_v.Errors.Filter.{
  Payload, text_payload, object_payload, Thrown, HttpRequest, Stringify, Caught, status_code,
  payload_of, error_response, catch_error,
}

-- a payload as NestJS builds it: the status, a message and a name, and nothing of the filter's own
pub record IsBuiltIn (code : ℕ) (o : Object) : Type 0 where
  pub status_code : field "statusCode" o ≡ some (number_field code)
  pub success : field "success" o ≡ none
  pub path : field "path" o ≡ none
  pub stack : field "stack" o ≡ none

abbrev pub IsRegular : Option (ℕ × Payload) → Type 0
IsRegular (some (code, object_payload o)) = IsBuiltIn code o
IsRegular _ = Unit

-- what the payload adds to the reply
record Kept (h : Option (ℕ × Payload)) : Type 0 where
  pub code :
      (field "statusCode" (payload_of h) ≡ none)
      ⊎ (field "statusCode" (payload_of h) ≡ some (number_field (status_code h)))
  pub success : field "success" (payload_of h) ≡ none
  pub path : field "path" (payload_of h) ≡ none
  pub stack : field "stack" (payload_of h) ≡ none

kept : (h : Option (ℕ × Payload)) → IsRegular h → Kept h
unfolding payload_of status_code
kept none x = record { code = inl refl; success = refl; path = refl; stack = refl }
kept (some (code, text_payload t)) x = record {
  code = inl refl;
  success = refl;
  path = refl;
  stack = refl;
}
kept (some (code, object_payload o)) x = record {
  code = inr x.status_code;
  success = x.success;
  path = x.path;
  stack = x.stack;
}

-- the status of a reply: that of the exception, or 500 for an error that is no HttpException
pub data IsStatus : Option (ℕ × Payload) → ℕ → Type 0 where
  unexpected : IsStatus none 500
  of_exception : (code : ℕ) (payload : Payload) → IsStatus (some (code, payload)) code

status_code-IsStatus : (h : Option (ℕ × Payload)) → IsStatus h (status_code h)
unfolding status_code
status_code-IsStatus none = unexpected
status_code-IsStatus (some (code, payload)) = of_exception code payload

pub record Answered (request : HttpRequest) (e : Thrown) (c : Caught) : Type 0 where
  pub status : IsStatus e.http c.status
  pub code : field "statusCode" c.reply ≡ some (number_field c.status)
  pub success : field "success" c.reply ≡ some (flag_field false)
  pub path : field "path" c.reply ≡ some (text_field request.url)
  pub no_stack : field "stack" c.reply ≡ none
  pub logged : c.warned_exception ≡ e.stack

-- In production, for an error that is no HttpException or has a text or a payload as NestJS builds
-- it, the filter answers with the status of the exception, or 500, and with an object that repeats
-- this status, has `success` false and the URL of the request, and shows no stack trace; the stack is
-- in the warning of the log.
pub catch_error-Answered :
    (stringify : Stringify) (request : HttpRequest) (e : Thrown)
    → IsRegular e.http
    → Answered request e (catch_error true stringify request e)
unfolding catch_error error_response
catch_error-Answered stringify request e regular =
    let k = kept e.http regular in
    record {
      status = status_code-IsStatus e.http;
      code = elim k.code [ inl absent ↦ rw absent refl | inr same ↦ rw same refl ];
      success = rw k.success refl;
      path = rw k.path refl;
      no_stack = rw k.stack refl;
      logged = refl;
    }
