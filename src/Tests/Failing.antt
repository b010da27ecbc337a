-- ===== src/Tests/Failing.antt =====
-- A sign-up that is refused, as the client and the log see it.
use coupang_eats_backend_v.Base.{String, ◌≡◌, refl, true, Option, some, [], ◌∷◌}
use coupang_eats_backend_v.Http.{ok}
use coupang_eats_backend_v.Errors.Objects.{Field, text_field, number_field, field}
use coupang_eats_backend_v.Errors.Filter.{
  object_payload, Thrown, HttpRequest, Stringify, get_request_body, catch_error,
}
use coupang_eats_backend_v.Errors.Replies.{Answered, catch_error-Answered}

-- the password, if the object shows it
abbrev shown : Option Field → String
shown (some (text_field t)) = t
shown _ = ""

abbrev stringify : Stringify
stringify o = ok (shown (field "password" o))

abbrev signing_up : HttpRequest
signing_up = record {
  method = "POST";
  url = "/auth/sign-up";
  body = ("password", text_field "secret1!") ∷ [];
}

-- The route is `sign-up`, and the filter looks for `signup`: the password is logged.
password_logged : get_request_body stringify signing_up ≡ "secret1!"
unfolding get_request_body
password_logged = refl

abbrev taken : Thrown
taken = record {
  name = "ConflictException";
  message = "taken";
  stack = "at signUp";
  http = some (
    409,
    object_payload (("statusCode", number_field 409) ∷ ("message", text_field "taken") ∷ []),
  );
}

catch_error-Answered_example :
    Answered signing_up taken (catch_error true stringify signing_up taken)
catch_error-Answered_example =
    catch_error-Answered stringify signing_up taken
      (record { status_code = refl; success = refl; path = refl; stack = refl })
