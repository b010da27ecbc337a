-- ===== src/Tests/Logging.antt =====
-- A sign-in that passes the log.
use coupang_eats_backend_v.Base.{
  ℕ, zero, suc, String, ◌≡◌, refl, ap, Option, none, some, [], ◌∷◌, arith,
}
use coupang_eats_backend_v.Packages.Memory.{uuid}
use coupang_eats_backend_v.Logging.Config.{Variables, env_of, app_config}
use coupang_eats_backend_v.Logging.Service.{
  logged_text, at_error, Journal, LoggerService, new_logger, warn, call,
}
use coupang_eats_backend_v.Logging.Ids.{no_call, next_call, HasUniqueIds, Calls-HasUniqueIds}
use coupang_eats_backend_v.Logging.Requests.{
  LoggedRequest, Exchange, serve_logged, Behaves, Traced, serve_logged-Traced,
}

count : String → ℕ
count String.[] = 0
count (String.◌∷◌ c s) = suc (count s)

count-uuid : (n : ℕ) → count (uuid n) ≡ suc n
unfolding count
count-uuid zero = refl
count-uuid (suc n) = ap suc (count-uuid n)

uuid_inj : (i k : ℕ) → uuid i ≡ uuid k → i ≡ k
uuid_inj i k same =
    let a = count-uuid i in let b = count-uuid k in let c = ap count same in omega (arith, a, b, c)

abbrev variables : Variables
variables = record { name = some "eats"; base_url = none; port = none; node_env = some "prod" }

abbrev requests : LoggerService
requests = new_logger (app_config variables) (some "RequestLoggerMiddleware")

abbrev blank : {A : Type 0} → Journal A
blank = record { entries = []; drawn = 0 }

abbrev failed : Journal String → Journal String
failed j = call uuid requests at_error "guard" (logged_text "no token") "" j

abbrev twice : Journal String
twice = failed (failed blank)

Calls-HasUniqueIds_example : HasUniqueIds uuid twice.entries
Calls-HasUniqueIds_example = Calls-HasUniqueIds uuid uuid_inj twice (
    next_call requests at_error "guard" (logged_text "no token") "" blank (failed blank)
      (next_call requests at_error "guard" (logged_text "no token") "" blank blank (no_call blank)))

abbrev signing_in : LoggedRequest String String
signing_in = record {
  method = "POST";
  original_url = "/auth/sign-in";
  body = "secret1!";
  query = "";
  ip = none;
}

abbrev arriving : Exchange String String
arriving = record { request_headers = []; response_headers = []; journal = blank }

-- the server answers 401 after a warning
abbrev refused : Exchange String String → Option (ℕ × ℕ) × Exchange String String
refused x = (
  some (401, 25),
  record x { journal = warn uuid requests "guard" (logged_text "refused") "" x.journal },
)

refused-Behaves : Behaves uuid (λ n. "") requests refused
unfolding warn new_logger app_config env_of
refused-Behaves = record { writes = λ x. (_ ∷ [], refl); keeps = λ x. refl }

serve_logged-Traced_example :
    Traced uuid
      (λ n. "")
      requests
      "r1"
      signing_in
      20
      25
      401
      arriving
      (serve_logged uuid (λ n. "") requests "r1" signing_in 20 refused arriving)
serve_logged-Traced_example =
    serve_logged-Traced uuid (λ n. "") requests "r1" signing_in 20 25 401 refused arriving
      refused-Behaves refl
