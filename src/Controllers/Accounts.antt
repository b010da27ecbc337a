-- ===== src/Controllers/Accounts.antt =====
-- The controllers of accounts and users (src/modules/auth/auth.controller.ts,
-- src/modules/user/user.controller.ts), with the cookies that they set.
use text.Mathlib.Text.{starts_with}
use coupang_eats_backend_v.Base.{
  ℕ, ◌*◌, String, Bool, false, not, Option, none, some, List, [], ◌∷◌, ◌++◌, ◌==◌,
}
use coupang_eats_backend_v.Http.{type_error}
use coupang_eats_backend_v.Action.{Action, ◌>>=◌, ◌>>◌, pure, modify, or_raise}
use coupang_eats_backend_v.Entity.{User}
use coupang_eats_backend_v.Packages.{Packages}
use coupang_eats_backend_v.World.{Transactional}
use coupang_eats_backend_v.Auth.Redis.{Redis, Json, Jwt, Value}
use coupang_eats_backend_v.Auth.Tokens.{JwtConfig}
use coupang_eats_backend_v.Auth.Hash.{Bcrypt}
use coupang_eats_backend_v.Auth.Mail.{SesClient, MailConfig}
use coupang_eats_backend_v.Auth.Server.{Server}
use coupang_eats_backend_v.Auth.Service.{
  SignUpBody, SignInBody, sign_up, sign_in, sign_out, verify_email, refresh,
}
use coupang_eats_backend_v.Users.Service.{UpdateUserDto, get_user, update_user}
use coupang_eats_backend_v.Access.Passport.{Request, Passport}
use coupang_eats_backend_v.Access.Guards.{Principal, token_data, handle, enter, as_user}
use coupang_eats_backend_v.Controllers.Routes.{
  public_route, signed_in_route, plain_route, refresh_route, with_uuid, serve,
}

-- the options of a cookie; `sameSite` is always 'lax'
pub record CookieOptions : Type 0 where
  pub http_only : Bool
  pub secure : Bool
  pub max_age : Option ℕ

pub data CookieChange : Type 0 where
  set_cookie : String → String → CookieOptions → CookieChange
  clear_cookie : String → CookieOptions → CookieChange

-- what the constructor reads from the environment
pub record Environment : Type 0 where
  pub node_env : Option String
  pub base_url : Option String

abbrev pub is_local : Environment → Bool
is_local e = elim e.node_env [ none ↦ false | some n ↦ n == "local" ]

abbrev pub cookie_secure : Environment → Bool
cookie_secure e = elim e.base_url [ none ↦ false | some url ↦ starts_with url "https://" ]

unfoldable pub set_refresh_token_cookie : Environment → String → CookieChange
set_refresh_token_cookie e refresh_token = set_cookie "refreshToken" refresh_token (record {
  http_only = not (is_local e);
  secure = cookie_secure e;
  max_age = some (7 * 24 * 60 * 60 * 1000);
})

unfoldable pub clear_refresh_token_cookie : Environment → CookieChange
clear_refresh_token_cookie e =
    clear_cookie "refreshToken"
      (record { http_only = not (is_local e); secure = cookie_secure e; max_age = none })

-- the shared state, and the cookies of the response
pub record Exchange (S : Type 0) : Type 0 where
  pub server : S
  pub cookies : List CookieChange

module _ {S A : Type 0} where
  abbrev pub on_server : Action S A → Action (Exchange S) A
  on_server m x = let (y, s) = m x.server in (y, record x { server = s })

abbrev pub send_cookie : {S : Type 0} → CookieChange → Action (Exchange S) (Unit {0})
send_cookie c = modify (λ x. record x { cookies = x.cookies ++ (c ∷ []) })

-- `request.user`, as the refresh guard has set it
abbrev pub current_refresh_token : Option Principal → Option String
current_refresh_token (some (token_data d)) = some d.refresh_token
current_refresh_token _ = none

abbrev pub bearer_or_empty : Option String → String
bearer_or_empty none = ""
bearer_or_empty (some t) = t

module _ (p : Packages) (t : Transactional p) (r : Redis) (b : Bcrypt) (c : Passport (Server p r))
    (json : Json Value) (jwt : Jwt) (config : JwtConfig) (e : Environment) (request : Request) where
  -- POST /auth/sign-up
  unfoldable pub post_sign_up :
      SesClient → MailConfig → SignUpBody → Action (Exchange (Server p r)) (Unit {0})
  post_sign_up ses mail body =
      on_server
        (serve p r c json jwt config public_route request (sign_up p r b json t ses mail body))

  -- POST /auth/sign-in: the access token is the body of the response
  unfoldable pub post_sign_in : SignInBody → Action (Exchange (Server p r)) String
  post_sign_in body = do
    token_pair ←
        on_server
          (serve p r c json jwt config public_route request (sign_in p r b json jwt config body))
    send_cookie (set_refresh_token_cookie e token_pair.refresh_token)
    pure token_pair.access_token

  -- POST /auth/sign-out
  unfoldable pub post_sign_out : Action (Exchange (Server p r)) (Unit {0})
  post_sign_out = do
    principal ← on_server (enter p r c json jwt config plain_route request)
    send_cookie (clear_refresh_token_cookie e)
    user ← or_raise (as_user p r c json jwt config principal) type_error
    on_server (
        sign_out p r b json jwt config user.id
          (bearer_or_empty (c.bearer_token request.authorization)))

  -- POST /auth/refresh
  unfoldable pub post_refresh : Action (Exchange (Server p r)) String
  post_refresh = do
    principal ← on_server (enter p r c json jwt config refresh_route request)
    refresh_token ← or_raise (current_refresh_token principal) type_error
    token_pair ← on_server (refresh p r b json jwt config refresh_token)
    send_cookie (set_refresh_token_cookie e token_pair.refresh_token)
    pure token_pair.access_token

  -- GET /auth/verify-email
  unfoldable pub get_verify_email : String → Action (Exchange (Server p r)) String
  get_verify_email token = do
    on_server (serve p r c json jwt config public_route request (verify_email p r b json token))
    pure "이메일 인증이 성공적으로 완료되었습니다. 이제 로그인할 수 있습니다."

module _ (p : Packages) (r : Redis) (b : Bcrypt) (c : Passport (Server p r)) (json : Json Value)
    (users : Json User) (jwt : Jwt) (config : JwtConfig) (is_uuid : String → Bool)
    (request : Request) where
  -- PATCH /users/profile
  unfoldable pub update_profile : UpdateUserDto → Action (Server p r) User
  update_profile dto =
      handle p r c json jwt config signed_in_route request
        (λ user. update_user p r b users user.id dto)

  -- GET /users/:userId
  unfoldable pub get_user_route : String → Action (Server p r) User
  get_user_route user_id =
      serve p r c json jwt config signed_in_route request
        (with_uuid is_uuid user_id (get_user p r b users))
