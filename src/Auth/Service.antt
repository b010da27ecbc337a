-- ===== src/Auth/Service.antt =====
-- src/modules/auth: the bodies of the requests, auth.tx.service.ts and auth.service.ts.
use coupang_eats_backend_v.Base.{
  String, Bool, true, false, not, Option, none, some, [], ◌∷◌, ◌==◌, ◌<>◌, if◌then◌else◌,
}
use coupang_eats_backend_v.Http.{Result, ok, err, bad_request, unauthorized, conflict}
use coupang_eats_backend_v.Action.{
  Action, ◌>>=◌, ◌>>◌, pure, gets, reads, raise_if, or_raise, from_result,
}
use coupang_eats_backend_v.Entity.{new_entity, User, Role, client, user_entity}
use coupang_eats_backend_v.Packages.{Packages, unsorted}
use coupang_eats_backend_v.Repository.{Property, find_one_by_filters, find_one_or_throw}
use coupang_eats_backend_v.World.{World, user_table, save, Transactional}
use coupang_eats_backend_v.Payments.Service.{exists}
use coupang_eats_backend_v.Auth.Redis.{Redis, Json, Jwt, Value, text, flag}
use coupang_eats_backend_v.Auth.Tokens.{
  JwtConfig, TokenPair, truthy, cache_get, cache_set, cache_del, generate_token_pair,
  refresh_tokens, revoke_all_user_tokens,
}
use coupang_eats_backend_v.Auth.Hash.{Bcrypt, hash, compare}
use coupang_eats_backend_v.Auth.Mail.{SesClient, MailConfig, send_welcome_notification}
use coupang_eats_backend_v.Auth.Server.{Server, in_world, in_session, in_mails, draw_salt, uuid_v4}

pub record SignUpBody : Type 0 where
  pub email : String
  pub password : String
  pub name : String
  pub role : Role
  -- what the properties of the body that the class does not declare set in a `User`: the validation
  -- pipe has no whitelist, so a body may even name the id of a row, or `verified`
  pub undeclared : User

-- the entity of a body without such properties; `verified` is the column's default
abbrev pub new_user : User
new_user = record {
  base = new_entity;
  email = "";
  password = "";
  name = "";
  role = client;
  verified = false;
}

pub record SignInBody : Type 0 where
  pub email : String
  pub password : String

-- `SignUpBody.toEntity`: every property of the body, then the password
unfoldable pub user_to_entity : SignUpBody → String → User
user_to_entity body hashed_password = record body.undeclared {
  email = body.email;
  password = hashed_password;
  name = body.name;
  role = body.role;
}

unfoldable pub email_verify_key : String → String
email_verify_key token = "email-verify:" <> token

-- a cached value as a text, in a filter and in a message
abbrev pub as_text : Value → String
as_text (text t) = t
as_text (flag true) = "true"
as_text (flag false) = "false"

-- `if (!email) throw`
abbrev pub given : Option Value → Option String
given none = none
given (some v) = if truthy (some v) then some (as_text v) else none

-- the filter `{ email }`
abbrev pub has_email : String → User → Bool
has_email email u = u.email == email

abbrev pub by_email : String → Property User
by_email email = record { key = "email"; value = email; column = λ u. u.email }

-- `catch { return null }`
abbrev pub or_null : {S A : Type 0} → Result (Option A) × S → Result (Option A) × S
or_null (ok a, s) = (ok a, s)
or_null (err e, s) = (ok none, s)

module _ (p : Packages) where
  -- the body of the transaction
  unfoldable pub create_user_body : SignUpBody → String → Action (World p) (Unit {0})
  create_user_body body hashed_password = do
    existing ← gets (λ w. find_one_by_filters p (has_email body.email) unsorted w.users)
    raise_if (exists existing) (conflict "이미 존재하는 이메일입니다.")
    save p (user_table p) (user_to_entity body hashed_password)
    pure tt

  unfoldable pub create_user_or_throw :
      Transactional p → SignUpBody → String → Action (World p) (Unit {0})
  create_user_or_throw t body hashed_password = t.run (create_user_body body hashed_password)

module _ (p : Packages) (r : Redis) (b : Bcrypt) where
  abbrev pub checked : String → Option User → Action (Server p r) (Option User)
  checked password none = pure none
  checked password (some user) = do
    same ← from_result (compare b password user.password)
    pure (if same then some user else none)

  unfoldable pub validate_user : String → String → Action (Server p r) (Option User)
  validate_user email password s =
      or_null (checked password (find_one_by_filters p (has_email email) unsorted s.world.users) s)

module _ (p : Packages) (r : Redis) (b : Bcrypt) (json : Json Value) where
  module _ (t : Transactional p) (ses : SesClient) (mail : MailConfig) where
    -- after the transaction: the token is stored and mailed
    unfoldable pub send_token : String → Action (Server p r) (Unit {0})
    send_token email = do
      token ← uuid_v4 p r
      in_session p r (cache_set r json (email_verify_key token) (text email) 300)
      in_mails p r (send_welcome_notification ses mail email "고객" token)

    unfoldable pub sign_up : SignUpBody → Action (Server p r) (Unit {0})
    sign_up body = do
      salt ← draw_salt p r
      let hashed_password = hash b salt body.password
      in_world p r (create_user_or_throw p t body hashed_password)
      send_token body.email

  abbrev pub set_verified : String → User → Action (Server p r) (Unit {0})
  set_verified redis_key user = do
    in_world p r (save p (user_table p) (record user { verified = true }))
    in_session p r (cache_del r redis_key)

  unfoldable pub verify_email : String → Action (Server p r) (Unit {0})
  verify_email token = do
    cached ← in_session p r (cache_get r json (email_verify_key token))
    email ← or_raise (given cached) (bad_request "인증 링크가 만료되었거나 유효하지 않습니다.")
    user ← reads (λ s. find_one_or_throw p (by_email email ∷ []) unsorted s.world.users)
    if user.verified then pure tt else set_verified (email_verify_key token) user

  module _ (jwt : Jwt) (config : JwtConfig) where
    unfoldable pub sign_in : SignInBody → Action (Server p r) TokenPair
    sign_in body = do
      found ← validate_user p r b body.email body.password
      user ← or_raise found (unauthorized "Invalid credentials")
      raise_if (not user.verified) (unauthorized "이메일 인증을 완료해주세요.")
      in_session p r (generate_token_pair r json jwt config user.id)

    unfoldable pub sign_out : String → String → Action (Server p r) (Unit {0})
    sign_out user_id access_token =
        in_session p r (revoke_all_user_tokens r json jwt config user_id access_token)

    unfoldable pub refresh : String → Action (Server p r) TokenPair
    refresh refresh_token = in_session p r (refresh_tokens r json jwt config refresh_token)
