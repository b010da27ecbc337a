-- ===== src/Access/Passport.antt =====
-- Passport as a parameter, and src/core/jwt/accessToken.strategy.ts and refreshToken.strategy.ts,
-- src/core/guard/accessToken.guard.ts and refreshToken.guard.ts over it.
use coupang_eats_backend_v.Base.{String, ◌≡◌, ◌≢◌, not, Option, none, some, ◌==◌, if◌then◌else◌}
use coupang_eats_backend_v.Http.{Exception, ok, err, http, unauthorized, query_failed, type_error}
use coupang_eats_backend_v.Action.{Action, ◌>>=◌, ◌>>◌, pure, raise, raise_if, gets, or_raise}
use coupang_eats_backend_v.Entity.{User, user_entity}
use coupang_eats_backend_v.Packages.{Packages, unsorted}
use coupang_eats_backend_v.Repository.{find_one_by_filters}
use coupang_eats_backend_v.Auth.Redis.{Redis, Jwt, JwtPayload, access, refresh, Verified, valid}
use coupang_eats_backend_v.Auth.Tokens.{JwtConfig, type_eq}
use coupang_eats_backend_v.Auth.Server.{Server}

-- the parts of a request that the guards read
pub record Request : Type 0 where
  pub authorization : Option String
  -- the cookie `refreshToken`
  pub refresh_token : Option String

pub record RefreshTokenData : Type 0 where
  pub payload : JwtPayload
  pub refresh_token : String

-- `handleRequest` gets an error that `validate` threw, or what it returned, or why the token was
-- refused
pub data Outcome (U : Type 0) : Type 0 where
  thrown : Exception → Outcome U
  returned : U → Outcome U
  refused : String → Outcome U

-- `AuthGuard` of @nestjs/passport with the strategy of passport-jwt
pub record Passport (S : Type 0) : Type 1 where
  -- `ExtractJwt.fromAuthHeaderAsBearerToken`
  pub bearer_token : Option String → Option String
  -- the answer of the JWT library for a token that was found, and `validate`
  pub authenticate :
      {U : Type 0} → Option Verified → (JwtPayload → Action S U) → Action S (Outcome U)

pub record PassportLaws {S : Type 0} (c : Passport S) : Type 1 where
  pub authenticate-ok :
      {U : Type 0} (f : JwtPayload → Action S U) (d : JwtPayload) (u : U) (s s' : S)
      → f d s ≡ (ok u, s')
      → c.authenticate (some (valid d)) f s ≡ (ok (returned u), s')
  pub authenticate-err :
      {U : Type 0} (f : JwtPayload → Action S U) (d : JwtPayload) (e : Exception) (s s' : S)
      → f d s ≡ (err e, s')
      → c.authenticate (some (valid d)) f s ≡ (ok (thrown e), s')
  -- no token, an expired one, or one with a wrong signature
  pub authenticate-refused :
      {U : Type 0} (v : Option Verified) (f : JwtPayload → Action S U) (s : S)
      → ((d : JwtPayload) → v ≢ some (valid d))
      → (m : String) × (c.authenticate v f s ≡ (ok (refused m), s))

-- `err.message`
abbrev pub message_of : Exception → String
message_of (http code message) = message
message_of query_failed = "query failed"
message_of type_error = "type error"

abbrev pub verified : (String → Verified) → Option String → Option Verified
verified f none = none
verified f (some t) = some (f t)

module _ (p : Packages) (r : Redis) where
  -- `AccessTokenStrategy.validate`
  unfoldable pub validate_access : JwtPayload → Action (Server p r) User
  validate_access payload = do
    raise_if (not (type_eq payload.type access)) (unauthorized "Invalid token type")
    user ←
        gets (λ s. find_one_by_filters p (λ (u : User). u.id == payload.sub) unsorted s.world.users)
    or_raise user (unauthorized "User not found")

  abbrev pub cookie : Option String → Action (Server p r) String
  cookie none = raise (unauthorized "Refresh token not found")
  cookie (some t) = if t == "" then raise (unauthorized "Refresh token not found") else pure t

  -- `RefreshTokenStrategy.validate`
  unfoldable pub validate_refresh : Request → JwtPayload → Action (Server p r) RefreshTokenData
  validate_refresh request payload = do
    raise_if (not (type_eq payload.type refresh)) (unauthorized "Invalid token type")
    refresh_token ← cookie request.refresh_token
    pure (record { payload = payload; refresh_token = refresh_token })

  module _ (c : Passport (Server p r)) (jwt : Jwt) (config : JwtConfig) where
    -- `AccessTokenGuard.handleRequest`; the log is left out
    unfoldable pub handle_access_request : Outcome User → Action (Server p r) User
    handle_access_request (thrown e) = raise (unauthorized (message_of e))
    handle_access_request (returned user) = pure user
    handle_access_request (refused m) = raise (unauthorized "invalid token")

    -- `RefreshTokenGuard.handleRequest`
    unfoldable pub handle_refresh_request :
        Outcome RefreshTokenData → Action (Server p r) RefreshTokenData
    handle_refresh_request (refused m) = raise (unauthorized m)
    handle_refresh_request (thrown e) = raise (unauthorized "invalid token")
    handle_refresh_request (returned data') = pure data'

    -- what `super.canActivate` does with the access token
    unfoldable pub access_user : Request → Action (Server p r) User
    access_user request = do
      now ← gets (λ s. s.session.now)
      outcome ←
          c.authenticate
            (verified (jwt.verify config.access_secret now) (c.bearer_token request.authorization))
            (validate_access)
      handle_access_request outcome

    unfoldable pub refresh_user : Request → Action (Server p r) RefreshTokenData
    refresh_user request = do
      now ← gets (λ s. s.session.now)
      outcome ←
          c.authenticate (verified (jwt.verify config.refresh_secret now) request.refresh_token)
            (validate_refresh request)
      handle_refresh_request outcome
