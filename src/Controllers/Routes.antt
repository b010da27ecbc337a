-- ===== src/Controllers/Routes.antt =====
-- What the methods of the controllers share: `ParseUUIDPipe` with the test of a UUID as a
-- parameter, the metadata of the routes, and a handler without a user.
use coupang_eats_backend_v.Base.{String, Bool, true, false, not, none, [], ◌∷◌}
use coupang_eats_backend_v.Http.{bad_request}
use coupang_eats_backend_v.Action.{Action, ◌>>◌, raise_if}
use coupang_eats_backend_v.Packages.{Packages}
use coupang_eats_backend_v.Auth.Redis.{Redis, Json, Jwt, Value}
use coupang_eats_backend_v.Auth.Tokens.{JwtConfig}
use coupang_eats_backend_v.Auth.Server.{Server}
use coupang_eats_backend_v.Access.Passport.{Request, Passport}
use coupang_eats_backend_v.Access.Guards.{Route, access_token, refresh_token, enter}

-- `@Public()`
abbrev pub public_route : Route
public_route = record { is_public = true; required_roles = none; guards = [] }

-- `@UseGuards(AccessTokenGuard)`
abbrev pub signed_in_route : Route
signed_in_route = record { is_public = false; required_roles = none; guards = access_token ∷ [] }

-- no decorator: the global guards alone
abbrev pub plain_route : Route
plain_route = record { is_public = false; required_roles = none; guards = [] }

-- `@Public()` with `@UseGuards(RefreshTokenGuard)`
abbrev pub refresh_route : Route
refresh_route = record { is_public = true; required_roles = none; guards = refresh_token ∷ [] }

-- `@Param('id', ParseUUIDPipe)`
abbrev pub with_uuid :
    {S A : Type 0} → (String → Bool) → String → (String → Action S A) → Action S A
with_uuid is_uuid id handler = do
  raise_if (not (is_uuid id)) (bad_request "Validation failed (uuid is expected)")
  handler id

module _ (p : Packages) (r : Redis) (c : Passport (Server p r)) (json : Json Value) (jwt : Jwt)
    (config : JwtConfig) where
  -- a handler that does not ask for the user
  abbrev pub serve : {A : Type 0} → Route → Request → Action (Server p r) A → Action (Server p r) A
  serve route request handler = enter p r c json jwt config route request >> handler
