-- ===== src/Access/Guards.antt =====
-- src/core/guard: which requests a guard lets through, and the guards of a route in their order
-- (src/core/core.module.ts, then `@UseGuards`).
use Prim.Native.String.{slice, len}
use text.Mathlib.Text.{find?}
use coupang_eats_backend_v.Base.{
  ℕ, ◌+◌, String, Bool, true, false, not, Option, none, some, List, [], ◌∷◌, ◌++◌, ◌<>◌, ◌==◌,
  if◌then◌else◌, ◌||◌,
}
use coupang_eats_backend_v.Http.{unauthorized, forbidden, type_error}
use coupang_eats_backend_v.Action.{Action, ◌>>=◌, ◌>>◌, pure, raise, raise_if, or_raise}
use coupang_eats_backend_v.Entity.{User, Role, role_eq}
use coupang_eats_backend_v.Packages.{Packages}
use coupang_eats_backend_v.Auth.Redis.{Redis, Json, Jwt, Value}
use coupang_eats_backend_v.Auth.Tokens.{JwtConfig, is_token_blacklisted}
use coupang_eats_backend_v.Auth.Server.{Server, in_session}
use coupang_eats_backend_v.Access.Passport.{
  Request, RefreshTokenData, Passport, access_user, refresh_user,
}

pub data Guard : Type 0 where
  jwt_blacklist access_token refresh_token roles : Guard

-- the metadata of a handler: `@Public`, `@Roles`, and the guards of `@UseGuards`
pub record Route : Type 0 where
  pub is_public : Bool
  pub required_roles : Option (List Role)
  pub guards : List Guard

-- `request.user`
pub data Principal : Type 0 where
  account : User → Principal
  token_data : RefreshTokenData → Principal

-- `t.replace(s, '')`: the first occurrence
abbrev pub cut_at : String → String → Option ℕ → String
cut_at s t none = t
cut_at s t (some i) = slice t 0 i <> slice t (i + len s) (len t)

abbrev pub without : String → String → String
without s t = cut_at s t (find? t s)

-- `authHeader?.replace('Bearer ', '')`
abbrev pub header_token : Option String → Option String
header_token none = none
header_token (some h) = some (without "Bearer " h)

abbrev pub includes_role : List Role → Role → Bool
includes_role [] role = false
includes_role (x ∷ xs) role = role_eq x role || includes_role xs role

abbrev pub role_of : Option Principal → Option Role
role_of (some (account u)) = some u.role
role_of _ = none

-- `RolesGuard.canActivate`
unfoldable pub roles_can_activate : Route → Option Principal → Bool
roles_can_activate route user = elim route.required_roles [
  | none ↦ true
  | some rs ↦ elim (role_of user) [ none ↦ false | some role ↦ includes_role rs role ]
]

module _ (p : Packages) (r : Redis) (c : Passport (Server p r)) (json : Json Value) (jwt : Jwt)
    (config : JwtConfig) where
  abbrev pub check_blacklist : Option String → Action (Server p r) (Unit {0})
  check_blacklist none = raise (unauthorized "Token not found")
  check_blacklist (some token) = do
    raise_if (token == "") (unauthorized "Token not found")
    is_blacklisted ← in_session p r (is_token_blacklisted r json jwt config token)
    raise_if is_blacklisted (unauthorized "Token has been revoked")

  -- `JwtBlacklistGuard.canActivate`
  unfoldable pub blacklist_can_activate : Route → Request → Action (Server p r) (Unit {0})
  blacklist_can_activate route request =
      if route.is_public then pure tt else check_blacklist (header_token request.authorization)

  -- a guard, which may set `request.user`
  unfoldable pub activate :
      Guard → Route → Request → Option Principal → Action (Server p r) (Option Principal)
  activate jwt_blacklist route request user = do blacklist_can_activate route request; pure user
  activate access_token route request user =
      if route.is_public
      then pure user
      else (access_user p r c jwt config request >>= λ u. pure (some (account u)))
  activate refresh_token route request user =
      refresh_user p r c jwt config request >>= λ d. pure (some (token_data d))
  activate roles route request user = do
    raise_if (not (roles_can_activate route user)) (forbidden "Forbidden resource")
    pure user

  unfoldable pub activate_all :
      List Guard → Route → Request → Option Principal → Action (Server p r) (Option Principal)
  activate_all [] route request user = pure user
  activate_all (g ∷ gs) route request user =
      activate g route request user >>= λ u. activate_all gs route request u

  abbrev pub global_guards : List Guard
  global_guards = jwt_blacklist ∷ access_token ∷ []

  -- what stands in front of a handler
  unfoldable pub enter : Route → Request → Action (Server p r) (Option Principal)
  enter route request = activate_all (global_guards ++ route.guards) route request none

  abbrev pub as_user : Option Principal → Option User
  as_user (some (account u)) = some u
  as_user _ = none

  -- a handler with `@CurrentUser() user: User`, which reads its properties
  unfoldable pub handle :
      {A : Type 0} → Route → Request → (User → Action (Server p r) A) → Action (Server p r) A
  handle route request handler = do
    principal ← enter route request
    user ← or_raise (as_user principal) type_error
    handler user
