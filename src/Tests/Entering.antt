-- ===== src/Tests/Entering.antt =====
-- Requests with and without a valid access token, on the data in memory.
use mathlib.Core.Bool.{false≢true}
use coupang_eats_backend_v.Base.{
  ◌+◌, String, ◌≡◌, ◌≢◌, refl, true, none, some, [], ◌∷◌, ltb, eq_iff,
}
use coupang_eats_backend_v.Http.{Result, ok, err, unauthorized}
use coupang_eats_backend_v.Action.{pure}
use coupang_eats_backend_v.Entity.{client, user_entity}
use coupang_eats_backend_v.Packages.Memory.{
  memory, memory_laws, memory_row, memory_find_one, rows_at,
}
use coupang_eats_backend_v.Repository.{find_one_by_filters}
use coupang_eats_backend_v.Auth.Redis.{Jwt, access, valid, flag}
use coupang_eats_backend_v.Auth.Tokens.{
  JwtConfig, is_token_blacklisted, cache_get, cache_set, cache_del, revoke_all_user_tokens,
  revoke_refresh_token, parse_expiration_to_seconds,
}
use coupang_eats_backend_v.Auth.Memory.{
  memory_redis, memory_redis_laws, memory_json, memory_json-IsKept, memory_bcrypt,
}
use coupang_eats_backend_v.Auth.Server.{Server, later}
use coupang_eats_backend_v.Auth.Service.{sign_out}
use coupang_eats_backend_v.Access.Passport.{
  Request, validate_access, access_user, handle_access_request,
}
use coupang_eats_backend_v.Access.Guards.{
  Route, blacklist_can_activate, roles_can_activate, activate, activate_all, enter, handle,
}
use coupang_eats_backend_v.Access.Memory.{memory_passport, memory_passport_laws}
use coupang_eats_backend_v.Access.Restricted.{Allowed, restricted, handle-Allowed}
use coupang_eats_backend_v.Access.SignedOut.{sign_out-handle}
use coupang_eats_backend_v.Tests.Data.{start}

abbrev pub State : Type 0
State = Server memory memory_redis

-- a token that names its user
abbrev pub jwt : Jwt
jwt = record {
  sign = λ secret payload expiration n. payload.sub;
  verify = λ secret n token. valid (record { sub = token; type = access });
  decode = λ token. record { sub = token; type = access };
}

abbrev pub config : JwtConfig
config = record {
  access_secret = "a";
  refresh_secret = "r";
  access_expiration = record { value = 15; unit = "m" };
  refresh_expiration = record { value = 7; unit = "d" };
}

abbrev pub open_server : State
open_server = record {
  world = start;
  session = record { cache = λ i. none; now = 100 };
  mails = [];
  salts = 0;
}

abbrev pub from_alice : Request
from_alice = record { authorization = some "Bearer alice"; refresh_token = none }

abbrev clients : Route
clients = restricted (client ∷ [])

abbrev calling : Result String × State
calling =
    handle memory memory_redis (memory_passport State) memory_json jwt config clients from_alice
      (λ u. pure u.email) open_server

called : calling ≡ (ok "alice", open_server)
unfolding handle enter activate_all activate blacklist_can_activate roles_can_activate access_user
    validate_access handle_access_request is_token_blacklisted cache_get find_one_by_filters
    memory_row memory_find_one rows_at
called = refl

handle-Allowed_example :
    (a : Allowed memory
      (memory_laws user_entity)
      memory_redis
      (memory_passport State)
      (memory_passport_laws State)
      memory_json
      jwt
      config
      (client ∷ [])
      "alice"
      open_server)
    × (pure a.user.email open_server ≡ (ok "alice", open_server))
handle-Allowed_example =
    handle-Allowed memory (memory_laws user_entity) memory_redis (memory_passport State)
      (memory_passport_laws State) memory_json jwt config (client ∷ []) "alice" from_alice
      (λ u. pure u.email) open_server open_server "alice" refl refl called

abbrev leaving : Result (Unit {0}) × State
leaving =
    sign_out memory memory_redis memory_bcrypt memory_json jwt config "alice" "alice" open_server

left : leaving ≡ (ok tt, leaving.1)
unfolding sign_out revoke_all_user_tokens revoke_refresh_token cache_del cache_set
left = refl

minutes : ltb 0 (parse_expiration_to_seconds config.access_expiration) ≡ true
unfolding parse_expiration_to_seconds
minutes = refl

soon : ltb 200 (100 + parse_expiration_to_seconds config.access_expiration) ≡ true
unfolding parse_expiration_to_seconds
soon = refl

named : ◌≢◌ {A = String} "alice" ""
named same = false≢true ((eq_iff "alice" "").1 same)

sign_out-handle_example :
    handle memory memory_redis
      (memory_passport State)
      memory_json
      jwt
      config
      clients
      from_alice
      (λ u. pure u.email)
      (later memory memory_redis 200 leaving.1)
    ≡ (err (unauthorized "Token has been revoked"), later memory memory_redis 200 leaving.1)
sign_out-handle_example =
    sign_out-handle memory memory_redis memory_redis_laws (memory_passport State) memory_bcrypt
      memory_json jwt config clients from_alice (λ u. pure u.email) "alice" "alice" 200 open_server
      leaving.1 minutes (memory_json-IsKept (flag true)) named left soon refl refl
