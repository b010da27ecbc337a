-- ===== src/Tests/Posting.antt =====
-- A request that places an order, and one with a token that was just issued.
use mathlib.Core.Bool.{false≢true}
use coupang_eats_backend_v.Base.{
  ◌+ℤ◌, String, ◌≡◌, ◌≢◌, refl, true, false, none, some, [], ◌∷◌, eq_iff,
}
use coupang_eats_backend_v.Http.{Result, ok}
use coupang_eats_backend_v.Action.{pure}
use coupang_eats_backend_v.Entity.{
  User, Order, client, user_entity, order_entity, order_item_entity, dish_entity, restaurant_entity,
}
use coupang_eats_backend_v.Packages.Memory.{
  memory, memory_laws, memory_row, memory_find, memory_find_one, memory_save, rows_at,
}
use coupang_eats_backend_v.Repository.{
  find_by_id_or_throw, find_many_with_omit_not_joined_props, find_one_by_filters,
}
use coupang_eats_backend_v.World.{save}
use coupang_eats_backend_v.World.Memory.{transactions, transactions_laws}
use coupang_eats_backend_v.Orders.Dto.{
  order_to_entity, add_options, process_order_item, process_items, item_to_entity,
}
use coupang_eats_backend_v.Orders.Service.{
  create_order, create_order_body, save_order, insert_items,
}
use coupang_eats_backend_v.Orders.Placing.{Placed}
use coupang_eats_backend_v.Auth.Tokens.{
  TokenPair, get_refresh_token_key, get_blacklist_key, parse_expiration_to_seconds,
  is_token_blacklisted, cache_get, cache_set, generate_token_pair, generate_access_token,
  generate_refresh_token, store_refresh_token,
}
use coupang_eats_backend_v.Auth.Hash.{compare}
use coupang_eats_backend_v.Auth.Memory.{
  memory_redis, memory_json, memory_bcrypt, typed_jwt, typed_jwt_laws,
}
use coupang_eats_backend_v.Auth.Server.{later}
use coupang_eats_backend_v.Auth.Service.{SignInBody, sign_in, validate_user}
use coupang_eats_backend_v.Auth.SigningIn.{Matches}
use coupang_eats_backend_v.Access.Passport.{
  Request, validate_access, access_user, handle_access_request,
}
use coupang_eats_backend_v.Access.Guards.{
  blacklist_can_activate, roles_can_activate, activate, activate_all, enter, handle,
}
use coupang_eats_backend_v.Access.Memory.{memory_passport, memory_passport_laws}
use coupang_eats_backend_v.Access.Restricted.{Allowed}
use coupang_eats_backend_v.Access.Welcome.{sign_in-handle}
use coupang_eats_backend_v.Controllers.Routes.{signed_in_route}
use coupang_eats_backend_v.Controllers.Market.{post_order}
use coupang_eats_backend_v.Controllers.Placing.{post_order-Placed}
use coupang_eats_backend_v.Tests.Ordering.{lunch, ordered_order}
use coupang_eats_backend_v.Tests.Entering.{State, jwt, config, open_server, from_alice}

abbrev posting : Result Order × State
posting =
    post_order memory (transactions memory) memory_redis (memory_passport State) memory_json jwt
      config (λ i. true) from_alice lunch open_server

posted : posting ≡ (ok ordered_order, posting.1)
unfolding post_order handle enter activate_all activate blacklist_can_activate roles_can_activate
    access_user validate_access handle_access_request is_token_blacklisted cache_get
    find_one_by_filters create_order create_order_body order_to_entity add_options
    process_order_item process_items item_to_entity save save_order insert_items memory_row
    memory_find memory_find_one memory_save rows_at find_by_id_or_throw
    find_many_with_omit_not_joined_props ◌+ℤ◌
posted = refl

post_order-Placed_example :
    (a : Allowed memory
      (memory_laws user_entity)
      memory_redis
      (memory_passport State)
      (memory_passport_laws State)
      memory_json
      jwt
      config
      (client ∷ [])
      "alice"
      open_server)
    × Placed memory a.user lunch open_server.world ordered_order posting.1.world
    × (posting.1.session ≡ open_server.session)
post_order-Placed_example =
    post_order-Placed memory (transactions memory) (transactions_laws memory)
      (memory_laws user_entity) (memory_laws order_entity) (memory_laws order_item_entity)
      (memory_laws dish_entity) (memory_laws restaurant_entity) memory_redis (memory_passport State)
      (memory_passport_laws State) memory_json jwt config (λ i. true) "alice" from_alice lunch
      open_server posting.1 ordered_order refl refl posted

abbrev credentials : SignInBody
credentials = record { email = "alice"; password = "secret" }

abbrev signing_in : Result TokenPair × State
signing_in =
    sign_in memory memory_redis memory_bcrypt memory_json typed_jwt config credentials open_server

abbrev pair : TokenPair
pair = record { access_token = "Aalice"; refresh_token = "Ralice" }

signed_in : signing_in ≡ (ok pair, signing_in.1)
unfolding sign_in validate_user compare generate_token_pair generate_access_token
    generate_refresh_token store_refresh_token cache_set find_one_by_filters memory_row
    memory_find_one rows_at
signed_in = refl

abbrev with_token : Request
with_token = record { authorization = some "Bearer Aalice"; refresh_token = none }

not_revoked :
    is_token_blacklisted memory_redis memory_json typed_jwt config "Aalice"
      (later memory memory_redis 200 signing_in.1).session
    ≡ (ok false, (later memory memory_redis 200 signing_in.1).session)
unfolding is_token_blacklisted cache_get sign_in validate_user compare generate_token_pair
    generate_access_token generate_refresh_token store_refresh_token cache_set find_one_by_filters
    memory_row memory_find_one rows_at get_refresh_token_key get_blacklist_key
    parse_expiration_to_seconds
not_revoked = refl

set : ◌≢◌ {A = String} "Aalice" ""
set same = false≢true ((eq_iff "Aalice" "").1 same)

sign_in-handle_example :
    (user : User) × Matches memory
      (memory_laws user_entity)
      memory_redis
      memory_bcrypt
      memory_json
      typed_jwt
      config
      credentials
      open_server
      user
    × (handle memory memory_redis
          (memory_passport State)
          memory_json
          typed_jwt
          config
          signed_in_route
          with_token
          (λ u. pure u.name)
          (later memory memory_redis 200 signing_in.1)
        ≡ pure user.name (later memory memory_redis 200 signing_in.1))
sign_in-handle_example =
    sign_in-handle memory (memory_laws user_entity) memory_redis (memory_passport State)
      (memory_passport_laws State) memory_bcrypt memory_json typed_jwt typed_jwt_laws config
      credentials open_server signing_in.1 pair 200 with_token (λ u. pure u.name) signed_in refl
      refl refl set not_revoked
