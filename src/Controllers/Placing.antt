-- ===== src/Controllers/Placing.antt =====
-- POST /orders, from the header of the request to the row of the order.
use coupang_eats_backend_v.Base.{◌≡◌, ap, sym, [], ◌∷◌, String, Bool, some, ◌<>◌}
use coupang_eats_backend_v.Http.{ok}
use coupang_eats_backend_v.Entity.{
  client, Order, user_entity, order_entity, order_item_entity, dish_entity, restaurant_entity,
}
use coupang_eats_backend_v.Packages.{Packages, PackageLaws}
use coupang_eats_backend_v.World.{Transactional, TransactionalLaws}
use coupang_eats_backend_v.Orders.Dto.{CreateOrderDto}
use coupang_eats_backend_v.Orders.Service.{create_order}
use coupang_eats_backend_v.Orders.Placing.{Placed}
use coupang_eats_backend_v.Orders.PlaceOutcome.{create_order-Placed}
use coupang_eats_backend_v.Auth.Redis.{Redis, Json, Jwt, Value}
use coupang_eats_backend_v.Auth.Tokens.{JwtConfig}
use coupang_eats_backend_v.Auth.Server.{Server, in_world}
use coupang_eats_backend_v.Access.Passport.{Request, Passport, PassportLaws}
use coupang_eats_backend_v.Access.Restricted.{Allowed, handle-Allowed}
use coupang_eats_backend_v.Controllers.Market.{post_order}

module _ (p : Packages) (t : Transactional p) (transactions : TransactionalLaws p t)
    (users : PackageLaws p user_entity) (orders : PackageLaws p order_entity)
    (items : PackageLaws p order_item_entity) (dishes : PackageLaws p dish_entity)
    (restaurants : PackageLaws p restaurant_entity) (r : Redis) (c : Passport (Server p r))
    (laws : PassportLaws c) (json : Json Value) (jwt : Jwt) (config : JwtConfig)
    (is_uuid : String → Bool) where
  -- If POST /orders returns, and the header of the request is 'Bearer ' and a token that passport
  -- finds behind it, this token is a valid access token, not revoked, of a live client, and for that
  -- client the order is placed as `createOrder` promises it: pending, at the menu's prices plus the
  -- delivery fee, and told to the owner; Redis has not changed.
  pub post_order-Placed :
      (token : String) (request : Request) (dto : CreateOrderDto) (s s' : Server p r) (o : Order)
      → request.authorization ≡ some ("Bearer " <> token)
      → c.bearer_token (some ("Bearer " <> token)) ≡ some token
      → post_order p t r c json jwt config is_uuid request dto s ≡ (ok o, s')
      → (a : Allowed p users r c laws json jwt config (client ∷ []) token s) × Placed p a.user dto
          s.world o s'.world
        × (s'.session ≡ s.session)
  unfolding post_order
  post_order-Placed token request dto s s' o sent read h =
      let (a, ran) =
        handle-Allowed p users r c laws json jwt config (client ∷ []) token request
          (λ user. in_world p r (create_order p t user dto)) s s' o sent read h in
      (
        a,
        create_order-Placed p t transactions orders items dishes restaurants a.user dto s.world
            s'.world o (λ i. ((ran i).0, (ran i).1.world)),
        ap (λ x. x.1.session) (sym ran),
      )
