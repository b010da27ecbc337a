-- ===== src/Controllers/Market.antt =====
-- The controllers of orders, payments, reviews, dishes, restaurants and categories
-- (src/modules/*/*.controller.ts).
use coupang_eats_backend_v.Base.{String, Bool, Option, List, [], ◌∷◌}
use coupang_eats_backend_v.Action.{Action}
use coupang_eats_backend_v.Entity.{
  client, owner, Order, OrderStatus, Payment, Review, Dish, Restaurant, Category,
}
use coupang_eats_backend_v.Packages.{Packages}
use coupang_eats_backend_v.Pagination.{PaginationRequest, PaginationResponse}
use coupang_eats_backend_v.World.{Transactional}
use coupang_eats_backend_v.Orders.Dto.{CreateOrderDto}
use coupang_eats_backend_v.Orders.Service.{create_order, edit_order_status}
use coupang_eats_backend_v.Orders.Queries.{get_orders, get_order_by_id}
use coupang_eats_backend_v.Payments.Service.{CreatePaymentDto, process_payment}
use coupang_eats_backend_v.Reviews.Service.{
  CreateReviewDto, UpdateReviewDto, create_review, update_review, delete_review,
}
use coupang_eats_backend_v.Dishes.Service.{
  CreateDishDto, UpdateDishDto, create_dish, update_dish, delete_dish,
}
use coupang_eats_backend_v.Restaurants.Service.{
  CreateRestaurantDto, UpdateRestaurantDto, create_restaurant, update_restaurant,
  get_my_restaurants, get_restaurants, get_restaurant_by_id,
}
use coupang_eats_backend_v.Categories.Service.{
  CreateCategoryDto, Texts, create_category, get_all_categories,
}
use coupang_eats_backend_v.Auth.Redis.{Redis, Json, Jwt, Value}
use coupang_eats_backend_v.Auth.Tokens.{JwtConfig}
use coupang_eats_backend_v.Auth.Server.{Server, in_world}
use coupang_eats_backend_v.Access.Passport.{Request, Passport}
use coupang_eats_backend_v.Access.Guards.{handle}
use coupang_eats_backend_v.Access.Restricted.{restricted}
use coupang_eats_backend_v.Controllers.Routes.{public_route, signed_in_route, with_uuid, serve}

module _ (p : Packages) (t : Transactional p) (r : Redis) (c : Passport (Server p r))
    (json : Json Value) (jwt : Jwt) (config : JwtConfig) (is_uuid : String → Bool)
    (request : Request) where
  -- POST /orders
  unfoldable pub post_order : CreateOrderDto → Action (Server p r) Order
  post_order dto =
      handle p r c json jwt config (restricted (client ∷ [])) request
        (λ user. in_world p r (create_order p t user dto))

  -- GET /orders
  unfoldable pub get_orders_route : Action (Server p r) (List Order)
  get_orders_route =
      handle p r c json jwt config signed_in_route request
        (λ user. in_world p r (get_orders p user))

  -- GET /orders/:id
  unfoldable pub get_order_route : String → Action (Server p r) Order
  get_order_route id =
      handle p r c json jwt config signed_in_route request
        (λ user. with_uuid is_uuid id (λ i. in_world p r (get_order_by_id p user i)))

  -- PATCH /orders/:id
  unfoldable pub patch_order : String → OrderStatus → Action (Server p r) Order
  patch_order id status =
      handle p r c json jwt config signed_in_route request
        (λ user. with_uuid is_uuid id (λ i. in_world p r (edit_order_status p t user i status)))

  -- POST /payments
  unfoldable pub post_payment : CreatePaymentDto → Action (Server p r) Payment
  post_payment dto =
      handle p r c json jwt config (restricted (client ∷ [])) request
        (λ user. in_world p r (process_payment p user dto))

  -- POST /reviews
  unfoldable pub post_review : CreateReviewDto → Action (Server p r) Review
  post_review dto =
      handle p r c json jwt config (restricted (client ∷ [])) request
        (λ user. in_world p r (create_review p user dto))

  -- PATCH /reviews/:id
  unfoldable pub patch_review : String → UpdateReviewDto → Action (Server p r) Review
  patch_review id dto =
      handle p r c json jwt config (restricted (client ∷ [])) request
        (λ user. with_uuid is_uuid id (λ i. in_world p r (update_review p user i dto)))

  -- DELETE /reviews/:id
  unfoldable pub remove_review : String → Action (Server p r) (Unit {0})
  remove_review id =
      handle p r c json jwt config (restricted (client ∷ [])) request
        (λ user. with_uuid is_uuid id (λ i. in_world p r (delete_review p user i)))

  -- POST /restaurants/:restaurantId/dishes
  unfoldable pub post_dish : String → CreateDishDto → Action (Server p r) Dish
  post_dish restaurant_id dto =
      handle p r c json jwt config (restricted (owner ∷ [])) request
        (λ user. with_uuid is_uuid restaurant_id (λ i. in_world p r (create_dish p user i dto)))

  -- PATCH /restaurants/:restaurantId/dishes/:id
  unfoldable pub patch_dish : String → String → UpdateDishDto → Action (Server p r) Dish
  patch_dish restaurant_id id dto =
      handle p r c json jwt config (restricted (owner ∷ [])) request (λ user.
        with_uuid is_uuid restaurant_id
          (λ i. with_uuid is_uuid id (λ j. in_world p r (update_dish p user i j dto))))

  -- DELETE /dishes/:id
  unfoldable pub remove_dish : String → Action (Server p r) (Unit {0})
  remove_dish id =
      handle p r c json jwt config (restricted (owner ∷ [])) request
        (λ user. with_uuid is_uuid id (λ i. in_world p r (delete_dish p user i)))

  -- POST /restaurants
  unfoldable pub post_restaurant : CreateRestaurantDto → Action (Server p r) Restaurant
  post_restaurant dto =
      handle p r c json jwt config (restricted (owner ∷ [])) request
        (λ user. in_world p r (create_restaurant p t user dto))

  -- PATCH /restaurants/:id
  unfoldable pub patch_restaurant : String → UpdateRestaurantDto → Action (Server p r) Restaurant
  patch_restaurant id dto =
      handle p r c json jwt config (restricted (owner ∷ [])) request
        (λ user. with_uuid is_uuid id (λ i. in_world p r (update_restaurant p t user i dto)))

  -- GET /restaurants/my
  unfoldable pub my_restaurants : Action (Server p r) (List Restaurant)
  my_restaurants =
      handle p r c json jwt config (restricted (owner ∷ [])) request
        (λ user. in_world p r (get_my_restaurants p user))

  -- GET /restaurants/:id
  unfoldable pub get_restaurant_route : String → Action (Server p r) (Restaurant × List Dish)
  get_restaurant_route id =
      serve p r c json jwt config public_route request
        (with_uuid is_uuid id (λ i. in_world p r (get_restaurant_by_id p i)))

  -- GET /restaurants
  unfoldable pub get_restaurants_route :
      PaginationRequest → Option String → Action (Server p r) (PaginationResponse Restaurant)
  get_restaurants_route pagination category_id =
      serve p r c json jwt config public_route request
        (in_world p r (get_restaurants p pagination category_id))

  module _ (texts : Texts) where
    -- POST /categories
    unfoldable pub post_category : CreateCategoryDto → Action (Server p r) Category
    post_category dto =
        serve p r c json jwt config signed_in_route request
          (in_world p r (create_category texts p dto))

    -- GET /categories
    unfoldable pub get_categories_route : Action (Server p r) (List Category)
    get_categories_route =
        serve p r c json jwt config public_route request (in_world p r (get_all_categories texts p))
