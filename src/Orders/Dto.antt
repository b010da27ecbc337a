-- ===== src/Orders/Dto.antt =====
-- The request objects of src/modules/order/dto, and the pricing of one item
-- (`processOrderItem` of src/modules/order/order.service.ts).
use coupang_eats_backend_v.Base.{
  ℤ, String, ◌+ℤ◌, Option, none, some, List, [], ◌∷◌, ◌++◌, ◌==◌, ◌<>◌, find,
}
use coupang_eats_backend_v.Http.{Result, ok, err, not_found}
use coupang_eats_backend_v.Entity.{
  new_entity, User, Restaurant, Dish, DishOption, Order, OrderItem, pending, order_item_entity,
}
use coupang_eats_backend_v.Packages.{Packages}

pub record CreateOrderItemDto : Type 0 where
  pub dish_id : String
  pub options : Option (List DishOption)

pub record CreateOrderDto : Type 0 where
  pub restaurant_id : String
  pub items : List CreateOrderItemDto

-- `CreateOrderItemDto.toEntity`: the name and the options are copied at the time of the order
unfoldable pub item_to_entity : CreateOrderItemDto → Dish → OrderItem
item_to_entity dto dish = record {
  base = new_entity;
  dish = some dish;
  dish_name = some dish.name;
  options = dto.options;
  order_id = none;
}

-- `CreateOrderDto.toEntity`
unfoldable pub order_to_entity : User → Restaurant → ℤ → List OrderItem → Order
order_to_entity customer restaurant total items = record {
  base = new_entity;
  total = some total;
  total_count = none;
  status = pending;
  customer_id = none;
  customer = some customer;
  driver_id = none;
  driver = none;
  restaurant_id = some restaurant.id;
  restaurant = some restaurant;
  items = items;
}

-- `list?.…` over a list that may be null
abbrev pub or_empty : {A : Type 0} → Option (List A) → List A
or_empty none = []
or_empty (some xs) = xs

-- `dish.options?.find((o) => o.name === userOption.name)`
abbrev pub valid_option : Dish → DishOption → Option DishOption
valid_option dish user_option = find (λ o. o.name == user_option.name) (or_empty dish.options)

abbrev pub add_extra : ℤ → Option DishOption → ℤ
add_extra price none = price
add_extra price (some o) = price +ℤ o.extra

-- the loop over the options that the customer chose
unfoldable pub add_options : Dish → ℤ → List DishOption → ℤ
add_options dish price [] = price
add_options dish price (u ∷ us) = add_options dish (add_extra price (valid_option dish u)) us

unfoldable pub process_order_item : CreateOrderItemDto → Dish → OrderItem × ℤ
unfolding add_options item_to_entity
process_order_item dto dish =
    (item_to_entity dto dish, add_options dish dish.price (or_empty dto.options))

-- the loop of `createOrder` over the items, with `orderItems` and `finalTotal`
module _ (p : Packages) where
  abbrev pub dish_of : List Dish → CreateOrderItemDto → Option Dish
  dish_of dishes dto = find (λ d. d.id == dto.dish_id) dishes

  unfoldable pub process_items :
      List Dish → List CreateOrderItemDto → List OrderItem → ℤ → Result (List OrderItem × ℤ)
  process_items dishes [] order_items final_total = ok (order_items, final_total)
  process_items dishes (dto ∷ dtos) order_items final_total = elim (dish_of dishes dto) [
    | none ↦ err (not_found ("Dish not found: " <> dto.dish_id))
    | some dish ↦
        let (order_item, item_price) = process_order_item dto dish in
        process_items dishes dtos (order_items ++ (p.create order_item ∷ []))
          (final_total +ℤ item_price)
  ]
