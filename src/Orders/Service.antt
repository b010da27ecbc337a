-- ===== src/Orders/Service.antt =====
-- `createOrder` and `editOrderStatus` of src/modules/order/order.service.ts, and
-- src/modules/order/order-cron.service.ts.
use coupang_eats_backend_v.Base.{
  ℕ, suc, ◌+◌, pos, String, ◌+ℤ◌, Bool, false, not, ◌&&◌, Option, none, some, List, [], ◌∷◌, ◌==◌,
  ◌<>◌, map, ltb, length, includes, is_text, if◌then◌else◌,
}
use coupang_eats_backend_v.Http.{Result, ok, err, query_failed, forbidden, type_error}
use coupang_eats_backend_v.Action.{Action, ◌>>=◌, ◌>>◌, pure, gets, reads, from_result, raise}
use coupang_eats_backend_v.Entity.{
  User, Restaurant, Order, OrderItem, OrderStatus, pending, cooking, cooked, picked_up, delivered,
  status_eq, Role, client, owner, delivery, order_entity, restaurant_entity, dish_entity,
  user_entity,
}
use coupang_eats_backend_v.Packages.{Packages, unsorted}
use coupang_eats_backend_v.Repository.{
  find_by_id_or_throw, find_many_with_omit_not_joined_props,
  find_one_with_omit_not_joined_props_or_throw, no_relations,
}
use coupang_eats_backend_v.World.{
  World, order_table, save, emit, run_on_transaction_commit, Transactional, to_room, to_all,
  new_pending_order, order_update, new_cooked_order, drawn,
}
use coupang_eats_backend_v.Orders.Dto.{CreateOrderDto, order_to_entity, process_items}

-- the `@BeforeInsert` hook of the items that a new order brings, and their foreign key
abbrev pub insert_item : String → String → OrderItem → OrderItem
insert_item order_id v item =
    if item.id == ""
    then record item { base = record item.base { id = v }; order_id = some order_id }
    else item

unfoldable pub insert_items : (ℕ → String) → ℕ → String → List OrderItem → List OrderItem
insert_items v4 n order_id [] = []
insert_items v4 n order_id (i ∷ is) =
    insert_item order_id (v4 n) i ∷ insert_items v4 (suc n) order_id is

module _ (p : Packages) where
  -- `orderRepository.save`: `cascade` saves the items with their order
  abbrev pub with_items : World p → Order → Order
  with_items w o =
      let order_id = if o.id == "" then p.v4 w.fresh else o.id in
      record o { items = insert_items p.v4 (drawn p (order_table p) o w) order_id o.items }

  unfoldable pub save_order : Order → Action (World p) Order
  unfolding insert_items
  save_order o w =
      let (r, w') = save p (order_table p) (with_items w o) w in
      (r, record w' { fresh = w'.fresh + length o.items })

  -- the body of `createOrder`
  unfoldable pub create_order_body : User → CreateOrderDto → Action (World p) Order
  create_order_body customer dto = do
    restaurant ← reads (λ w. find_by_id_or_throw p dto.restaurant_id w.restaurants)
    let dish_ids = map (λ i. i.dish_id) dto.items
    dishes ← gets (λ w.
        find_many_with_omit_not_joined_props p (λ d. includes dish_ids d.id) no_relations unsorted
          false w.dishes)
    (order_items, items_total) ← from_result (process_items p dishes dto.items [] (pos 0))
    let final_total = items_total +ℤ restaurant.delivery_fee
    order ← save_order (order_to_entity customer restaurant final_total order_items)
    run_on_transaction_commit p (
        to_room ("Owner:" <> restaurant.owner_id)
          (new_pending_order order.id restaurant.id order.total))
    pure order

  module _ (t : Transactional p) where
    -- `createOrder` carries the decorator twice
    unfoldable pub create_order : User → CreateOrderDto → Action (World p) Order
    create_order customer dto = t.run (t.run (create_order_body customer dto))

  -- the relations that `editOrderStatus` joins
  abbrev pub with_restaurant_and_driver : World p → Order → Order
  with_restaurant_and_driver w o = record o {
    restaurant = p.join_one o.restaurant_id w.restaurants;
    driver = p.join_one o.driver_id w.users;
  }

-- `order.driver?.id`
abbrev pub driver_id_of : Order → Option String
driver_id_of o = elim o.driver [ none ↦ none | some d ↦ some d.id ]

unfoldable pub edit_as_owner : User → OrderStatus → Order → Option Restaurant → Result Order
edit_as_owner user status order none = err type_error
edit_as_owner user status order (some r) =
    if not (r.owner_id == user.id)
    then err (forbidden "Not your restaurant")
    else if not (status_eq status cooking) && not (status_eq status cooked)
    then err (forbidden "Owner can only update to Cooking or Cooked")
    else ok order

unfoldable pub edit_as_driver : User → OrderStatus → Order → Result Order
edit_as_driver user picked_up order = ok (record order { driver = some user })
edit_as_driver user delivered order =
    if not (is_text (driver_id_of order) user.id)
    then err (forbidden "Not your delivery")
    else ok order
edit_as_driver user _ order = err (forbidden "Driver can only update to PickedUp or Delivered")

unfoldable pub edit_as : Role → User → OrderStatus → Order → Result Order
unfolding edit_as_owner edit_as_driver
edit_as client user status order = err (forbidden "Client cannot change order status")
edit_as owner user status order = edit_as_owner user status order order.restaurant
edit_as delivery user status order = edit_as_driver user status order

-- the checks of `editOrderStatus`, and the assignment of the driver among them
unfoldable pub check_edit : User → OrderStatus → Order → Result Order
unfolding edit_as
check_edit user status order = edit_as user.role user status order

module _ (p : Packages) where
  -- the last step: the drivers hear of a cooked order
  abbrev pub announce_cooked : OrderStatus → Order → Option Restaurant → Action (World p) (Unit {0})
  announce_cooked cooked order none = raise type_error
  announce_cooked cooked order (some r) =
      emit p (to_all (new_cooked_order order.id r.name r.address))
  announce_cooked _ order r = pure tt

  unfoldable pub edit_order_status_body : User → String → OrderStatus → Action (World p) Order
  edit_order_status_body user order_id status = do
    found ← reads (λ w.
        find_one_with_omit_not_joined_props_or_throw p (λ o. o.id == order_id)
          (with_restaurant_and_driver p w) unsorted false w.orders)
    checked ← from_result (check_edit user status found)
    let order = record checked { status = status }
    saved_order ← save_order p order
    emit p (to_room ("order:" <> order.id) (order_update order.id status (driver_id_of order)))
    announce_cooked status order order.restaurant
    pure saved_order

  module _ (t : Transactional p) where
    unfoldable pub edit_order_status : User → String → OrderStatus → Action (World p) Order
    edit_order_status user order_id status = t.run (edit_order_status_body user order_id status)

  -- `yesterday`: the day before `now`, in milliseconds
  abbrev pub day : ℕ
  day = 86400000

  abbrev pub is_stale : ℕ → Order → Bool
  is_stale now o = status_eq o.status pending && ltb (o.created_at + day) now

  -- `OrderCronService.handleCron`; the result is the number of deleted rows that it logs
  unfoldable pub handle_cron : ℕ → Action (World p) ℕ
  handle_cron now w = elim (p.delete (is_stale now) w.orders) [
    | none ↦ (err query_failed, w)
    | some (affected, orders') ↦ (ok affected, record w { db = (order_table p).put orders' w.db })
  ]
