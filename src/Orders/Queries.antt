-- ===== src/Orders/Queries.antt =====
-- `getOrders` and `getOrderById` of src/modules/order/order.service.ts.
use coupang_eats_backend_v.Base.{
  String, Bool, false, not, ◌&&◌, ◌||◌, Option, none, some, List, [], ◌∷◌, ◌==◌, map, includes,
  is_text, if◌then◌else◌,
}
use coupang_eats_backend_v.Http.{Result, ok, err, forbidden, type_error}
use coupang_eats_backend_v.Action.{Action, ◌>>=◌, ◌>>◌, pure, gets, reads, from_result}
use coupang_eats_backend_v.Entity.{
  User, Restaurant, Order, cooked, picked_up, status_eq, Role, client, owner, delivery,
  order_entity, restaurant_entity, user_entity,
}
use coupang_eats_backend_v.Packages.{Packages, unsorted, created_at_desc}
use coupang_eats_backend_v.Repository.{
  find_many, find_many_with_omit_not_joined_props, find_one_with_omit_not_joined_props_or_throw,
  options,
}
use coupang_eats_backend_v.World.{World}

-- a related row compared by its key
abbrev pub user_is : Option User → String → Bool
user_is none id = false
user_is (some u) id = u.id == id

abbrev pub restaurant_in : Option Restaurant → List String → Bool
restaurant_in none ids = false
restaurant_in (some r) ids = includes ids r.id

module _ (p : Packages) where
  abbrev pub with_all : World p → Order → Order
  with_all w o = record o {
    restaurant = p.join_one o.restaurant_id w.restaurants;
    customer = p.join_one o.customer_id w.users;
    driver = p.join_one o.driver_id w.users;
  }

  -- what a query only tests and does not return
  abbrev pub without_customer_and_driver : Order → Order
  without_customer_and_driver o = record o { customer = none; driver = none }

  abbrev pub without_driver : Order → Order
  without_driver o = record o { driver = none }

  abbrev pub is_offered_or_mine : User → Order → Bool
  is_offered_or_mine user o =
      status_eq o.status cooked || (status_eq o.status picked_up && user_is o.driver user.id)

  unfoldable pub get_orders_as : Role → User → World p → List Order
  get_orders_as client user w = map without_customer_and_driver (
      find_many_with_omit_not_joined_props p (λ o. user_is o.customer user.id) (with_all w)
        created_at_desc false w.orders)
  get_orders_as owner user w =
      let restaurant_ids =
        map (λ (r : Restaurant). r.id)
          (find_many p (λ r. r.owner_id == user.id) unsorted w.restaurants) in
      elim restaurant_ids [
        | [] ↦ []
        | i ∷ is ↦ map without_driver (
            p.find
              (options p (λ o. restaurant_in o.restaurant (i ∷ is)) (with_all w) created_at_desc
                false)
              w.orders)
      ]
  get_orders_as delivery user w =
      map without_driver
        (p.find (options p (is_offered_or_mine user) (with_all w) created_at_desc false) w.orders)

  unfoldable pub get_orders : User → Action (World p) (List Order)
  unfolding get_orders_as
  get_orders user = gets (get_orders_as user.role user)

  unfoldable pub may_see_as : Role → User → Order → Result (Unit {0})
  may_see_as client user order =
      if not (is_text order.customer_id user.id)
      then err (forbidden "You can only see your own orders.")
      else ok tt
  may_see_as owner user order = elim order.restaurant [
    | none ↦ err type_error
    | some r ↦
        if not (r.owner_id == user.id)
        then err (forbidden "You can only see orders for your restaurant.")
        else ok tt
  ]
  may_see_as delivery user order =
      if not (status_eq order.status cooked) && not (is_text order.driver_id user.id)
      then err (forbidden "You cannot access this order.")
      else ok tt

  -- the checks of `getOrderById`
  unfoldable pub may_see : User → Order → Result (Unit {0})
  unfolding may_see_as
  may_see user order = may_see_as user.role user order

  unfoldable pub get_order_by_id : User → String → Action (World p) Order
  get_order_by_id user order_id = do
    order ← reads (λ w.
        find_one_with_omit_not_joined_props_or_throw p (λ o. o.id == order_id) (with_all w) unsorted
          false w.orders)
    from_result (may_see user order)
    pure order
