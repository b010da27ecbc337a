-- ===== src/Orders/Create.antt =====
-- The body of `createOrder`: every way in which it can end.
use coupang_eats_backend_v.Base.{
  ℤ, pos, ◌+ℤ◌, String, ◌≡◌, refl, true, false, Option, none, some, List, [], ◌∷◌, ◌++◌, ◌<>◌, map,
  includes, All, All-mono, Option-cases, inl, inr, arith, eq_refl,
}
use coupang_eats_backend_v.Http.{Exception, Result, ok, err, not_found, Result-cases}
use coupang_eats_backend_v.Action.{continue_with, pure, ◌>>◌}
use coupang_eats_backend_v.Entity.{
  User, Restaurant, Dish, Order, OrderItem, order_entity, dish_entity, restaurant_entity,
}
use coupang_eats_backend_v.Packages.{Packages, PackageLaws, unsorted}
use coupang_eats_backend_v.Repository.{options, find_many_with_omit_not_joined_props, no_relations}
use coupang_eats_backend_v.Repository.Laws.{find_by_id_or_throw-row, find-key}
use coupang_eats_backend_v.World.{World, run_on_transaction_commit, to_room, new_pending_order}
use coupang_eats_backend_v.Orders.Dto.{
  CreateOrderItemDto, CreateOrderDto, order_to_entity, process_items,
}
use coupang_eats_backend_v.Orders.Service.{save_order, create_order_body}
use coupang_eats_backend_v.Orders.Bill.{Agrees}

module _ (p : Packages) where
  abbrev pub dish_ids : CreateOrderDto → List String
  dish_ids dto = map (λ (i : CreateOrderItemDto). i.dish_id) dto.items

  -- the dishes that `createOrder` reads
  abbrev pub ordered_dishes : CreateOrderDto → World p → List Dish
  ordered_dishes dto w =
      p.find (options p (λ d. includes (dish_ids dto) d.id) no_relations unsorted false) w.dishes

  -- the row under an id
  abbrev pub menu : World p → String → Option Dish
  menu w i = p.row i w.dishes

  abbrev pub notice : Restaurant → Order → World p → World p
  notice r o w = record w {
    on_commit =
        w.on_commit
        ++ (to_room ("Owner:" <> r.owner_id) (new_pending_order o.id r.id o.total) ∷ []);
  }

  pub data CreateRun (customer : User) (dto : CreateOrderDto) (w : World p)
      : Result Order × World p → Type 0 where
    no_restaurant :
        p.row dto.restaurant_id w.restaurants ≡ none
        → CreateRun customer dto w (err (not_found ("don't exist " <> dto.restaurant_id)), w)
    no_dish :
        (r : Restaurant) (e : Exception)
        → p.row dto.restaurant_id w.restaurants ≡ some r
        → process_items p (ordered_dishes dto w) dto.items [] (pos 0) ≡ err e
        → CreateRun customer dto w (err e, w)
    unsaved :
        (r : Restaurant) (items : List OrderItem) (total : ℤ) (e : Exception) (u : World p)
        → p.row dto.restaurant_id w.restaurants ≡ some r
        → process_items p (ordered_dishes dto w) dto.items [] (pos 0) ≡ ok (items, total)
        → save_order p (order_to_entity customer r (total +ℤ r.delivery_fee) items) w ≡ (err e, u)
        → CreateRun customer dto w (err e, u)
    done :
        (r : Restaurant) (items : List OrderItem) (total : ℤ) (o : Order) (u : World p)
        → p.row dto.restaurant_id w.restaurants ≡ some r
        → process_items p (ordered_dishes dto w) dto.items [] (pos 0) ≡ ok (items, total)
        → save_order p (order_to_entity customer r (total +ℤ r.delivery_fee) items) w ≡ (ok o, u)
        → CreateRun customer dto w (ok o, notice r o u)

  abbrev after_save : Restaurant → Result Order × World p → Result Order × World p
  after_save restaurant (r, u) = continue_with r u (λ order. do
    run_on_transaction_commit p (
        to_room ("Owner:" <> restaurant.owner_id)
          (new_pending_order order.id restaurant.id order.total))
    pure order)

  module _ (restaurants : PackageLaws p restaurant_entity) (customer : User) (dto : CreateOrderDto)
      (w : World p) where
    create_saved :
        (r : Restaurant) (items : List OrderItem) (total : ℤ)
        → p.row dto.restaurant_id w.restaurants ≡ some r
        → process_items p (ordered_dishes dto w) dto.items [] (pos 0) ≡ ok (items, total)
        → (x : Result Order × World p)
        → save_order p (order_to_entity customer r (total +ℤ r.delivery_fee) items) w ≡ x
        → CreateRun customer dto w (after_save r x)
    create_saved r items total found priced (ok o, u) e = done r items total o u found priced e
    create_saved r items total found priced (err x, u) e = unsaved r items total x u found priced e

    pub create-CreateRun : CreateRun customer dto w (create_order_body p customer dto w)
    unfolding create_order_body find_many_with_omit_not_joined_props
    create-CreateRun = elim (Option-cases (p.row dto.restaurant_id w.restaurants)) [
      | inl missing ↦
          rw
            (
              find_by_id_or_throw-row p restaurant_entity restaurants dto.restaurant_id
                  w.restaurants,
              missing,
            )
            (no_restaurant missing)
      | inr (r, found) ↦
          rw
            (
              find_by_id_or_throw-row p restaurant_entity restaurants dto.restaurant_id
                  w.restaurants,
              found,
            )
            (elim (Result-cases (process_items p (ordered_dishes dto w) dto.items [] (pos 0))) [
              | inl ((items, total), priced) ↦
                  rw priced (create_saved r items total found priced _ refl)
              | inr (e, refused) ↦ rw refused (no_dish r e found refused)
            ])
    ]

  -- an item's dish is found among the dishes read exactly when its row is there
  included_tail :
      (x s : String) (xs : List String) → includes xs s ≡ true → includes (x ∷ xs) s ≡ true
  included_tail x s xs h = ground arith

  All-included :
      (is : List CreateOrderItemDto)
      → All (λ i. includes (map (λ (j : CreateOrderItemDto). j.dish_id) is) i.dish_id ≡ true) is
  All-included [] = tt
  All-included (i ∷ is) = (
    rw (eq_refl i.dish_id),
    All-mono _ _ is (λ j h. included_tail i.dish_id j.dish_id _ h) (All-included is),
  )

  pub dishes_agree :
      (dishes : PackageLaws p dish_entity) (dto : CreateOrderDto) (w : World p)
      → All (Agrees p (ordered_dishes dto w) (menu w)) dto.items
  dishes_agree dishes dto w =
      All-mono _ _ dto.items
        (λ i listed. find-key p dish_entity dishes (dish_ids dto) i.dish_id w.dishes listed)
        (All-included dto.items)
