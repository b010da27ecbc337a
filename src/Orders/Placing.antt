-- ===== src/Orders/Placing.antt =====
-- The row, the tables and the message of a `createOrder` that returned.
use coupang_eats_backend_v.Base.{
  ℕ, suc, pos, ◌+ℤ◌, String, ◌≡◌, ◌≢◌, refl, ap, ◌∙◌, none, some, List, [], ◌∷◌, ◌++◌, ◌==◌, ◌<>◌,
  map, All, arith, if◌then◌else◌, eq_iff, eq_refl, int_laws,
}
use coupang_eats_backend_v.Entity.{
  User, Restaurant, Order, OrderItem, pending, order_entity, dish_entity, restaurant_entity,
  order_item_entity,
}
use coupang_eats_backend_v.Packages.{Packages, PackageLaws}
use coupang_eats_backend_v.World.{World, order_table, to_room, new_pending_order}
use coupang_eats_backend_v.World.Laws.{Saved-entity, Saved-row}
use coupang_eats_backend_v.Orders.Dto.{CreateOrderDto, order_to_entity}
use coupang_eats_backend_v.Orders.Service.{with_items, insert_items, insert_item}
use coupang_eats_backend_v.Orders.Edit.{OrderSaved}
use coupang_eats_backend_v.Orders.Editing.{SameButOrders}
use coupang_eats_backend_v.Orders.Bill.{
  bill, snapshots, OnMenu, content_of, recorded, snapshots-recorded,
}
use coupang_eats_backend_v.Orders.Create.{menu, notice}

content-insert : (id v : String) (i : OrderItem) → content_of (insert_item id v i) ≡ content_of i
content-insert id v i = ground arith

contents-insert :
    (v4 : ℕ → String) (n : ℕ) (id : String) (is : List OrderItem)
    → map content_of (insert_items v4 n id is) ≡ map content_of is
unfolding insert_items
contents-insert v4 n id [] = refl
contents-insert v4 n id (i ∷ is) = rw (content-insert id (v4 n) i, contents-insert v4 (suc n) id is)

module _ (p : Packages) where
  pub record Placed (customer : User) (dto : CreateOrderDto) (w : World p) (o : Order)
      (w' : World p) : Type 0 where
    pub restaurant : Restaurant
    pub after : Order
    pub found : p.row dto.restaurant_id w.restaurants ≡ some restaurant
    pub on_menu : All (OnMenu (menu p w)) dto.items
    pub now : p.row o.id w'.orders ≡ some after
    pub total : after.total ≡ some (bill (menu p w) dto.items +ℤ restaurant.delivery_fee)
    pub status : after.status ≡ pending
    pub customer_id : after.customer_id ≡ some customer.id
    pub restaurant_id : after.restaurant_id ≡ some restaurant.id
    pub driver_id : after.driver_id ≡ none
    pub contents : map content_of after.items ≡ recorded (menu p w) dto.items
    pub others : (i : String) → i ≢ o.id → p.row i w'.orders ≡ p.row i w.orders
    pub tables : SameButOrders p w.db w'.db
    pub emitted :
        w'.emitted
        ≡ w.emitted
          ++ (w.on_commit
              ++ (to_room
                    ("Owner:" <> restaurant.owner_id)
                    (new_pending_order o.id restaurant.id o.total)
                  ∷ []))

  module _ (orders : PackageLaws p order_entity) (items : PackageLaws p order_item_entity)
      (dishes : PackageLaws p dish_entity) (customer : User) (dto : CreateOrderDto) (w u : World p)
      (r : Restaurant) (found : p.row dto.restaurant_id w.restaurants ≡ some r)
      (on_menu : All (OnMenu (menu p w)) dto.items) (o : Order) where
    abbrev pub placed : Order
    placed =
        order_to_entity customer r (pos 0 +ℤ bill (menu p w) dto.items +ℤ r.delivery_fee)
          (snapshots (menu p w) dto.items)

    module _ (s : OrderSaved p placed w o u) where
      content : o ≡ record (with_items p w placed) { base = o.base }
      content = Saved-entity p order_entity (order_table p) orders _ o w s.after s.done

      row_after :
          (i : String)
          → p.row i u.orders
            ≡ (if o.id == i then some (order_entity.stored o) else p.row i w.orders)
      row_after i =
          ap (λ x. p.row i x.orders) s.world
          ∙ Saved-row p order_entity (order_table p) orders _ o w s.after s.done i

      pub created :
          (w' : World p)
          → w'.db ≡ u.db
          → w'.emitted ≡ u.emitted ++ (notice p r o u).on_commit
          → Placed customer dto w o w'
      unfolding order_to_entity
      created w' db told = record {
        restaurant = r;
        after = order_entity.stored o;
        found = found;
        on_menu = on_menu;
        now = ap (λ d. p.row o.id d.orders) db ∙ row_after o.id ∙ ground (arith, eq_refl o.id);
        total = ap (λ x. x.total) content ∙ ap some (omega int_laws);
        status = ap (λ x. x.status) content;
        customer_id = ap (λ x. (order_entity.stored x).customer_id) content;
        restaurant_id = ap (λ x. (order_entity.stored x).restaurant_id) content;
        driver_id = ap (λ x. (order_entity.stored x).driver_id) content;
        contents =
            ap (λ x. map content_of x.items) content
            ∙ contents-insert p.v4 _ _ _
            ∙ snapshots-recorded (menu p w) dto.items;
        others =
            λ i other. ap (λ d. p.row i d.orders) db ∙ row_after i ∙ ground (arith, eq_iff o.id i);
        tables =
            rw (db, s.world, s.done.world)
              (record {
                users = refl;
                categories = refl;
                restaurants = refl;
                dishes = refl;
                payments = refl;
                reviews = refl;
              });
        emitted = told ∙ rw (s.world, s.done.world);
      }
