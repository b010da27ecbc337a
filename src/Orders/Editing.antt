-- ===== src/Orders/Editing.antt =====
-- What the `save` of `editOrderStatus` has done to the tables, given the row that it began from.
use coupang_eats_backend_v.Base.{
  String, ◌≡◌, ◌≢◌, refl, sym, ap, ◌∙◌, Option, none, some, Bool, ◌==◌, arith, eq_iff, ==-false,
  if◌then◌else◌,
}
use coupang_eats_backend_v.Entity.{
  User, Order, OrderStatus, order_entity, user_entity, pending, cooking, cooked, picked_up,
  delivered, key_of,
}
use coupang_eats_backend_v.Packages.{Packages, PackageLaws}
use coupang_eats_backend_v.World.{World, Database, order_table}
use coupang_eats_backend_v.World.Laws.{Saved, Saved-id, Saved-entity, Saved-row}
use coupang_eats_backend_v.Orders.Service.{with_items, with_restaurant_and_driver}
use coupang_eats_backend_v.Orders.Permission.{MayEdit, new_driver, assigned}

-- whom the order's row names as its driver afterwards
abbrev pub driver_after : User → OrderStatus → Option String → Option String
driver_after user picked_up before = some user.id
driver_after user _ before = before

module _ (p : Packages) where
  -- the tables that `editOrderStatus` does not write
  pub record SameButOrders (d d' : Database p) : Type 0 where
    pub users : d'.users ≡ d.users
    pub categories : d'.categories ≡ d.categories
    pub restaurants : d'.restaurants ≡ d.restaurants
    pub dishes : d'.dishes ≡ d.dishes
    pub payments : d'.payments ≡ d.payments
    pub reviews : d'.reviews ≡ d.reviews

  pub record Edited (user : User) (id : String) (status : OrderStatus) (w w' : World p)
      : Type 0 where
    pub before : Order
    pub after : Order
    pub was : p.row id w.orders ≡ some before
    pub now : p.row id w'.orders ≡ some after
    pub allowed : MayEdit user (with_restaurant_and_driver p w before) status
    pub set : after.status ≡ status
    pub driver_id : after.driver_id ≡ driver_after user status before.driver_id
    pub customer_id : after.customer_id ≡ before.customer_id
    pub total : after.total ≡ before.total
    pub others : (i : String) → i ≢ id → p.row i w'.orders ≡ p.row i w.orders
    pub tables : SameButOrders w.db w'.db

  -- a relation that was joined by a key has that key
  joined-key :
      {E : Type 0} (k : Option String) (f : E → String) (r : Option E)
      → ((e : E) → r ≡ some e → k ≡ some (f e))
      → key_of f r k ≡ k
  joined-key k f none h = refl
  joined-key k f (some e) h = sym (h e refl)

  module _ (users : PackageLaws p user_entity) (orders : PackageLaws p order_entity) where
    driver-key :
        (w : World p) (k : Option String) → key_of (λ (u : User). u.id) (p.join_one k w.users) k ≡ k
    driver-key w none = rw (users.join_one-row none w.users)
    driver-key w (some i) = rw (users.join_one-row (some i) w.users) (
        joined-key (some i) (λ u. u.id) (p.row i w.users)
          (λ u at. ap some (sym (users.row-id i w.users u at))))

    -- the order that `editOrderStatus` saves
    abbrev pub edited : User → OrderStatus → World p → Order → Order
    edited user status w r = record (assigned user status (with_restaurant_and_driver p w r)) {
      status = status;
    }

    driver_after-key :
        (user : User) (status : OrderStatus) (w : World p) (k : Option String)
        → key_of (λ (u : User). u.id) (new_driver user status (p.join_one k w.users)) k
          ≡ driver_after user status k
    driver_after-key user pending w k = driver-key w k
    driver_after-key user cooking w k = driver-key w k
    driver_after-key user cooked w k = driver-key w k
    driver_after-key user picked_up w k = refl
    driver_after-key user delivered w k = driver-key w k

    module _ (user : User) (status : OrderStatus) (w u : World p) (r o' : Order)
        (set_id : r.id ≢ "")
        (s : Saved p order_entity
          (order_table p)
          (with_items p w (edited user status w r))
          w
          o'
          u) where
      pub same_id : o'.id ≡ r.id
      same_id =
          Saved-id p order_entity (order_table p) orders _ o' w u s
          ∙ ap (λ (b : Bool). (if b then record r.base { id = p.v4 w.fresh } else r.base).id)
              (==-false r.id "" set_id)

      pub content : o' ≡ record (with_items p w (edited user status w r)) { base = o'.base }
      content = Saved-entity p order_entity (order_table p) orders _ o' w u s

      row_after :
          (i : String)
          → p.row i u.orders
            ≡ (if r.id == i then some (order_entity.stored o') else p.row i w.orders)
      row_after i =
          Saved-row p order_entity (order_table p) orders _ o' w u s i
          ∙ ap (λ x. if x == i then some (order_entity.stored o') else p.row i w.orders) same_id

      tables_after : SameButOrders w.db u.db
      tables_after = rw s.world (record {
        users = refl;
        categories = refl;
        restaurants = refl;
        dishes = refl;
        payments = refl;
        reviews = refl;
      })

      row_is : (id : String) → r.id ≡ id → p.row id u.orders ≡ some (order_entity.stored o')
      row_is id same = row_after id ∙ ground (arith, eq_iff r.id id)

      row_others : (id i : String) → r.id ≡ id → i ≢ id → p.row i u.orders ≡ p.row i w.orders
      row_others id i same other = row_after i ∙ ground (arith, eq_iff r.id i)

      pub run-Edited :
          (id : String) (w' : World p)
          → r.id ≡ id
          → p.row id w.orders ≡ some r
          → MayEdit user (with_restaurant_and_driver p w r) status
          → w'.db ≡ u.db
          → Edited user id status w w'
      run-Edited id w' same was allowed db = record {
        before = r;
        after = order_entity.stored o';
        was = was;
        now = ap (λ d. p.row id d.orders) db ∙ row_is id same;
        allowed = allowed;
        set = ap (λ x. x.status) content;
        driver_id =
            ap (λ x. (order_entity.stored x).driver_id) content
            ∙ driver_after-key user status w r.driver_id;
        customer_id =
            ap (λ x. (order_entity.stored x).customer_id) content
            ∙ ap (λ x. x.customer_id) (orders.row-stored id w.orders r was);
        total = ap (λ x. x.total) content;
        others = λ i other. ap (λ d. p.row i d.orders) db ∙ row_others id i same other;
        tables = rw db tables_after;
      }
