-- ===== src/Orders/History.antt =====
-- The life of an order through any sequence of `editOrderStatus` calls, by any users, whether they
-- return or throw.
use coupang_eats_backend_v.Base.{
  String, ◌≡◌, ◌≢◌, refl, sym, ap, ◌∙◌, Bool, true, false, some, ◌==◌, Bool-cases, inl, inr, eq_iff,
  some_inj,
}
use mathlib.Core.Bool.{false≢true}
use coupang_eats_backend_v.Http.{Result, ok, err}
use coupang_eats_backend_v.Entity.{
  User, Order, OrderStatus, picked_up, delivered, user_entity, order_entity,
}
use coupang_eats_backend_v.Packages.{Packages, PackageLaws}
use coupang_eats_backend_v.Repository.Joined.{join_one-key}
use coupang_eats_backend_v.World.{World, Transactional, TransactionalLaws}
use coupang_eats_backend_v.Orders.Service.{with_restaurant_and_driver, edit_order_status}
use coupang_eats_backend_v.Orders.Permission.{
  MayEdit, owner_cooks, owner_cooked, driver_picks_up, driver_delivers,
}
use coupang_eats_backend_v.Orders.Editing.{Edited, driver_after}
use coupang_eats_backend_v.Orders.EditOutcome.{edit_order_status-Edited}
use coupang_eats_backend_v.Orders.EditReturns.{edit_order_status_throws}

-- on its way or delivered
abbrev pub has_left : OrderStatus → Bool
has_left picked_up = true
has_left delivered = true
has_left _ = false

-- an order that has left the restaurant has a driver
pub data IsDriven (o : Order) : Type 0 where
  at_restaurant : has_left o.status ≡ false → IsDriven o
  driven_by : (d : String) → o.driver_id ≡ some d → IsDriven o

module _ (p : Packages) (t : Transactional p) where
  pub data Edits : World p → World p → Type 0 where
    no_edit : (w : World p) → Edits w w
    next_edit :
        (user : User) (id : String) (status : OrderStatus) (x : Result Order) (w w' w'' : World p)
        → id ≢ ""
        → edit_order_status p t user id status w ≡ (x, w')
        → Edits w' w''
        → Edits w w''

  -- what stays the same about an order
  pub record Continues (o : Order) (i : String) (w : World p) : Type 0 where
    pub after : Order
    pub now : p.row i w.orders ≡ some after
    pub customer_id : after.customer_id ≡ o.customer_id
    pub total : after.total ≡ o.total

  module _ (transactions : TransactionalLaws p t) (users : PackageLaws p user_entity)
      (orders : PackageLaws p order_entity) where
    IsDriven-driver_after :
        (user : User) (status : OrderStatus) (w : World p) (before after : Order)
        → MayEdit user (with_restaurant_and_driver p w before) status
        → after.status ≡ status
        → after.driver_id ≡ driver_after user status before.driver_id
        → IsDriven after
    IsDriven-driver_after user _ w before after (owner_cooks r role joined mine) set driver =
        at_restaurant (ap has_left set)
    IsDriven-driver_after user _ w before after (owner_cooked r role joined mine) set driver =
        at_restaurant (ap has_left set)
    IsDriven-driver_after user _ w before after (driver_picks_up role) set driver =
        driven_by user.id driver
    IsDriven-driver_after user _ w before after (driver_delivers d role joined mine) set driver =
        driven_by d.id (driver ∙ join_one-key p user_entity users before.driver_id w.users d joined)

    module _ (user : User) (id : String) (status : OrderStatus) (w w' : World p)
        (e : Edited p user id status w w') where
      Edited-Continues :
          (i : String) (o : Order)
          → p.row i w.orders ≡ some o
          → IsDriven o
          → (c : Continues o i w') × IsDriven c.after
      Edited-Continues i o at driven = elim (Bool-cases (i == id)) [
        | inl hit ↦
            let is_id : i ≡ id = (eq_iff i id).0 hit in
            let same : e.before ≡ o =
              some_inj (sym e.was ∙ ap (λ j. p.row j w.orders) (sym is_id) ∙ at) in
            (
              record {
                after = e.after;
                now = ap (λ j. p.row j w'.orders) is_id ∙ e.now;
                customer_id = e.customer_id ∙ ap (λ x. x.customer_id) same;
                total = e.total ∙ ap (λ x. x.total) same;
              },
              IsDriven-driver_after user status w e.before e.after e.allowed e.set e.driver_id,
            )
        | inr miss ↦ (
          record {
            after = o;
            now = e.others i (λ is_id. false≢true (sym miss ∙ (eq_iff i id).1 is_id)) ∙ at;
            customer_id = refl;
            total = refl;
          },
          driven,
        )
      ]

    -- one call, however it ends
    call_keeps :
        (user : User) (id : String) (status : OrderStatus) (x : Result Order) (w w' : World p)
        (i : String) (o : Order)
        → id ≢ ""
        → edit_order_status p t user id status w ≡ (x, w')
        → p.row i w.orders ≡ some o
        → IsDriven o
        → (c : Continues o i w') × IsDriven c.after
    call_keeps user id status (ok o') w w' i o set h at driven =
        let e =
          edit_order_status-Edited p users orders t transactions user id status w w' o' set h in
        Edited-Continues user id status w w' e i o at driven
    call_keeps user id status (err x) w w' i o set h at driven =
        let (same, s, c) = edit_order_status_throws p t transactions user id status w w' x h in
        (
          record {
            after = o;
            now = ap (λ d. p.row i d.orders) same ∙ at;
            customer_id = refl;
            total = refl;
          },
          driven,
        )

    -- An order that has not left its restaurant without a driver never does: through any sequence of
    -- `editOrderStatus` calls for ids that are not empty, by any users and however each call ends,
    -- it stays in the table with its customer and its total, and if it has left, it has a driver.
    pub Edits-Continues :
        (w w' : World p) (i : String) (o : Order)
        → Edits w w'
        → p.row i w.orders ≡ some o
        → IsDriven o
        → (c : Continues o i w') × IsDriven c.after
    Edits-Continues w _ i o (no_edit _) at driven =
        (record { after = o; now = at; customer_id = refl; total = refl }, driven)
    Edits-Continues w w'' i o (next_edit user id status x _ w' _ set h rest) at driven =
        let (c, still) = call_keeps user id status x w w' i o set h at driven in
        let (d, ends) = Edits-Continues w' w'' i c.after rest c.now still in
        (
          record {
            after = d.after;
            now = d.now;
            customer_id = d.customer_id ∙ c.customer_id;
            total = d.total ∙ c.total;
          },
          ends,
        )
