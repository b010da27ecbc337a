-- ===== src/Orders/EditReturns.antt =====
-- When `editOrderStatus` returns, and what is left when it throws.
use coupang_eats_backend_v.Base.{String, ◌≡◌, ◌≢◌, refl, sym, ap, ◌∙◌, some, eq_iff, [], some_inj}
use mathlib.Core.Bool.{false≢true}
use coupang_eats_backend_v.Http.{
  Exception, Result, ok, err, not_found, ok_inj, ok-ne-err, query_failed,
}
use coupang_eats_backend_v.Action.{returned_and_threw, returned_as}
use coupang_eats_backend_v.Entity.{
  User, Order, OrderStatus, order_entity, user_entity, picked_up, delivery,
}
use coupang_eats_backend_v.Packages.{Packages, PackageLaws}
use coupang_eats_backend_v.World.{World, order_table, save, Transactional, TransactionalLaws}
use coupang_eats_backend_v.World.Laws.{save-eq-err, save-query_failed}
use coupang_eats_backend_v.Orders.Service.{
  with_items, save_order, with_restaurant_and_driver, check_edit, edit_order_status_body,
  edit_order_status,
}
use coupang_eats_backend_v.Orders.Permission.{
  MayEdit, driver_picks_up, assigned, check_edit_iff, check_edit-assigned,
}
use coupang_eats_backend_v.Orders.Edit.{
  find_order, EditRun, edit-EditRun, missing, refused, unsaved, done,
}
use coupang_eats_backend_v.Orders.Editing.{edited}
use coupang_eats_backend_v.Orders.EditOutcome.{with_status, found_row, edit_order_status-Edited}

module _ (p : Packages) where
  pub save_order-emitted :
      (o : Order) (e : Exception) (w u : World p)
      → save_order p o w ≡ (err e, u)
      → u.emitted ≡ w.emitted
  unfolding save_order
  save_order-emitted o e w u h =
      ap (λ y. y.1.emitted) (sym h)
      ∙ save-eq-err p order_entity (order_table p) (with_items p w o) e w _
          (λ i. ((h i).0, (save p (order_table p) (with_items p w o) w).1))

  pub save_order-query_failed :
      (o : Order) (e : Exception) (w u : World p) → save_order p o w ≡ (err e, u) → e ≡ query_failed
  unfolding save_order
  save_order-query_failed o e w u h =
      save-query_failed p order_entity (order_table p) (with_items p w o) e w _
        (λ i. ((h i).0, (save p (order_table p) (with_items p w o) w).1))

module _ (p : Packages) (t : Transactional p) (transactions : TransactionalLaws p t) where
  edit_failed :
      (user : User) (id : String) (status : OrderStatus) (w w' : World p) (e : Exception)
      → (x : Result Order × World p) → edit_order_status_body p user id status w ≡ x
      → EditRun p user id status w x
      → t.run (edit_order_status_body p user id status) w ≡ (err e, w')
      → (w'.db ≡ w.db) × (w'.emitted ≡ w.emitted) × (w'.on_commit ≡ [])
  edit_failed user id status w w' e _ q (missing none_found) h =
      let same = ap (λ y. y.1) (sym h ∙ transactions.run-err _ w w (not_found "Not found") q) in
      (ap (λ y. y.db) same, ap (λ y. y.emitted) same, ap (λ y. y.on_commit) same)
  edit_failed user id status w w' e _ q (refused o x found denied) h =
      let same = ap (λ y. y.1) (sym h ∙ transactions.run-err _ w w x q) in
      (ap (λ y. y.db) same, ap (λ y. y.emitted) same, ap (λ y. y.on_commit) same)
  edit_failed user id status w w' e _ q (unsaved o checked x u found passed failed) h =
      let same = ap (λ y. y.1) (sym h ∙ transactions.run-err _ w u x q) in
      (
        ap (λ y. y.db) same,
        ap (λ y. y.emitted) same ∙ save_order-emitted p _ x w u failed,
        ap (λ y. y.on_commit) same,
      )
  edit_failed user id status w w' e _ q (done o checked o2 u found passed saved) h =
      absurd (returned_and_threw (transactions.run-ok _ w _ o2 q) h)

  -- If `editOrderStatus` throws, no table has changed, nothing was sent over a socket, and no
  -- message waits for a commit.
  pub edit_order_status_throws :
      (user : User) (id : String) (status : OrderStatus) (w w' : World p) (e : Exception)
      → edit_order_status p t user id status w ≡ (err e, w')
      → (w'.db ≡ w.db) × (w'.emitted ≡ w.emitted) × (w'.on_commit ≡ [])
  unfolding edit_order_status
  edit_order_status_throws user id status w w' e h =
      edit_failed user id status w w' e _ refl (edit-EditRun p user id status w) h

  module _ (users : PackageLaws p user_entity) (orders : PackageLaws p order_entity) where
    only_found :
        (id : String) (w : World p) (o r : Order)
        → find_order p id w ≡ some o
        → p.row id w.orders ≡ some r
        → o ≡ with_restaurant_and_driver p w r
    only_found id w o r found was =
        let (r2, was2, joined, same) = found_row p users orders t transactions id w o found in
        let one : r2 ≡ r = some_inj (sym was2 ∙ was) in
        sym joined ∙ ap (with_restaurant_and_driver p w) one

    is_edited :
        (user : User) (id : String) (status : OrderStatus) (w : World p) (o checked r : Order)
        → find_order p id w ≡ some o
        → p.row id w.orders ≡ some r
        → check_edit user status o ≡ ok checked
        → edited p users orders user status w r ≡ record checked { status = status }
    is_edited user id status w o checked r found was passed = ap (with_status status) (
        ap (assigned user status) (sym (only_found id w o r found was))
        ∙ sym (check_edit-assigned user o checked status passed))

    edit_returns :
        (user : User) (id : String) (status : OrderStatus) (w u : World p) (r o' : Order)
        → p.row id w.orders ≡ some r
        → r.id ≡ id
        → MayEdit user (with_restaurant_and_driver p w r) status
        → save_order p (edited p users orders user status w r) w ≡ (ok o', u)
        → (x : Result Order × World p) → edit_order_status_body p user id status w ≡ x
        → EditRun p user id status w x
        → (w' : World p) × (t.run (edit_order_status_body p user id status) w ≡ (ok o', w'))
    edit_returns user id status w u r o' was same may saved _ q (missing none_found) = absurd (
        false≢true (
          sym (orders.find_one-none _ w.orders id r refl none_found was) ∙ (eq_iff r.id id).1 same))
    edit_returns user id status w u r o' was same may saved _ q (refused o x found denied) =
        let passes = (check_edit_iff user o status).1 (rw (only_found id w o r found was) may) in
        let differ : ◌≡◌ {A = Result Order} (ok passes.0) (err x) = sym passes.1 ∙ denied in
        absurd (ok-ne-err differ)
    edit_returns user id status w u r o' was same may saved _ q
          (unsaved o checked x u2 found passed failed) =
        absurd (
          returned_and_threw saved (
            ap (λ c. save_order p c w) (is_edited user id status w o checked r found was passed)
            ∙ failed))
    edit_returns user id status w u r o' was same may saved _ q
          (done o checked o2 u2 found passed saved2) =
        let again =
          sym saved
          ∙ ap (λ c. save_order p c w) (is_edited user id status w o checked r found was passed)
          ∙ saved2 in
        let same_result : o2 ≡ o' = ok_inj (sym (ap (λ y. y.0) again)) in
        returned_as (transactions.run-ok _ w _ o2 q) same_result

    -- `editOrderStatus` looks at the caller's role, the restaurant's owner and the driver, and never
    -- at the status that the order has: whenever the rules allow the requested status and the
    -- database takes the row, it returns.
    pub edit_order_status_returns :
        (user : User) (id : String) (status : OrderStatus) (w u : World p) (r o' : Order)
        → p.row id w.orders ≡ some r
        → MayEdit user (with_restaurant_and_driver p w r) status
        → save_order p (edited p users orders user status w r) w ≡ (ok o', u)
        → (w' : World p) × (edit_order_status p t user id status w ≡ (ok o', w'))
    unfolding edit_order_status
    edit_order_status_returns user id status w u r o' was may saved =
        edit_returns user id status w u r o' was (orders.row-id id w.orders r was) may saved _ refl
          (edit-EditRun p user id status w)

    -- A driver takes over any order that exists under an id that is not empty, whatever its status
    -- and whoever drives it: asking for PickedUp returns if the database takes the row, and leaves
    -- the caller as its driver.
    pub pick_up_takes_over :
        (user : User) (id : String) (w u : World p) (r o' : Order)
        → id ≢ ""
        → user.role ≡ delivery
        → p.row id w.orders ≡ some r
        → save_order p (edited p users orders user picked_up w r) w ≡ (ok o', u)
        → (w' : World p) × (r' : Order) × (edit_order_status p t user id picked_up w ≡ (ok o', w'))
          × (p.row id w'.orders ≡ some r')
          × (r'.status ≡ picked_up)
          × (r'.driver_id ≡ some user.id)
    pick_up_takes_over user id w u r o' set_id role was saved =
        let (w', returned) =
          edit_order_status_returns user id picked_up w u r o' was (driver_picks_up role) saved in
        let d =
          edit_order_status-Edited p users orders t transactions user id picked_up w w' o' set_id
            returned in
        (w', d.after, returned, d.now, d.set, d.driver_id)
