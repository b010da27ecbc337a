-- ===== src/Orders/EditOutcome.antt =====
-- `editOrderStatus` as a whole.
use coupang_eats_backend_v.Base.{String, ◌≡◌, ◌≢◌, refl, sym, ap, ◌∙◌, Option, some, arith, eq_iff}
use coupang_eats_backend_v.Http.{Result, ok, not_found}
use coupang_eats_backend_v.Action.{returned_and_threw}
use coupang_eats_backend_v.Entity.{User, Order, OrderStatus, order_entity, user_entity, Restaurant}
use coupang_eats_backend_v.Packages.{Packages, PackageLaws}
use coupang_eats_backend_v.World.{World, Transactional, TransactionalLaws, committed}
use coupang_eats_backend_v.Orders.Service.{
  save_order, with_restaurant_and_driver, edit_order_status_body, edit_order_status,
}
use coupang_eats_backend_v.Orders.Permission.{assigned, check_edit_iff, check_edit-assigned}
use coupang_eats_backend_v.Orders.Edit.{
  find_order, save_order-OrderSaved, EditRun, edit-EditRun, missing, refused, unsaved, done,
  announced,
}
use coupang_eats_backend_v.Orders.Editing.{Edited, edited, run-Edited}

abbrev pub with_status : OrderStatus → Order → Order
with_status status o = record o { status = status }

module _ (p : Packages) (users : PackageLaws p user_entity) (orders : PackageLaws p order_entity)
    (t : Transactional p) (transactions : TransactionalLaws p t) where
  -- the row behind the order that the query found
  pub found_row :
      (id : String) (w : World p) (o : Order)
      → find_order p id w ≡ some o
      → (r : Order) × (p.row id w.orders ≡ some r)
        × (with_restaurant_and_driver p w r ≡ o)
        × (r.id ≡ id)
  found_row id w o h =
      let f = orders.find_one-found _ w.orders o refl h in
      let same : f.row.id ≡ id = ap (λ x. x.id) f.joined ∙ (eq_iff o.id id).0 f.passes in
      (f.row, ap (λ i. p.row i w.orders) (sym same) ∙ f.live, f.joined, same)

  announced-db :
      (status : OrderStatus) (o : Order) (r : Option Restaurant) (w : World p)
      → (committed p (announced p status o r w)).db ≡ w.db
  announced-db status o r w = ground arith

  edit_outcome :
      (user : User) (id : String) (status : OrderStatus) (w w' : World p) (o' : Order)
      → id ≢ ""
      → (x : Result Order × World p) → edit_order_status_body p user id status w ≡ x
      → EditRun p user id status w x
      → t.run (edit_order_status_body p user id status) w ≡ (ok o', w')
      → Edited p user id status w w'
  edit_outcome user id status w w' o' set_id _ e (missing none_found) h =
      absurd (returned_and_threw h (transactions.run-err _ w w (not_found "Not found") e))
  edit_outcome user id status w w' o' set_id _ e (refused o x found denied) h =
      absurd (returned_and_threw h (transactions.run-err _ w w x e))
  edit_outcome user id status w w' o' set_id _ e (unsaved o checked x u found passed failed) h =
      absurd (returned_and_threw h (transactions.run-err _ w u x e))
  edit_outcome user id status w w' o' set_id _ e (done o checked o2 u found passed saved) h =
      let (r, was, joined, same) = found_row id w o found in
      let is_edited : edited p users orders user status w r ≡ record checked { status = status } =
        ap (with_status status) (
          ap (assigned user status) joined
          ∙ sym (check_edit-assigned user o checked status passed)) in
      let s =
        save_order-OrderSaved p (edited p users orders user status w r) o2 w u
          (ap (λ c. save_order p c w) is_edited ∙ saved) in
      let rest = sym (transactions.run-ok _ w _ o2 e) ∙ h in
      run-Edited p users orders user status w s.after r o2 (λ empty. set_id (sym same ∙ empty))
        s.done id w' same was
        (rw (← joined) at ((check_edit_iff user o status).0 (checked, passed)))
        (ap (λ y. y.1.db) (sym rest)
          ∙ announced-db status (record checked { status = status }) checked.restaurant _
          ∙ ap (λ y. y.db) s.world)

  -- If `editOrderStatus` returns for an id that is not empty, the order exists, the rules allow
  -- the change, the order's row has the requested status and the same customer and total, its
  -- driver is the caller after a pick-up and the same as before otherwise, and no other row of any
  -- table has changed.
  pub edit_order_status-Edited :
      (user : User) (id : String) (status : OrderStatus) (w w' : World p) (o' : Order)
      → id ≢ ""
      → edit_order_status p t user id status w ≡ (ok o', w')
      → Edited p user id status w w'
  unfolding edit_order_status
  edit_order_status-Edited user id status w w' o' set_id h =
      edit_outcome user id status w w' o' set_id _ refl (edit-EditRun p user id status w) h
