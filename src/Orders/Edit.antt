-- ===== src/Orders/Edit.antt =====
-- What `editOrderStatus` does, step by step: the parts that a call that returned went through.
use coupang_eats_backend_v.Base.{
  ◌+◌, String, ◌≡◌, refl, sym, ap, false, Option, none, some, [], ◌∷◌, ◌++◌, ◌==◌, ◌<>◌, length,
  Option-cases, inl, inr,
}
use coupang_eats_backend_v.Http.{Exception, Result, ok, err, Result-cases, not_found}
use coupang_eats_backend_v.Action.{continue_with, pure, ◌>>◌}
use coupang_eats_backend_v.Entity.{
  User, Order, OrderStatus, order_entity, Restaurant, pending, cooking, cooked, picked_up,
  delivered,
}
use coupang_eats_backend_v.Packages.{Packages, unsorted}
use coupang_eats_backend_v.Repository.{options, find_one_with_omit_not_joined_props_or_throw}
use coupang_eats_backend_v.World.{
  World, order_table, save, to_room, to_all, order_update, emit, new_cooked_order,
}
use coupang_eats_backend_v.World.Laws.{Saved, save-Saved}
use coupang_eats_backend_v.Orders.Permission.{cooked_restaurant}
use coupang_eats_backend_v.Orders.Service.{
  with_items, save_order, with_restaurant_and_driver, driver_id_of, check_edit, announce_cooked,
  edit_order_status_body,
}

module _ (p : Packages) where
  -- the query of `editOrderStatus`
  abbrev pub find_order : String → World p → Option Order
  find_order id w =
      p.find_one (options p (λ o. o.id == id) (with_restaurant_and_driver p w) unsorted false)
        w.orders

  pub record OrderSaved (o : Order) (w : World p) (o' : Order) (w' : World p) : Type 0 where
    pub after : World p
    pub done : Saved p order_entity (order_table p) (with_items p w o) w o' after
    pub world : w' ≡ record after { fresh = after.fresh + length o.items }

  pub save_order-OrderSaved :
      (o o' : Order) (w w' : World p) → save_order p o w ≡ (ok o', w') → OrderSaved o w o' w'
  unfolding save_order
  save_order-OrderSaved o o' w w' h = record {
    after = (save p (order_table p) (with_items p w o) w).1;
    done =
        save-Saved p order_entity (order_table p) (with_items p w o) o' w _
          (λ i. ((h i).0, (save p (order_table p) (with_items p w o) w).1));
    world = sym (ap (λ x. x.1) h);
  }

  -- the socket messages of a successful call
  abbrev pub told : Order → OrderStatus → World p → World p
  told o status w = record w {
    emitted =
        w.emitted ++ (to_room ("order:" <> o.id) (order_update o.id status (driver_id_of o)) ∷ []);
  }

  abbrev pub announced : OrderStatus → Order → Option Restaurant → World p → World p
  announced cooked o (some r) w = record w {
    emitted = w.emitted ++ (to_all (new_cooked_order o.id r.name r.address) ∷ []);
  }
  announced _ o r w = w

  -- what follows the call of `save`
  abbrev after_save : OrderStatus → Order → Result Order × World p → Result Order × World p
  after_save status order (r, u) = continue_with r u (λ saved_order. do
    emit p (to_room ("order:" <> order.id) (order_update order.id status (driver_id_of order)))
    announce_cooked p status order order.restaurant
    pure saved_order)

  -- every way in which the body of `editOrderStatus` can end
  pub data EditRun (user : User) (id : String) (status : OrderStatus) (w : World p)
      : Result Order × World p → Type 0 where
    missing : find_order id w ≡ none → EditRun user id status w (err (not_found "Not found"), w)
    refused :
        (o : Order) (e : Exception)
        → find_order id w ≡ some o
        → check_edit user status o ≡ err e
        → EditRun user id status w (err e, w)
    unsaved :
        (o checked : Order) (e : Exception) (u : World p)
        → find_order id w ≡ some o
        → check_edit user status o ≡ ok checked
        → save_order p (record checked { status = status }) w ≡ (err e, u)
        → EditRun user id status w (err e, u)
    done :
        (o checked o' : Order) (u : World p)
        → find_order id w ≡ some o
        → check_edit user status o ≡ ok checked
        → save_order p (record checked { status = status }) w ≡ (ok o', u)
        → EditRun user id status w (
          ok o',
          announced status
              (record checked { status = status })
              checked.restaurant
              (told (record checked { status = status }) status u),
        )

  announce_done :
      (user : User) (status : OrderStatus) (o checked o2 : Order) (w : World p)
      → check_edit user status o ≡ ok checked
      → announce_cooked p status o2 checked.restaurant w
        ≡ (ok tt, announced status o2 checked.restaurant w)
  announce_done user pending o checked o2 w h = refl
  announce_done user cooking o checked o2 w h = refl
  announce_done user cooked o checked o2 w h =
      let (r, joined) = cooked_restaurant user o checked h in rw joined
  announce_done user picked_up o checked o2 w h = refl
  announce_done user delivered o checked o2 w h = refl

  edit_saved :
      (user : User) (id : String) (status : OrderStatus) (w : World p) (o checked : Order)
      → find_order id w ≡ some o
      → check_edit user status o ≡ ok checked
      → (r : Result Order × World p) → save_order p (record checked { status = status }) w ≡ r
      → EditRun user id status w (after_save status (record checked { status = status }) r)
  edit_saved user id status w o checked found passed (ok o', u) e =
      rw (announce_done user status o checked _ _ passed) (done o checked o' u found passed e)
  edit_saved user id status w o checked found passed (err x, u) e =
      unsaved o checked x u found passed e

  pub edit-EditRun :
      (user : User) (id : String) (status : OrderStatus) (w : World p)
      → EditRun user id status w (edit_order_status_body p user id status w)
  unfolding edit_order_status_body find_one_with_omit_not_joined_props_or_throw
  edit-EditRun user id status w = elim (Option-cases (find_order id w)) [
    | inl none_found ↦ rw none_found (missing none_found)
    | inr (o, found) ↦ rw found (elim (Result-cases (check_edit user status o)) [
      | inl (checked, passed) ↦ rw passed (
          edit_saved user id status w o checked found passed
            (save_order p (record checked { status = status }) w) refl)
      | inr (e, denied) ↦ rw denied (refused o e found denied)
    ])
  ]
