-- ===== src/Orders/PlaceOutcome.antt =====
-- `createOrder` as a whole.
use mathlib.Core.List.{append-nil}
use coupang_eats_backend_v.Base.{
  ℤ, pos, ◌+ℤ◌, ◌≡◌, refl, sym, ap, ◌∙◌, none, List, [], ◌<>◌, All, Memᴰ, inl, inr, ◌⊎◌,
}
use coupang_eats_backend_v.Http.{
  Exception, Result, ok, err, not_found, query_failed, ok_inj, err_inj,
}
use coupang_eats_backend_v.Action.{returned_and_threw}
use coupang_eats_backend_v.Entity.{
  User, Restaurant, Order, OrderItem, order_entity, dish_entity, restaurant_entity,
  order_item_entity,
}
use coupang_eats_backend_v.Packages.{Packages, PackageLaws}
use coupang_eats_backend_v.World.{World, Transactional, TransactionalLaws, committed, rolled_back}
use coupang_eats_backend_v.Orders.Dto.{
  CreateOrderItemDto, CreateOrderDto, order_to_entity, process_items,
}
use coupang_eats_backend_v.Orders.Service.{save_order, create_order_body, create_order}
use coupang_eats_backend_v.Orders.Edit.{save_order-OrderSaved}
use coupang_eats_backend_v.Orders.EditReturns.{save_order-emitted, save_order-query_failed}
use coupang_eats_backend_v.Orders.Bill.{
  bill, snapshots, OnMenu, process_items-eq, process_items-OnMenu, process_items-missing,
}
use coupang_eats_backend_v.Orders.Create.{
  CreateRun, create-CreateRun, no_restaurant, no_dish, unsaved, done, menu, dishes_agree,
  ordered_dishes,
}
use coupang_eats_backend_v.Orders.Placing.{Placed, placed, created}

module _ (p : Packages) (t : Transactional p) (transactions : TransactionalLaws p t) where
  -- the decorator twice
  run_twice-ok :
      (m : World p → Result Order × World p) (w u : World p) (o : Order)
      → m w ≡ (ok o, u)
      → t.run (t.run m) w ≡ (ok o, committed p (committed p u))
  run_twice-ok m w u o h = transactions.run-ok (t.run m) w _ o (transactions.run-ok m w u o h)

  run_twice-err :
      (m : World p → Result Order × World p) (w u : World p) (e : Exception)
      → m w ≡ (err e, u)
      → t.run (t.run m) w ≡ (err e, rolled_back p w (rolled_back p w u))
  run_twice-err m w u e h = transactions.run-err (t.run m) w _ e (transactions.run-err m w u e h)

  module _ (orders : PackageLaws p order_entity) (items : PackageLaws p order_item_entity)
      (dishes : PackageLaws p dish_entity) (restaurants : PackageLaws p restaurant_entity)
      (customer : User) (dto : CreateOrderDto) (w w' : World p) where
    priced_items :
        (acc : List OrderItem) (total : ℤ)
        → process_items p (ordered_dishes p dto w) dto.items [] (pos 0) ≡ ok (acc, total)
        → All (OnMenu (menu p w)) dto.items
          × ◌≡◌ {A = List OrderItem × ℤ}
              (acc, total)
              (snapshots (menu p w) dto.items, pos 0 +ℤ bill (menu p w) dto.items)
    priced_items acc total h =
        let agree = dishes_agree p dishes dto w in
        let known =
          process_items-OnMenu p items (ordered_dishes p dto w) (menu p w) dto.items [] (pos 0)
            (acc, total) agree h in
        (
          known,
          ok_inj (
              sym h
              ∙ process_items-eq p items (ordered_dishes p dto w) (menu p w) dto.items [] (pos 0)
                  agree known),
        )

    abbrev order_of : Restaurant → List OrderItem × ℤ → Order
    order_of r (acc, total) = order_to_entity customer r (total +ℤ r.delivery_fee) acc

    create_outcome :
        (o : Order) (x : Result Order × World p)
        → create_order_body p customer dto w ≡ x
        → CreateRun p customer dto w x
        → t.run (t.run (create_order_body p customer dto)) w ≡ (ok o, w')
        → Placed p customer dto w o w'
    create_outcome o _ q (no_restaurant missing) h =
        absurd (returned_and_threw h (run_twice-err _ w _ _ q))
    create_outcome o _ q (no_dish r e found refused) h =
        absurd (returned_and_threw h (run_twice-err _ w _ _ q))
    create_outcome o _ q (unsaved r acc total e u found priced failed) h =
        absurd (returned_and_threw h (run_twice-err _ w _ _ q))
    create_outcome o _ q (done r acc total o2 u found priced saved) h =
        let (known, is) = priced_items acc total priced in
        let s =
          save_order-OrderSaved p (placed p orders items dishes customer dto w u r found known o2)
            o2 w u (ap (λ y. save_order p (order_of r y) w) (sym is) ∙ saved) in
        let again = sym (run_twice-ok _ w _ o2 q) ∙ h in
        let same : o2 ≡ o = ok_inj (ap (λ y. y.0) again) in
        let world = ap (λ y. y.1) (sym again) in
        rw (← same) (
          created p orders items dishes customer dto w u r found known o2 s w'
            (ap (λ y. y.db) world) (ap (λ y. y.emitted) world ∙ append-nil _))

    -- If `createOrder` returns, the restaurant and every dish exist, and the row under the id of the
    -- returned order is a pending order of the customer at that restaurant, without a driver. Its
    -- total is the sum of the dishes' prices, of the extras that the menu has for the names of the
    -- chosen options (the first option of a name counts, and an unknown name nothing) and of the
    -- delivery fee, and its items record the dish, its name and the chosen options. No other row has
    -- changed, and after the commit the owner's room is told of the order, after the messages that
    -- waited before.
    pub create_order-Placed :
        (o : Order) → create_order p t customer dto w ≡ (ok o, w') → Placed p customer dto w o w'
    unfolding create_order
    create_order-Placed o h =
        create_outcome o _ refl (create-CreateRun p restaurants customer dto w) h

    -- why a call of `createOrder` threw
    abbrev pub Refusal : Exception → Type 0
    Refusal e =
        ((p.row dto.restaurant_id w.restaurants ≡ none)
          × (e ≡ not_found ("don't exist " <> dto.restaurant_id)))
        ⊎ (((i : CreateOrderItemDto) × Memᴰ i dto.items
              × (p.row i.dish_id w.dishes ≡ none)
              × (e ≡ not_found ("Dish not found: " <> i.dish_id)))
            ⊎ (e ≡ query_failed))

    create_throws :
        (e : Exception) (x : Result Order × World p)
        → create_order_body p customer dto w ≡ x
        → CreateRun p customer dto w x
        → t.run (t.run (create_order_body p customer dto)) w ≡ (err e, w')
        → Refusal e × (w'.db ≡ w.db) × (w'.emitted ≡ w.emitted) × (w'.on_commit ≡ [])
    create_throws e _ q (no_restaurant missing) h =
        let again = sym h ∙ run_twice-err _ w _ _ q in
        let world = ap (λ y. y.1) again in
        (
          inl (missing, err_inj (ap (λ y. y.0) again)),
          ap (λ y. y.db) world,
          ap (λ y. y.emitted) world,
          ap (λ y. y.on_commit) world,
        )
    create_throws e _ q (no_dish r e2 found refused) h =
        let again = sym h ∙ run_twice-err _ w _ _ q in
        let world = ap (λ y. y.1) again in
        let (i, m, gone, said) =
          process_items-missing p items (ordered_dishes p dto w) (menu p w) dto.items [] (pos 0) e2
            (dishes_agree p dishes dto w) refused in
        (
          inr (inl (i, m, gone, err_inj (ap (λ y. y.0) again) ∙ said)),
          ap (λ y. y.db) world,
          ap (λ y. y.emitted) world,
          ap (λ y. y.on_commit) world,
        )
    create_throws e _ q (unsaved r acc total e2 u found priced failed) h =
        let again = sym h ∙ run_twice-err _ w _ _ q in
        let world = ap (λ y. y.1) again in
        (
          inr (inr (err_inj (ap (λ y. y.0) again) ∙ save_order-query_failed p _ e2 w u failed)),
          ap (λ y. y.db) world,
          ap (λ y. y.emitted) world ∙ save_order-emitted p _ e2 w u failed,
          ap (λ y. y.on_commit) world,
        )
    create_throws e _ q (done r acc total o2 u found priced saved) h =
        absurd (returned_and_threw (run_twice-ok _ w _ o2 q) h)

    pub create_order_throws :
        (e : Exception)
        → create_order p t customer dto w ≡ (err e, w')
        → Refusal e × (w'.db ≡ w.db) × (w'.emitted ≡ w.emitted) × (w'.on_commit ≡ [])
    unfolding create_order
    create_order_throws e h =
        create_throws e _ refl (create-CreateRun p restaurants customer dto w) h
