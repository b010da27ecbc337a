-- ===== src/Orders/Visible.antt =====
-- `getOrders` and `getOrderById`: which orders a user may open.
use coupang_eats_backend_v.Base.{
  String, ◌≡◌, refl, sym, ap, ◌∙◌, inl, inr, ◌↔◌, Bool, true, false, Option, none, some, List, [],
  ◌∷◌, ◌==◌, ◌||◌, map, includes, is_text, is_text_iff, is_text_self, arith, eq_iff, Option-cases,
  Bool-cases, Memᴰ, mem-map, some_inj,
}
use mathlib.Core.Bool.{false≢true}
use coupang_eats_backend_v.Http.{ok, ok-ne-err, ok_inj}
use coupang_eats_backend_v.Entity.{
  User, Role, client, owner, delivery, Order, Restaurant, cooked, status_eq, order_entity,
  restaurant_entity, user_entity,
}
use coupang_eats_backend_v.Packages.{Packages, PackageLaws, unsorted, created_at_desc}
use coupang_eats_backend_v.Repository.{find_many, find_many_with_omit_not_joined_props, options}
use coupang_eats_backend_v.Repository.Joined.{find_one_or_throw-joined, join_one-key}
use coupang_eats_backend_v.World.{World}
use coupang_eats_backend_v.Orders.Queries.{
  user_is, restaurant_in, with_all, get_orders, get_orders_as, may_see, may_see_as, get_order_by_id,
  without_customer_and_driver, without_driver, is_offered_or_mine,
}

-- The rules: the customer, the owner of the restaurant, the driver, and any driver once it is cooked.
pub data MaySee (user : User) (order : Order) : Type 0 where
  as_customer : user.role ≡ client → order.customer_id ≡ some user.id → MaySee user order
  as_owner :
      (r : Restaurant)
      → user.role ≡ owner
      → order.restaurant ≡ some r
      → r.owner_id ≡ user.id
      → MaySee user order
  as_offered : user.role ≡ delivery → status_eq order.status cooked ≡ true → MaySee user order
  as_driver : user.role ≡ delivery → order.driver_id ≡ some user.id → MaySee user order

module _ (p : Packages) (user : User) (order : Order) where
  sound_owner :
      (r : Option Restaurant)
      → user.role ≡ owner
      → order.restaurant ≡ r
      → may_see_as p owner user (record order { restaurant = r }) ≡ ok tt
      → MaySee user order
  unfolding may_see_as
  sound_owner none role at h = absurd (ok-ne-err (sym h))
  sound_owner (some r) role at h = elim (Bool-cases (r.owner_id == user.id)) [
    | inl mine ↦ as_owner r role at ((eq_iff r.owner_id user.id).0 mine)
    | inr other ↦ absurd (ground arith)
  ]

  sound :
      (role : Role) → user.role ≡ role → may_see_as p role user order ≡ ok tt → MaySee user order
  unfolding may_see_as
  sound client role h = elim (Bool-cases (is_text order.customer_id user.id)) [
    | inl mine ↦ as_customer role (is_text_iff order.customer_id user.id mine)
    | inr other ↦ absurd (ground arith)
  ]
  sound owner role h = sound_owner order.restaurant role refl h
  sound delivery role h = elim (Bool-cases (status_eq order.status cooked)) [
    | inl offered ↦ as_offered role offered
    | inr not_offered ↦ elim (Bool-cases (is_text order.driver_id user.id)) [
      | inl mine ↦ as_driver role (is_text_iff order.driver_id user.id mine)
      | inr other ↦ absurd (ground arith)
    ]
  ]

  complete : MaySee user order → may_see p user order ≡ ok tt
  unfolding may_see may_see_as
  complete (as_customer role mine) =
      ap (λ r. may_see_as p r user order) role ∙ rw mine (rw (is_text_self user.id) refl)
  complete (as_owner r role at mine) =
      ap (λ r. may_see_as p r user order) role ∙ rw at (ground (arith, eq_iff r.owner_id user.id))
  complete (as_offered role offered) = ap (λ r. may_see_as p r user order) role ∙ rw offered refl
  complete (as_driver role mine) =
      ap (λ r. may_see_as p r user order) role ∙ ground (arith, is_text_self user.id)

  -- `getOrderById` passes its checks exactly by the rules.
  pub may_see_iff : (may_see p user order ≡ ok tt) ↔ MaySee user order
  unfolding may_see
  may_see_iff = (sound user.role refl, complete)

included-mem :
    (f : Restaurant → String) (rs : List Restaurant) (i : String)
    → includes (map f rs) i ≡ true
    → (r : Restaurant) × Memᴰ r rs × (f r ≡ i)
included-mem f [] i h = absurd (false≢true h)
included-mem f (r ∷ rs) i h = elim (Bool-cases (f r == i)) [
  | inl hit ↦ (r, Memᴰ.head refl, (eq_iff (f r) i).0 hit)
  | inr miss ↦
      let (s, m, same) =
        included-mem f rs i (sym (ap (λ b. b || includes (map f rs) i) miss) ∙ h) in
      (s, Memᴰ.tail m, same)
]

module _ (p : Packages) (orders : PackageLaws p order_entity) (users : PackageLaws p user_entity)
    (restaurants : PackageLaws p restaurant_entity) (user : User) (w : World p) where
  -- a live order that the rules let the user see is opened
  opens :
      (r : Order)
      → p.row r.id w.orders ≡ some r
      → MaySee user (with_all p w r)
      → get_order_by_id p user r.id w ≡ (ok (with_all p w r), w)
  unfolding get_order_by_id
  opens r live may =
      rw
        (
          find_one_or_throw-joined p order_entity orders (with_all p w) (λ o. refl) r.id w.orders,
          live,
        )
        (rw (complete p user (with_all p w r) may) refl)

  user_is-key :
      (k : Option String) → user_is (p.join_one k w.users) user.id ≡ true → k ≡ some user.id
  user_is-key k h = elim (Option-cases (p.join_one k w.users)) [
    | inl nobody ↦ absurd (false≢true (sym (ap (λ u. user_is u user.id) nobody) ∙ h))
    | inr (u, joined) ↦
        join_one-key p user_entity users k w.users u joined
        ∙ ap some ((eq_iff u.id user.id).0 (sym (ap (λ v. user_is v user.id) joined) ∙ h))
  ]

  -- the restaurants of the user
  abbrev mine : List Restaurant
  mine = find_many p (λ r. r.owner_id == user.id) unsorted w.restaurants

  owned :
      (k : Option String)
      → restaurant_in (p.join_one k w.restaurants) (map (λ (r : Restaurant). r.id) mine) ≡ true
      → (r : Restaurant) × (p.join_one k w.restaurants ≡ some r) × (r.owner_id ≡ user.id)
  unfolding find_many
  owned k h = elim (Option-cases (p.join_one k w.restaurants)) [
    | inl nowhere ↦ absurd (
        false≢true
          (sym (ap (λ r. restaurant_in r (map (λ (r : Restaurant). r.id) mine)) nowhere) ∙ h))
    | inr (r, joined) ↦
        let (s, m, same) =
          included-mem (λ r. r.id) mine r.id
            (sym (ap (λ r. restaurant_in r (map (λ (r : Restaurant). r.id) mine)) joined) ∙ h) in
        let f = restaurants.find-found _ w.restaurants s refl m in
        let key = join_one-key p restaurant_entity restaurants k w.restaurants r joined in
        let at : p.row r.id w.restaurants ≡ some r =
          sym (restaurants.join_one-row (some r.id) w.restaurants)
          ∙ ap (λ k. p.join_one k w.restaurants) (sym key)
          ∙ joined in
        let at2 : p.row r.id w.restaurants ≡ some s =
          ap (λ i. p.row i w.restaurants) (sym same ∙ ap (λ x. x.id) (sym f.joined))
          ∙ f.live
          ∙ ap some f.joined in
        let one : s ≡ r = some_inj (sym at2 ∙ at) in
        (r, joined, ap (λ x. x.owner_id) (sym one) ∙ (eq_iff s.owner_id user.id).0 f.passes)
  ]

  -- `getOrderById` returns for the order's id, and changes nothing
  abbrev pub Opens : Order → Type 0
  Opens o = (o' : Order) × (get_order_by_id p user o.id w ≡ (ok o', w)) × (o'.base ≡ o.base)

  listed-Opens :
      (q : Order → Bool) (o o1 : Order)
      → o.base ≡ o1.base
      → Memᴰ o1 (p.find (options p q (with_all p w) created_at_desc false) w.orders)
      → ((r : Order) → q (with_all p w r) ≡ true → MaySee user (with_all p w r))
      → Opens o
  listed-Opens q o o1 same m may =
      let f = orders.find-found _ w.orders o1 refl m in
      let base : o.base ≡ f.row.base = same ∙ ap (λ x. x.base) (sym f.joined) in
      let passes : q (with_all p w f.row) ≡ true = ap q f.joined ∙ f.passes in
      (
        with_all p w f.row,
        ap (λ b. get_order_by_id p user b.id w) base ∙ opens f.row f.live (may f.row passes),
        sym base,
      )

  offered_may :
      user.role ≡ delivery
      → (r : Order) → is_offered_or_mine p user (with_all p w r) ≡ true
      → MaySee user (with_all p w r)
  offered_may role r h = elim (Bool-cases (status_eq r.status cooked)) [
    | inl offered ↦ as_offered role offered
    | inr not_offered ↦ elim (Bool-cases (user_is (p.join_one r.driver_id w.users) user.id)) [
      | inl mine ↦ as_driver role (user_is-key r.driver_id mine)
      | inr other ↦ absurd (ground arith)
    ]
  ]

  owner-Opens :
      (ids : List String) (o : Order)
      → user.role ≡ owner
      → ids ≡ map (λ (r : Restaurant). r.id) mine
      → Memᴰ o (elim ids [
        | [] ↦ []
        | i ∷ is ↦ map (without_driver p) (
            p.find
              (options p
                (λ o. restaurant_in o.restaurant (i ∷ is))
                (with_all p w)
                created_at_desc
                false)
              w.orders)
      ])
      → Opens o
  owner-Opens [] o role are m = elim m [ ]
  owner-Opens (i ∷ is) o role are m =
      let (o1, m1, same) = mem-map (without_driver p) o _ m in
      listed-Opens _ o o1 (ap (λ x. x.base) (sym same)) m1 (λ r h.
        let (s, joined, owns) =
          owned r.restaurant_id
            (ap (restaurant_in (p.join_one r.restaurant_id w.restaurants)) (sym are) ∙ h) in
        as_owner s role joined owns)

  role-Opens :
      (role : Role) (o : Order) → user.role ≡ role → Memᴰ o (get_orders_as p role user w) → Opens o
  unfolding get_orders_as find_many_with_omit_not_joined_props
  role-Opens client o role m =
      let (o1, m1, same) = mem-map (without_customer_and_driver p) o _ m in
      listed-Opens _ o o1 (ap (λ x. x.base) (sym same)) m1
        (λ r h. as_customer role (user_is-key r.customer_id h))
  role-Opens owner o role m = owner-Opens (map (λ (r : Restaurant). r.id) mine) o role refl m
  role-Opens delivery o role m =
      let (o1, m1, same) = mem-map (without_driver p) o _ m in
      listed-Opens _ o o1 (ap (λ x. x.base) (sym same)) m1 (offered_may role)

  -- Every order that `getOrders` lists for a user, `getOrderById` opens for that user.
  pub get_orders-Opens :
      (list : List Order) (w' : World p) (o : Order)
      → get_orders p user w ≡ (ok list, w')
      → Memᴰ o list
      → Opens o
  unfolding get_orders
  get_orders-Opens list w' o h m =
      let same : get_orders_as p user.role user w ≡ list = ok_inj (ap (λ x. x.0) h) in
      role-Opens user.role o refl (rw same m)
