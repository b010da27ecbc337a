-- ===== src/Orders/Permission.antt =====
-- Who may ask for which status: the checks of `editOrderStatus` against a table of rules that
-- does not look at the code.
use coupang_eats_backend_v.Base.{
  ◌≡◌, refl, sym, ap, ◌∙◌, ◌⊎◌, inl, inr, ◌↔◌, Option, none, some, arith, eq_iff,
}
use coupang_eats_backend_v.Http.{ok}
use coupang_eats_backend_v.Entity.{
  User, Order, OrderStatus, Restaurant, pending, cooking, cooked, picked_up, delivered, Role,
  client, owner, delivery,
}
use coupang_eats_backend_v.Orders.Service.{edit_as, edit_as_owner, edit_as_driver, check_edit}

-- The rules: an owner of the order's restaurant cooks, any driver picks up, its driver delivers.
pub data MayEdit (user : User) (order : Order) : OrderStatus → Type 0 where
  owner_cooks :
      (r : Restaurant)
      → user.role ≡ owner
      → order.restaurant ≡ some r
      → r.owner_id ≡ user.id
      → MayEdit user order cooking
  owner_cooked :
      (r : Restaurant)
      → user.role ≡ owner
      → order.restaurant ≡ some r
      → r.owner_id ≡ user.id
      → MayEdit user order cooked
  driver_picks_up : user.role ≡ delivery → MayEdit user order picked_up
  driver_delivers :
      (d : User)
      → user.role ≡ delivery
      → order.driver ≡ some d
      → d.id ≡ user.id
      → MayEdit user order delivered

module _ (user : User) (order : Order) where
  owner_sound :
      (status : OrderStatus) (r : Option Restaurant) (o' : Order)
      → user.role ≡ owner
      → order.restaurant ≡ r
      → edit_as owner user status (record order { restaurant = r }) ≡ ok o'
      → MayEdit user order status
  unfolding edit_as
  owner_sound status none o' role joined h = absurd (cc)
  owner_sound cooking (some r) o' role joined h =
      owner_cooks r role joined ((eq_iff r.owner_id user.id).0 (ground arith))
  owner_sound cooked (some r) o' role joined h =
      owner_cooked r role joined ((eq_iff r.owner_id user.id).0 (ground arith))
  owner_sound pending (some r) o' role joined h = absurd (ground arith)
  owner_sound picked_up (some r) o' role joined h = absurd (ground arith)
  owner_sound delivered (some r) o' role joined h = absurd (ground arith)

  driver_sound :
      (status : OrderStatus) (d : Option User) (o' : Order)
      → user.role ≡ delivery
      → order.driver ≡ d
      → edit_as delivery user status (record order { driver = d }) ≡ ok o'
      → MayEdit user order status
  unfolding edit_as
  driver_sound picked_up d o' role e h = driver_picks_up role
  driver_sound delivered none o' role e h = absurd (cc)
  driver_sound delivered (some d) o' role e h =
      driver_delivers d role e ((eq_iff d.id user.id).0 (ground arith))
  driver_sound pending d o' role e h = absurd (cc)
  driver_sound cooking d o' role e h = absurd (cc)
  driver_sound cooked d o' role e h = absurd (cc)

  MayEdit-sound :
      (role : Role) (status : OrderStatus) (o' : Order)
      → user.role ≡ role
      → edit_as role user status order ≡ ok o'
      → MayEdit user order status
  unfolding edit_as
  MayEdit-sound client status o' e h = absurd (cc)
  MayEdit-sound owner status o' e h = owner_sound status order.restaurant o' e refl h
  MayEdit-sound delivery status o' e h = driver_sound status order.driver o' e refl h

owner_cooked_restaurant :
    (user : User) (o checked : Order) (r : Option Restaurant)
    → o.restaurant ≡ r
    → edit_as_owner user cooked o r ≡ ok checked
    → (r : Restaurant) × (checked.restaurant ≡ some r)
unfolding edit_as_owner
owner_cooked_restaurant user o checked none joined h = absurd (cc)
owner_cooked_restaurant user o checked (some r) joined h =
    let same : o ≡ checked = ground arith in (r, ap (λ x. x.restaurant) (sym same) ∙ joined)

-- only an owner whose restaurant was joined can ask for Cooked
pub cooked_restaurant :
    (user : User) (o checked : Order)
    → check_edit user cooked o ≡ ok checked
    → (r : Restaurant) × (checked.restaurant ≡ some r)
unfolding check_edit
cooked_restaurant user o checked h = go user.role h
  where
    go :
        (role : Role)
        → edit_as role user cooked o ≡ ok checked
        → (r : Restaurant) × (checked.restaurant ≡ some r)
    go client k = absurd (cc)
    go owner k = owner_cooked_restaurant user o checked o.restaurant refl k
    go delivery k = absurd (cc)

-- the order that passes: a driver who picks it up becomes its driver
abbrev pub new_driver : User → OrderStatus → Option User → Option User
new_driver user picked_up d = some user
new_driver user _ d = d

abbrev pub assigned : User → OrderStatus → Order → Order
assigned user status o = record o { driver = new_driver user status o.driver }

owner_passes :
    (user : User) (order : Order) (r : Restaurant)
    → r.owner_id ≡ user.id
    → (status : OrderStatus) → (status ≡ cooking) ⊎ (status ≡ cooked)
    → edit_as_owner user status order (some r) ≡ ok order
unfolding edit_as_owner
owner_passes user order r mine status h = ground (arith, eq_iff r.owner_id user.id)

driver_passes :
    (user : User) (order : Order) (d : User)
    → order.driver ≡ some d
    → d.id ≡ user.id
    → edit_as_driver user delivered order ≡ ok order
unfolding edit_as_driver
driver_passes user order d driving mine = ground (arith, eq_iff d.id user.id)

MayEdit-complete :
    (user : User) (order : Order) (status : OrderStatus)
    → MayEdit user order status
    → check_edit user status order ≡ ok (assigned user status order)
unfolding check_edit
MayEdit-complete user order pending m = elim m [ ]
MayEdit-complete user order cooking (owner_cooks r role joined mine) =
    ap (λ x. edit_as x user cooking order) role
    ∙ ap (edit_as_owner user cooking order) joined
    ∙ owner_passes user order r mine cooking (inl refl)
MayEdit-complete user order cooked (owner_cooked r role joined mine) =
    ap (λ x. edit_as x user cooked order) role
    ∙ ap (edit_as_owner user cooked order) joined
    ∙ owner_passes user order r mine cooked (inr refl)
MayEdit-complete user order picked_up (driver_picks_up role) =
    ap (λ x. edit_as x user picked_up order) role
MayEdit-complete user order delivered (driver_delivers d role driving mine) =
    ap (λ x. edit_as x user delivered order) role ∙ driver_passes user order d driving mine

-- `editOrderStatus` passes its checks exactly by the rules.
pub check_edit_iff :
    (user : User) (order : Order) (status : OrderStatus)
    → ((o' : Order) × (check_edit user status order ≡ ok o')) ↔ MayEdit user order status
unfolding check_edit
check_edit_iff user order status = (
  (λ h. MayEdit-sound user order user.role status h.0 refl h.1),
  (λ m. (assigned user status order, MayEdit-complete user order status m)),
)

pub check_edit-assigned :
    (user : User) (order o' : Order) (status : OrderStatus)
    → check_edit user status order ≡ ok o'
    → o' ≡ assigned user status order
check_edit-assigned user order o' status h =
    let e = MayEdit-complete user order status ((check_edit_iff user order status).0 (o', h)) in cc
