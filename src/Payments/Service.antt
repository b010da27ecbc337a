-- ===== src/Payments/Service.antt =====
-- `CreatePaymentDto` (src/modules/payment/dto/create-payment.dto.ts) and `processPayment`
-- (src/modules/payment/payment.service.ts).
use coupang_eats_backend_v.Base.{String, Bool, true, false, not, Option, none, some, is_text}
use coupang_eats_backend_v.Http.{bad_request}
use coupang_eats_backend_v.Action.{Action, ◌>>=◌, ◌>>◌, gets, reads, raise_if}
use coupang_eats_backend_v.Entity.{new_entity, User, Order, Payment, order_entity, payment_entity}
use coupang_eats_backend_v.Packages.{Packages, unsorted}
use coupang_eats_backend_v.Repository.{find_by_id_or_throw, find_one_by_filters}
use coupang_eats_backend_v.World.{World, payment_table, save}

pub record CreatePaymentDto : Type 0 where
  pub transaction_id : String
  pub order_id : String
  -- what the properties of the body that the class does not declare set in a `PaymentEntity`: the
  -- validation pipe has no whitelist, so a body may even name the id of a row
  pub undeclared : Payment

-- the entity of a body without such properties
abbrev pub new_payment : Payment
new_payment = record {
  base = new_entity;
  transaction_id = "";
  user_id = none;
  user = none;
  restaurant_id = none;
  restaurant = none;
  order_id = none;
  order = none;
}

-- `CreatePaymentDto.toEntity`: every property of the body, then the relations
unfoldable pub payment_to_entity : CreatePaymentDto → User → Order → Payment
payment_to_entity dto user order = record dto.undeclared {
  transaction_id = dto.transaction_id;
  user = some user;
  restaurant_id = order.restaurant_id;
  order_id = some dto.order_id;
  order = some order;
}

-- truthiness of an entity or null
abbrev pub exists : {E : Type 0} → Option E → Bool
exists none = false
exists (some e) = true

module _ (p : Packages) where
  -- the filter `{ orderId: order.id }`
  abbrev pub pays_for : String → Payment → Bool
  pays_for order_id y = is_text y.order_id order_id

  unfoldable pub process_payment : User → CreatePaymentDto → Action (World p) Payment
  process_payment user dto = do
    order ← reads (λ w. find_by_id_or_throw p dto.order_id w.orders)
    raise_if (not (is_text order.customer_id user.id))
        (bad_request "You cannot pay for this order.")
    existing_payment ← gets (λ w. find_one_by_filters p (pays_for order.id) unsorted w.payments)
    raise_if (exists existing_payment) (bad_request "Order is already paid.")
    save p (payment_table p) (payment_to_entity dto user order)
