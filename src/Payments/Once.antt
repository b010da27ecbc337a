-- ===== src/Payments/Once.antt =====
-- The ways in which `processPayment` can end.
use coupang_eats_backend_v.Base.{
  String, ◌≡◌, true, false, Option, none, some, is_text, ◌<>◌, Option-cases, Bool-cases, inl, inr,
}
use coupang_eats_backend_v.Http.{Result, err, bad_request, not_found}
use coupang_eats_backend_v.Entity.{User, Order, Payment, order_entity, payment_entity}
use coupang_eats_backend_v.Packages.{Packages, PackageLaws, unsorted}
use coupang_eats_backend_v.Repository.{find_one_by_filters}
use coupang_eats_backend_v.Repository.Laws.{find_by_id_or_throw-row}
use coupang_eats_backend_v.World.{World, payment_table, save}
use coupang_eats_backend_v.Payments.Service.{
  CreatePaymentDto, payment_to_entity, pays_for, process_payment,
}

module _ (p : Packages) where
  abbrev pub existing : String → World p → Option Payment
  existing id w = find_one_by_filters p (pays_for p id) unsorted w.payments

  -- every way in which `processPayment` can end
  pub data PayRun (user : User) (dto : CreatePaymentDto) (w : World p)
      : Result Payment × World p → Type 0 where
    no_order :
        p.row dto.order_id w.orders ≡ none
        → PayRun user dto w (err (not_found ("don't exist " <> dto.order_id)), w)
    not_mine :
        (o : Order)
        → p.row dto.order_id w.orders ≡ some o
        → is_text o.customer_id user.id ≡ false
        → PayRun user dto w (err (bad_request "You cannot pay for this order."), w)
    paid :
        (o : Order) (y : Payment)
        → p.row dto.order_id w.orders ≡ some o
        → existing o.id w ≡ some y
        → PayRun user dto w (err (bad_request "Order is already paid."), w)
    tried :
        (o : Order)
        → p.row dto.order_id w.orders ≡ some o
        → is_text o.customer_id user.id ≡ true
        → existing o.id w ≡ none
        → PayRun user dto w (save p (payment_table p) (payment_to_entity dto user o) w)

  module _ (orders : PackageLaws p order_entity) (user : User) (dto : CreatePaymentDto)
      (w : World p) where
    pub pay-PayRun : PayRun user dto w (process_payment p user dto w)
    unfolding process_payment
    pay-PayRun = elim (Option-cases (p.row dto.order_id w.orders)) [
      | inl missing ↦
          rw (find_by_id_or_throw-row p order_entity orders dto.order_id w.orders, missing)
            (no_order missing)
      | inr (o, found) ↦
          rw (find_by_id_or_throw-row p order_entity orders dto.order_id w.orders, found)
            (elim (Bool-cases (is_text o.customer_id user.id)) [
              | inr other ↦ rw other (not_mine o found other)
              | inl mine ↦ rw mine (elim (Option-cases (existing o.id w)) [
                | inl unpaid ↦ rw unpaid (tried o found mine unpaid)
                | inr (y, had) ↦ rw had (paid o y found had)
              ])
            ])
    ]
