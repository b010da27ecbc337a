-- ===== src/Payments/Paying.antt =====
-- A payment that went through, and paying for the same order again.
use coupang_eats_backend_v.Base.{
  String, ◌≡◌, ◌≢◌, refl, sym, ap, ◌∙◌, some, is_text, arith, eq_iff, is_text_iff, is_text_self,
  eq_refl, some_inj, none-ne-some,
}
use mathlib.Core.Bool.{false≢true}
use coupang_eats_backend_v.Http.{Result, ok, err, bad_request}
use coupang_eats_backend_v.Action.{returned_and_threw}
use coupang_eats_backend_v.Entity.{User, Order, Payment, order_entity, payment_entity}
use coupang_eats_backend_v.Packages.{Packages, PackageLaws, unsorted}
use coupang_eats_backend_v.Repository.Laws.{find_one_by_filters-none}
use coupang_eats_backend_v.World.{World, payment_table}
use coupang_eats_backend_v.World.Laws.{save-Saved}
use coupang_eats_backend_v.Payments.Service.{CreatePaymentDto, pays_for, process_payment}
use coupang_eats_backend_v.Payments.Once.{PayRun, pay-PayRun, no_order, not_mine, paid, tried}
use coupang_eats_backend_v.Payments.Laws.{paid_row, paid_order, paid_user}

module _ (p : Packages) where
  pub record Paid (user : User) (dto : CreatePaymentDto) (w : World p) (y : Payment) (w' : World p)
      : Type 0 where
    pub order : Order
    pub after : Payment
    pub found : p.row dto.order_id w.orders ≡ some order
    pub mine : order.customer_id ≡ some user.id
    pub unpaid :
        (i : String) (b : Payment) → p.row i w.payments ≡ some b → b.order_id ≢ some order.id
    pub now : p.row y.id w'.payments ≡ some after
    pub order_id : after.order_id ≡ some order.id
    pub user_id : after.user_id ≡ some user.id
    pub others : (i : String) → i ≢ y.id → p.row i w'.payments ≡ p.row i w.payments
    pub same_orders : w'.orders ≡ w.orders

  module _ (payments : PackageLaws p payment_entity) (orders : PackageLaws p order_entity)
      (user : User) (dto : CreatePaymentDto) (w w' : World p) (y : Payment) where
    pay_outcome :
        (x : Result Payment × World p)
        → PayRun p user dto w x
        → x ≡ (ok y, w')
        → Paid user dto w y w'
    pay_outcome _ (no_order missing) h = absurd (returned_and_threw h refl)
    pay_outcome _ (not_mine o found other) h = absurd (returned_and_threw h refl)
    pay_outcome _ (paid o z found had) h = absurd (returned_and_threw h refl)
    pay_outcome _ (tried o found mine none_yet) h =
        let s = save-Saved p payment_entity (payment_table p) _ y w w' h in
        record {
          order = o;
          after = payment_entity.stored y;
          found = found;
          mine = is_text_iff o.customer_id user.id mine;
          unpaid = λ i b at pays. false≢true (
              sym (
                find_one_by_filters-none p payment_entity payments (pays_for p o.id) unsorted
                  w.payments i b none_yet at)
              ∙ ap (λ x. is_text x o.id) pays
              ∙ is_text_self o.id);
          now = paid_row p payments user dto w w' o y s y.id ∙ ground (arith, eq_refl y.id);
          order_id = paid_order p payments user dto w w' o y s;
          user_id = paid_user p payments user dto w w' o y s;
          others =
              λ i other. paid_row p payments user dto w w' o y s i ∙ ground (arith, eq_iff y.id i);
          same_orders = ap (λ d. d.orders) s.world;
        }

    pub process_payment-Paid : process_payment p user dto w ≡ (ok y, w') → Paid user dto w y w'
    process_payment-Paid h = pay_outcome _ (pay-PayRun p orders user dto w) h

    still_there :
        (dto2 : CreatePaymentDto)
        → dto2.order_id ≡ dto.order_id
        → (d : Paid user dto w y w') → p.row dto2.order_id w'.orders ≡ some d.order
    still_there dto2 same d =
        ap (λ i. p.row i w'.orders) same ∙ ap (p.row dto.order_id) d.same_orders ∙ d.found

    same_order :
        (dto2 : CreatePaymentDto)
        → dto2.order_id ≡ dto.order_id
        → (d : Paid user dto w y w') (o : Order) → p.row dto2.order_id w'.orders ≡ some o
        → o ≡ d.order
    same_order dto2 same d o found = some_inj (sym found ∙ still_there dto2 same d)

    again_outcome :
        (dto2 : CreatePaymentDto)
        → dto2.order_id ≡ dto.order_id
        → Paid user dto w y w'
        → (x : Result Payment × World p) → PayRun p user dto2 w' x
        → x ≡ (err (bad_request "Order is already paid."), w')
    again_outcome dto2 same d _ (no_order missing) =
        absurd (none-ne-some (sym missing ∙ still_there dto2 same d))
    again_outcome dto2 same d _ (not_mine o found other) = absurd (
        false≢true (
          sym other
          ∙ ap (λ x. is_text x user.id)
              (ap (λ x. x.customer_id) (same_order dto2 same d o found) ∙ d.mine)
          ∙ is_text_self user.id))
    again_outcome dto2 same d _ (paid o z found had) = refl
    again_outcome dto2 same d _ (tried o found mine none_yet) = absurd (
        false≢true (
          sym (
            find_one_by_filters-none p payment_entity payments (pays_for p o.id) unsorted
              w'.payments y.id d.after none_yet d.now)
          ∙ ap (λ x. is_text x o.id)
              (d.order_id ∙ ap (λ x. some x.id) (sym (same_order dto2 same d o found)))
          ∙ is_text_self o.id))

    pub process_payment_again :
        (dto2 : CreatePaymentDto)
        → dto2.order_id ≡ dto.order_id
        → process_payment p user dto w ≡ (ok y, w')
        → process_payment p user dto2 w' ≡ (err (bad_request "Order is already paid."), w')
    process_payment_again dto2 same h =
        again_outcome dto2 same (process_payment-Paid h) _ (pay-PayRun p orders user dto2 w')
