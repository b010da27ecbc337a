-- ===== src/Tests/Paying.antt =====
-- Paying for an order on the data in memory.
use coupang_eats_backend_v.Base.{◌≡◌, refl, none, some, none-ne-some}
use coupang_eats_backend_v.Http.{Result, ok, err, bad_request}
use coupang_eats_backend_v.Entity.{Payment, payment_entity, order_entity}
use coupang_eats_backend_v.Packages.Memory.{
  memory, memory_laws, memory_row, memory_find_one, memory_save, rows_at,
}
use coupang_eats_backend_v.World.{World, save}
use coupang_eats_backend_v.Repository.{find_by_id_or_throw, find_one_by_filters}
use coupang_eats_backend_v.Payments.Service.{
  CreatePaymentDto, new_payment, payment_to_entity, process_payment,
}
use coupang_eats_backend_v.Payments.Laws.{IsUnique, process_payment-IsUnique}
use coupang_eats_backend_v.Payments.Paying.{Paid, process_payment-Paid, process_payment_again}
use coupang_eats_backend_v.Tests.Data.{alice, first, start}

abbrev paying : CreatePaymentDto
paying = record { transaction_id = "t1"; order_id = "first"; undeclared = new_payment }

abbrev paying_again : CreatePaymentDto
paying_again = record { transaction_id = "t2"; order_id = "first"; undeclared = new_payment }

abbrev paid : Result Payment × World memory
paid = process_payment memory alice paying start

abbrev payment : Payment
payment = record {
  base = record { id = "u"; created_at = 0; updated_at = 0; deleted_at = none };
  transaction_id = "t1";
  user_id = none;
  user = some alice;
  restaurant_id = some "diner";
  restaurant = none;
  order_id = some "first";
  order = some first;
}

paid_returned : paid ≡ (ok payment, paid.1)
unfolding process_payment payment_to_entity save memory_row memory_find_one memory_save rows_at
    find_by_id_or_throw find_one_by_filters
paid_returned = refl

start-IsUnique : IsUnique memory start.payments
unfolding memory_row
start-IsUnique i j k a b at_i at_j pays_a pays_b = absurd (none-ne-some at_i)

process_payment-IsUnique_example : IsUnique memory paid.1.payments
process_payment-IsUnique_example =
    process_payment-IsUnique memory (memory_laws payment_entity) (memory_laws order_entity) alice
      paying start start-IsUnique

process_payment-Paid_example : Paid memory alice paying start payment paid.1
process_payment-Paid_example =
    process_payment-Paid memory (memory_laws payment_entity) (memory_laws order_entity) alice paying
      start paid.1 payment paid_returned

process_payment_again_example :
    process_payment memory alice paying_again paid.1
    ≡ (err (bad_request "Order is already paid."), paid.1)
process_payment_again_example =
    process_payment_again memory (memory_laws payment_entity) (memory_laws order_entity) alice
      paying start paid.1 payment paying_again refl paid_returned
