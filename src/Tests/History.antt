-- ===== src/Tests/History.antt =====
-- A pick-up as a sequence of one call.
use mathlib.Core.Bool.{false≢true}
use coupang_eats_backend_v.Base.{String, ◌≡◌, ◌≢◌, refl, some, eq_iff}
use coupang_eats_backend_v.Http.{ok}
use coupang_eats_backend_v.Entity.{picked_up, order_entity, user_entity}
use coupang_eats_backend_v.Packages.Memory.{memory, memory_laws, memory_row}
use coupang_eats_backend_v.World.Memory.{transactions, transactions_laws}
use coupang_eats_backend_v.Orders.History.{
  IsDriven, at_restaurant, no_edit, next_edit, Continues, Edits-Continues,
}
use coupang_eats_backend_v.Tests.Ordering.{picked_order, picked_world, picked_returned}
use coupang_eats_backend_v.Tests.Data.{dan, first, start}

named : ◌≢◌ {A = String} "first" ""
named same = false≢true ((eq_iff "first" "").1 same)

first_row : memory_row order_entity "first" start.orders ≡ some first
unfolding memory_row
first_row = refl

Edits-Continues_example :
    (c : Continues memory (transactions memory) first "first" picked_world) × IsDriven c.after
Edits-Continues_example =
    Edits-Continues memory (transactions memory) (transactions_laws memory)
      (memory_laws user_entity) (memory_laws order_entity) start picked_world "first" first
      (next_edit dan "first" picked_up (ok picked_order) start picked_world picked_world named
        picked_returned (no_edit picked_world))
      first_row (at_restaurant refl)
