-- ===== src/Tests/Serving.antt =====
-- Menus, pages, lists of orders and the nightly job on the data in memory.
use mathlib.Core.Bool.{false≢true}
use native.Mathlib.Omega.{arith}
use coupang_eats_backend_v.Base.{
  ℕ, ◌⊎◌, map, ◌∙◌, sym, ap, pos, String, ◌≡◌, ◌≢◌, ◌↔◌, refl, Bool, true, false, none, some, List,
  [], ◌∷◌, eq_iff, Memᴰ, length,
}
use coupang_eats_backend_v.Http.{Result, ok, err, query_failed}
use coupang_eats_backend_v.Entity.{
  Dish, Order, dish_entity, restaurant_entity, order_entity, user_entity,
}
use coupang_eats_backend_v.Packages.{HasNoTies}
use coupang_eats_backend_v.Packages.Memory.{
  MemoryTable, memory, memory_laws, memory_row, memory_find, memory_find_one, memory_save, rows_at,
}
use coupang_eats_backend_v.World.{World, save, soft_delete}
use coupang_eats_backend_v.Pagination.{
  PaginationRequest, has_next, get_has_next, total_pages, build, set_data, set_page, set_limit,
  set_total_count,
}
use coupang_eats_backend_v.Pagination.Pages.{
  has_next-get_has_next, paginate-everything, pages, page_of, everything,
}
use coupang_eats_backend_v.Repository.{
  no_relations, find_many_with_omit_not_joined_props, find_one_with_omit_not_joined_props_or_throw,
  paginate,
}
use coupang_eats_backend_v.Dishes.Service.{UpdateDishDto, merge_dish, update_dish, delete_dish}
use coupang_eats_backend_v.Dishes.Laws.{Removed, Revised, delete_dish-Removed, update_dish-Revised}
use coupang_eats_backend_v.Orders.Service.{handle_cron, is_stale}
use coupang_eats_backend_v.Orders.Cleaning.{Cleaned, handle_cron-Cleaned}
use coupang_eats_backend_v.Orders.Queries.{get_orders, get_orders_as, may_see}
use coupang_eats_backend_v.Orders.Visible.{MaySee, may_see_iff, Opens, get_orders-Opens}
use coupang_eats_backend_v.Tests.Data.{
  alice, olga, dan, diner, soup, first, second, start, table_of,
}

named : ◌≢◌ {A = String} "soup" ""
named same = false≢true ((eq_iff "soup" "").1 same)

abbrev dearer : UpdateDishDto
dearer = record {
  name = none;
  price = some (pos 8);
  description = none;
  photo = none;
  options = none;
  undeclared = λ d. d;
}

abbrev revised : Result Dish × World memory
revised = update_dish memory olga "diner" "soup" dearer start

abbrev dearer_soup : Dish
dearer_soup = record soup { price = pos 8; restaurant = some diner }

revised_returned : revised ≡ (ok dearer_soup, revised.1)
unfolding update_dish merge_dish save memory_row memory_find_one memory_save rows_at
    find_one_with_omit_not_joined_props_or_throw
revised_returned = refl

update_dish-Revised_example :
    Revised memory
      (memory_laws dish_entity)
      (memory_laws restaurant_entity)
      olga
      "soup"
      start
      "diner"
      dearer
      revised.1
update_dish-Revised_example =
    update_dish-Revised memory (memory_laws dish_entity) (memory_laws restaurant_entity) olga "soup"
      start "diner" dearer dearer_soup revised.1 named (λ d. refl) revised_returned

abbrev removed : Result (Unit {0}) × World memory
removed = delete_dish memory olga "soup" start

removed_returned : removed ≡ (ok tt, removed.1)
unfolding delete_dish soft_delete memory_row memory_find_one rows_at
    find_one_with_omit_not_joined_props_or_throw
removed_returned = refl

no_soup_left :
    Removed memory
      (memory_laws dish_entity)
      (memory_laws restaurant_entity)
      olga
      "soup"
      start
      removed.1
no_soup_left =
    delete_dish-Removed memory (memory_laws dish_entity) (memory_laws restaurant_entity) olga "soup"
      start removed.1 removed_returned

has_next-get_has_next_example :
    has_next (record { total = 11; list = first ∷ second ∷ []; page = 1; limit = 10 })
    ≡ get_has_next (record { page = 1; limit = 10 }) 11
has_next-get_has_next_example = has_next-get_has_next (first ∷ second ∷ []) 11 1 10 (omega arith)

-- a second order of another time
abbrev later_order : Order
later_order = record second {
  base = record { id = "second"; created_at = 200; updated_at = 200; deleted_at = none };
}

abbrev two_orders : MemoryTable Order
two_orders = table_of (first ∷ later_order ∷ [])

abbrev page_two : PaginationRequest
page_two = record { page = 2; limit = 1 }

abbrev any_order : Order → Bool
any_order o = true

no_third_page :
    has_next
      (page_of memory order_entity (memory_laws order_entity) any_order no_relations two_orders 1 2)
    ≡ false
unfolding has_next total_pages paginate build set_data set_page set_limit set_total_count memory_row
    memory_find rows_at
no_third_page = refl

untied :
    HasNoTies order_entity
      (everything memory order_entity (memory_laws order_entity) any_order no_relations two_orders)
unfolding memory_find rows_at memory_row
untied a b (Memᴰ.head p) (Memᴰ.head q) e = p ∙ sym q
untied a b (Memᴰ.head p) (Memᴰ.tail (Memᴰ.head q)) e = absurd (
    let f : 100 ≡ 200 = ap (λ x. x.created_at) (sym p) ∙ e ∙ ap (λ x. x.created_at) q in
    omega (arith, f))
untied a b (Memᴰ.tail (Memᴰ.head p)) (Memᴰ.head q) e = absurd (
    let f : 200 ≡ 100 = ap (λ x. x.created_at) (sym p) ∙ e ∙ ap (λ x. x.created_at) q in
    omega (arith, f))
untied a b (Memᴰ.tail (Memᴰ.head p)) (Memᴰ.tail (Memᴰ.head q)) e = p ∙ sym q
untied a b (Memᴰ.head p) (Memᴰ.tail (Memᴰ.tail m)) e = elim m [ ]
untied a b (Memᴰ.tail (Memᴰ.head p)) (Memᴰ.tail (Memᴰ.tail m)) e = elim m [ ]
untied a b (Memᴰ.tail (Memᴰ.tail m)) _ e = elim m [ ]

paginate-everything_example :
    ((page_of memory order_entity
        (memory_laws order_entity)
        any_order
        no_relations
        two_orders
        1
        2).total
      ≡ length (
          everything memory order_entity
            (memory_laws order_entity)
            any_order
            no_relations
            two_orders))
    × (pages memory order_entity (memory_laws order_entity) any_order no_relations two_orders 1 2
        ≡ map no_relations (
            everything memory order_entity
              (memory_laws order_entity)
              any_order
              no_relations
              two_orders))
paginate-everything_example =
    paginate-everything memory order_entity (memory_laws order_entity) any_order no_relations
      two_orders untied 1 1 (omega arith) no_third_page

handle_cron-Cleaned_example :
    ((n : ℕ) × ((handle_cron memory 90000000 start).0 ≡ ok n)
      × Cleaned memory 90000000 start (handle_cron memory 90000000 start).1)
    ⊎ ((memory.delete (is_stale memory 90000000) start.orders ≡ none)
        × (handle_cron memory 90000000 start ≡ (err query_failed, start)))
handle_cron-Cleaned_example = handle_cron-Cleaned memory (memory_laws order_entity) 90000000 start

may_see_iff_example : (may_see memory dan second ≡ ok tt) ↔ MaySee dan second
may_see_iff_example = may_see_iff memory dan second

abbrev listed : List Order
listed = record first { restaurant = some diner } ∷ record second { restaurant = some diner } ∷ []

listed_returned : get_orders memory alice start ≡ (ok listed, start)
unfolding get_orders get_orders_as memory_row memory_find rows_at
    find_many_with_omit_not_joined_props
listed_returned = refl

get_orders-Opens_example :
    Opens memory
      (memory_laws order_entity)
      (memory_laws user_entity)
      (memory_laws restaurant_entity)
      alice
      start
      (record second { restaurant = some diner })
get_orders-Opens_example =
    get_orders-Opens memory (memory_laws order_entity) (memory_laws user_entity)
      (memory_laws restaurant_entity) alice start listed start
      (record second { restaurant = some diner }) listed_returned (Memᴰ.tail (Memᴰ.head refl))
