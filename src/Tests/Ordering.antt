-- ===== src/Tests/Ordering.antt =====
-- Placing and editing orders on the data in memory.
use coupang_eats_backend_v.Base.{
  ℕ, String, ◌≡◌, refl, none, some, [], ◌∷◌, ◌≢◌, ◌↔◌, eq_iff, pos, ◌+ℤ◌,
}
use mathlib.Core.Bool.{false≢true}
use coupang_eats_backend_v.Http.{Result, ok, err, not_found, forbidden}
use coupang_eats_backend_v.Entity.{
  Order, pending, picked_up, cooking, order_entity, user_entity, dish_entity, restaurant_entity,
  order_item_entity,
}
use coupang_eats_backend_v.Packages.Memory.{
  memory, memory_laws, memory_row, memory_find, memory_find_one, memory_save, rows_at,
}
use coupang_eats_backend_v.World.{World, save}
use coupang_eats_backend_v.World.Memory.{transactions, transactions_laws}
use coupang_eats_backend_v.Repository.{
  find_by_id_or_throw, find_many_with_omit_not_joined_props,
  find_one_with_omit_not_joined_props_or_throw,
}
use coupang_eats_backend_v.Orders.Dto.{
  CreateOrderDto, order_to_entity, add_options, process_order_item, process_items, item_to_entity,
}
use coupang_eats_backend_v.Orders.Service.{
  insert_items, save_order, create_order_body, create_order, edit_as_driver, edit_as, check_edit,
  edit_order_status_body, edit_order_status,
}
use coupang_eats_backend_v.Orders.Permission.{MayEdit, driver_picks_up, check_edit_iff}
use coupang_eats_backend_v.Orders.Editing.{Edited, edited}
use coupang_eats_backend_v.Orders.EditOutcome.{edit_order_status-Edited}
use coupang_eats_backend_v.Orders.EditReturns.{edit_order_status_returns, pick_up_takes_over}
use coupang_eats_backend_v.Orders.Placing.{Placed}
use coupang_eats_backend_v.Orders.PlaceOutcome.{create_order-Placed, create_order_throws, Refusal}
use coupang_eats_backend_v.Events.Gateway.{
  DriverLocation, handle_join_user_room, handle_join_order_room, handle_driver_location, receives,
}
use coupang_eats_backend_v.Events.Delivery.{Told, create_order-Told, handle_driver_location-heard}
use coupang_eats_backend_v.Tests.Data.{alice, dan, diner, soup, large, first, start}

abbrev pub lunch : CreateOrderDto
lunch = record {
  restaurant_id = "diner";
  items = record { dish_id = "soup"; options = some (large ∷ []) } ∷ [];
}

abbrev ordered : Result Order × World memory
ordered = create_order memory (transactions memory) alice lunch start

abbrev pub picked : Result Order × World memory
picked = edit_order_status memory (transactions memory) dan "first" picked_up start

abbrev pub picked_order : Order
picked_order = record first { restaurant = some diner; driver = some dan; status = picked_up }

abbrev pub picked_world : World memory
picked_world = picked.1

pub picked_returned : picked ≡ (ok picked_order, picked_world)
unfolding edit_order_status edit_order_status_body check_edit edit_as edit_as_driver save save_order
    insert_items memory_row memory_find_one memory_save rows_at
    find_one_with_omit_not_joined_props_or_throw
picked_returned = refl

named : ◌≢◌ {A = String} "first" ""
named same = false≢true ((eq_iff "first" "").1 same)

check_edit_iff_example :
    ((o' : Order) × (check_edit dan picked_up first ≡ ok o')) ↔ MayEdit dan first picked_up
check_edit_iff_example = check_edit_iff dan first picked_up

edit_order_status-Edited_example : Edited memory dan "first" picked_up start picked_world
edit_order_status-Edited_example =
    edit_order_status-Edited memory (memory_laws user_entity) (memory_laws order_entity)
      (transactions memory) (transactions_laws memory) dan "first" picked_up start picked_world
      picked_order named picked_returned

-- a client may not change an order
refused :
    edit_order_status memory (transactions memory) alice "first" cooking start
    ≡ (err (forbidden "Client cannot change order status"), start)
unfolding edit_order_status edit_order_status_body check_edit edit_as memory_row memory_find_one
    rows_at find_one_with_omit_not_joined_props_or_throw
refused = refl

-- the write of the pick-up
abbrev saving : Result Order × World memory
saving =
    save_order memory
      (edited memory (memory_laws user_entity) (memory_laws order_entity) dan picked_up start first)
      start

saving_done : saving ≡ (ok picked_order, saving.1)
unfolding save save_order insert_items memory_row memory_save
saving_done = refl

first_row : memory_row order_entity "first" start.orders ≡ some first
unfolding memory_row
first_row = refl

edit_order_status_returns_example :
    (w' : World memory) × (edit_order_status memory
        (transactions memory)
        dan
        "first"
        picked_up
        start
      ≡ (ok picked_order, w'))
edit_order_status_returns_example =
    edit_order_status_returns memory (transactions memory) (transactions_laws memory)
      (memory_laws user_entity) (memory_laws order_entity) dan "first" picked_up start saving.1
      first picked_order first_row (driver_picks_up refl) saving_done

pick_up_takes_over_example :
    (w' : World memory) × (r' : Order) × (edit_order_status memory
        (transactions memory)
        dan
        "first"
        picked_up
        start
      ≡ (ok picked_order, w'))
    × (memory_row order_entity "first" w'.orders ≡ some r')
    × (r'.status ≡ picked_up)
    × (r'.driver_id ≡ some "dan")
pick_up_takes_over_example =
    pick_up_takes_over memory (transactions memory) (transactions_laws memory)
      (memory_laws user_entity) (memory_laws order_entity) dan "first" start saving.1 first
      picked_order named refl first_row saving_done

abbrev pub ordered_order : Order
ordered_order = record {
  base = record { id = "u"; created_at = 0; updated_at = 0; deleted_at = none };
  total = some (pos 12);
  total_count = none;
  status = pending;
  customer_id = none;
  customer = some alice;
  driver_id = none;
  driver = none;
  restaurant_id = some "diner";
  restaurant = some diner;
  items =
      record {
        base = record { id = "uu"; created_at = 0; updated_at = 0; deleted_at = none };
        dish = some soup;
        dish_name = some "Soup";
        options = some (large ∷ []);
        order_id = some "u";
      }
      ∷ [];
}

ordered_returned : ordered ≡ (ok ordered_order, ordered.1)
unfolding create_order create_order_body order_to_entity add_options process_order_item
    process_items item_to_entity save save_order insert_items memory_row memory_find memory_find_one
    memory_save rows_at find_by_id_or_throw find_many_with_omit_not_joined_props ◌+ℤ◌
ordered_returned = refl

create_order-Placed_example : Placed memory alice lunch start ordered_order ordered.1
create_order-Placed_example =
    create_order-Placed memory (transactions memory) (transactions_laws memory)
      (memory_laws order_entity) (memory_laws order_item_entity) (memory_laws dish_entity)
      (memory_laws restaurant_entity) alice lunch start ordered.1 ordered_order ordered_returned

-- a dish that does not exist
abbrev pie : CreateOrderDto
pie = record { restaurant_id = "diner"; items = record { dish_id = "pie"; options = none } ∷ [] }

pie_refused :
    create_order memory (transactions memory) alice pie start
    ≡ (err (not_found "Dish not found: pie"), start)
unfolding create_order create_order_body process_items memory_row memory_find memory_find_one
    rows_at find_by_id_or_throw find_many_with_omit_not_joined_props ◌+ℤ◌
pie_refused = refl

create_order_throws_example :
    Refusal memory
      (transactions memory)
      (transactions_laws memory)
      (memory_laws order_entity)
      (memory_laws order_item_entity)
      (memory_laws dish_entity)
      (memory_laws restaurant_entity)
      alice
      pie
      start
      start
      (not_found "Dish not found: pie")
    × (start.db ≡ start.db)
    × (start.emitted ≡ start.emitted)
    × (start.on_commit ≡ [])
create_order_throws_example =
    create_order_throws memory (transactions memory) (transactions_laws memory)
      (memory_laws order_entity) (memory_laws order_item_entity) (memory_laws dish_entity)
      (memory_laws restaurant_entity) alice pie start start (not_found "Dish not found: pie")
      pie_refused

diner_row : memory_row restaurant_entity "diner" start.restaurants ≡ some diner
unfolding memory_row
diner_row = refl

create_order-Told_example :
    Told memory
      (transactions memory)
      (transactions_laws memory)
      (memory_laws order_entity)
      (memory_laws order_item_entity)
      (memory_laws dish_entity)
      (memory_laws restaurant_entity)
      (handle_join_user_room "socket" (record { user_id = "olga"; role = "Owner" }) [])
      "socket"
      ordered_order
      ordered.1
create_order-Told_example =
    create_order-Told memory (transactions memory) (transactions_laws memory)
      (memory_laws order_entity) (memory_laws order_item_entity) (memory_laws dish_entity)
      (memory_laws restaurant_entity) alice lunch start ordered.1 ordered_order diner "socket" []
      diner_row ordered_returned

abbrev nearby : DriverLocation ℕ
nearby = record { order_id = "first"; lat = 37; lng = 127 }

other_socket : ◌≢◌ {A = String} "alice" "dan"
other_socket same = false≢true ((eq_iff "alice" "dan").1 same)

stranger_socket : ◌≢◌ {A = String} "alice" "bob"
stranger_socket same = false≢true ((eq_iff "alice" "bob").1 same)

handle_driver_location-heard_example :
    (receives ℕ
        (handle_join_order_room "alice" "first" [])
        (handle_driver_location ℕ "dan" nearby)
        "alice"
      ≡ some ("driverLocation", record { lat = 37; lng = 127 }))
    × (receives ℕ
          (handle_join_order_room "alice" "first" [])
          (handle_driver_location ℕ "dan" nearby)
          "bob"
        ≡ none)
handle_driver_location-heard_example =
    handle_driver_location-heard ℕ [] "dan" "alice" "bob" nearby other_socket stranger_socket refl
