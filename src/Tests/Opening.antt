-- ===== src/Tests/Opening.antt =====
-- Opening and changing a restaurant on the data in memory.
use mathlib.Core.Bool.{false≢true}
use coupang_eats_backend_v.Base.{pos, String, ◌≡◌, ◌≢◌, refl, false, none, some, eq_iff}
use coupang_eats_backend_v.Http.{Result, ok}
use coupang_eats_backend_v.Entity.{Restaurant, restaurant_entity, category_entity}
use coupang_eats_backend_v.Packages.Memory.{
  memory, memory_laws, memory_row, memory_find_one, memory_save, rows_at,
}
use coupang_eats_backend_v.World.{World, save}
use coupang_eats_backend_v.World.Memory.{transactions, transactions_laws}
use coupang_eats_backend_v.Repository.{find_by_id_or_throw, find_one_by_filters}
use coupang_eats_backend_v.Restaurants.Service.{
  CreateRestaurantDto, UpdateRestaurantDto, new_restaurant, restaurant_to_entity, merge_restaurant,
  create_restaurant_body, create_restaurant, update_restaurant_body, update_restaurant,
}
use coupang_eats_backend_v.Restaurants.Laws.{
  Opened, Changed, create_restaurant-Opened, update_restaurant-Changed,
}
use coupang_eats_backend_v.Tests.Data.{olga, snacks, diner, start}

abbrev kiosk : CreateRestaurantDto
kiosk = record {
  name = "Kiosk";
  cover_img = "";
  address = "Station";
  category_id = "snacks";
  delivery_fee = pos 2;
  minimum_price = pos 5;
  undeclared = new_restaurant;
}

abbrev opening : Result Restaurant × World memory
opening = create_restaurant memory (transactions memory) olga kiosk start

abbrev opened : Restaurant
opened = record {
  base = record { id = "u"; created_at = 0; updated_at = 0; deleted_at = none };
  name = "Kiosk";
  cover_img = "";
  address = "Station";
  delivery_fee = pos 2;
  minimum_price = pos 5;
  is_promoted = false;
  promoted_until = none;
  owner_id = "olga";
  category_id = some "snacks";
  category = some snacks;
}

was_opened : opening ≡ (ok opened, opening.1)
unfolding create_restaurant create_restaurant_body restaurant_to_entity save memory_row
    memory_find_one memory_save rows_at find_one_by_filters
was_opened = refl

create_restaurant-Opened_example : Opened memory olga kiosk start opened opening.1.restaurants
create_restaurant-Opened_example =
    create_restaurant-Opened memory (memory_laws restaurant_entity) (memory_laws category_entity)
      (transactions memory) (transactions_laws memory) olga start kiosk opened opening.1 was_opened

abbrev cheaper : UpdateRestaurantDto
cheaper = record {
  name = none;
  cover_img = none;
  address = none;
  category_id = some "snacks";
  delivery_fee = some (pos 1);
  minimum_price = none;
  undeclared = λ r. r;
}

abbrev changing : Result Restaurant × World memory
changing = update_restaurant memory (transactions memory) olga "diner" cheaper start

abbrev changed : Restaurant
changed = record diner { delivery_fee = pos 1; category_id = some "snacks" }

was_changed : changing ≡ (ok changed, changing.1)
unfolding update_restaurant update_restaurant_body merge_restaurant save memory_row memory_find_one
    memory_save rows_at find_by_id_or_throw
was_changed = refl

named : ◌≢◌ {A = String} "diner" ""
named same = false≢true ((eq_iff "diner" "").1 same)

update_restaurant-Changed_example : Changed memory olga "diner" cheaper start changing.1.restaurants
update_restaurant-Changed_example =
    update_restaurant-Changed memory (memory_laws restaurant_entity) (memory_laws category_entity)
      (transactions memory) (transactions_laws memory) olga start "diner" cheaper changed changing.1
      named (λ r. refl) was_changed
