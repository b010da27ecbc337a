-- ===== src/Tests/Data.antt =====
-- Three users, a restaurant with two dishes, and a world in memory.
use coupang_eats_backend_v.Base.{
  pos, String, true, false, Option, none, some, List, [], ◌∷◌, map, find, ◌==◌,
}
use coupang_eats_backend_v.Entity.{
  UuidEntity, User, Role, client, owner, delivery, Restaurant, Category, Dish, DishOption, Order,
  OrderStatus, pending, delivered, Review, Entity, user_entity, category_entity, restaurant_entity,
  dish_entity, order_entity, payment_entity, review_entity,
}
use coupang_eats_backend_v.Packages.Memory.{memory, MemoryTable}
use coupang_eats_backend_v.World.{World}

abbrev pub base_of : String → UuidEntity
base_of id = record { id = id; created_at = 100; updated_at = 100; deleted_at = none }

abbrev pub user_of : String → Role → User
user_of id role = record {
  base = base_of id;
  email = id;
  password = "secret";
  name = id;
  role = role;
  verified = true;
}

abbrev pub alice : User
alice = user_of "alice" client

abbrev pub olga : User
olga = user_of "olga" owner

abbrev pub dan : User
dan = user_of "dan" delivery

abbrev pub snacks : Category
snacks = record { base = base_of "snacks"; name = "Snacks"; cover_img = none; slug = "snacks" }

abbrev pub diner : Restaurant
diner = record {
  base = base_of "diner";
  name = "Diner";
  cover_img = "";
  address = "Main Street";
  delivery_fee = pos 3;
  minimum_price = pos 10;
  is_promoted = false;
  promoted_until = none;
  owner_id = "olga";
  category_id = none;
  category = none;
}

abbrev pub large : DishOption
large = record { name = "large"; extra = pos 2; choices = none }

abbrev pub soup : Dish
soup = record {
  base = base_of "soup";
  name = "Soup";
  price = pos 7;
  photo = none;
  description = "A warm soup";
  options = some (large ∷ []);
  restaurant_id = "diner";
  restaurant = none;
}

abbrev pub order_of : String → OrderStatus → Option String → Order
order_of id status driver_id = record {
  base = base_of id;
  total = some (pos 12);
  total_count = none;
  status = status;
  customer_id = some "alice";
  customer = none;
  driver_id = driver_id;
  driver = none;
  restaurant_id = some "diner";
  restaurant = none;
  items = [];
}

abbrev pub first : Order
first = order_of "first" pending none

abbrev pub second : Order
second = order_of "second" delivered (some "dan")

abbrev pub praise : Review
praise = record {
  base = base_of "praise";
  score = 4;
  review_text = "Good soup";
  review_img = none;
  client_id = some "alice";
  client = none;
  restaurant_id = some "diner";
  restaurant = none;
  order_id = some "second";
  order = none;
}

abbrev pub table_of : {E : Type 0} ⦃c : Entity E⦄ → List E → MemoryTable E
table_of ⦃c⦄ es = (map (λ e. (c.base e).id) es, (λ i. find (λ e. (c.base e).id == i) es))

abbrev pub start : World memory
start = record {
  db = record {
    users = table_of (alice ∷ olga ∷ dan ∷ []);
    categories = table_of (snacks ∷ []);
    restaurants = table_of (diner ∷ []);
    dishes = table_of (soup ∷ []);
    orders = table_of (first ∷ second ∷ []);
    payments = table_of [];
    reviews = table_of [];
  };
  fresh = 0;
  emitted = [];
  on_commit = [];
}

abbrev pub reviewed : World memory
reviewed = record start { db = record start.db { reviews = table_of (praise ∷ []) } }
