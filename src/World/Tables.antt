-- ===== src/World/Tables.antt =====
-- Each repository of the services as a view of the shared state: its table, and writing it.
use coupang_eats_backend_v.Base.{◌≡◌, refl}
use coupang_eats_backend_v.Entity.{User, Category, Restaurant, Dish, Order, Payment, Review}
use coupang_eats_backend_v.Packages.{Packages}
use coupang_eats_backend_v.World.State.{Database}

module _ (p : Packages) where
  pub record TableOf (E : Type 0) : Type 0 where
    pub table : Database p → p.Table E
    pub put : p.Table E → Database p → Database p
    pub table-put : (t : p.Table E) (d : Database p) → table (put t d) ≡ t

abbrev pub user_table : (p : Packages) → TableOf p User
user_table p = record {
  table = λ d. d.users;
  put = λ t d. record d { users = t };
  table-put = λ t d. refl;
}

abbrev pub category_table : (p : Packages) → TableOf p Category
category_table p = record {
  table = λ d. d.categories;
  put = λ t d. record d { categories = t };
  table-put = λ t d. refl;
}

abbrev pub restaurant_table : (p : Packages) → TableOf p Restaurant
restaurant_table p = record {
  table = λ d. d.restaurants;
  put = λ t d. record d { restaurants = t };
  table-put = λ t d. refl;
}

abbrev pub dish_table : (p : Packages) → TableOf p Dish
dish_table p = record {
  table = λ d. d.dishes;
  put = λ t d. record d { dishes = t };
  table-put = λ t d. refl;
}

abbrev pub order_table : (p : Packages) → TableOf p Order
order_table p = record {
  table = λ d. d.orders;
  put = λ t d. record d { orders = t };
  table-put = λ t d. refl;
}

abbrev pub payment_table : (p : Packages) → TableOf p Payment
payment_table p = record {
  table = λ d. d.payments;
  put = λ t d. record d { payments = t };
  table-put = λ t d. refl;
}

abbrev pub review_table : (p : Packages) → TableOf p Review
review_table p = record {
  table = λ d. d.reviews;
  put = λ t d. record d { reviews = t };
  table-put = λ t d. refl;
}
