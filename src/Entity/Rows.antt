-- ===== src/Entity/Rows.antt =====
-- The eight entity classes, and for each the columns that its row keeps.
-- Lists of the other side of a relation (`user.orders`, `restaurant.dishes`) are no columns and
-- stand in no record. `order.items` is eager and cascades, so it is part of the order.
use coupang_eats_backend_v.Base.{ℕ, ℤ, String, refl, Bool, Option, none, some, List}
use coupang_eats_backend_v.Entity.Common.{UuidEntity, Role, OrderStatus, Entity}

-- src/entities/user/user.entity.ts
pub record User : Type 0 where
  pub base : UuidEntity
  pub open base use *
  pub email : String
  pub password : String
  pub name : String
  pub role : Role
  pub verified : Bool

-- src/entities/category/category.entity.ts
pub record Category : Type 0 where
  pub base : UuidEntity
  pub open base use *
  pub name : String
  pub cover_img : Option String
  pub slug : String

-- src/entities/restaurant/restaurant.entity.ts
pub record Restaurant : Type 0 where
  pub base : UuidEntity
  pub open base use *
  pub name : String
  pub cover_img : String
  pub address : String
  pub delivery_fee : ℤ
  pub minimum_price : ℤ
  pub is_promoted : Bool
  pub promoted_until : Option ℕ
  pub owner_id : String
  pub category_id : Option String
  pub category : Option Category

-- src/entities/dish/dish.interface.ts
pub record DishChoice : Type 0 where
  pub name : String
  pub extra : ℤ

pub record DishOption : Type 0 where
  pub name : String
  pub extra : ℤ
  pub choices : Option (List DishChoice)

-- src/entities/dish/dish.entity.ts
pub record Dish : Type 0 where
  pub base : UuidEntity
  pub open base use *
  pub name : String
  pub price : ℤ
  pub photo : Option String
  pub description : String
  pub options : Option (List DishOption)
  pub restaurant_id : String
  pub restaurant : Option Restaurant

-- src/entities/order/order-item.entity.ts
pub record OrderItem : Type 0 where
  pub base : UuidEntity
  pub open base use *
  pub dish : Option Dish
  pub dish_name : Option String
  pub options : Option (List DishOption)
  pub order_id : Option String

-- src/entities/order/order.entity.ts
pub record Order : Type 0 where
  pub base : UuidEntity
  pub open base use *
  pub total : Option ℤ
  pub total_count : Option ℕ
  pub status : OrderStatus
  pub customer_id : Option String
  pub customer : Option User
  pub driver_id : Option String
  pub driver : Option User
  pub restaurant_id : Option String
  pub restaurant : Option Restaurant
  pub items : List OrderItem

-- src/entities/payment/payment.entity.ts
pub record Payment : Type 0 where
  pub base : UuidEntity
  pub open base use *
  pub transaction_id : String
  pub user_id : Option String
  pub user : Option User
  pub restaurant_id : Option String
  pub restaurant : Option Restaurant
  pub order_id : Option String
  pub order : Option Order

-- src/entities/review/review.entity.ts
pub record Review : Type 0 where
  pub base : UuidEntity
  pub open base use *
  pub score : ℕ
  pub review_text : String
  pub review_img : Option (List String)
  pub client_id : Option String
  pub client : Option User
  pub restaurant_id : Option String
  pub restaurant : Option Restaurant
  pub order_id : Option String
  pub order : Option Order

-- a foreign key column beside its relation
abbrev pub key_of : {E : Type 0} → (E → String) → Option E → Option String → Option String
key_of id none column = column
key_of id (some e) column = some (id e)

instance abbrev pub user_entity : Entity User
user_entity = record {
  base = λ e. e.base;
  with_base = λ b e. record e { base = b };
  stored = λ e. e;
  base-with_base = λ b e. refl;
  with_base-self = λ e. refl;
  with_base-with_base = λ b b' e. refl;
  stored-stored = λ e. refl;
  base-stored = λ e. refl;
}

instance abbrev pub category_entity : Entity Category
category_entity = record {
  base = λ e. e.base;
  with_base = λ b e. record e { base = b };
  stored = λ e. e;
  base-with_base = λ b e. refl;
  with_base-self = λ e. refl;
  with_base-with_base = λ b b' e. refl;
  stored-stored = λ e. refl;
  base-stored = λ e. refl;
}

instance abbrev pub restaurant_entity : Entity Restaurant
restaurant_entity = record {
  base = λ e. e.base;
  with_base = λ b e. record e { base = b };
  stored =
      λ e. record e { category_id = key_of (λ c. c.id) e.category e.category_id; category = none };
  base-with_base = λ b e. refl;
  with_base-self = λ e. refl;
  with_base-with_base = λ b b' e. refl;
  stored-stored = λ e. refl;
  base-stored = λ e. refl;
}

-- `restaurant_id` of a dish is not null, and a loaded restaurant agrees with it
instance abbrev pub dish_entity : Entity Dish
dish_entity = record {
  base = λ e. e.base;
  with_base = λ b e. record e { base = b };
  stored = λ e. record e {
    restaurant_id = elim e.restaurant [ none ↦ e.restaurant_id | some r ↦ r.id ];
    restaurant = none;
  };
  base-with_base = λ b e. refl;
  with_base-self = λ e. refl;
  with_base-with_base = λ b b' e. refl;
  stored-stored = λ e. refl;
  base-stored = λ e. refl;
}

instance abbrev pub order_entity : Entity Order
order_entity = record {
  base = λ e. e.base;
  with_base = λ b e. record e { base = b };
  stored = λ e. record e {
    customer_id = key_of (λ u. u.id) e.customer e.customer_id;
    customer = none;
    driver_id = key_of (λ u. u.id) e.driver e.driver_id;
    driver = none;
    restaurant_id = key_of (λ r. r.id) e.restaurant e.restaurant_id;
    restaurant = none;
  };
  base-with_base = λ b e. refl;
  with_base-self = λ e. refl;
  with_base-with_base = λ b b' e. refl;
  stored-stored = λ e. refl;
  base-stored = λ e. refl;
}

instance abbrev pub payment_entity : Entity Payment
payment_entity = record {
  base = λ e. e.base;
  with_base = λ b e. record e { base = b };
  stored = λ e. record e {
    user_id = key_of (λ u. u.id) e.user e.user_id;
    user = none;
    restaurant_id = key_of (λ r. r.id) e.restaurant e.restaurant_id;
    restaurant = none;
    order_id = key_of (λ o. o.id) e.order e.order_id;
    order = none;
  };
  base-with_base = λ b e. refl;
  with_base-self = λ e. refl;
  with_base-with_base = λ b b' e. refl;
  stored-stored = λ e. refl;
  base-stored = λ e. refl;
}

instance abbrev pub review_entity : Entity Review
review_entity = record {
  base = λ e. e.base;
  with_base = λ b e. record e { base = b };
  stored = λ e. record e {
    client_id = key_of (λ u. u.id) e.client e.client_id;
    client = none;
    restaurant_id = key_of (λ r. r.id) e.restaurant e.restaurant_id;
    restaurant = none;
    order_id = key_of (λ o. o.id) e.order e.order_id;
    order = none;
  };
  base-with_base = λ b e. refl;
  with_base-self = λ e. refl;
  with_base-with_base = λ b b' e. refl;
  stored-stored = λ e. refl;
  base-stored = λ e. refl;
}

-- the foreign key of `dish` is a hidden column, so the relation stands for it
instance abbrev pub order_item_entity : Entity OrderItem
order_item_entity = record {
  base = λ e. e.base;
  with_base = λ b e. record e { base = b };
  stored = λ e. e;
  base-with_base = λ b e. refl;
  with_base-self = λ e. refl;
  with_base-with_base = λ b b' e. refl;
  stored-stored = λ e. refl;
  base-stored = λ e. refl;
}
