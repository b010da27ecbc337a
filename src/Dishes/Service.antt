-- ===== src/Dishes/Service.antt =====
-- src/modules/dish/dto and src/modules/dish/dish.service.ts.
use coupang_eats_backend_v.Base.{
  ℤ, pos, String, false, not, ◌&&◌, Option, none, some, List, ◌==◌, map,
}
use coupang_eats_backend_v.Http.{forbidden, type_error}
use coupang_eats_backend_v.Action.{Action, ◌>>=◌, ◌>>◌, reads, raise_if, or_raise}
use coupang_eats_backend_v.Entity.{
  new_entity, User, Dish, DishOption, dish_entity, restaurant_entity,
}
use coupang_eats_backend_v.Packages.{Packages, unsorted}
use coupang_eats_backend_v.Repository.{
  find_by_id_or_throw, find_one_with_omit_not_joined_props_or_throw,
}
use coupang_eats_backend_v.World.{World, dish_table, save, soft_delete}
use coupang_eats_backend_v.Reviews.Service.{spread, spread_null}

pub record DishOptionDto : Type 0 where
  pub name : String
  pub extra : ℤ

pub record CreateDishDto : Type 0 where
  pub name : String
  pub price : ℤ
  pub description : String
  pub photo : Option String
  pub options : Option (List DishOptionDto)
  -- what the properties of the body that the class does not declare set in a `DishEntity`: the
  -- validation pipe has no whitelist, so a body may even name the id of a row
  pub undeclared : Dish

-- the entity of a body without such properties
abbrev pub new_dish : Dish
new_dish = record {
  base = new_entity;
  name = "";
  price = pos 0;
  photo = none;
  description = "";
  options = none;
  restaurant_id = "";
  restaurant = none;
}

-- `PartialType(CreateDishDto)`
pub record UpdateDishDto : Type 0 where
  pub name : Option String
  pub price : Option ℤ
  pub description : Option String
  pub photo : Option String
  pub options : Option (List DishOptionDto)
  -- what the other properties of the body do to the entity that it is spread over: those that the
  -- class does not declare, such as `id` and `restaurantId`, and a `null` for a column
  pub undeclared : Dish → Dish

abbrev pub option_of : DishOptionDto → DishOption
option_of o = record { name = o.name; extra = o.extra; choices = none }

abbrev pub options_of : Option (List DishOptionDto) → Option (List DishOption)
options_of none = none
options_of (some os) = some (map option_of os)

-- `CreateDishDto.toEntity`
unfoldable pub dish_to_entity : CreateDishDto → String → Dish
dish_to_entity dto restaurant_id = record dto.undeclared {
  name = dto.name;
  price = dto.price;
  photo = dto.photo;
  description = dto.description;
  options = options_of dto.options;
  restaurant_id = restaurant_id;
}

-- `{ ...dish, ...dto }`
unfoldable pub merge_dish : Dish → UpdateDishDto → Dish
merge_dish dish dto = dto.undeclared (record dish {
  name = spread dto.name dish.name;
  price = spread dto.price dish.price;
  description = spread dto.description dish.description;
  photo = spread_null dto.photo dish.photo;
  options = spread_null (options_of dto.options) dish.options;
})

module _ (p : Packages) where
  -- the relation `restaurant` of a dish
  abbrev pub dish_with_restaurant : World p → Dish → Dish
  dish_with_restaurant w d = record d {
    restaurant = p.join_one (some d.restaurant_id) w.restaurants;
  }

  unfoldable pub create_dish : User → String → CreateDishDto → Action (World p) Dish
  create_dish owner restaurant_id dto = do
    restaurant ← reads (λ w. find_by_id_or_throw p restaurant_id w.restaurants)
    raise_if (not (restaurant.owner_id == owner.id))
        (forbidden "You are not the owner of this restaurant")
    save p (dish_table p) (dish_to_entity dto restaurant_id)

  unfoldable pub update_dish : User → String → String → UpdateDishDto → Action (World p) Dish
  update_dish owner restaurant_id dish_id dto = do
    dish ← reads (λ w.
        find_one_with_omit_not_joined_props_or_throw p
          (λ d. d.id == dish_id && d.restaurant_id == restaurant_id) (dish_with_restaurant w)
          unsorted false w.dishes)
    restaurant ← or_raise dish.restaurant type_error
    raise_if (not (restaurant.owner_id == owner.id)) (forbidden "You cannot update this dish")
    save p (dish_table p) (p.create (merge_dish dish dto))

  unfoldable pub delete_dish : User → String → Action (World p) (Unit {0})
  delete_dish owner dish_id = do
    dish ← reads (λ w.
        find_one_with_omit_not_joined_props_or_throw p (λ d. d.id == dish_id)
          (dish_with_restaurant w) unsorted false w.dishes)
    restaurant ← or_raise dish.restaurant type_error
    raise_if (not (restaurant.owner_id == owner.id)) (forbidden "You cannot delete this dish")
    soft_delete p (dish_table p) dish_id
