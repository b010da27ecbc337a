-- ===== src/Restaurants/Service.antt =====
-- src/modules/restaurant/dto and src/modules/restaurant/restaurant.service.ts.
use coupang_eats_backend_v.Base.{
  ℤ, pos, String, Bool, true, false, not, Option, none, some, List, ◌==◌, if◌then◌else◌, ◌<>◌,
}
use coupang_eats_backend_v.Http.{Result, ok, err, forbidden, not_found, unauthorized}
use coupang_eats_backend_v.Action.{Action, ◌>>=◌, ◌>>◌, pure, gets, reads, raise_if, or_raise}
use coupang_eats_backend_v.Entity.{
  new_entity, User, owner, role_eq, Category, Restaurant, Dish, category_entity, dish_entity,
  restaurant_entity,
}
use coupang_eats_backend_v.Packages.{Packages, unsorted}
use coupang_eats_backend_v.Pagination.{PaginationRequest, PaginationResponse}
use coupang_eats_backend_v.Repository.{
  find_by_id_or_throw, find_one_by_filters, find_many, paginate,
  find_one_with_omit_not_joined_props_or_throw,
}
use coupang_eats_backend_v.World.{World, restaurant_table, save, Transactional}
use coupang_eats_backend_v.Reviews.Service.{spread, spread_null}

pub record CreateRestaurantDto : Type 0 where
  pub name : String
  pub cover_img : String
  pub address : String
  pub category_id : String
  pub delivery_fee : ℤ
  pub minimum_price : ℤ
  -- what the properties of the body that the class does not declare set in a `RestaurantEntity`: the
  -- validation pipe has no whitelist, so a body may even name the id of a row
  pub undeclared : Restaurant

-- the entity of a body without such properties; `is_promoted` is the column's default
abbrev pub new_restaurant : Restaurant
new_restaurant = record {
  base = new_entity;
  name = "";
  cover_img = "";
  address = "";
  delivery_fee = pos 0;
  minimum_price = pos 0;
  is_promoted = false;
  promoted_until = none;
  owner_id = "";
  category_id = none;
  category = none;
}

-- `PartialType(CreateRestaurantDto)`
pub record UpdateRestaurantDto : Type 0 where
  pub name : Option String
  pub cover_img : Option String
  pub address : Option String
  pub category_id : Option String
  pub delivery_fee : Option ℤ
  pub minimum_price : Option ℤ
  -- what the other properties of the body do to the entity that it is spread over: those that the
  -- class does not declare, such as `id` and `ownerId`, and a `null` for a column
  pub undeclared : Restaurant → Restaurant

-- `CreateRestaurantDto.toEntity`: every property of the body, then the owner
unfoldable pub restaurant_to_entity : CreateRestaurantDto → String → Restaurant
restaurant_to_entity dto owner_id = record dto.undeclared {
  name = dto.name;
  cover_img = dto.cover_img;
  address = dto.address;
  delivery_fee = dto.delivery_fee;
  minimum_price = dto.minimum_price;
  owner_id = owner_id;
  category_id = some dto.category_id;
}

-- `{ ...restaurant, ...dto }`
unfoldable pub merge_restaurant : Restaurant → UpdateRestaurantDto → Restaurant
merge_restaurant restaurant dto = dto.undeclared (record restaurant {
  name = spread dto.name restaurant.name;
  cover_img = spread dto.cover_img restaurant.cover_img;
  address = spread dto.address restaurant.address;
  category_id = spread_null dto.category_id restaurant.category_id;
  delivery_fee = spread dto.delivery_fee restaurant.delivery_fee;
  minimum_price = spread dto.minimum_price restaurant.minimum_price;
})

module _ (p : Packages) where
  -- the body of the transaction; the `catch` throws the same error again
  unfoldable pub create_restaurant_body : User → CreateRestaurantDto → Action (World p) Restaurant
  create_restaurant_body user dto = do
    raise_if (not (role_eq user.role owner)) (unauthorized "Only owners can create restaurants")
    found ← gets (λ w.
        find_one_by_filters p (λ (c : Category). c.id == dto.category_id) unsorted w.categories)
    category ← or_raise found (not_found ("don't exist " <> dto.category_id))
    save p (restaurant_table p)
        (record (restaurant_to_entity dto user.id) { category = some category })

  -- `if (dto.categoryId) await findByIdOrThrow(dto.categoryId)`
  abbrev pub check_category : Option String → World p → Result (Unit {0})
  check_category none w = ok tt
  check_category (some id) w =
      if id == "" then ok tt else elim (find_by_id_or_throw p {E = Category} id w.categories) [
        | ok c ↦ ok tt
        | err e ↦ err e
      ]

  unfoldable pub update_restaurant_body :
      User → String → UpdateRestaurantDto → Action (World p) Restaurant
  update_restaurant_body user restaurant_id dto = do
    restaurant ← reads (λ w. find_by_id_or_throw p restaurant_id w.restaurants)
    raise_if (not (restaurant.owner_id == user.id))
        (forbidden "You are not the owner of this restaurant")
    reads (check_category dto.category_id)
    save p (restaurant_table p) (p.create (merge_restaurant restaurant dto))

  module _ (t : Transactional p) where
    unfoldable pub create_restaurant : User → CreateRestaurantDto → Action (World p) Restaurant
    create_restaurant user dto = t.run (create_restaurant_body user dto)

    unfoldable pub update_restaurant :
        User → String → UpdateRestaurantDto → Action (World p) Restaurant
    update_restaurant user restaurant_id dto = t.run (update_restaurant_body user restaurant_id dto)

  unfoldable pub get_my_restaurants : User → Action (World p) (List Restaurant)
  get_my_restaurants user =
      gets (λ w. find_many p (λ r. r.owner_id == user.id) unsorted w.restaurants)

  -- `categoryId ? { categoryId } : {}`
  abbrev pub in_category : Option String → Restaurant → Bool
  in_category none r = true
  in_category (some id) r =
      if id == "" then true else elim r.category_id [ none ↦ false | some c ↦ c == id ]

  unfoldable pub get_restaurants :
      PaginationRequest → Option String → Action (World p) (PaginationResponse Restaurant)
  get_restaurants pagination category_id =
      gets (λ w. paginate p pagination (in_category category_id) unsorted (λ r. r) w.restaurants)

  abbrev pub with_category : World p → Restaurant → Restaurant
  with_category w r = record r { category = p.join_one r.category_id w.categories }

  -- the relation `dishes` stands beside the restaurant
  unfoldable pub get_restaurant_by_id : String → Action (World p) (Restaurant × List Dish)
  get_restaurant_by_id id = do
    restaurant ← reads (λ w.
        find_one_with_omit_not_joined_props_or_throw p (λ r. r.id == id) (with_category w) unsorted
          false w.restaurants)
    dishes ←
        gets (λ w. find_many p (λ (d : Dish). d.restaurant_id == restaurant.id) unsorted w.dishes)
    pure (restaurant, dishes)
