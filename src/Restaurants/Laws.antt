-- ===== src/Restaurants/Laws.antt =====
-- `createRestaurant` and `updateRestaurant`.
use coupang_eats_backend_v.Base.{
  String, ◌≡◌, ◌≢◌, refl, sym, ap, ◌∙◌, Bool, true, some, ◌==◌, Option-cases, Bool-cases, inl, inr,
  arith, eq_iff, eq_refl, if◌then◌else◌, ==-false,
}
use coupang_eats_backend_v.Http.{Exception, Result, ok, err, Result-cases}
use coupang_eats_backend_v.Action.{returned_and_threw}
use coupang_eats_backend_v.Entity.{
  User, Role, client, owner, delivery, role_eq, Category, Restaurant, category_entity,
  restaurant_entity, generate_uuid,
}
use coupang_eats_backend_v.Packages.{Packages, PackageLaws}
use coupang_eats_backend_v.Repository.{find_one_by_filters}
use coupang_eats_backend_v.Repository.Laws.{find_by_id_or_throw-row, find_one-key}
use coupang_eats_backend_v.World.{World, restaurant_table, save, Transactional, TransactionalLaws}
use coupang_eats_backend_v.World.Runs.{run-eq-ok}
use coupang_eats_backend_v.World.Laws.{save-Saved, Saved-id, Saved-entity, Saved-row}
use coupang_eats_backend_v.Reviews.Service.{spread}
use coupang_eats_backend_v.Restaurants.Service.{
  CreateRestaurantDto, UpdateRestaurantDto, restaurant_to_entity, merge_restaurant,
  create_restaurant_body, create_restaurant, update_restaurant_body, update_restaurant,
  check_category,
}

is_owner : (r : Role) → role_eq r owner ≡ true → r ≡ owner
is_owner client h = absurd (cc)
is_owner owner h = refl
is_owner delivery h = absurd (cc)

module _ (p : Packages) where
  data OpenRun (user : User) (dto : CreateRestaurantDto) (w : World p)
      : Result Restaurant × World p → Type 0 where
    stopped : (e : Exception) → OpenRun user dto w (err e, w)
    tried :
        (c : Category)
        → user.role ≡ owner
        → p.row dto.category_id w.categories ≡ some c
        → OpenRun user dto w (
            save p
              (restaurant_table p)
              (record (restaurant_to_entity dto user.id) { category = some c })
              w)

  data ChangeRun (user : User) (id : String) (dto : UpdateRestaurantDto) (w : World p)
      : Result Restaurant × World p → Type 0 where
    unchanged : (e : Exception) → ChangeRun user id dto w (err e, w)
    wrote :
        (r : Restaurant)
        → p.row id w.restaurants ≡ some r
        → r.owner_id ≡ user.id
        → ChangeRun user id dto w
            (save p (restaurant_table p) (p.create (merge_restaurant r dto)) w)

  pub record Opened (user : User) (dto : CreateRestaurantDto) (w : World p) (y : Restaurant)
      (table : p.Table Restaurant) : Type 0 where
    pub category : Category
    pub after : Restaurant
    pub role : user.role ≡ owner
    pub found : p.row dto.category_id w.categories ≡ some category
    pub now : p.row y.id table ≡ some after
    pub owner_id : after.owner_id ≡ user.id
    pub category_id : after.category_id ≡ some dto.category_id
    pub name : after.name ≡ dto.name
    pub delivery_fee : after.delivery_fee ≡ dto.delivery_fee
    pub minimum_price : after.minimum_price ≡ dto.minimum_price
    pub others : (i : String) → i ≢ y.id → p.row i table ≡ p.row i w.restaurants

  pub record Changed (user : User) (id : String) (dto : UpdateRestaurantDto) (w : World p)
      (table : p.Table Restaurant) : Type 0 where
    pub before : Restaurant
    pub after : Restaurant
    pub was : p.row id w.restaurants ≡ some before
    pub mine : before.owner_id ≡ user.id
    pub now : p.row id table ≡ some after
    pub owner_id : after.owner_id ≡ user.id
    pub name : after.name ≡ spread dto.name before.name
    pub delivery_fee : after.delivery_fee ≡ spread dto.delivery_fee before.delivery_fee
    pub minimum_price : after.minimum_price ≡ spread dto.minimum_price before.minimum_price
    pub others : (i : String) → i ≢ id → p.row i table ≡ p.row i w.restaurants

  module _ (restaurants : PackageLaws p restaurant_entity)
      (categories : PackageLaws p category_entity) (t : Transactional p)
      (transactions : TransactionalLaws p t) (user : User) (w : World p) where
    open-OpenRun :
        (dto : CreateRestaurantDto) → OpenRun user dto w (create_restaurant_body p user dto w)
    unfolding create_restaurant_body find_one_by_filters
    open-OpenRun dto = elim (Bool-cases (role_eq user.role owner)) [
      | inr other ↦ rw other (stopped _)
      | inl owns ↦
          rw (owns, find_one-key p category_entity categories dto.category_id w.categories)
            (elim (Option-cases (p.row dto.category_id w.categories)) [
              | inl missing ↦ rw missing (stopped _)
              | inr (c, found) ↦ rw found (tried c (is_owner user.role owns) found)
            ])
    ]

    open_outcome :
        (dto : CreateRestaurantDto) (y : Restaurant) (u : World p) (x : Result Restaurant × World p)
        → OpenRun user dto w x
        → x ≡ (ok y, u)
        → Opened user dto w y u.restaurants
    unfolding restaurant_to_entity
    open_outcome dto y u _ (stopped e) h = absurd (returned_and_threw h refl)
    open_outcome dto y u _ (tried c role found) h =
        let s = save-Saved p restaurant_entity (restaurant_table p) _ y w u h in
        let content = Saved-entity p restaurant_entity (restaurant_table p) restaurants _ y w u s in
        let row = Saved-row p restaurant_entity (restaurant_table p) restaurants _ y w u s in
        record {
          category = c;
          after = restaurant_entity.stored y;
          role = role;
          found = found;
          now = row y.id ∙ ground (arith, eq_refl y.id);
          owner_id = ap (λ x. x.owner_id) content;
          category_id =
              ap (λ x. (restaurant_entity.stored x).category_id) content
              ∙ ap some (categories.row-id dto.category_id w.categories c found);
          name = ap (λ x. x.name) content;
          delivery_fee = ap (λ x. x.delivery_fee) content;
          minimum_price = ap (λ x. x.minimum_price) content;
          others = λ i other. row i ∙ ground (arith, eq_iff y.id i);
        }

    pub create_restaurant-Opened :
        (dto : CreateRestaurantDto) (y : Restaurant) (w' : World p)
        → create_restaurant p t user dto w ≡ (ok y, w')
        → Opened user dto w y w'.restaurants
    unfolding create_restaurant
    create_restaurant-Opened dto y w' h =
        let (u, ran, done) =
          run-eq-ok p t transactions (create_restaurant_body p user dto) w y w' h in
        rw done (open_outcome dto y u _ (open-OpenRun dto) ran)

    change-ChangeRun :
        (id : String) (dto : UpdateRestaurantDto)
        → ChangeRun user id dto w (update_restaurant_body p user id dto w)
    unfolding update_restaurant_body
    change-ChangeRun id dto = elim (Option-cases (p.row id w.restaurants)) [
      | inl missing ↦
          rw (find_by_id_or_throw-row p restaurant_entity restaurants id w.restaurants, missing)
            (unchanged _)
      | inr (r, found) ↦
          rw (find_by_id_or_throw-row p restaurant_entity restaurants id w.restaurants, found)
            (elim (Bool-cases (r.owner_id == user.id)) [
              | inr other ↦ rw other (unchanged _)
              | inl mine ↦ rw mine (elim (Result-cases (check_category p dto.category_id w)) [
                | inr (e, refused) ↦ rw refused (unchanged e)
                | inl (z, passed) ↦ rw passed (wrote r found ((eq_iff r.owner_id user.id).0 mine))
              ])
            ])
    ]

    change_outcome :
        (id : String) (dto : UpdateRestaurantDto) (y : Restaurant) (u : World p)
        (x : Result Restaurant × World p)
        → id ≢ ""
        → ((r : Restaurant) → dto.undeclared r ≡ r)
        → ChangeRun user id dto w x
        → x ≡ (ok y, u)
        → Changed user id dto w u.restaurants
    unfolding merge_restaurant
    change_outcome id dto y u _ set_id plain (unchanged e) h = absurd (returned_and_threw h refl)
    change_outcome id dto y u _ set_id plain (wrote r found mine) h =
        let s = save-Saved p restaurant_entity (restaurant_table p) _ y w u h in
        let content =
          Saved-entity p restaurant_entity (restaurant_table p) restaurants _ y w u s
          ∙ ap (restaurant_entity.with_base y.base) (restaurants.create-eq _ ∙ plain _) in
        let was_id = restaurants.row-id id w.restaurants r found in
        let set : r.id ≢ "" = λ empty. set_id (sym was_id ∙ empty) in
        let same : y.id ≡ id =
          Saved-id p restaurant_entity (restaurant_table p) restaurants _ y w u s
          ∙ ap (λ (e : Restaurant). (generate_uuid (p.v4 w.fresh) e.base).id)
              (restaurants.create-eq _ ∙ plain _)
          ∙ ap (λ (b : Bool). (if b then record r.base { id = p.v4 w.fresh } else r.base).id)
              (==-false r.id "" set)
          ∙ was_id in
        let row = Saved-row p restaurant_entity (restaurant_table p) restaurants _ y w u s in
        record {
          before = r;
          after = restaurant_entity.stored y;
          was = found;
          mine = mine;
          now = row id ∙ ground (arith, eq_iff y.id id);
          owner_id = ap (λ x. x.owner_id) content ∙ mine;
          name = ap (λ x. x.name) content;
          delivery_fee = ap (λ x. x.delivery_fee) content;
          minimum_price = ap (λ x. x.minimum_price) content;
          others = λ i other. row i ∙ ground (arith, eq_iff y.id i);
        }

    -- If `updateRestaurant` returns for an id that is not empty and a body that has only properties
    -- of its class, none of them null, the restaurant was the caller's and still is, its name, fee
    -- and minimum price are those of the request where the request has them and the old ones
    -- elsewhere, and no other restaurant has changed.
    pub update_restaurant-Changed :
        (id : String) (dto : UpdateRestaurantDto) (y : Restaurant) (w' : World p)
        → id ≢ ""
        → ((r : Restaurant) → dto.undeclared r ≡ r)
        → update_restaurant p t user id dto w ≡ (ok y, w')
        → Changed user id dto w w'.restaurants
    unfolding update_restaurant
    update_restaurant-Changed id dto y w' set_id plain h =
        let (u, ran, done) =
          run-eq-ok p t transactions (update_restaurant_body p user id dto) w y w' h in
        rw done (change_outcome id dto y u _ set_id plain (change-ChangeRun id dto) ran)
