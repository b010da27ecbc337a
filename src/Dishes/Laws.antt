-- ===== src/Dishes/Laws.antt =====
-- What `updateDish` and `deleteDish` do to the menu of a restaurant.
use coupang_eats_backend_v.Base.{
  String, ◌≡◌, ◌≢◌, refl, sym, ap, ◌∙◌, Bool, none, some, ◌==◌, Option-cases, Bool-cases, inl, inr,
  arith, eq_iff, eq_refl, if◌then◌else◌, ==-false,
}
use coupang_eats_backend_v.Http.{Exception, Result, ok, err, not_found}
use coupang_eats_backend_v.Action.{returned_and_threw}
use coupang_eats_backend_v.Entity.{
  User, Restaurant, Dish, dish_entity, restaurant_entity, generate_uuid,
}
use coupang_eats_backend_v.Packages.{Packages, PackageLaws}
use coupang_eats_backend_v.Repository.Joined.{find_one_or_throw-joined, find_one_or_throw-filtered}
use coupang_eats_backend_v.World.{World, dish_table, save, soft_delete}
use coupang_eats_backend_v.World.Laws.{save-Saved, Saved-id, Saved-entity, Saved-row}
use coupang_eats_backend_v.Reviews.Service.{spread, spread_null}
use coupang_eats_backend_v.Dishes.Service.{
  UpdateDishDto, options_of, merge_dish, dish_with_restaurant, update_dish, delete_dish,
}

module _ (p : Packages) where
  -- the caller owns the live restaurant of this id
  pub record Owns (user : User) (id : String) (w : World p) : Type 0 where
    pub restaurant : Restaurant
    pub found : p.row id w.restaurants ≡ some restaurant
    pub mine : restaurant.owner_id ≡ user.id

  data DeleteRun (user : User) (id : String) (w : World p)
      : Result (Unit {0}) × World p → Type 0 where
    stays : (e : Exception) → DeleteRun user id w (err e, w)
    goes :
        (d : Dish)
        → p.row id w.dishes ≡ some d
        → Owns user d.restaurant_id w
        → DeleteRun user id w (soft_delete p (dish_table p) id w)

  data UpdateRun (user : User) (rid id : String) (dto : UpdateDishDto) (w : World p)
      : Result Dish × World p → Type 0 where
    unchanged : (e : Exception) → UpdateRun user rid id dto w (err e, w)
    tried :
        (d : Dish) (r : Restaurant)
        → p.row id w.dishes ≡ some d
        → p.row d.restaurant_id w.restaurants ≡ some r
        → r.owner_id ≡ user.id
        → d.restaurant_id ≡ rid
        → UpdateRun user rid id dto w
            (save p (dish_table p) (p.create (merge_dish (record d { restaurant = some r }) dto)) w)

  module _ (dishes : PackageLaws p dish_entity) (restaurants : PackageLaws p restaurant_entity)
      (user : User) (id : String) (w : World p) where
    joined-row :
        (i : String) (r : Restaurant)
        → p.join_one (some i) w.restaurants ≡ some r
        → p.row i w.restaurants ≡ some r
    joined-row i r h = sym (restaurants.join_one-row (some i) w.restaurants) ∙ h

    delete-DeleteRun : DeleteRun user id w (delete_dish p user id w)
    unfolding delete_dish
    delete-DeleteRun = elim (Option-cases (p.row id w.dishes)) [
      | inl missing ↦
          rw
            (
              find_one_or_throw-joined p dish_entity dishes (dish_with_restaurant p w) (λ d. refl)
                  id w.dishes,
              missing,
            )
            (stays (not_found "Not found"))
      | inr (d, found) ↦
          rw
            (
              find_one_or_throw-joined p dish_entity dishes (dish_with_restaurant p w) (λ d. refl)
                  id w.dishes,
              found,
            )
            (elim (Option-cases (p.join_one (some d.restaurant_id) w.restaurants)) [
              | inl nowhere ↦ rw nowhere (stays _)
              | inr (r, joined) ↦ rw joined (elim (Bool-cases (r.owner_id == user.id)) [
                | inr other ↦ rw other (stays _)
                | inl mine ↦ rw mine (
                    goes d found (record {
                      restaurant = r;
                      found = joined-row d.restaurant_id r joined;
                      mine = (eq_iff r.owner_id user.id).0 mine;
                    }))
              ])
            ])
    ]

    pub record Removed (w' : World p) : Type 0 where
      pub before : Dish
      pub was : p.row id w.dishes ≡ some before
      pub owns : Owns user before.restaurant_id w
      pub now : p.row id w'.dishes ≡ none
      pub others : (i : String) → i ≢ id → p.row i w'.dishes ≡ p.row i w.dishes

    delete_outcome :
        (w' : World p) (x : Result (Unit {0}) × World p)
        → DeleteRun user id w x
        → x ≡ (ok tt, w')
        → Removed w'
    unfolding soft_delete
    delete_outcome w' _ (stays e) h = absurd (returned_and_threw h refl)
    delete_outcome w' _ (goes d found owns) h =
        let row : (i : String) → p.row i w'.dishes ≡ (if id == i then none else p.row i w.dishes) =
          λ i. ap (λ y. p.row i y.1.dishes) (sym h) ∙ dishes.soft_delete-row id i w.dishes in
        record {
          before = d;
          was = found;
          owns = owns;
          now = row id ∙ ground (arith, eq_refl id);
          others = λ i other. row i ∙ ground (arith, eq_iff id i);
        }

    -- If `deleteDish` returns, the dish was on the menu of a restaurant of the caller, it is gone,
    -- and every other dish is still there.
    pub delete_dish-Removed : (w' : World p) → delete_dish p user id w ≡ (ok tt, w') → Removed w'
    delete_dish-Removed w' h = delete_outcome w' _ delete-DeleteRun h

    module _ (rid : String) (dto : UpdateDishDto) where
      update_found :
          (d : Dish)
          → p.row id w.dishes ≡ some d
          → UpdateRun user rid id dto w (update_dish p user rid id dto w)
      unfolding update_dish
      update_found d found =
          rw
            (
              find_one_or_throw-filtered p dish_entity dishes (dish_with_restaurant p w) (λ d. refl)
                  (λ d. d.restaurant_id == rid) id w.dishes,
              found,
            )
            (elim (Bool-cases (d.restaurant_id == rid)) [
              | inr elsewhere ↦ rw elsewhere (unchanged (not_found "Not found"))
              | inl here ↦
                  rw here (elim (Option-cases (p.join_one (some d.restaurant_id) w.restaurants)) [
                    | inl nowhere ↦ rw nowhere (unchanged _)
                    | inr (r, joined) ↦ rw joined (elim (Bool-cases (r.owner_id == user.id)) [
                      | inr other ↦ rw other (unchanged _)
                      | inl mine ↦ rw mine (
                          tried d r found (joined-row d.restaurant_id r joined)
                            ((eq_iff r.owner_id user.id).0 mine)
                            ((eq_iff d.restaurant_id rid).0 here))
                    ])
                  ])
            ])

      update-UpdateRun : UpdateRun user rid id dto w (update_dish p user rid id dto w)
      unfolding update_dish
      update-UpdateRun = elim (Option-cases (p.row id w.dishes)) [
        | inl missing ↦
            rw
              (
                find_one_or_throw-filtered p dish_entity dishes (dish_with_restaurant p w)
                    (λ d. refl) (λ d. d.restaurant_id == rid) id w.dishes,
                missing,
              )
              (unchanged (not_found "Not found"))
        | inr (d, found) ↦ update_found d found
      ]

      pub record Revised (w' : World p) : Type 0 where
        pub before : Dish
        pub after : Dish
        pub was : p.row id w.dishes ≡ some before
        pub on_menu : before.restaurant_id ≡ rid
        pub owns : Owns user rid w
        pub now : p.row id w'.dishes ≡ some after
        pub name : after.name ≡ spread dto.name before.name
        pub price : after.price ≡ spread dto.price before.price
        pub description : after.description ≡ spread dto.description before.description
        pub options : after.options ≡ spread_null (options_of dto.options) before.options
        pub restaurant_id : after.restaurant_id ≡ rid
        pub others : (i : String) → i ≢ id → p.row i w'.dishes ≡ p.row i w.dishes

      update_outcome :
          (y : Dish) (w' : World p) (x : Result Dish × World p)
          → id ≢ ""
          → ((d : Dish) → dto.undeclared d ≡ d)
          → UpdateRun user rid id dto w x
          → x ≡ (ok y, w')
          → Revised w'
      unfolding merge_dish
      update_outcome y w' _ set_id plain (unchanged e) h = absurd (returned_and_threw h refl)
      update_outcome y w' _ set_id plain (tried d r found at mine here) h =
          let s = save-Saved p dish_entity (dish_table p) _ y w w' h in
          let content =
            Saved-entity p dish_entity (dish_table p) dishes _ y w w' s
            ∙ ap (dish_entity.with_base y.base) (dishes.create-eq _ ∙ plain _) in
          let was_id = dishes.row-id id w.dishes d found in
          let set : d.id ≢ "" = λ empty. set_id (sym was_id ∙ empty) in
          let same : y.id ≡ id =
            Saved-id p dish_entity (dish_table p) dishes _ y w w' s
            ∙ ap (λ (e : Dish). (generate_uuid (p.v4 w.fresh) e.base).id)
                (dishes.create-eq _ ∙ plain _)
            ∙ ap (λ (b : Bool). (if b then record d.base { id = p.v4 w.fresh } else d.base).id)
                (==-false d.id "" set)
            ∙ was_id in
          let row = Saved-row p dish_entity (dish_table p) dishes _ y w w' s in
          record {
            before = d;
            after = dish_entity.stored y;
            was = found;
            on_menu = here;
            owns = record {
              restaurant = r;
              found = ap (λ i. p.row i w.restaurants) (sym here) ∙ at;
              mine = mine;
            };
            now = row id ∙ ground (arith, eq_iff y.id id);
            name = ap (λ x. x.name) content;
            price = ap (λ x. x.price) content;
            description = ap (λ x. x.description) content;
            options = ap (λ x. x.options) content;
            restaurant_id =
                ap (λ x. (dish_entity.stored x).restaurant_id) content
                ∙ restaurants.row-id d.restaurant_id w.restaurants r at
                ∙ here;
            others = λ i other. row i ∙ ground (arith, eq_iff y.id i);
          }

      -- If `updateDish` returns for an id that is not empty and a body that has only properties of
      -- its class, none of them null, the caller owns the given restaurant, the dish is on its menu
      -- before and after, its row has the name, price, description and options of the request where
      -- the request has them and the old ones elsewhere, and no other dish has changed.
      pub update_dish-Revised :
          (y : Dish) (w' : World p)
          → id ≢ ""
          → ((d : Dish) → dto.undeclared d ≡ d)
          → update_dish p user rid id dto w ≡ (ok y, w')
          → Revised w'
      update_dish-Revised y w' set_id plain h =
          update_outcome y w' _ set_id plain update-UpdateRun h
