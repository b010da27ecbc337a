-- ===== src/Reviews/Service.antt =====
-- src/modules/review/dto and src/modules/review/review.service.ts.
use coupang_eats_backend_v.Base.{
  ℕ, String, Bool, false, not, Option, none, some, List, is_text, ◌==◌,
}
use coupang_eats_backend_v.Http.{bad_request, forbidden, conflict, type_error}
use coupang_eats_backend_v.Action.{Action, ◌>>=◌, ◌>>◌, gets, reads, raise_if, or_raise}
use coupang_eats_backend_v.Entity.{
  new_entity, User, Restaurant, Order, Review, delivered, status_eq, order_entity, review_entity,
  user_entity, restaurant_entity,
}
use coupang_eats_backend_v.Packages.{Packages, unsorted}
use coupang_eats_backend_v.Repository.{
  find_one_by_filters, find_one_with_omit_not_joined_props_or_throw,
}
use coupang_eats_backend_v.World.{World, review_table, save, soft_delete}
use coupang_eats_backend_v.Payments.Service.{exists}

pub record CreateReviewDto : Type 0 where
  pub order_id : String
  pub restaurant_id : String
  pub score : ℕ
  pub review_text : String
  pub review_img : Option (List String)

-- `PartialType`: a property that the request leaves out is absent
pub record UpdateReviewDto : Type 0 where
  pub score : Option ℕ
  pub review_text : Option String
  pub review_img : Option (List String)
  -- what the other properties of the body do to the entity that it is spread over: those that the
  -- class does not declare, such as `id` and `orderId`, and a `null` for a column
  pub undeclared : Review → Review

-- `CreateReviewDto.toEntity`
unfoldable pub review_to_entity : CreateReviewDto → User → Restaurant → Order → Review
review_to_entity dto client restaurant order = record {
  base = new_entity;
  score = dto.score;
  review_text = dto.review_text;
  review_img = dto.review_img;
  client_id = none;
  client = some client;
  restaurant_id = none;
  restaurant = some restaurant;
  order_id = some order.id;
  order = some order;
}

-- a property of `{ ...entity, ...dto }`
abbrev pub spread : {A : Type 0} → Option A → A → A
spread none a = a
spread (some b) a = b

abbrev pub spread_null : {A : Type 0} → Option A → Option A → Option A
spread_null none a = a
spread_null (some b) a = some b

-- `{ ...reviewWithClient, ...dto }`
unfoldable pub merge_review : Review → UpdateReviewDto → Review
merge_review review dto = dto.undeclared (record review {
  score = spread dto.score review.score;
  review_text = spread dto.review_text review.review_text;
  review_img = spread_null dto.review_img review.review_img;
})

module _ (p : Packages) where
  abbrev pub with_restaurant : World p → Order → Order
  with_restaurant w o = record o { restaurant = p.join_one o.restaurant_id w.restaurants }

  abbrev pub with_client : World p → Review → Review
  with_client w r = record r { client = p.join_one r.client_id w.users }

  -- the filter `{ orderId }`
  abbrev pub reviews_order : String → Review → Bool
  reviews_order order_id r = is_text r.order_id order_id

  unfoldable pub create_review : User → CreateReviewDto → Action (World p) Review
  create_review user dto = do
    order ← reads (λ w.
        find_one_with_omit_not_joined_props_or_throw p (λ o. o.id == dto.order_id)
          (with_restaurant w) unsorted false w.orders)
    raise_if (not (is_text order.customer_id user.id))
        (bad_request "You can only review your own orders.")
    restaurant ← or_raise order.restaurant type_error
    raise_if (not (restaurant.id == dto.restaurant_id))
        (bad_request "Order does not match restaurant.")
    raise_if (not (status_eq order.status delivered))
        (bad_request "You can only review after delivery is complete.")
    existing_review ←
        gets (λ w. find_one_by_filters p (reviews_order dto.order_id) unsorted w.reviews)
    raise_if (exists existing_review) (conflict "You have already reviewed this order.")
    save p (review_table p) (review_to_entity dto user restaurant order)

  unfoldable pub update_review : User → String → UpdateReviewDto → Action (World p) Review
  update_review user review_id dto = do
    review_with_client ← reads (λ w.
        find_one_with_omit_not_joined_props_or_throw p (λ r. r.id == review_id) (with_client w)
          unsorted false w.reviews)
    client ← or_raise review_with_client.client type_error
    raise_if (not (client.id == user.id)) (forbidden "You can only update your own reviews.")
    save p (review_table p) (p.create (merge_review review_with_client dto))

  unfoldable pub delete_review : User → String → Action (World p) (Unit {0})
  delete_review user review_id = do
    review ← reads (λ w.
        find_one_with_omit_not_joined_props_or_throw p (λ r. r.id == review_id) (with_client w)
          unsorted false w.reviews)
    client ← or_raise review.client type_error
    raise_if (not (client.id == user.id)) (forbidden "You can only delete your own reviews.")
    soft_delete p (review_table p) review_id
