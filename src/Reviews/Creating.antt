-- ===== src/Reviews/Creating.antt =====
-- `createReview`, and the reviews of an order.
use coupang_eats_backend_v.Base.{
  String, ◌≡◌, ◌≢◌, refl, sym, ap, ◌∙◌, true, Option, none, some, is_text, ◌==◌, Option-cases,
  Bool-cases, inl, inr, arith, eq_iff, eq_refl, is_text_iff, is_text_self,
}
use mathlib.Core.Bool.{false≢true}
use coupang_eats_backend_v.Http.{Exception, Result, ok, err, not_found}
use coupang_eats_backend_v.Action.{returned_and_threw}
use coupang_eats_backend_v.Entity.{
  User, Restaurant, Order, OrderStatus, Review, pending, cooking, cooked, picked_up, delivered,
  status_eq, order_entity, review_entity, restaurant_entity,
}
use coupang_eats_backend_v.Packages.{Packages, PackageLaws, unsorted}
use coupang_eats_backend_v.Repository.{find_one_by_filters}
use coupang_eats_backend_v.Repository.Laws.{find_one_by_filters-none}
use coupang_eats_backend_v.Repository.Joined.{find_one_or_throw-joined, join_one-key}
use coupang_eats_backend_v.World.{World, review_table, save}
use coupang_eats_backend_v.World.Laws.{Saved, save-Saved, Saved-entity, Saved-row, save-err_db}
use coupang_eats_backend_v.World.Unique.{IsUniqueBy, IsNew, Saved-IsUniqueBy}
use coupang_eats_backend_v.Reviews.Service.{
  CreateReviewDto, review_to_entity, with_restaurant, reviews_order, create_review,
}

is_delivered : (s : OrderStatus) → status_eq s delivered ≡ true → s ≡ delivered
is_delivered pending h = absurd (cc)
is_delivered cooking h = absurd (cc)
is_delivered cooked h = absurd (cc)
is_delivered picked_up h = absurd (cc)
is_delivered delivered h = refl

module _ (p : Packages) where
  abbrev reviewed : String → World p → Option Review
  reviewed id w = find_one_by_filters p (reviews_order p id) unsorted w.reviews

  -- every way in which `createReview` can end
  data ReviewRun (user : User) (dto : CreateReviewDto) (w : World p)
      : Result Review × World p → Type 0 where
    stopped : (e : Exception) → ReviewRun user dto w (err e, w)
    tried :
        (o : Order) (r : Restaurant)
        → p.row dto.order_id w.orders ≡ some o
        → is_text o.customer_id user.id ≡ true
        → p.join_one o.restaurant_id w.restaurants ≡ some r
        → (r.id == dto.restaurant_id) ≡ true
        → status_eq o.status delivered ≡ true
        → reviewed dto.order_id w ≡ none
        → ReviewRun user dto w (
            save p
              (review_table p)
              (review_to_entity dto user r (record o { restaurant = some r }))
              w)

  module _ (orders : PackageLaws p order_entity) (user : User) (dto : CreateReviewDto)
      (w : World p) where
    review-ReviewRun : ReviewRun user dto w (create_review p user dto w)
    unfolding create_review
    review-ReviewRun = elim (Option-cases (p.row dto.order_id w.orders)) [
      | inl missing ↦
          rw
            (
              find_one_or_throw-joined p order_entity orders (with_restaurant p w) (λ r. refl)
                  dto.order_id w.orders,
              missing,
            )
            (stopped (not_found "Not found"))
      | inr (o, found) ↦
          rw
            (
              find_one_or_throw-joined p order_entity orders (with_restaurant p w) (λ r. refl)
                  dto.order_id w.orders,
              found,
            )
            (elim (Bool-cases (is_text o.customer_id user.id)) [
              | inr other ↦ rw other (stopped _)
              | inl mine ↦ rw mine (elim (Option-cases (p.join_one o.restaurant_id w.restaurants)) [
                | inl gone ↦ rw gone (stopped _)
                | inr (r, joined) ↦ rw joined (elim (Bool-cases (r.id == dto.restaurant_id)) [
                  | inr differs ↦ rw differs (stopped _)
                  | inl same ↦ rw same (elim (Bool-cases (status_eq o.status delivered)) [
                    | inr early ↦ rw early (stopped _)
                    | inl done ↦ rw done (elim (Option-cases (reviewed dto.order_id w)) [
                      | inr (y, had) ↦ rw had (stopped _)
                      | inl fresh ↦ rw fresh (tried o r found mine joined same done fresh)
                    ])
                  ])
                ])
              ])
            ])
    ]

  -- no row reviews the order yet
  unreviewed :
      (reviews : PackageLaws p review_entity) (id : String) (w : World p)
      → reviewed id w ≡ none
      → IsNew p review_entity (review_table p) (λ r. r.order_id) id w
  unreviewed reviews id w fresh i a at is = false≢true (
      sym (
        find_one_by_filters-none p review_entity reviews (reviews_order p id) unsorted w.reviews i a
          fresh at)
      ∙ ap (λ x. is_text x id) is
      ∙ is_text_self id)

  pub record Reviewed (user : User) (dto : CreateReviewDto) (w : World p) (y : Review)
      (w' : World p) : Type 0 where
    pub order : Order
    pub after : Review
    pub found : p.row dto.order_id w.orders ≡ some order
    pub mine : order.customer_id ≡ some user.id
    pub ordered_at : order.restaurant_id ≡ some dto.restaurant_id
    pub over : order.status ≡ delivered
    pub first : IsNew p review_entity (review_table p) (λ r. r.order_id) dto.order_id w
    pub now : p.row y.id w'.reviews ≡ some after
    pub order_id : after.order_id ≡ some dto.order_id
    pub client_id : after.client_id ≡ some user.id
    pub restaurant_id : after.restaurant_id ≡ some dto.restaurant_id
    pub score : after.score ≡ dto.score
    pub review_text : after.review_text ≡ dto.review_text
    pub others : (i : String) → i ≢ y.id → p.row i w'.reviews ≡ p.row i w.reviews
    pub same_orders : w'.orders ≡ w.orders

  module _ (reviews : PackageLaws p review_entity) (orders : PackageLaws p order_entity)
      (restaurants : PackageLaws p restaurant_entity) (user : User) (dto : CreateReviewDto)
      (w : World p) where
    Saved-order :
        (o : Order) (r : Restaurant) (y : Review) (w' : World p)
        → p.row dto.order_id w.orders ≡ some o
        → Saved p review_entity
            (review_table p)
            (review_to_entity dto user r (record o { restaurant = some r }))
            w
            y
            w'
        → (review_entity.stored y).order_id ≡ some dto.order_id
    unfolding review_to_entity
    Saved-order o r y w' found s =
        ap (λ x. (review_entity.stored x).order_id)
          (Saved-entity p review_entity (review_table p) reviews _ y w w' s)
        ∙ ap some (orders.row-id dto.order_id w.orders o found)

    review_keeps :
        (x : Result Review × World p)
        → ReviewRun user dto w x
        → IsUniqueBy p review_entity (review_table p) (λ r. r.order_id) w
        → IsUniqueBy p review_entity (review_table p) (λ r. r.order_id) x.1
    review_keeps _ (stopped e) u = u
    review_keeps _ (tried o r found mine joined same done fresh) u =
        go
          (save p (review_table p) (review_to_entity dto user r (record o { restaurant = some r }))
            w)
          refl
      where
        go :
            (x : Result Review × World p)
            → save p
                (review_table p)
                (review_to_entity dto user r (record o { restaurant = some r }))
                w
              ≡ x
            → IsUniqueBy p review_entity (review_table p) (λ r. r.order_id) x.1
        go (ok y, w') e =
            let s = save-Saved p review_entity (review_table p) _ y w w' e in
            Saved-IsUniqueBy p review_entity (review_table p) (λ r. r.order_id) reviews _ y w w' s
              dto.order_id (Saved-order o r y w' found s) (unreviewed reviews dto.order_id w fresh)
              u
        go (err z, w') e =
            rw (ap (λ d. d.reviews) (save-err_db p review_entity (review_table p) _ z w w' e)) u

    -- If every order has at most one live review before `createReview`, it has at most one after
    -- it, however the call ends.
    pub create_review-IsUnique :
        IsUniqueBy p review_entity (review_table p) (λ r. r.order_id) w
        → IsUniqueBy p review_entity
            (review_table p)
            (λ r. r.order_id)
            (create_review p user dto w).1
    create_review-IsUnique u = review_keeps _ (review-ReviewRun orders user dto w) u

    review_outcome :
        (y : Review) (w' : World p) (x : Result Review × World p)
        → ReviewRun user dto w x
        → x ≡ (ok y, w')
        → Reviewed user dto w y w'
    unfolding review_to_entity
    review_outcome y w' _ (stopped e) h = absurd (returned_and_threw h refl)
    review_outcome y w' _ (tried o r found mine joined same done fresh) h =
        let s = save-Saved p review_entity (review_table p) _ y w w' h in
        let content = Saved-entity p review_entity (review_table p) reviews _ y w w' s in
        let same_id = (eq_iff r.id dto.restaurant_id).0 same in
        let row = Saved-row p review_entity (review_table p) reviews _ y w w' s in
        record {
          order = o;
          after = review_entity.stored y;
          found = found;
          mine = is_text_iff o.customer_id user.id mine;
          ordered_at =
              join_one-key p restaurant_entity restaurants o.restaurant_id w.restaurants r joined
              ∙ ap some same_id;
          over = is_delivered o.status done;
          first = unreviewed reviews dto.order_id w fresh;
          now = row y.id ∙ ground (arith, eq_refl y.id);
          order_id = Saved-order o r y w' found s;
          client_id = ap (λ x. (review_entity.stored x).client_id) content;
          restaurant_id =
              ap (λ x. (review_entity.stored x).restaurant_id) content ∙ ap some same_id;
          score = ap (λ x. x.score) content;
          review_text = ap (λ x. x.review_text) content;
          others = λ i other. row i ∙ ground (arith, eq_iff y.id i);
          same_orders = ap (λ d. d.orders) s.world;
        }

    -- If `createReview` returns, the order exists, is delivered, and is the caller's at the given
    -- restaurant, no live row reviewed it before, the one new row names the order, the caller, the
    -- restaurant, the score and the text of the request, and the orders have not changed.
    pub create_review-Reviewed :
        (y : Review) (w' : World p)
        → create_review p user dto w ≡ (ok y, w')
        → Reviewed user dto w y w'
    create_review-Reviewed y w' h = review_outcome y w' _ (review-ReviewRun orders user dto w) h
