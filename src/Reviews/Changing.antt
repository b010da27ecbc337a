-- ===== src/Reviews/Changing.antt =====
-- `updateReview` and `deleteReview`.
use coupang_eats_backend_v.Base.{
  String, ◌≡◌, ◌≢◌, refl, sym, ap, ◌∙◌, Bool, true, none, some, ◌==◌, Option-cases, Bool-cases, inl,
  inr, arith, eq_iff, eq_refl, if◌then◌else◌, ==-false,
}
use coupang_eats_backend_v.Http.{Exception, Result, ok, err, not_found}
use coupang_eats_backend_v.Action.{returned_and_threw}
use coupang_eats_backend_v.Entity.{
  User, Review, order_entity, review_entity, user_entity, generate_uuid,
}
use coupang_eats_backend_v.Packages.{Packages, PackageLaws}
use coupang_eats_backend_v.Repository.Joined.{find_one_or_throw-joined, join_one-key}
use coupang_eats_backend_v.World.{World, review_table, save, soft_delete}
use coupang_eats_backend_v.World.Laws.{save-Saved, Saved-id, Saved-entity, Saved-row}
use coupang_eats_backend_v.Reviews.Service.{
  UpdateReviewDto, spread, spread_null, merge_review, with_client, update_review, delete_review,
}

module _ (p : Packages) where
  data DeleteRun (user : User) (id : String) (w : World p)
      : Result (Unit {0}) × World p → Type 0 where
    kept : (e : Exception) → DeleteRun user id w (err e, w)
    gone :
        (r : Review) (u : User)
        → p.row id w.reviews ≡ some r
        → p.join_one r.client_id w.users ≡ some u
        → (u.id == user.id) ≡ true
        → DeleteRun user id w (soft_delete p (review_table p) id w)

  data UpdateRun (user : User) (id : String) (dto : UpdateReviewDto) (w : World p)
      : Result Review × World p → Type 0 where
    unchanged : (e : Exception) → UpdateRun user id dto w (err e, w)
    tried :
        (r : Review) (u : User)
        → p.row id w.reviews ≡ some r
        → p.join_one r.client_id w.users ≡ some u
        → (u.id == user.id) ≡ true
        → UpdateRun user id dto w
            (save p (review_table p) (p.create (merge_review (record r { client = some u }) dto)) w)

  module _ (reviews : PackageLaws p review_entity) (users : PackageLaws p user_entity) (user : User)
      (id : String) (w : World p) where
    delete-DeleteRun : DeleteRun user id w (delete_review p user id w)
    unfolding delete_review
    delete-DeleteRun = elim (Option-cases (p.row id w.reviews)) [
      | inl missing ↦
          rw
            (
              find_one_or_throw-joined p review_entity reviews (with_client p w) (λ r. refl) id
                  w.reviews,
              missing,
            )
            (kept (not_found "Not found"))
      | inr (r, found) ↦
          rw
            (
              find_one_or_throw-joined p review_entity reviews (with_client p w) (λ r. refl) id
                  w.reviews,
              found,
            )
            (elim (Option-cases (p.join_one r.client_id w.users)) [
              | inl nobody ↦ rw nobody (kept _)
              | inr (u, joined) ↦ rw joined (elim (Bool-cases (u.id == user.id)) [
                | inr other ↦ rw other (kept _)
                | inl mine ↦ rw mine (gone r u found joined mine)
              ])
            ])
    ]

    author :
        (r : Review) (u : User)
        → p.join_one r.client_id w.users ≡ some u
        → (u.id == user.id) ≡ true
        → r.client_id ≡ some user.id
    author r u joined mine =
        join_one-key p user_entity users r.client_id w.users u joined
        ∙ ap some ((eq_iff u.id user.id).0 mine)

    pub record Deleted (w' : World p) : Type 0 where
      pub before : Review
      pub was : p.row id w.reviews ≡ some before
      pub mine : before.client_id ≡ some user.id
      pub now : p.row id w'.reviews ≡ none
      pub others : (i : String) → i ≢ id → p.row i w'.reviews ≡ p.row i w.reviews

    delete_outcome :
        (w' : World p) (x : Result (Unit {0}) × World p)
        → DeleteRun user id w x
        → x ≡ (ok tt, w')
        → Deleted w'
    unfolding soft_delete
    delete_outcome w' _ (kept e) h = absurd (returned_and_threw h refl)
    delete_outcome w' _ (gone r u found joined mine) h =
        let row : (i : String)
            → p.row i w'.reviews ≡ (if id == i then none else p.row i w.reviews) =
          λ i. ap (λ y. p.row i y.1.reviews) (sym h) ∙ reviews.soft_delete-row id i w.reviews in
        record {
          before = r;
          was = found;
          mine = author r u joined mine;
          now = row id ∙ ground (arith, eq_refl id);
          others = λ i other. row i ∙ ground (arith, eq_iff id i);
        }

    -- If `deleteReview` returns, the review was the caller's, it is gone, and every other review is
    -- still there.
    pub delete_review-Deleted :
        (w' : World p) → delete_review p user id w ≡ (ok tt, w') → Deleted w'
    delete_review-Deleted w' h = delete_outcome w' _ delete-DeleteRun h

    delete_stays :
        (e : Exception) (w' : World p) (x : Result (Unit {0}) × World p)
        → DeleteRun user id w x
        → x ≡ (err e, w')
        → w' ≡ w
    unfolding soft_delete
    delete_stays e w' _ (kept e2) h = ap (λ y. y.1) (sym h)
    delete_stays e w' _ (gone r u found joined mine) h = absurd (returned_and_threw refl h)

    module _ (dto : UpdateReviewDto) where
      update-UpdateRun : UpdateRun user id dto w (update_review p user id dto w)
      unfolding update_review
      update-UpdateRun = elim (Option-cases (p.row id w.reviews)) [
        | inl missing ↦
            rw
              (
                find_one_or_throw-joined p review_entity reviews (with_client p w) (λ r. refl) id
                    w.reviews,
                missing,
              )
              (unchanged (not_found "Not found"))
        | inr (r, found) ↦
            rw
              (
                find_one_or_throw-joined p review_entity reviews (with_client p w) (λ r. refl) id
                    w.reviews,
                found,
              )
              (elim (Option-cases (p.join_one r.client_id w.users)) [
                | inl nobody ↦ rw nobody (unchanged _)
                | inr (u, joined) ↦ rw joined (elim (Bool-cases (u.id == user.id)) [
                  | inr other ↦ rw other (unchanged _)
                  | inl mine ↦ rw mine (tried r u found joined mine)
                ])
              ])
      ]

      pub record Updated (w' : World p) : Type 0 where
        pub before : Review
        pub after : Review
        pub was : p.row id w.reviews ≡ some before
        pub mine : before.client_id ≡ some user.id
        pub now : p.row id w'.reviews ≡ some after
        pub score : after.score ≡ spread dto.score before.score
        pub review_text : after.review_text ≡ spread dto.review_text before.review_text
        pub review_img : after.review_img ≡ spread_null dto.review_img before.review_img
        pub client_id : after.client_id ≡ before.client_id
        pub order_id : after.order_id ≡ before.order_id
        pub restaurant_id : after.restaurant_id ≡ before.restaurant_id
        pub others : (i : String) → i ≢ id → p.row i w'.reviews ≡ p.row i w.reviews

      update_outcome :
          (y : Review) (w' : World p) (x : Result Review × World p)
          → id ≢ ""
          → ((r : Review) → dto.undeclared r ≡ r)
          → UpdateRun user id dto w x
          → x ≡ (ok y, w')
          → Updated w'
      unfolding merge_review
      update_outcome y w' _ set_id as_is (unchanged e) h = absurd (returned_and_threw h refl)
      update_outcome y w' _ set_id as_is (tried r u found joined mine) h =
          let s = save-Saved p review_entity (review_table p) _ y w w' h in
          let content =
            Saved-entity p review_entity (review_table p) reviews _ y w w' s
            ∙ ap (review_entity.with_base y.base) (reviews.create-eq _ ∙ as_is _) in
          let was_id = reviews.row-id id w.reviews r found in
          let set : r.id ≢ "" = λ empty. set_id (sym was_id ∙ empty) in
          let same : y.id ≡ id =
            Saved-id p review_entity (review_table p) reviews _ y w w' s
            ∙ ap (λ (e : Review). (generate_uuid (p.v4 w.fresh) e.base).id)
                (reviews.create-eq _ ∙ as_is _)
            ∙ ap (λ (b : Bool). (if b then record r.base { id = p.v4 w.fresh } else r.base).id)
                (==-false r.id "" set)
            ∙ was_id in
          let row = Saved-row p review_entity (review_table p) reviews _ y w w' s in
          let plain = reviews.row-stored id w.reviews r found in
          record {
            before = r;
            after = review_entity.stored y;
            was = found;
            mine = author r u joined mine;
            now = row id ∙ ground (arith, eq_iff y.id id);
            score = ap (λ x. x.score) content;
            review_text = ap (λ x. x.review_text) content;
            review_img = ap (λ x. x.review_img) content;
            client_id =
                ap (λ x. (review_entity.stored x).client_id) content
                ∙ sym (join_one-key p user_entity users r.client_id w.users u joined);
            order_id =
                ap (λ x. (review_entity.stored x).order_id) content ∙ ap (λ x. x.order_id) plain;
            restaurant_id =
                ap (λ x. (review_entity.stored x).restaurant_id) content
                ∙ ap (λ x. x.restaurant_id) plain;
            others = λ i other. row i ∙ ground (arith, eq_iff y.id i);
          }

      -- If `updateReview` returns for an id that is not empty and a body that has only properties of
      -- its class, none of them null, the review was the caller's, its row has the score, text and
      -- images of the request where the request has them and the old ones elsewhere, the author, the
      -- order and the restaurant of it are the same, and no other review has changed.
      pub update_review-Updated :
          (y : Review) (w' : World p)
          → id ≢ ""
          → ((r : Review) → dto.undeclared r ≡ r)
          → update_review p user id dto w ≡ (ok y, w')
          → Updated w'
      update_review-Updated y w' set_id as_is h =
          update_outcome y w' _ set_id as_is update-UpdateRun h

  -- If `deleteReview` throws, nothing has changed.
  pub delete_review_throws :
      (reviews : PackageLaws p review_entity) (users : PackageLaws p user_entity) (user : User)
      (id : String) (e : Exception) (w w' : World p)
      → delete_review p user id w ≡ (err e, w')
      → w' ≡ w
  delete_review_throws reviews users user id e w w' h =
      delete_stays reviews users user id w e w' _ (delete-DeleteRun reviews users user id w) h
