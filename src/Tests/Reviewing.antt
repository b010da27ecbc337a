-- ===== src/Tests/Reviewing.antt =====
-- Writing, changing and deleting a review on the data in memory.
use mathlib.Core.Bool.{false≢true}
use coupang_eats_backend_v.Base.{String, ◌≡◌, ◌≢◌, refl, none, some, eq_iff, none-ne-some}
use coupang_eats_backend_v.Http.{Result, ok, err, forbidden}
use coupang_eats_backend_v.Entity.{
  Review, review_entity, order_entity, user_entity, restaurant_entity,
}
use coupang_eats_backend_v.Packages.Memory.{
  memory, memory_laws, memory_row, memory_find_one, memory_save, rows_at,
}
use coupang_eats_backend_v.World.{World, save, soft_delete, review_table}
use coupang_eats_backend_v.World.Unique.{IsUniqueBy}
use coupang_eats_backend_v.Repository.{
  find_one_by_filters, find_one_with_omit_not_joined_props_or_throw,
}
use coupang_eats_backend_v.Reviews.Service.{
  CreateReviewDto, UpdateReviewDto, review_to_entity, merge_review, create_review, update_review,
  delete_review,
}
use coupang_eats_backend_v.Reviews.Creating.{
  Reviewed, create_review-IsUnique, create_review-Reviewed,
}
use coupang_eats_backend_v.Reviews.Changing.{
  Deleted, Updated, delete_review-Deleted, update_review-Updated,
}
use coupang_eats_backend_v.Tests.Data.{alice, dan, diner, second, praise, start, reviewed}

abbrev opinion : CreateReviewDto
opinion = record {
  order_id = "second";
  restaurant_id = "diner";
  score = 5;
  review_text = "Very good";
  review_img = none;
}

abbrev written : Result Review × World memory
written = create_review memory alice opinion start

abbrev opinion_row : Review
opinion_row = record {
  base = record { id = "u"; created_at = 0; updated_at = 0; deleted_at = none };
  score = 5;
  review_text = "Very good";
  review_img = none;
  client_id = none;
  client = some alice;
  restaurant_id = none;
  restaurant = some diner;
  order_id = some "second";
  order = some (record second { restaurant = some diner });
}

written_returned : written ≡ (ok opinion_row, written.1)
unfolding create_review review_to_entity save memory_row memory_find_one memory_save rows_at
    find_one_by_filters find_one_with_omit_not_joined_props_or_throw
written_returned = refl

no_reviews : IsUniqueBy memory review_entity (review_table memory) (λ r. r.order_id) start
unfolding memory_row
no_reviews i j k a b at_i at_j pays_a pays_b = absurd (none-ne-some at_i)

create_review-IsUnique_example :
    IsUniqueBy memory review_entity (review_table memory) (λ r. r.order_id) written.1
create_review-IsUnique_example =
    create_review-IsUnique memory (memory_laws review_entity) (memory_laws order_entity)
      (memory_laws restaurant_entity) alice opinion start no_reviews

create_review-Reviewed_example : Reviewed memory alice opinion start opinion_row written.1
create_review-Reviewed_example =
    create_review-Reviewed memory (memory_laws review_entity) (memory_laws order_entity)
      (memory_laws restaurant_entity) alice opinion start opinion_row written.1 written_returned

abbrev deleted : Result (Unit {0}) × World memory
deleted = delete_review memory alice "praise" reviewed

deleted_returned : deleted ≡ (ok tt, deleted.1)
unfolding delete_review soft_delete memory_row memory_find_one rows_at
    find_one_with_omit_not_joined_props_or_throw
deleted_returned = refl

delete_review-Deleted_example :
    Deleted memory
      (memory_laws review_entity)
      (memory_laws user_entity)
      alice
      "praise"
      reviewed
      deleted.1
delete_review-Deleted_example =
    delete_review-Deleted memory (memory_laws review_entity) (memory_laws user_entity) alice
      "praise" reviewed deleted.1 deleted_returned

denied :
    delete_review memory dan "praise" reviewed
    ≡ (err (forbidden "You can only delete your own reviews."), reviewed)
unfolding delete_review memory_row memory_find_one rows_at
    find_one_with_omit_not_joined_props_or_throw
denied = refl

abbrev better : UpdateReviewDto
better = record { score = some 5; review_text = none; review_img = none; undeclared = λ r. r }

abbrev updated : Result Review × World memory
updated = update_review memory alice "praise" better reviewed

abbrev better_row : Review
better_row = record praise { score = 5; client = some alice }

updated_returned : updated ≡ (ok better_row, updated.1)
unfolding update_review merge_review save memory_row memory_find_one memory_save rows_at
    find_one_with_omit_not_joined_props_or_throw
updated_returned = refl

named : ◌≢◌ {A = String} "praise" ""
named same = false≢true ((eq_iff "praise" "").1 same)

update_review-Updated_example :
    Updated memory
      (memory_laws review_entity)
      (memory_laws user_entity)
      alice
      "praise"
      reviewed
      better
      updated.1
update_review-Updated_example =
    update_review-Updated memory (memory_laws review_entity) (memory_laws user_entity) alice
      "praise" reviewed better better_row updated.1 named (λ r. refl) updated_returned
