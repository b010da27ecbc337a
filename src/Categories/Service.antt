-- ===== src/Categories/Service.antt =====
-- src/modules/category/dto/create-category.dto.ts and src/modules/category/category.service.ts,
-- with `trim` and `toLowerCase` as parameters.
use Prim.Native.Char.{code}
use coupang_eats_backend_v.Base.{String, Bool, Option, none, List, nat_eq, ◌==◌, if◌then◌else◌}
use coupang_eats_backend_v.Http.{conflict}
use coupang_eats_backend_v.Action.{Action, ◌>>=◌, ◌>>◌, gets, raise_if}
use coupang_eats_backend_v.Entity.{new_entity, Category, category_entity}
use coupang_eats_backend_v.Packages.{Packages, unsorted}
use coupang_eats_backend_v.Repository.{find_one_by_filters, find_all}
use coupang_eats_backend_v.World.{World, category_table, save}
use coupang_eats_backend_v.Payments.Service.{exists}

pub record CreateCategoryDto : Type 0 where
  pub name : String
  pub cover_img : Option String
  -- what the properties of the body that the class does not declare set in a `CategoryEntity`: the
  -- validation pipe has no whitelist, so a body may even name the id of a row
  pub undeclared : Category

-- the methods of JavaScript's texts
pub record Texts : Type 0 where
  pub trim : String → String
  pub to_lower_case : String → String

-- the entity of a body without such properties
abbrev pub new_category : Category
new_category = record { base = new_entity; name = ""; cover_img = none; slug = "" }

-- `.replace(/ /g, '-')`
unfoldable pub hyphens : String → String
hyphens String.[] = String.[]
hyphens (String.◌∷◌ c s) = String.◌∷◌ (if nat_eq (code c) 32 then "-" else c) (hyphens s)

module _ (texts : Texts) where
  unfoldable pub slug_of : String → String
  slug_of name = hyphens (texts.to_lower_case (texts.trim name))

  -- `CreateCategoryDto.toEntity`
  unfoldable pub category_to_entity : CreateCategoryDto → Category
  category_to_entity dto = record dto.undeclared {
    name = dto.name;
    cover_img = dto.cover_img;
    slug = slug_of dto.name;
  }

  module _ (p : Packages) where
    -- the filter `{ slug: category.slug }`
    abbrev pub has_slug : String → Category → Bool
    has_slug slug c = c.slug == slug

    unfoldable pub create_category : CreateCategoryDto → Action (World p) Category
    create_category dto = do
      let category = category_to_entity dto
      existing ← gets (λ w. find_one_by_filters p (has_slug category.slug) unsorted w.categories)
      raise_if (exists existing) (conflict "Category already exists")
      save p (category_table p) category

    unfoldable pub get_all_categories : Action (World p) (List Category)
    get_all_categories = gets (λ w. find_all p w.categories)
