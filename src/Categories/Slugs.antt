-- ===== src/Categories/Slugs.antt =====
-- `createCategory` and the slugs of the categories.
use mathlib.Core.Bool.{false≢true}
use coupang_eats_backend_v.Base.{
  String, ◌≡◌, refl, sym, ap, ◌∙◌, Option, none, some, Option-cases, inl, inr, eq_iff, some_inj,
}
use coupang_eats_backend_v.Http.{Result, ok, err}
use coupang_eats_backend_v.Entity.{Category, category_entity}
use coupang_eats_backend_v.Packages.{Packages, PackageLaws, unsorted}
use coupang_eats_backend_v.Repository.{find_one_by_filters}
use coupang_eats_backend_v.Repository.Laws.{find_one_by_filters-none}
use coupang_eats_backend_v.World.{World, category_table, save}
use coupang_eats_backend_v.World.Laws.{save-Saved, Saved-entity, save-err_db}
use coupang_eats_backend_v.World.Unique.{IsUniqueBy, IsNew, Saved-IsUniqueBy}
use coupang_eats_backend_v.Categories.Service.{
  CreateCategoryDto, Texts, category_to_entity, has_slug, create_category,
}

-- the slug as a key
abbrev pub key : Category → Option String
key c = some c.slug

module _ (texts : Texts) (p : Packages) (categories : PackageLaws p category_entity) where
  abbrev pub HasUniqueSlugs : World p → Type 0
  HasUniqueSlugs w = IsUniqueBy p category_entity (category_table p) key w

  slug-IsNew :
      (slug : String) (w : World p)
      → find_one_by_filters p (has_slug texts p slug) unsorted w.categories ≡ none
      → IsNew p category_entity (category_table p) key slug w
  slug-IsNew slug w none_yet i a at same = false≢true (
      sym (
        find_one_by_filters-none p category_entity categories (has_slug texts p slug) unsorted
          w.categories i a none_yet at)
      ∙ (eq_iff a.slug slug).1 (some_inj same))

  tried_keeps :
      (e : Category) (w : World p)
      → find_one_by_filters p (has_slug texts p e.slug) unsorted w.categories ≡ none
      → HasUniqueSlugs w
      → (x : Result Category × World p) → save p (category_table p) e w ≡ x
      → HasUniqueSlugs x.1
  tried_keeps e w none_yet unique (ok y, w') h =
      let s = save-Saved p category_entity (category_table p) e y w w' h in
      Saved-IsUniqueBy p category_entity (category_table p) key categories e y w w' s e.slug
        (ap (λ x. some x.slug)
          (Saved-entity p category_entity (category_table p) categories e y w w' s))
        (slug-IsNew e.slug w none_yet) unique
  tried_keeps e w none_yet unique (err z, w') h = λ i j k a b at_i at_j.
      let same = save-err_db p category_entity (category_table p) e z w w' h in
      unique i j k a b (ap (λ d. p.row i d.categories) (sym same) ∙ at_i)
        (ap (λ d. p.row j d.categories) (sym same) ∙ at_j)

  -- If no two categories share a slug before `createCategory`, no two do after it, however the call
  -- ends.
  pub create_category-HasUniqueSlugs :
      (dto : CreateCategoryDto) (w : World p)
      → HasUniqueSlugs w
      → HasUniqueSlugs (create_category texts p dto w).1
  unfolding create_category
  create_category-HasUniqueSlugs dto w unique =
      elim (Option-cases (
        find_one_by_filters p (has_slug texts p (category_to_entity texts dto).slug) unsorted
          w.categories)) [
            | inr (old, found) ↦ rw found unique
            | inl missing ↦
                rw missing (tried_keeps (category_to_entity texts dto) w missing unique _ refl)
          ]
