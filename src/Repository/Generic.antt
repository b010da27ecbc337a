-- ===== src/Repository/Generic.antt =====
-- The query methods of `GenericTypeOrmRepository`, over the table that they read.
use coupang_eats_backend_v.Base.{
  String, Bool, true, false, ◌&&◌, Option, none, some, List, [], ◌∷◌, ◌==◌, ◌<>◌, ◌-◌, ◌*◌,
  includes, map,
}
use coupang_eats_backend_v.Http.{Exception, Result, ok, err, not_found}
use coupang_eats_backend_v.Entity.{Entity, id_of}
use coupang_eats_backend_v.Packages.{Packages, FindOptions, SortOrder, unsorted}
use coupang_eats_backend_v.Pagination.{
  PaginationRequest, PaginationResponse, set_data, set_page, set_limit, set_total_count, build,
  new_builder,
}

-- no relation is joined
abbrev pub no_relations : {E : Type 0} → E → E
no_relations e = e

-- a property of the `filters` object: its name, the wanted text, and the column
pub record Property (E : Type 0) : Type 0 where
  pub key : String
  pub value : String
  pub column : E → String

abbrev pub all_hold : {E : Type 0} → List (Property E) → E → Bool
all_hold [] e = true
all_hold (q ∷ []) e = q.column e == q.value
all_hold (q ∷ qs) e = q.column e == q.value && all_hold qs e

-- `msgList.join(', ')`
abbrev pub describe : {E : Type 0} → List (Property E) → String
describe [] = ""
describe (q ∷ []) = q.key <> ": " <> q.value
describe (q ∷ qs) = q.key <> ": " <> q.value <> ", " <> describe qs

abbrev pub found_or : {E : Type 0} → Option E → Exception → Result E
found_or none e = err e
found_or (some r) e = ok r

module _ (p : Packages) {E : Type 0} ⦃c : Entity E⦄ where
  abbrev pub options : (E → Bool) → (E → E) → SortOrder → Bool → FindOptions E
  options filters relations order with_deleted = record {
    filter = filters;
    relations = relations;
    order = order;
    skip = 0;
    limit = none;
    with_deleted = with_deleted;
  }

  -- `select` keeps the chosen columns of an entity
  unfoldable pub paginate :
      PaginationRequest → (E → Bool) → SortOrder → (E → E) → p.Table E → PaginationResponse E
  paginate pagination filters order select t =
      let (list, total) =
        p.find_and_count
          (record (options filters no_relations order false) {
            skip = (pagination.page - 1) * pagination.limit;
            limit = some pagination.limit;
          })
          t in
      build (
        set_total_count total (
          set_limit pagination.limit
            (set_page pagination.page (set_data (map select list) new_builder))))

  unfoldable pub find_one_with_omit_not_joined_props :
      (E → Bool) → (E → E) → SortOrder → Bool → p.Table E → Option E
  find_one_with_omit_not_joined_props filters relations order with_deleted t =
      p.find_one (options filters relations order with_deleted) t

  unfoldable pub find_one_with_omit_not_joined_props_or_throw :
      (E → Bool) → (E → E) → SortOrder → Bool → p.Table E → Result E
  find_one_with_omit_not_joined_props_or_throw filters relations order with_deleted t =
      found_or (p.find_one (options filters relations order with_deleted) t) (not_found "Not found")

  unfoldable pub find_many_with_omit_not_joined_props :
      (E → Bool) → (E → E) → SortOrder → Bool → p.Table E → List E
  find_many_with_omit_not_joined_props filters relations order with_deleted t =
      p.find (options filters relations order with_deleted) t

  unfoldable pub find_one_by_filters : (E → Bool) → SortOrder → p.Table E → Option E
  find_one_by_filters filters order t = p.find_one (options filters no_relations order false) t

  unfoldable pub find_all : p.Table E → List E
  find_all t = p.find (options (λ _. true) no_relations unsorted false) t

  unfoldable pub find_many : (E → Bool) → SortOrder → p.Table E → List E
  find_many filters order t = p.find (options filters no_relations order false) t

  unfoldable pub find_one_or_throw : List (Property E) → SortOrder → p.Table E → Result E
  find_one_or_throw filters order t =
      found_or (p.find_one (options (all_hold filters) no_relations order false) t)
        (not_found ("don't exist " <> describe filters))

  unfoldable pub find_by_id_or_throw : String → p.Table E → Result E
  find_by_id_or_throw id t =
      found_or (p.find_one (options (λ e. id_of e == id) no_relations unsorted false) t)
        (not_found ("don't exist " <> id))

  unfoldable pub find_by_ids : List String → p.Table E → List E
  find_by_ids ids t = p.find (options (λ e. includes ids (id_of e)) no_relations unsorted false) t
