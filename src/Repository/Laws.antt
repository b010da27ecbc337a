-- ===== src/Repository/Laws.antt =====
-- The query methods of `GenericTypeOrmRepository` against the rows of the table.
use coupang_eats_backend_v.Base.{
  String, ◌≡◌, refl, sym, ap, ◌∙◌, Bool, true, false, none, some, List, ◌==◌, ◌<>◌, Option-cases,
  inl, inr, eq_iff, find, includes, find-mem, find-none,
}
use mathlib.Core.Bool.{false≢true}
use coupang_eats_backend_v.Http.{not_found}
use coupang_eats_backend_v.Entity.{Entity, id_of}
use coupang_eats_backend_v.Packages.{Packages, PackageLaws, FindOptions, unsorted, SortOrder}
use coupang_eats_backend_v.Repository.Generic.{
  options, no_relations, found_or, find_by_id_or_throw, find_one_by_filters,
}

module _ (p : Packages) {E : Type 0} (c : Entity E) (laws : PackageLaws p c) where
  -- what is found by its key is the row of that key
  pub find_one-key :
      (id : String) (t : p.Table E)
      → p.find_one ⦃c = c⦄
          (options p ⦃c = c⦄ (λ e. id_of ⦃c = c⦄ e == id) no_relations unsorted false)
          t
        ≡ p.row ⦃c = c⦄ id t
  find_one-key id t = elim (Option-cases (p.find_one ⦃c = c⦄ by_id t)) [
    | inl missing ↦ missing ∙ sym (no_row missing)
    | inr (e, found) ↦
        let f = laws.find_one-found by_id t e refl found in
        let same : (c.base f.row).id ≡ id =
          ap (λ x. (c.base x).id) f.joined ∙ (eq_iff (c.base e).id id).0 f.passes in
        found ∙ ap some (sym f.joined) ∙ sym f.live ∙ ap (λ i. p.row ⦃c = c⦄ i t) same
  ]
    where
      by_id : FindOptions E
      by_id = options p ⦃c = c⦄ (λ e. id_of ⦃c = c⦄ e == id) no_relations unsorted false

      no_row : p.find_one ⦃c = c⦄ by_id t ≡ none → p.row ⦃c = c⦄ id t ≡ none
      no_row missing = elim (Option-cases (p.row ⦃c = c⦄ id t)) [
        | inl gone ↦ gone
        | inr (r, at) ↦ absurd (
            false≢true (
              sym (laws.find_one-none by_id t id r refl missing at)
              ∙ (eq_iff (c.base r).id id).1 (laws.row-id id t r at)))
      ]

  -- `findByIdOrThrow` returns the live row with the id, or throws 404 with the id in its message.
  pub find_by_id_or_throw-row :
      (id : String) (t : p.Table E)
      → find_by_id_or_throw p ⦃c = c⦄ id t
        ≡ found_or (p.row ⦃c = c⦄ id t) (not_found ("don't exist " <> id))
  unfolding find_by_id_or_throw
  find_by_id_or_throw-row id t =
      ap (λ r. found_or r (not_found ("don't exist " <> id))) (find_one-key id t)

  -- `findOneByFilters` answers null exactly when no live row passes the filters.
  pub find_one_by_filters-none :
      (filters : E → Bool) (order : SortOrder) (t : p.Table E) (i : String) (r : E)
      → find_one_by_filters p ⦃c = c⦄ filters order t ≡ none
      → p.row ⦃c = c⦄ i t ≡ some r
      → filters r ≡ false
  unfolding find_one_by_filters
  find_one_by_filters-none filters order t i r h at = laws.find_one-none _ t i r refl h at

  pub find_one_by_filters-some :
      (filters : E → Bool) (order : SortOrder) (t : p.Table E) (e : E)
      → find_one_by_filters p ⦃c = c⦄ filters order t ≡ some e
      → (p.row ⦃c = c⦄ (c.base e).id t ≡ some e) × (filters e ≡ true)
  unfolding find_one_by_filters
  find_one_by_filters-some filters order t e h =
      let f = laws.find_one-found _ t e refl h in (rw (← f.joined) f.live, f.passes)

  -- searching a `find` by keys for a key gives the row of that key
  pub find-key :
      (ids : List String) (id : String) (t : p.Table E)
      → includes ids id ≡ true
      → find
          (λ e. (c.base e).id == id)
          (p.find ⦃c = c⦄
            (options p ⦃c = c⦄ (λ e. includes ids (c.base e).id) no_relations unsorted false)
            t)
        ≡ p.row ⦃c = c⦄ id t
  find-key ids id t listed = elim (Option-cases (find (λ e. (c.base e).id == id) all)) [
    | inl missing ↦ missing ∙ sym (no_row missing)
    | inr (e, found) ↦
        let (m, same_id) = find-mem (λ e. (c.base e).id == id) e all found in
        let f = laws.find-found by_ids t e refl m in
        let same : (c.base f.row).id ≡ id =
          ap (λ x. (c.base x).id) f.joined ∙ (eq_iff (c.base e).id id).0 same_id in
        found ∙ ap some (sym f.joined) ∙ sym f.live ∙ ap (λ i. p.row ⦃c = c⦄ i t) same
  ]
    where
      by_ids : FindOptions E
      by_ids = options p ⦃c = c⦄ (λ e. includes ids (c.base e).id) no_relations unsorted false

      all : List E
      all = p.find ⦃c = c⦄ by_ids t

      no_row : find (λ e. (c.base e).id == id) all ≡ none → p.row ⦃c = c⦄ id t ≡ none
      no_row missing = elim (Option-cases (p.row ⦃c = c⦄ id t)) [
        | inl gone ↦ gone
        | inr (r, at) ↦
            let same = laws.row-id id t r at in
            let m = laws.find-all by_ids t id r at (ap (includes ids) same ∙ listed) in
            absurd (
              false≢true (
                sym (find-none (λ e. (c.base e).id == id) r all missing m)
                ∙ (eq_iff (c.base r).id id).1 same))
      ]
