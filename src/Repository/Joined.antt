-- ===== src/Repository/Joined.antt =====
-- Finding one entity by its key with its relations joined, against the row of that key.
use coupang_eats_backend_v.Base.{
  String, ◌≡◌, refl, sym, ap, ◌∙◌, Bool, true, false, Option, none, some, ◌==◌, ◌&&◌, if◌then◌else◌,
  Option-cases, inl, inr, eq_iff,
}
use mathlib.Core.Bool.{false≢true}
use coupang_eats_backend_v.Http.{not_found}
use coupang_eats_backend_v.Entity.{Entity, id_of}
use coupang_eats_backend_v.Packages.{Packages, PackageLaws, FindOptions, unsorted, kept}
use coupang_eats_backend_v.Repository.Generic.{
  options, found_or, find_one_with_omit_not_joined_props_or_throw,
}

-- a row that may be missing, with its relations
abbrev pub with_relations : {E : Type 0} → (E → E) → Option E → Option E
with_relations f none = none
with_relations f (some e) = some (f e)

module _ (p : Packages) {E : Type 0} (c : Entity E) (laws : PackageLaws p c) (f : E → E)
    (keeps : (r : E) → (c.base (f r)).id ≡ (c.base r).id) where
  find_one-joined :
      (id : String) (t : p.Table E)
      → p.find_one ⦃c = c⦄ (options p ⦃c = c⦄ (λ e. id_of ⦃c = c⦄ e == id) f unsorted false) t
        ≡ with_relations f (p.row ⦃c = c⦄ id t)
  find_one-joined id t = elim (Option-cases (p.find_one ⦃c = c⦄ by_id t)) [
    | inl missing ↦ missing ∙ ap (with_relations f) (sym (no_row missing))
    | inr (e, found) ↦
        let h = laws.find_one-found by_id t e refl found in
        let same : (c.base h.row).id ≡ id =
          sym (keeps h.row)
          ∙ ap (λ x. (c.base x).id) h.joined
          ∙ (eq_iff (c.base e).id id).0 h.passes in
        found
        ∙ ap some (sym h.joined)
        ∙ ap (with_relations f) (sym h.live ∙ ap (λ i. p.row ⦃c = c⦄ i t) same)
  ]
    where
      by_id : FindOptions E
      by_id = options p ⦃c = c⦄ (λ e. id_of ⦃c = c⦄ e == id) f unsorted false

      no_row : p.find_one ⦃c = c⦄ by_id t ≡ none → p.row ⦃c = c⦄ id t ≡ none
      no_row missing = elim (Option-cases (p.row ⦃c = c⦄ id t)) [
        | inl gone ↦ gone
        | inr (r, at) ↦ absurd (
            false≢true (
              sym (laws.find_one-none by_id t id r refl missing at)
              ∙ (eq_iff (c.base (f r)).id id).1 (keeps r ∙ laws.row-id id t r at)))
      ]

  pub find_one_or_throw-joined :
      (id : String) (t : p.Table E)
      → find_one_with_omit_not_joined_props_or_throw p ⦃c = c⦄
          (λ e. id_of ⦃c = c⦄ e == id)
          f
          unsorted
          false
          t
        ≡ found_or (with_relations f (p.row ⦃c = c⦄ id t)) (not_found "Not found")
  unfolding find_one_with_omit_not_joined_props_or_throw
  find_one_or_throw-joined id t =
      ap (λ r. found_or r (not_found "Not found")) (find_one-joined id t)

  -- finding by key and by a further test
  pub find_one_or_throw-filtered :
      (q : E → Bool) (id : String) (t : p.Table E)
      → find_one_with_omit_not_joined_props_or_throw p ⦃c = c⦄
          (λ e. id_of ⦃c = c⦄ e == id && q e)
          f
          unsorted
          false
          t
        ≡ found_or (kept q (with_relations f (p.row ⦃c = c⦄ id t))) (not_found "Not found")
  unfolding find_one_with_omit_not_joined_props_or_throw
  find_one_or_throw-filtered q id t =
      ap (λ r. found_or r (not_found "Not found"))
        (elim (Option-cases (p.find_one ⦃c = c⦄ by_id t)) [
          | inl missing ↦ missing ∙ sym (no_row missing)
          | inr (e, found) ↦
              let h = laws.find_one-found by_id t e refl found in
              let (is_id, passes) = both (id_of ⦃c = c⦄ e == id) (q e) h.passes in
              let same : (c.base h.row).id ≡ id =
                sym (keeps h.row)
                ∙ ap (λ x. (c.base x).id) h.joined
                ∙ (eq_iff (c.base e).id id).0 is_id in
              found
              ∙ sym (ap (λ b. if b then some e else none) passes)
              ∙ ap (kept q) (
                  ap some (sym h.joined)
                  ∙ ap (with_relations f) (sym h.live ∙ ap (λ i. p.row ⦃c = c⦄ i t) same))
        ])
    where
      both : (a b : Bool) → (a && b) ≡ true → (a ≡ true) × (b ≡ true)
      both true true h = (refl, refl)
      both true false h = absurd (false≢true h)
      both false b h = absurd (false≢true h)

      by_id : FindOptions E
      by_id = options p ⦃c = c⦄ (λ e. id_of ⦃c = c⦄ e == id && q e) f unsorted false

      no_row :
          p.find_one ⦃c = c⦄ by_id t ≡ none → kept q (with_relations f (p.row ⦃c = c⦄ id t)) ≡ none
      no_row missing = elim (Option-cases (p.row ⦃c = c⦄ id t)) [
        | inl gone ↦ rw gone refl
        | inr (r, at) ↦
            let is_id = (eq_iff (c.base (f r)).id id).1 (keeps r ∙ laws.row-id id t r at) in
            let fails =
              sym (ap (λ b. b && q (f r)) is_id)
              ∙ laws.find_one-none by_id t id r refl missing at in
            rw at (ap (λ b. if b then some (f r) else none) fails)
      ]

-- a relation that a join found has the key of its column
pub join_one-key :
    (p : Packages) {E : Type 0} (c : Entity E) (laws : PackageLaws p c) (k : Option String)
    (t : p.Table E) (e : E)
    → p.join_one ⦃c = c⦄ k t ≡ some e
    → k ≡ some (c.base e).id
join_one-key p c laws none t e h = absurd (cc (laws.join_one-row none t))
join_one-key p c laws (some i) t e h =
    ap some (sym (laws.row-id i t e (sym (laws.join_one-row (some i) t) ∙ h)))
