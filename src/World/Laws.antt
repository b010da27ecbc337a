-- ===== src/World/Laws.antt =====
-- What a `save` that returns has done: the entity, its row, and everything that stays.
use coupang_eats_backend_v.Base.{
  String, ◌≡◌, refl, sym, ap, ◌∙◌, Option, none, some, ◌==◌, if◌then◌else◌,
}
use coupang_eats_backend_v.Http.{Exception, ok, err, query_failed, err_inj}
use coupang_eats_backend_v.Action.{returned_and_threw}
use coupang_eats_backend_v.Entity.{Entity, generate_uuid}
use coupang_eats_backend_v.Packages.{Packages, PackageLaws}
use coupang_eats_backend_v.World.State.{World}
use coupang_eats_backend_v.World.Tables.{TableOf}
use coupang_eats_backend_v.World.Saves.{save, saved, with_id, drawn}

module _ (p : Packages) {E : Type 0} (c : Entity E) (v : TableOf p E) where
  pub record Saved (e : E) (w : World p) (e' : E) (w' : World p) : Type 0 where
    pub rows : p.Table E
    pub done : p.save ⦃c = c⦄ (with_id p ⦃c = c⦄ v e w) (v.table w.db) ≡ some (e', rows)
    pub world : w' ≡ record w { fresh = drawn p ⦃c = c⦄ v e w; db = v.put rows w.db }

  pub save-Saved :
      (e e' : E) (w w' : World p) → save p ⦃c = c⦄ v e w ≡ (ok e', w') → Saved e w e' w'
  unfolding save
  save-Saved e e' w w' h = go (p.save ⦃c = c⦄ (with_id p ⦃c = c⦄ v e w) (v.table w.db)) refl h
    where
      go :
          (r : Option (E × p.Table E))
          → p.save ⦃c = c⦄ (with_id p ⦃c = c⦄ v e w) (v.table w.db) ≡ r
          → saved p ⦃c = c⦄ v r (record w { fresh = drawn p ⦃c = c⦄ v e w }) ≡ (ok e', w')
          → Saved e w e' w'
      go none q k = absurd (cc)
      go (some (x, t)) q k =
          let same : x ≡ e' = cc in
          record { rows = t; done = rw (← same) q; world = sym (ap (λ a. a.1) k) }

  module _ (laws : PackageLaws p c) (e e' : E) (w w' : World p) (s : Saved e w e' w') where
    pub Saved-id : (c.base e').id ≡ (generate_uuid (p.v4 w.fresh) (c.base e)).id
    Saved-id =
        (laws.save-entity (with_id p ⦃c = c⦄ v e w) e' (v.table w.db) s.rows s.done).1
        ∙ ap (λ b. b.id) (c.base-with_base (generate_uuid (p.v4 w.fresh) (c.base e)) e)

    pub Saved-entity : e' ≡ c.with_base (c.base e') e
    Saved-entity =
        (laws.save-entity (with_id p ⦃c = c⦄ v e w) e' (v.table w.db) s.rows s.done).0
        ∙ c.with_base-with_base (c.base e') _ e

    pub Saved-row :
        (i : String)
        → p.row ⦃c = c⦄ i (v.table w'.db)
          ≡ (if (c.base e').id == i then some (c.stored e') else p.row ⦃c = c⦄ i (v.table w.db))
    Saved-row i =
        ap (λ x. p.row ⦃c = c⦄ i (v.table x.db)) s.world
        ∙ ap (λ t. p.row ⦃c = c⦄ i t) (v.table-put s.rows w.db)
        ∙ laws.save-row (with_id p ⦃c = c⦄ v e w) e' (v.table w.db) s.rows i s.done

  pub save-eq-err :
      (e : E) (x : Exception) (w w' : World p)
      → save p ⦃c = c⦄ v e w ≡ (err x, w')
      → w'.emitted ≡ w.emitted
  unfolding save
  save-eq-err e x w w' h = go (p.save ⦃c = c⦄ (with_id p ⦃c = c⦄ v e w) (v.table w.db)) h
    where
      go :
          (r : Option (E × p.Table E))
          → saved p ⦃c = c⦄ v r (record w { fresh = drawn p ⦃c = c⦄ v e w }) ≡ (err x, w')
          → w'.emitted ≡ w.emitted
      go none k = ap (λ y. y.1.emitted) (sym k)
      go (some (y, t)) k = absurd (returned_and_threw refl k)

  pub save-query_failed :
      (e : E) (x : Exception) (w w' : World p)
      → save p ⦃c = c⦄ v e w ≡ (err x, w')
      → x ≡ query_failed
  unfolding save
  save-query_failed e x w w' h = go (p.save ⦃c = c⦄ (with_id p ⦃c = c⦄ v e w) (v.table w.db)) h
    where
      go :
          (r : Option (E × p.Table E))
          → saved p ⦃c = c⦄ v r (record w { fresh = drawn p ⦃c = c⦄ v e w }) ≡ (err x, w')
          → x ≡ query_failed
      go none k = err_inj (ap (λ y. y.0) (sym k))
      go (some (y, t)) k = absurd (returned_and_threw refl k)

  pub save-err_db :
      (e : E) (x : Exception) (w w' : World p) → save p ⦃c = c⦄ v e w ≡ (err x, w') → w'.db ≡ w.db
  unfolding save
  save-err_db e x w w' h = go (p.save ⦃c = c⦄ (with_id p ⦃c = c⦄ v e w) (v.table w.db)) h
    where
      go :
          (r : Option (E × p.Table E))
          → saved p ⦃c = c⦄ v r (record w { fresh = drawn p ⦃c = c⦄ v e w }) ≡ (err x, w')
          → w'.db ≡ w.db
      go none k = ap (λ y. y.1.db) (sym k)
      go (some (y, t)) k = absurd (returned_and_threw refl k)
