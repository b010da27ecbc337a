-- ===== src/World/Runs.antt =====
-- Inversion of a transaction, and what a transaction keeps.
use coupang_eats_backend_v.Base.{◌≡◌, refl, sym, ap, ◌∙◌}
use coupang_eats_backend_v.Http.{Result, ok, err, ok_inj}
use coupang_eats_backend_v.Action.{Action, returned_and_threw}
use coupang_eats_backend_v.Packages.{Packages}
use coupang_eats_backend_v.World.State.{Database, World}
use coupang_eats_backend_v.World.Transaction.{Transactional, TransactionalLaws, committed}

module _ (p : Packages) (t : Transactional p) (laws : TransactionalLaws p t) {A : Type 0}
    (m : Action (World p) A) (w : World p) where
  -- a transaction that returned: its body has, and was committed
  pub run-eq-ok :
      (y : A) (w' : World p)
      → t.run m w ≡ (ok y, w')
      → (u : World p) × (m w ≡ (ok y, u)) × (w' ≡ committed p u)
  run-eq-ok y w' h = go (m w) refl
    where
      go :
          (x : Result A × World p)
          → m w ≡ x
          → (u : World p) × (m w ≡ (ok y, u)) × (w' ≡ committed p u)
      go (err e, u) k = absurd (returned_and_threw h (laws.run-err m w u e k))
      go (ok z, u) k =
          let again = sym (laws.run-ok m w u z k) ∙ h in
          let same : z ≡ y = ok_inj (ap (λ x. x.0) again) in
          (u, k ∙ (λ i. (ok (same i), u)), ap (λ x. x.1) (sym again))

  -- a property of the tables that the body keeps where it returns; a rollback restores them
  pub run-kept :
      (P : Database p → Type 0)
      → P w.db
      → ((y : A) (u : World p) → m w ≡ (ok y, u) → P u.db)
      → P (t.run m w).1.db
  run-kept P before after = go (m w) refl
    where
      go : (x : Result A × World p) → m w ≡ x → P (t.run m w).1.db
      go (err e, u) k = rw (laws.run-err m w u e k) before
      go (ok z, u) k = rw (laws.run-ok m w u z k) (after z u k)
