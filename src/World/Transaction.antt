-- ===== src/World/Transaction.antt =====
-- `@Transactional()` of typeorm-transactional, a parameter: what it is documented to do.
use coupang_eats_backend_v.Base.{◌≡◌, ◌++◌, []}
use coupang_eats_backend_v.Http.{Exception, ok, err}
use coupang_eats_backend_v.Action.{Action}
use coupang_eats_backend_v.Packages.{Packages}
use coupang_eats_backend_v.World.State.{World}

module _ (p : Packages) where
  pub record Transactional : Type 1 where
    pub run : {A : Type 0} → Action (World p) A → Action (World p) A

  -- after a commit: the waiting messages are sent
  abbrev pub committed : World p → World p
  committed w = record w { emitted = w.emitted ++ w.on_commit; on_commit = [] }

  -- after a rollback: the tables are those of the start, and nothing waits any more; what was
  -- sent over a socket in between stays sent
  abbrev pub rolled_back : World p → World p → World p
  rolled_back start w = record w { db = start.db; on_commit = [] }

  pub record TransactionalLaws (t : Transactional) : Type 1 where
    pub run-ok :
        {A : Type 0} (m : Action (World p) A) (w w' : World p) (a : A)
        → m w ≡ (ok a, w')
        → t.run m w ≡ (ok a, committed w')
    pub run-err :
        {A : Type 0} (m : Action (World p) A) (w w' : World p) (e : Exception)
        → m w ≡ (err e, w')
        → t.run m w ≡ (err e, rolled_back w w')
