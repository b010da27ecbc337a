-- ===== src/World/Memory.antt =====
-- A transaction manager that meets the laws of `World.Transaction`, for every table interface.
use coupang_eats_backend_v.Base.{ap}
use coupang_eats_backend_v.Http.{Result, ok, err}
use coupang_eats_backend_v.Packages.{Packages}
use coupang_eats_backend_v.World.State.{World}
use coupang_eats_backend_v.World.Transaction.{
  Transactional, TransactionalLaws, committed, rolled_back,
}

module _ (p : Packages) where
  abbrev pub finished : {A : Type 0} → World p → Result A × World p → Result A × World p
  finished start (ok a, w) = (ok a, committed p w)
  finished start (err e, w) = (err e, rolled_back p start w)

  abbrev pub transactions : Transactional p
  transactions = record { run = λ m w. finished w (m w) }

  pub transactions_laws : TransactionalLaws p transactions
  transactions_laws = record {
    run-ok = λ m w w' a h. ap (finished w) h;
    run-err = λ m w w' e h. ap (finished w) h;
  }
