-- ===== src/World/Saves.antt =====
-- Writing through a repository: `save` with the `@BeforeInsert` hook of `UuidEntity`
-- (src/core/database/typeorm/base.entity.ts), `softDelete`, and reading a table.
use coupang_eats_backend_v.Base.{
  ℕ, ◌+◌, String, Option, none, some, ◌==◌, if◌then◌else◌, ◌++◌, [], ◌∷◌,
}
use coupang_eats_backend_v.Http.{Result, ok, err, query_failed}
use coupang_eats_backend_v.Action.{Action}
use coupang_eats_backend_v.Entity.{Entity, generate_uuid}
use coupang_eats_backend_v.Packages.{Packages}
use coupang_eats_backend_v.World.State.{World, Message}
use coupang_eats_backend_v.World.Tables.{TableOf}

module _ (p : Packages) {E : Type 0} ⦃c : Entity E⦄ (v : TableOf p E) where
  -- the entity as TypeORM writes it: the hook has set its id
  abbrev pub with_id : E → World p → E
  with_id e w = c.with_base (generate_uuid (p.v4 w.fresh) (c.base e)) e

  -- the hook draws a UUID only for an entity that has no id
  abbrev pub drawn : E → World p → ℕ
  drawn e w = if (c.base e).id == "" then w.fresh + 1 else w.fresh

  abbrev pub saved : Option (E × p.Table E) → World p → Result E × World p
  saved none w = (err query_failed, w)
  saved (some (e, t)) w = (ok e, record w { db = v.put t w.db })

  unfoldable pub save : E → Action (World p) E
  save e w = saved (p.save (with_id e w) (v.table w.db)) (record w { fresh = drawn e w })

  unfoldable pub soft_delete : String → Action (World p) (Unit {0})
  soft_delete id w = (ok tt, record w { db = v.put (p.soft_delete id (v.table w.db)) w.db })

module _ (p : Packages) where
  -- `server.to(room).emit` and `server.emit`
  abbrev pub emit : Message → Action (World p) (Unit {0})
  emit m w = (ok tt, record w { emitted = w.emitted ++ (m ∷ []) })

  abbrev pub run_on_transaction_commit : Message → Action (World p) (Unit {0})
  run_on_transaction_commit m w = (ok tt, record w { on_commit = w.on_commit ++ (m ∷ []) })
