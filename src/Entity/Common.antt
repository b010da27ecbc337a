-- ===== src/Entity/Common.antt =====
-- What the entities share: the base class (src/core/database/typeorm/base.entity.ts), the
-- enumerations (src/common/type/common.interface.ts, src/entities/user/user.interface.ts) and what
-- the persistence layer knows of an entity.
use coupang_eats_backend_v.Base.{
  ℕ, String, ◌≡◌, Bool, true, false, Option, none, ◌==◌, if◌then◌else◌,
}

-- `BaseTimeEntity` and `UuidEntity`
pub record UuidEntity : Type 0 where
  pub id : String
  pub created_at : ℕ
  pub updated_at : ℕ
  pub deleted_at : Option ℕ

abbrev pub new_entity : UuidEntity
new_entity = record { id = ""; created_at = 0; updated_at = 0; deleted_at = none }

-- `generateUuid`, run before an insert: `v` is the fresh UUID
abbrev pub generate_uuid : String → UuidEntity → UuidEntity
generate_uuid v b = if b.id == "" then record b { id = v } else b

pub data Role : Type 0 where
  client owner delivery : Role

pub data OrderStatus : Type 0 where
  pending cooking cooked picked_up delivered : OrderStatus

abbrev pub role_eq : Role → Role → Bool
role_eq client client = true
role_eq owner owner = true
role_eq delivery delivery = true
role_eq _ _ = false

abbrev pub status_eq : OrderStatus → OrderStatus → Bool
status_eq pending pending = true
status_eq cooking cooking = true
status_eq cooked cooked = true
status_eq picked_up picked_up = true
status_eq delivered delivered = true
status_eq _ _ = false

-- An entity class: its base, and the columns that its row keeps. A foreign key column is taken
-- from the related object where one is set; the related object itself is not kept.
pub record Entity (E : Type 0) : Type 0 where
  pub base : E → UuidEntity
  pub with_base : UuidEntity → E → E
  pub stored : E → E
  pub base-with_base : (b : UuidEntity) (e : E) → base (with_base b e) ≡ b
  pub with_base-self : (e : E) → with_base (base e) e ≡ e
  pub with_base-with_base :
      (b b' : UuidEntity) (e : E) → with_base b (with_base b' e) ≡ with_base b e
  pub stored-stored : (e : E) → stored (stored e) ≡ stored e
  pub base-stored : (e : E) → base (stored e) ≡ base e

abbrev pub id_of : {E : Type 0} ⦃c : Entity E⦄ → E → String
id_of ⦃c⦄ e = (c.base e).id
