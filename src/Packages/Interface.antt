-- ===== src/Packages/Interface.antt =====
-- The operations of TypeORM's `Repository` and of uuid that the code calls, and their laws.
use mathlib.Core.List.{Memᴰ}
use coupang_eats_backend_v.Base.{
  ℕ, String, ◌≡◌, Bool, true, false, Option, none, some, List, ◌==◌, if◌then◌else◌, length, take,
  drop,
}
use coupang_eats_backend_v.Entity.{Entity}

pub data SortOrder : Type 0 where
  unsorted : SortOrder
  -- { createdAt: 'DESC' }
  created_at_desc : SortOrder

-- `FindManyOptions`: `where` is a test on an entity with its relations, `relations` joins them.
pub record FindOptions (E : Type 0) : Type 0 where
  pub filter : E → Bool
  pub relations : E → E
  pub order : SortOrder
  pub skip : ℕ
  pub limit : Option ℕ
  pub with_deleted : Bool

-- `Table E` is the state of the table of the entity class `E`.
pub record Packages : Type 1 where
  pub Table : Type 0 → Type 0
  -- the live row of a primary key: what a query can see, for stating the laws
  pub row : {E : Type 0} → ⦃c : Entity E⦄ → String → Table E → Option E
  pub find : {E : Type 0} → ⦃c : Entity E⦄ → FindOptions E → Table E → List E
  pub find_one : {E : Type 0} → ⦃c : Entity E⦄ → FindOptions E → Table E → Option E
  pub find_and_count : {E : Type 0} → ⦃c : Entity E⦄ → FindOptions E → Table E → List E × ℕ
  -- the row that a foreign key refers to, as a join finds it
  pub join_one : {E : Type 0} → ⦃c : Entity E⦄ → Option String → Table E → Option E
  -- `none` is an error of the driver, such as a violated constraint
  pub save : {E : Type 0} → ⦃c : Entity E⦄ → E → Table E → Option (E × Table E)
  pub soft_delete : {E : Type 0} → ⦃c : Entity E⦄ → String → Table E → Table E
  -- the number of rows deleted, and the table; `none` is an error of the driver, such as a foreign
  -- key of another table that still refers to one of the rows
  pub delete : {E : Type 0} → ⦃c : Entity E⦄ → (E → Bool) → Table E → Option (ℕ × Table E)
  -- `Repository.create`: an instance with the given columns
  pub create : {E : Type 0} → ⦃c : Entity E⦄ → E → E
  -- the n-th UUID that `v4` draws
  pub v4 : ℕ → String

abbrev pub kept : {E : Type 0} → (E → Bool) → Option E → Option E
kept p none = none
kept p (some e) = if p e then some e else none

abbrev pub key_row : {E : Type 0} → (String → Option E) → Option String → Option E
key_row f none = none
key_row f (some i) = f i

-- the whole result that a page is cut out of
abbrev pub unpaged : {E : Type 0} → FindOptions E → FindOptions E
unpaged o = record o { skip = 0; limit = none }

abbrev pub at_most : {E : Type 0} → Option ℕ → List E → List E
at_most none xs = xs
at_most (some n) xs = take n xs

-- An entity that a query returned: a live row with its relations joined, which passes the test.
pub record IsFound (p : Packages) {E : Type 0} (c : Entity E) (o : FindOptions E) (t : p.Table E)
    (e : E) : Type 0 where
  pub row : E
  pub live : p.row ⦃c = c⦄ (c.base row).id t ≡ some row
  pub joined : o.relations row ≡ e
  pub passes : o.filter e ≡ true

-- the order by creation leaves no choice
abbrev pub HasNoTies : {E : Type 0} → Entity E → List E → Type 0
HasNoTies {E} c es =
    (a b : E) → Memᴰ a es → Memᴰ b es → (c.base a).created_at ≡ (c.base b).created_at → a ≡ b

-- The documented behaviour of the operations, for queries that do not ask for deleted rows.
pub record PackageLaws (p : Packages) {E : Type 0} (c : Entity E) : Type 1 where
  pub row-id : (i : String) (t : p.Table E) (e : E) → p.row ⦃c = c⦄ i t ≡ some e → (c.base e).id ≡ i
  -- a row has its columns, and no related objects
  pub row-stored :
      (i : String) (t : p.Table E) (e : E) → p.row ⦃c = c⦄ i t ≡ some e → c.stored e ≡ e
  pub find_one-found :
      (o : FindOptions E) (t : p.Table E) (e : E)
      → o.with_deleted ≡ false
      → p.find_one ⦃c = c⦄ o t ≡ some e
      → IsFound p c o t e
  pub find_one-none :
      (o : FindOptions E) (t : p.Table E) (i : String) (r : E)
      → o.with_deleted ≡ false
      → p.find_one ⦃c = c⦄ o t ≡ none
      → p.row ⦃c = c⦄ i t ≡ some r
      → o.filter (o.relations r) ≡ false
  pub find-found :
      (o : FindOptions E) (t : p.Table E) (e : E)
      → o.with_deleted ≡ false
      → Memᴰ e (p.find ⦃c = c⦄ o t)
      → IsFound p c o t e
  pub find-all :
      (o : FindOptions E) (t : p.Table E) (i : String) (r : E)
      → p.row ⦃c = c⦄ i t ≡ some r
      → o.filter (o.relations r) ≡ true
      → Memᴰ (o.relations r) (p.find ⦃c = c⦄ (unpaged o) t)
  -- a page is cut out of the sorted result, where no two entities tie for a place in it
  pub find_and_count-page :
      (o : FindOptions E) (t : p.Table E)
      → o.order ≡ created_at_desc
      → HasNoTies c (p.find ⦃c = c⦄ (unpaged o) t)
      → (p.find_and_count ⦃c = c⦄ o t).0
        ≡ at_most o.limit (drop o.skip (p.find ⦃c = c⦄ (unpaged o) t))
  pub find_and_count-count :
      (o : FindOptions E) (t : p.Table E)
      → (p.find_and_count ⦃c = c⦄ o t).1 ≡ length (p.find ⦃c = c⦄ (unpaged o) t)
  pub join_one-row :
      (k : Option String) (t : p.Table E)
      → p.join_one ⦃c = c⦄ k t ≡ key_row (λ i. p.row ⦃c = c⦄ i t) k
  -- the saved entity differs from the given one in what the base class generates
  pub save-entity :
      (e e' : E) (t t' : p.Table E)
      → p.save ⦃c = c⦄ e t ≡ some (e', t')
      → (e' ≡ c.with_base (c.base e') e) × ((c.base e').id ≡ (c.base e).id)
  pub save-row :
      (e e' : E) (t t' : p.Table E) (i : String)
      → p.save ⦃c = c⦄ e t ≡ some (e', t')
      → p.row ⦃c = c⦄ i t' ≡ (if (c.base e').id == i then some (c.stored e') else p.row ⦃c = c⦄ i t)
  pub soft_delete-row :
      (i j : String) (t : p.Table E)
      → p.row ⦃c = c⦄ j (p.soft_delete ⦃c = c⦄ i t) ≡ (if i == j then none else p.row ⦃c = c⦄ j t)
  pub delete-row :
      (q : E → Bool) (t t' : p.Table E) (n : ℕ) (i : String)
      → p.delete ⦃c = c⦄ q t ≡ some (n, t')
      → p.row ⦃c = c⦄ i t' ≡ kept (λ e. if q e then false else true) (p.row ⦃c = c⦄ i t)
  pub create-eq : (e : E) → p.create ⦃c = c⦄ e ≡ e
