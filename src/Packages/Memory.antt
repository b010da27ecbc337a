-- ===== src/Packages/Memory.antt =====
-- A table in memory: the keys that were ever written, and the row under each.
-- It meets the laws of `Packages.Interface`, so the hypotheses of the theorems can hold.
use coupang_eats_backend_v.Base.{
  ℕ, suc, zero, String, ◌≡◌, refl, ap, sym, ◌∙◌, ◌⊎◌, Bool, true, false, not, Option, none, some,
  List, [], ◌∷◌, map, ◌==◌, if◌then◌else◌, length, take, drop, select, includes, arith, eq_iff,
  Bool-cases, some_inj, Option-cases, inl, inr, eq_refl, Memᴰ, mem-map, map-mem, mem-select,
  select-mem, mem-take, mem-drop, find-mem, find-none,
}
use coupang_eats_backend_v.Base as Base
use coupang_eats_backend_v.Entity.{Entity}
use coupang_eats_backend_v.Packages.Interface.{
  FindOptions, Packages, kept, key_row, unpaged, at_most, PackageLaws,
}

abbrev pub MemoryTable : Type 0 → Type 0
MemoryTable E = List String × (String → Option E)

module _ {A : Type 0} where
  mem-at_most : (n : Option ℕ) (a : A) (xs : List A) → Memᴰ a (at_most n xs) → Memᴰ a xs
  mem-at_most none a xs h = h
  mem-at_most (some n) a xs h = mem-take n a xs h

module _ {E : Type 0} (c : Entity E) where
  abbrev pub columns_of : Option E → Option E
  columns_of none = none
  columns_of (some e) = some (c.stored e)

  abbrev pub deleted : (E → Bool) → (String → Option E) → String → Option E
  deleted q f k = kept (λ e. if q e then false else true) (columns_of (f k))

  abbrev has_id : String → E → Bool
  has_id i e = (c.base e).id == i

  unfoldable pub memory_row : String → MemoryTable E → Option E
  memory_row i t = if includes t.0 i then kept (has_id i) (columns_of (t.1 i)) else none

  abbrev cons_row : Option E → List E → List E
  cons_row none es = es
  cons_row (some e) es = e ∷ es

  unfoldable pub rows_at : List String → MemoryTable E → List E
  rows_at [] t = []
  rows_at (k ∷ ks) t = cons_row (memory_row k t) (rows_at ks t)

  unfoldable pub memory_find : FindOptions E → MemoryTable E → List E
  memory_find o t =
      at_most o.limit (drop o.skip (select o.filter (map o.relations (rows_at t.0 t))))

  unfoldable pub memory_find_one : FindOptions E → MemoryTable E → Option E
  memory_find_one o t = Base.find o.filter (map o.relations (rows_at t.0 t))

  unfoldable pub memory_save : E → MemoryTable E → Option (E × MemoryTable E)
  memory_save e t =
      some
        (e, ((c.base e).id ∷ t.0, (λ i. if (c.base e).id == i then some (c.stored e) else t.1 i)))

  memory_row-id :
      (i : String) (t : MemoryTable E) (e : E) → memory_row i t ≡ some e → (c.base e).id ≡ i
  unfolding memory_row
  memory_row-id i (ks, f) e h = elim (Option-cases (f i)) [
    | inl no_row ↦ ground arith
    | inr (r, at) ↦ ground (arith, eq_iff (c.base (c.stored r)).id i)
  ]

  memory_row-save :
      (e e' : E) (t t' : MemoryTable E) (i : String)
      → memory_save e t ≡ some (e', t')
      → memory_row i t' ≡ (if (c.base e').id == i then some (c.stored e') else memory_row i t)
  unfolding memory_row memory_save
  memory_row-save e e' (ks, f) t' i h =
      let same : e ≡ e' = cc in
      let table : ((c.base e).id ∷ ks, λ j. if (c.base e).id == j then some (c.stored e) else f j)
          ≡ t' =
        cc in
      rw (← same, ← table)
        (elim (Bool-cases ((c.base e).id == i)) [
          | inl hit ↦ rw (hit, c.stored-stored e, ap (λ b. b.id) (c.base-stored e)) (rw hit)
          | inr miss ↦ rw miss refl
        ])

  memory_save-entity :
      (e e' : E) (t t' : MemoryTable E)
      → memory_save e t ≡ some (e', t')
      → (e' ≡ c.with_base (c.base e') e) × ((c.base e').id ≡ (c.base e).id)
  unfolding memory_save
  memory_save-entity e e' t t' h =
      let same : e ≡ e' = cc in rw (← same) (sym (c.with_base-self e), refl)

  memory_row-soft_delete :
      (i j : String) (t : MemoryTable E)
      → memory_row j (t.0, (λ k. if i == k then none else t.1 k))
        ≡ (if i == j then none else memory_row j t)
  unfolding memory_row
  memory_row-soft_delete i j (ks, f) = ground arith

  memory_row-stored :
      (i : String) (t : MemoryTable E) (e : E) → memory_row i t ≡ some e → c.stored e ≡ e
  unfolding memory_row
  memory_row-stored i (ks, f) e h = elim (Option-cases (f i)) [
    | inl no_row ↦ absurd (ground arith)
    | inr (r, at) ↦
        let same : c.stored r ≡ e = ground arith in
        ap c.stored (sym same) ∙ c.stored-stored r ∙ same
  ]

  memory_row-delete :
      (q : E → Bool) (t : MemoryTable E) (i : String)
      → memory_row i (t.0, deleted q t.1) ≡ kept (λ e. if q e then false else true) (memory_row i t)
  unfolding memory_row
  memory_row-delete q (ks, f) i = elim (Option-cases (f i)) [
    | inl no_row ↦ ground arith
    | inr (r, at) ↦ ground (arith, c.stored-stored r)
  ]

  mem-cons_row :
      (o : Option E) (es : List E) (e : E) → Memᴰ e (cons_row o es) → (o ≡ some e) ⊎ Memᴰ e es
  mem-cons_row none es e h = inr h
  mem-cons_row (some x) es e (Memᴰ.head p) = inl (ap some (sym p))
  mem-cons_row (some x) es e (Memᴰ.tail h) = inr h

  cons_row-mem_tail : (o : Option E) (es : List E) (e : E) → Memᴰ e es → Memᴰ e (cons_row o es)
  cons_row-mem_tail none es e h = h
  cons_row-mem_tail (some x) es e h = Memᴰ.tail h

  cons_row-mem_head : (o : Option E) (es : List E) (e : E) → o ≡ some e → Memᴰ e (cons_row o es)
  cons_row-mem_head none es e h = cc
  cons_row-mem_head (some x) es e h = Memᴰ.head (cc)

  -- where a listed row comes from
  mem_rows :
      (ks : List String) (t : MemoryTable E) (e : E)
      → Memᴰ e (rows_at ks t)
      → (i : String) × (memory_row i t ≡ some e)
  unfolding rows_at
  mem_rows [] t e h = elim h [ ]
  mem_rows (k ∷ ks) t e h = elim (mem-cons_row (memory_row k t) (rows_at ks t) e h) [
    | inl at ↦ (k, at)
    | inr m ↦ mem_rows ks t e m
  ]

  rows_mem :
      (ks : List String) (t : MemoryTable E) (i : String) (e : E)
      → includes ks i ≡ true
      → memory_row i t ≡ some e
      → Memᴰ e (rows_at ks t)
  unfolding rows_at
  rows_mem [] t i e h r = cc
  rows_mem (k ∷ ks) t i e h r = elim (Bool-cases (k == i)) [
    | inl same ↦ cons_row-mem_head (memory_row k t) (rows_at ks t) e (rw ((eq_iff k i).0 same) r)
    | inr other ↦
        cons_row-mem_tail (memory_row k t) (rows_at ks t) e (rows_mem ks t i e (rw other at h) r)
  ]

  listed :
      (t : MemoryTable E) (i : String) (e : E) → memory_row i t ≡ some e → includes t.0 i ≡ true
  unfolding memory_row
  listed (ks, f) i e h = ground arith

  memory_find-found :
      (o : FindOptions E) (t : MemoryTable E) (e : E)
      → Memᴰ e (map o.relations (rows_at t.0 t))
      → o.filter e ≡ true
      → (row : E) × (memory_row (c.base row).id t ≡ some row)
        × (o.relations row ≡ e)
        × (o.filter e ≡ true)
  memory_find-found o t e m h =
      let (r, listed_row, joined) = mem-map o.relations e (rows_at t.0 t) m in
      let (i, at) = mem_rows t.0 t r listed_row in (r, rw (memory_row-id i t r at) at, joined, h)

-- uuid: the n-th one is "u" n times, after a "u".
abbrev pub uuid : ℕ → String
uuid zero = "u"
uuid (suc n) = String.◌∷◌ "u" (uuid n)

abbrev pub memory : Packages
memory = record {
  Table = MemoryTable;
  row = λ ⦃c⦄ i t. memory_row c i t;
  find = λ ⦃c⦄ o t. memory_find c o t;
  find_one = λ ⦃c⦄ o t. memory_find_one c o t;
  find_and_count = λ ⦃c⦄ o t. (memory_find c o t, length (memory_find c (unpaged o) t));
  join_one = λ ⦃c⦄ k t. key_row (λ i. memory_row c i t) k;
  save = λ ⦃c⦄ e t. memory_save c e t;
  soft_delete = λ ⦃c⦄ i t. (t.0, (λ k. if i == k then none else t.1 k));
  delete = λ ⦃c⦄ q t. some (length (select q (rows_at c t.0 t)), (t.0, deleted c q t.1));
  create = λ e. e;
  v4 = uuid;
}

pub memory_laws : {E : Type 0} (c : Entity E) → PackageLaws memory c
unfolding memory_find memory_find_one memory_save
memory_laws c = record {
  row-id = memory_row-id c;
  row-stored = memory_row-stored c;
  find_one-found = λ o t e w h.
      let (m, passes) = find-mem o.filter e (map o.relations (rows_at c t.0 t)) h in
      let (r, live, joined, ok) = memory_find-found c o t e m passes in
      record { row = r; live = live; joined = joined; passes = ok };
  find_one-none = λ o t i r w h at.
      find-none o.filter (o.relations r) (map o.relations (rows_at c t.0 t)) h
        (map-mem o.relations r (rows_at c t.0 t) (rows_mem c t.0 t i r (listed c t i r at) at));
  find-found = λ o t e w h.
      let (m, passes) =
        mem-select o.filter e (map o.relations (rows_at c t.0 t))
          (mem-drop o.skip e _ (mem-at_most o.limit e _ h)) in
      let (r, live, joined, ok) = memory_find-found c o t e m passes in
      record { row = r; live = live; joined = joined; passes = ok };
  find-all = λ o t i r at passes.
      select-mem o.filter (o.relations r) (map o.relations (rows_at c t.0 t))
        (map-mem o.relations r (rows_at c t.0 t) (rows_mem c t.0 t i r (listed c t i r at) at))
        passes;
  find_and_count-page = λ o t sorted untied. refl;
  find_and_count-count = λ o t. refl;
  join_one-row = λ k t. refl;
  save-entity = λ e e' t t' h. memory_save-entity c e e' t t' h;
  save-row = λ e e' t t' i h. memory_row-save c e e' t t' i h;
  soft_delete-row = λ i j t. memory_row-soft_delete c i j t;
  delete-row =
      λ q t t' n i h. ap (λ x. memory_row c i x.1) (sym (some_inj h)) ∙ memory_row-delete c q t i;
  create-eq = λ e. refl;
}
