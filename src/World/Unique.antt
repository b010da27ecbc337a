-- ===== src/World/Unique.antt =====
-- A column that names at most one row for each value, kept by saving a row with a new value.
use coupang_eats_backend_v.Base.{
  String, ◌≡◌, ◌≢◌, sym, ap, ◌∙◌, true, false, Option, some, ◌==◌, Bool-cases, inl, inr, eq_iff,
  if◌then◌else◌, some_inj, refl,
}
use coupang_eats_backend_v.Entity.{Entity}
use coupang_eats_backend_v.Packages.{Packages, PackageLaws}
use coupang_eats_backend_v.World.State.{World}
use coupang_eats_backend_v.World.Tables.{TableOf}
use coupang_eats_backend_v.World.Laws.{Saved, Saved-row}

module _ (p : Packages) {E : Type 0} (c : Entity E) (v : TableOf p E)
    (key : E → Option String) where
  abbrev pub IsUniqueBy : World p → Type 0
  IsUniqueBy w =
      (i j k : String) (a b : E)
      → p.row ⦃c = c⦄ i (v.table w.db) ≡ some a
      → p.row ⦃c = c⦄ j (v.table w.db) ≡ some b
      → key a ≡ some k
      → key b ≡ some k
      → i ≡ j

  -- no live row has the value
  abbrev pub IsNew : String → World p → Type 0
  IsNew k w = (i : String) (a : E) → p.row ⦃c = c⦄ i (v.table w.db) ≡ some a → key a ≢ some k

  module _ (laws : PackageLaws p c) (e e' : E) (w w' : World p) (s : Saved p c v e w e' w')
      (k : String) (has : key (c.stored e') ≡ some k) (new : IsNew k w) where
    old_row :
        (i : String) (a : E)
        → ((c.base e').id == i) ≡ false
        → p.row ⦃c = c⦄ i (v.table w'.db) ≡ some a
        → p.row ⦃c = c⦄ i (v.table w.db) ≡ some a
    old_row i a miss at =
        sym (
          Saved-row p c v laws e e' w w' s i
          ∙ ap (λ b. if b then some (c.stored e') else p.row ⦃c = c⦄ i (v.table w.db)) miss)
        ∙ at

    new_key :
        (i l : String) (a : E)
        → ((c.base e').id == i) ≡ true
        → p.row ⦃c = c⦄ i (v.table w'.db) ≡ some a
        → key a ≡ some l
        → l ≡ k
    new_key i l a hit at is_l =
        let same : c.stored e' ≡ a = some_inj (
          sym (
            Saved-row p c v laws e e' w w' s i
            ∙ ap (λ b. if b then some (c.stored e') else p.row ⦃c = c⦄ i (v.table w.db)) hit)
          ∙ at) in
        some_inj (sym is_l ∙ ap key (sym same) ∙ has)

    pub Saved-IsUniqueBy : IsUniqueBy w → IsUniqueBy w'
    Saved-IsUniqueBy unique i j l a b at_i at_j is_a is_b =
        elim (Bool-cases ((c.base e').id == i)) [
          | inl new_i ↦ elim (Bool-cases ((c.base e').id == j)) [
            | inl new_j ↦
                sym ((eq_iff (c.base e').id i).0 new_i) ∙ (eq_iff (c.base e').id j).0 new_j
            | inr old_j ↦
                absurd (
                  new j b (old_row j b old_j at_j) (is_b ∙ ap some (new_key i l a new_i at_i is_a)))
          ]
          | inr old_i ↦ elim (Bool-cases ((c.base e').id == j)) [
            | inl new_j ↦
                absurd (
                  new i a (old_row i a old_i at_i) (is_a ∙ ap some (new_key j l b new_j at_j is_b)))
            | inr old_j ↦
                unique i j l a b (old_row i a old_i at_i) (old_row j b old_j at_j) is_a is_b
          ]
        ]

  -- writing a row again with the value that it had
  module _ (laws : PackageLaws p c) (e e' : E) (w w' : World p) (s : Saved p c v e w e' w')
      (old : E) (was : p.row ⦃c = c⦄ (c.base e').id (v.table w.db) ≡ some old)
      (same : key old ≡ key (c.stored e')) where
    before :
        (i : String) (a : E)
        → p.row ⦃c = c⦄ i (v.table w'.db) ≡ some a
        → (b : E) × (p.row ⦃c = c⦄ i (v.table w.db) ≡ some b) × (key b ≡ key a)
    before i a at =
        let now = sym (Saved-row p c v laws e e' w w' s i) ∙ at in
        elim (Bool-cases ((c.base e').id == i)) [
          | inl hit ↦ (
            old,
            ap (λ j. p.row ⦃c = c⦄ j (v.table w.db)) (sym ((eq_iff (c.base e').id i).0 hit)) ∙ was,
            same ∙ ap key (some_inj (rw hit at now)),
          )
          | inr miss ↦ (a, rw miss at now, refl)
        ]

    pub Saved-IsUniqueBy_again : IsUniqueBy w → IsUniqueBy w'
    Saved-IsUniqueBy_again unique i j k a b at_i at_j is_a is_b =
        let (x, was_x, key_x) = before i a at_i in
        let (y, was_y, key_y) = before j b at_j in
        unique i j k x y was_x was_y (key_x ∙ is_a) (key_y ∙ is_b)
