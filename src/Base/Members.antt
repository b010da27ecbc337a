-- ===== src/Base/Members.antt =====
-- Membership in lists that `map`, `select`, `take`, `drop` and `find` read.
use Prim.Native.Nat.{ℕ, zero, suc}
use mathlib.Core.Path.{◌≡◌, refl, ap, sym, ◌∙◌}
use mathlib.Core.Logic.{inl, inr}
use mathlib.Core.Bool.{Bool, true, false}
use mathlib.Core.Option.{none, some}
use mathlib.Core.List.{List, [], ◌∷◌, map, Memᴰ}
use native.Mathlib.Omega.{arith}
use coupang_eats_backend_v.Base.Tests.{Bool-cases}
use coupang_eats_backend_v.Base.Lists.{take, drop, find, select}

module _ {A B : Type 0} where
  pub mem-map :
      (f : A → B) (b : B) (xs : List A) → Memᴰ b (map f xs) → (a : A) × Memᴰ a xs × (f a ≡ b)
  mem-map f b [] h = elim h [ ]
  mem-map f b (x ∷ xs) (Memᴰ.head p) = (x, Memᴰ.head refl, sym p)
  mem-map f b (x ∷ xs) (Memᴰ.tail h) = let (a, m, e) = mem-map f b xs h in (a, Memᴰ.tail m, e)

  pub map-mem : (f : A → B) (a : A) (xs : List A) → Memᴰ a xs → Memᴰ (f a) (map f xs)
  map-mem f a [] h = elim h [ ]
  map-mem f a (x ∷ xs) (Memᴰ.head p) = Memᴰ.head (ap f p)
  map-mem f a (x ∷ xs) (Memᴰ.tail h) = Memᴰ.tail (map-mem f a xs h)

module _ {A : Type 0} where
  pub mem-select :
      (q : A → Bool) (a : A) (xs : List A) → Memᴰ a (select q xs) → Memᴰ a xs × (q a ≡ true)
  mem-select q a [] h = elim h [ ]
  mem-select q a (x ∷ xs) h = elim (Bool-cases (q x)) [
    | inl keep ↦ from_cons (rw keep at h) (mem-select q a xs) keep
    | inr skip ↦ let (m, e) = mem-select q a xs (rw skip at h) in (Memᴰ.tail m, e)
  ]
    where
      from_cons :
          Memᴰ a (x ∷ select q xs)
          → (Memᴰ a (select q xs) → Memᴰ a xs × (q a ≡ true))
          → q x ≡ true
          → Memᴰ a (x ∷ xs) × (q a ≡ true)
      from_cons (Memᴰ.head p) ih keep = (Memᴰ.head p, ap q p ∙ keep)
      from_cons (Memᴰ.tail m) ih keep = let (m', e) = ih m in (Memᴰ.tail m', e)

  pub select-mem :
      (q : A → Bool) (a : A) (xs : List A) → Memᴰ a xs → q a ≡ true → Memᴰ a (select q xs)
  select-mem q a [] h e = elim h [ ]
  select-mem q a (x ∷ xs) (Memᴰ.head p) e = rw (ap q (sym p) ∙ e) (Memᴰ.head p)
  select-mem q a (x ∷ xs) (Memᴰ.tail h) e = elim (Bool-cases (q x)) [
    | inl keep ↦ rw keep (Memᴰ.tail (select-mem q a xs h e))
    | inr skip ↦ rw skip (select-mem q a xs h e)
  ]

  pub mem-take : (n : ℕ) (a : A) (xs : List A) → Memᴰ a (take n xs) → Memᴰ a xs
  mem-take zero a xs h = elim h [ ]
  mem-take (suc n) a [] h = h
  mem-take (suc n) a (x ∷ xs) (Memᴰ.head p) = Memᴰ.head p
  mem-take (suc n) a (x ∷ xs) (Memᴰ.tail h) = Memᴰ.tail (mem-take n a xs h)

  pub mem-drop : (n : ℕ) (a : A) (xs : List A) → Memᴰ a (drop n xs) → Memᴰ a xs
  mem-drop zero a xs h = h
  mem-drop (suc n) a [] h = h
  mem-drop (suc n) a (x ∷ xs) h = Memᴰ.tail (mem-drop n a xs h)

  pub find-mem :
      (q : A → Bool) (a : A) (xs : List A) → find q xs ≡ some a → Memᴰ a xs × (q a ≡ true)
  find-mem q a [] h = cc
  find-mem q a (x ∷ xs) h = elim (Bool-cases (q x)) [
    | inl hit ↦ let p : x ≡ a = cc (rw hit at h) in (Memᴰ.head (sym p), rw (← p) hit)
    | inr miss ↦ let (m, e) = find-mem q a xs (rw miss at h) in (Memᴰ.tail m, e)
  ]

  pub find-none : (q : A → Bool) (a : A) (xs : List A) → find q xs ≡ none → Memᴰ a xs → q a ≡ false
  find-none q a [] h m = elim m [ ]
  find-none q a (x ∷ xs) h (Memᴰ.head p) = rw p (ground arith)
  find-none q a (x ∷ xs) h (Memᴰ.tail m) = find-none q a xs (ground arith) m
