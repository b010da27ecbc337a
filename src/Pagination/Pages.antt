-- ===== src/Pagination/Pages.antt =====
-- The page count and the pages themselves, against the whole list that they are cut out of.
use Prim.Native.Nat.{◌<◌, ◌≤◌, ◌%◌, zero}
use native.Mathlib.Nat.{mul-le-mul_left, div-add-mod, mod-lt}
use coupang_eats_backend_v.Base.{
  ℕ, suc, ◌+◌, ◌-◌, ◌*◌, ◌/◌, ◌≡◌, refl, sym, ap, ◌∙◌, Bool, false, List, [], ◌∷◌, ◌++◌, ltb, arith,
  take, drop, length, map,
}
use coupang_eats_backend_v.Entity.{Entity}
use coupang_eats_backend_v.Packages.{Packages, PackageLaws, created_at_desc, unpaged, HasNoTies}
use coupang_eats_backend_v.Repository.{options, paginate, no_relations}
use coupang_eats_backend_v.Pagination.Objects.{
  PaginationRequest, PaginationResponse, get_has_next, has_next, total_pages, set_data, set_page,
  set_limit, set_total_count, build,
}

-- rounding up, from the equation that division has
module _ (k t n q m : ℕ) (divided : suc k * q + m ≡ t + k) (rest : m < suc k) where
  below : suc n ≤ q → n * suc k < t
  below h = let grown : suc k * suc n ≤ suc k * q = mul-le-mul_left (suc k) h in grind arith

  above : q ≤ n → t ≤ n * suc k
  above h = let grown : suc k * q ≤ suc k * n = mul-le-mul_left (suc k) h in grind arith

  ceil_iff : ltb n q ≡ ltb (n * suc k) t
  ceil_iff = ground (arith, below, above)

not_below : (a b : ℕ) → ltb a b ≡ false → b ≤ a
not_below a b h = ground arith

module _ {A : Type 0} where
  take_add : (m n : ℕ) (xs : List A) → take m xs ++ take n (drop m xs) ≡ take (m + n) xs
  take_add zero n xs = ap (λ k. take k xs) (omega arith)
  take_add (suc m) zero [] = let e : suc m ≡ suc m + 0 = omega arith in ap (λ k. take k []) e
  take_add (suc m) (suc n) [] =
      let e : suc (m + suc n) ≡ suc m + suc n = omega arith in ap (λ k. take k []) e
  take_add (suc m) n (x ∷ xs) =
      let e : suc (m + n) ≡ suc m + n = omega arith in
      ap (λ ys. x ∷ ys) (take_add m n xs) ∙ ap (λ k. take k (x ∷ xs)) e

  take_all : (n : ℕ) (xs : List A) → length xs ≤ n → take n xs ≡ xs
  take_all zero [] h = refl
  take_all zero (x ∷ xs) h = absurd (omega arith)
  take_all (suc n) [] h = refl
  take_all (suc n) (x ∷ xs) h = ap (λ ys. x ∷ ys) (take_all n xs (omega arith))

-- For a limit of at least 1, `hasNext` of a response and `getHasNext` of the request that it
-- answers agree.
pub has_next-get_has_next :
    {T : Type 0} (list : List T) (total page limit : ℕ)
    → 1 ≤ limit
    → has_next (record { total = total; list = list; page = page; limit = limit })
      ≡ get_has_next (record { page = page; limit = limit }) total
unfolding has_next total_pages get_has_next
has_next-get_has_next list total page zero h = absurd (omega arith)
has_next-get_has_next list total page (suc k) h =
    ceil_iff k total page ((total + suc k - 1) / suc k) ((total + suc k - 1) % suc k)
      (div-add-mod (total + suc k - 1) (suc k) ∙ omega arith)
      (mod-lt (total + suc k - 1) (omega arith))

map_append : {A B : Type 0} (f : A → B) (xs ys : List A) → map f (xs ++ ys) ≡ map f xs ++ map f ys
map_append f [] ys = refl
map_append f (x ∷ xs) ys = ap (λ zs. f x ∷ zs) (map_append f xs ys)

module _ (p : Packages) {E : Type 0} (c : Entity E) (laws : PackageLaws p c) (filters : E → Bool)
    (select : E → E) (t : p.Table E) where
  -- the whole result, the newest first
  abbrev pub everything : List E
  everything =
      p.find ⦃c = c⦄ (unpaged (options p ⦃c = c⦄ filters no_relations created_at_desc false)) t

  abbrev pub request : ℕ → ℕ → PaginationRequest
  request limit page = record { page = page; limit = limit }

  abbrev pub page_of : ℕ → ℕ → PaginationResponse E
  page_of limit page = paginate p ⦃c = c⦄ (request limit page) filters created_at_desc select t

  -- the pages 1 to n, one after the other
  abbrev pub pages : ℕ → ℕ → List E
  pages limit zero = []
  pages limit (suc n) = pages limit n ++ (page_of limit (suc n)).list

  module _ (untied : HasNoTies c everything) where
    page_list :
        (limit n : ℕ)
        → (page_of limit (suc n)).list ≡ map select (take limit (drop (n * limit) everything))
    unfolding paginate build set_data set_page set_limit set_total_count
    page_list limit n =
        ap (map select) (laws.find_and_count-page _ t refl untied)
        ∙ (let e : suc n - 1 ≡ n = omega arith in
            ap (λ k. map select (take limit (drop (k * limit) everything))) e)

    pages_lem : (limit n : ℕ) → pages limit n ≡ map select (take (n * limit) everything)
    pages_lem limit zero =
        let e : 0 ≡ 0 * limit = grind arith in ap (λ k. map select (take k everything)) e
    pages_lem limit (suc n) =
        rw
          (
            pages_lem limit n,
            page_list limit n,
            ← map_append select (take (n * limit) everything)
                (take limit (drop (n * limit) everything)),
            take_add (n * limit) limit everything,
          )
          (let e : n * limit + limit ≡ suc n * limit = grind arith in
            ap (λ k. map select (take k everything)) e)

    -- For a limit of at least 1, sorted by a creation time that no two results share, the pages 1 to
    -- n + 1 of `paginate`, one after the other, are everything that matches in its order, with the
    -- chosen columns, if page n + 1 has no next page; and that page counts everything.
    pub paginate-everything :
        (limit n : ℕ)
        → 1 ≤ limit
        → has_next (page_of limit (suc n)) ≡ false
        → ((page_of limit (suc n)).total ≡ length everything)
          × (pages limit (suc n) ≡ map select everything)
    unfolding paginate build set_data set_page set_limit set_total_count get_has_next
    paginate-everything limit n positive h =
        let covered : length everything ≤ suc n * limit =
          not_below (suc n * limit) (length everything) (
            ap (λ r. ltb (suc n * limit) r) (sym (laws.find_and_count-count _ t))
            ∙ sym (has_next-get_has_next _ _ (suc n) limit positive)
            ∙ h) in
        (
          laws.find_and_count-count _ t,
          pages_lem limit (suc n) ∙ ap (map select) (take_all (suc n * limit) everything covered),
        )
