-- ===== src/Access/Bearer.antt =====
-- A header that is 'Bearer ' and a token: what the blacklist guard reads from it.
use Prim.Native.Nat.compare
use Prim.Native.Nat.{zero, suc, ◌+◌, compare as compare_ℕ}
use Prim.Native.Char.{code, len_utf8}
use Prim.Native.String.append
use Prim.Native.String.find
use Prim.Native.String.{len, slice, find, same, begins}
use text.Mathlib.Text.{is_le, when, find?}
use text.Mathlib.TextPositions.{compare_self, len-append, slice-zero-zero, slice-append_right}
use coupang_eats_backend_v.Base.{ℕ, String, true, ◌≡◌, refl, ap, ◌∙◌, some, ◌<>◌, arith}
use coupang_eats_backend_v.Access.Guards.{cut_at, without, header_token}

begins-append : (t u : String) (y n : ℕ) → begins (t <> u) t y n ≡ y
begins-append String.[] u y n = refl
begins-append (String.◌∷◌ c s) u y n =
    ap (λ w. begins w (String.◌∷◌ c s) y n) (append.cons c s u)
    ∙ ap (λ o. same o (begins (s <> u) s y n) n) (compare_self (code c))
    ∙ begins-append s u y n

find-append : (t u : String) → find (t <> u) t ≡ 0
find-append t u = go (t <> u) refl
  where
    go : (w : String) → w ≡ t <> u → find w t ≡ 0
    go String.[] h = find.nil t ∙ ap (λ w. begins w t 0 1) h ∙ begins-append t u 0 1
    go (String.◌∷◌ c s) h =
        find.cons c s t
        ∙ ap (λ w. begins w t 0 (len_utf8 c + find s t)) h
        ∙ begins-append t u 0 (len_utf8 c + find s t)

not_above : (n : ℕ) → is_le (compare_ℕ 0 n) ≡ true
not_above zero = refl
not_above (suc n) = ap is_le (compare.zero-suc n)

find?-append : (t u : String) → find? (t <> u) t ≡ some 0
find?-append t u =
    ap (λ k. when (is_le (compare_ℕ k (len (t <> u)))) k) (find-append t u)
    ∙ ap (λ b. when b 0) (not_above (len (t <> u)))

without-append : (t u : String) → without t (t <> u) ≡ u
without-append t u =
    ap (cut_at t (t <> u)) (find?-append t u)
    ∙ ap (λ w. w <> slice (t <> u) (0 + len t) (len (t <> u))) (slice-zero-zero (t <> u))
    ∙ append.nil (slice (t <> u) (0 + len t) (len (t <> u)))
    ∙ (let e : 0 + len t ≡ len t = omega arith in ap (λ k. slice (t <> u) k (len (t <> u))) e)
    ∙ ap (λ k. slice (t <> u) (len t) k) (len-append t u)
    ∙ slice-append_right t u

-- the guard reads the token
pub header_token-append : (token : String) → header_token (some ("Bearer " <> token)) ≡ some token
header_token-append token = ap some (without-append "Bearer " token)
