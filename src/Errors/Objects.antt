-- ===== src/Errors/Objects.antt =====
-- JavaScript objects as lists of properties, of which the last one of a name counts.
use coupang_eats_backend_v.Base.{
  ℕ, String, Bool, true, not, Option, none, some, List, [], ◌∷◌, ◌==◌, if◌then◌else◌, nat_eq,
}

pub data Field : Type 0 where
  text_field : String → Field
  number_field : ℕ → Field
  flag_field : Bool → Field
  texts_field : List String → Field

abbrev pub Object : Type 0
Object = List (String × Field)

abbrev pub or_else : {A : Type 0} → Option A → Option A → Option A
or_else none b = b
or_else (some a) b = some a

-- `o[k]`; `{ ...a, ...b }` is `a ++ b`
abbrev pub field : String → Object → Option Field
field k [] = none
field k ((j, v) ∷ o) = or_else (field k o) (if j == k then some v else none)

abbrev pub truthy : Field → Bool
truthy (text_field t) = not (t == "")
truthy (number_field n) = not (nat_eq n 0)
truthy (flag_field b) = b
truthy (texts_field ts) = true
