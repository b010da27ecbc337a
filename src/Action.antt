-- ===== src/Action.antt =====
-- A method call: state passing with exceptions. What was written before a throw stays written;
-- undoing it is the business of a transaction.
use coupang_eats_backend_v.Base.{Bool, Option, none, some, if◌then◌else◌, ◌≡◌, refl, sym, ap, ◌∙◌}
use coupang_eats_backend_v.Http.{Exception, Result, ok, err}

abbrev pub Action : Type 0 → Type 0 → Type 0
Action S A = S → Result A × S

module _ {S A : Type 0} where
  abbrev pub pure : A → Action S A
  pure a s = (ok a, s)

  abbrev pub raise : Exception → Action S A
  raise e s = (err e, s)

  abbrev pub gets : (S → A) → Action S A
  gets f s = (ok (f s), s)

  -- a call that reads the state and may throw
  abbrev pub reads : (S → Result A) → Action S A
  reads f s = (f s, s)

  abbrev pub from_result : Result A → Action S A
  from_result r s = (r, s)

  -- a value that may be null, and what the code throws then
  abbrev pub or_raise : Option A → Exception → Action S A
  or_raise none e = raise e
  or_raise (some a) _ = pure a

module _ {S A B : Type 0} where
  -- the continuation of a call that has returned
  abbrev pub continue_with : Result A → S → (A → Action S B) → Result B × S
  continue_with (ok a) s f = f a s
  continue_with (err e) s f = (err e, s)

infixl 5 ◌>>=◌ ◌>>◌
abbrev pub ◌>>=◌ : {S A B : Type 0} → Action S A → (A → Action S B) → Action S B
◌>>=◌ m f s = let (r, s') = m s in continue_with r s' f

abbrev pub ◌>>◌ : {S A B : Type 0} → Action S A → Action S B → Action S B
m >> k = m >>= λ _. k

module _ {S : Type 0} where
  abbrev pub raise_if : Bool → Exception → Action S (Unit {0})
  raise_if c e s = (if c then err e else ok tt, s)

  abbrev pub modify : (S → S) → Action S (Unit {0})
  modify f s = (ok tt, f s)

-- Inversion of a chain that has returned.
pub >>=-eq-ok :
    {S A B : Type 0} (m : Action S A) (f : A → Action S B) (s s' : S) (b : B)
    → (m >>= f) s ≡ (ok b, s')
    → (a : A) × (t : S) × (m s ≡ (ok a, t)) × (f a t ≡ (ok b, s'))
>>=-eq-ok {S} {A} {B} m f s s' b h = go (m s) refl h
  where
    go :
        (r : Result A × S)
        → m s ≡ r
        → continue_with r.0 r.1 f ≡ (ok b, s')
        → (a : A) × (t : S) × (m s ≡ (ok a, t)) × (f a t ≡ (ok b, s'))
    go (ok a, t) e k = (a, t, e, k)
    go (err x, t) e k = absurd (cc)

-- a call does not both return and throw
pub returned_and_threw :
    {S A : Type 0} {x : Result A × S} {a : A} {e : Exception} {s s' : S}
    → x ≡ (ok a, s)
    → x ≡ (err e, s')
    → ⊥
returned_and_threw {A} {a} {e} h k =
    let differ : ◌≡◌ {A = Result A} (ok a) (err e) = sym (ap (λ y. y.0) h) ∙ ap (λ y. y.0) k in cc

pub returned_as :
    {S A : Type 0} {x : Result A × S} {a b : A} {s : S}
    → x ≡ (ok a, s)
    → a ≡ b
    → (s' : S) × (x ≡ (ok b, s'))
returned_as {S} {A} {x} {a} {b} {s} h e = (s, h ∙ (λ i. (ok (e i), s)))
