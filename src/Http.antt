-- ===== src/Http.antt =====
-- The exceptions that the code throws: `HttpException` of @nestjs/common with its status, and any
-- other error, which the global filter answers with 500.
use coupang_eats_backend_v.Base.{ℕ, String, ◌≡◌, ◌≢◌, refl, ◌⊎◌, inl, inr}

pub data Exception : Type 0 where
  http : ℕ → String → Exception
  -- `QueryFailedError` of the database driver
  query_failed : Exception
  -- reading a property of `null` or `undefined`
  type_error : Exception

abbrev pub bad_request : String → Exception
bad_request m = http 400 m

abbrev pub unauthorized : String → Exception
unauthorized m = http 401 m

abbrev pub forbidden : String → Exception
forbidden m = http 403 m

abbrev pub not_found : String → Exception
not_found m = http 404 m

abbrev pub conflict : String → Exception
conflict m = http 409 m

pub data Result {ℓ} (A : Type ℓ) : Type ℓ where
  ok : A → Result A
  err : Exception → Result A

pub Result-cases {ℓ} :
    {A : Type ℓ} (r : Result A) → ((a : A) × (r ≡ ok a)) ⊎ ((e : Exception) × (r ≡ err e))
Result-cases (ok a) = inl (a, refl)
Result-cases (err e) = inr (e, refl)

pub ok-ne-err {ℓ} : {A : Type ℓ} {a : A} {e : Exception} → ok a ≢ err e
ok-ne-err h = cc

pub ok_inj {ℓ} : {A : Type ℓ} {a b : A} → ok a ≡ ok b → a ≡ b
ok_inj h = cc

pub err_inj {ℓ} : {A : Type ℓ} {e e' : Exception} → ◌≡◌ {A = Result A} (err e) (err e') → e ≡ e'
err_inj h = cc
