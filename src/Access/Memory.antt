-- ===== src/Access/Memory.antt =====
-- A passport that meets the laws of `Access.Passport`.
use coupang_eats_backend_v.Base.{String, ◌≡◌, ◌≢◌, refl, ap, Option, none, some}
use coupang_eats_backend_v.Http.{Result, ok, err}
use coupang_eats_backend_v.Action.{Action}
use coupang_eats_backend_v.Auth.Redis.{JwtPayload, Verified, valid, token_expired, rejected}
use coupang_eats_backend_v.Access.Passport.{
  Passport, PassportLaws, Outcome, thrown, returned, refused,
}
use coupang_eats_backend_v.Access.Guards.{header_token}

module _ (S : Type 0) where
  abbrev pub outcome_of : {U : Type 0} → Result U × S → Result (Outcome U) × S
  outcome_of (ok u, s) = (ok (returned u), s)
  outcome_of (err e, s) = (ok (thrown e), s)

  abbrev pub authenticated :
      {U : Type 0} → Option Verified → (JwtPayload → Action S U) → Action S (Outcome U)
  authenticated none f s = (ok (refused "No auth token"), s)
  authenticated (some token_expired) f s = (ok (refused "jwt expired"), s)
  authenticated (some (rejected e)) f s = (ok (refused "invalid signature"), s)
  authenticated (some (valid d)) f s = outcome_of (f d s)

  abbrev pub memory_passport : Passport S
  memory_passport = record { bearer_token = header_token; authenticate = authenticated }

  authenticated-refused :
      {U : Type 0} (v : Option Verified) (f : JwtPayload → Action S U) (s : S)
      → ((d : JwtPayload) → v ≢ some (valid d))
      → (m : String) × (authenticated v f s ≡ (ok (refused m), s))
  authenticated-refused none f s h = (_, refl)
  authenticated-refused (some token_expired) f s h = (_, refl)
  authenticated-refused (some (rejected e)) f s h = (_, refl)
  authenticated-refused (some (valid d)) f s h = absurd (h d refl)

  pub memory_passport_laws : PassportLaws memory_passport
  memory_passport_laws = record {
    authenticate-ok = λ f d u s s' h. ap outcome_of h;
    authenticate-err = λ f d e s s' h. ap outcome_of h;
    authenticate-refused = authenticated-refused;
  }
