-- ===== src/Auth/Verifying.antt =====
-- `verifyEmail`: what it does with a token.
use coupang_eats_backend_v.Base.{
  String, ◌≡◌, refl, sym, ap, ◌∙◌, true, false, none, some, [], ◌∷◌, Bool-cases, Option-cases, inl,
  inr, eq_iff, ◌==◌,
}
use coupang_eats_backend_v.Http.{Exception, Result, ok, err, Result-cases}
use coupang_eats_backend_v.Entity.{User, user_entity}
use coupang_eats_backend_v.Packages.{Packages, PackageLaws, unsorted}
use coupang_eats_backend_v.Repository.{find_one_or_throw, options, no_relations}
use coupang_eats_backend_v.World.{World}
use coupang_eats_backend_v.Auth.Redis.{Redis, RedisLaws, Json, Value}
use coupang_eats_backend_v.Auth.Tokens.{parsed, cache_get}
use coupang_eats_backend_v.Auth.Hash.{Bcrypt}
use coupang_eats_backend_v.Auth.Server.{Server}
use coupang_eats_backend_v.Auth.Service.{
  email_verify_key, given, by_email, set_verified, verify_email,
}

module _ (p : Packages) (users : PackageLaws p user_entity) (r : Redis) (redis : RedisLaws r)
    (b : Bcrypt) (json : Json Value) where
  -- the account that a token stands for
  pub record Names (token : String) (s : Server p r) (user : User) : Type 0 where
    pub value : Value
    pub cached :
        parsed r json (r.get s.session.now (email_verify_key token) s.session.cache)
        ≡ ok (some value)
    pub email : given (some value) ≡ some user.email
    pub found : p.row user.id s.world.users ≡ some user

  pub data VerifyRun (token : String) (s : Server p r)
      : Result (Unit {0}) × Server p r → Type 0 where
    refused : (e : Exception) → VerifyRun token s (err e, s)
    already :
        (user : User) → Names token s user → user.verified ≡ true → VerifyRun token s (ok tt, s)
    tried :
        (user : User)
        → Names token s user
        → user.verified ≡ false
        → VerifyRun token s (set_verified p r b json (email_verify_key token) user s)

  find_email :
      (email : String) (w : World p) (u : User)
      → find_one_or_throw p (by_email email ∷ []) unsorted w.users ≡ ok u
      → (p.row u.id w.users ≡ some u) × (u.email ≡ email)
  unfolding find_one_or_throw
  find_email email w u h =
      elim (Option-cases (
        p.find_one (options p (λ (e : User). e.email == email) no_relations unsorted false)
          w.users)) [
            | inl missing ↦ absurd (cc (rw missing at h))
            | inr (e, found) ↦
                let f = users.find_one-found _ w.users e refl found in
                let same : e ≡ u = cc (rw found at h) in
                rw (← same) (
                  ap (λ x. p.row x.id w.users) (sym f.joined) ∙ f.live ∙ ap some f.joined,
                  (eq_iff e.email email).0 f.passes,
                )
          ]

  pub verify_email-VerifyRun :
      (token : String) (s : Server p r) → VerifyRun token s (verify_email p r b json token s)
  unfolding verify_email cache_get
  verify_email-VerifyRun token s =
      elim (Result-cases
        (parsed r json (r.get s.session.now (email_verify_key token) s.session.cache))) [
          | inr (e, broken) ↦ rw broken (refused e)
          | inl (none, missing) ↦ rw missing (refused _)
          | inl (some v, cached) ↦ rw cached (elim (Option-cases (given (some v))) [
            | inl empty ↦ rw empty (refused _)
            | inr (email, set) ↦
                rw set
                  (elim (Result-cases
                    (find_one_or_throw p (by_email email ∷ []) unsorted s.world.users)) [
                      | inr (e, unknown) ↦ rw unknown (refused e)
                      | inl (u, known) ↦
                          let (at, same) = find_email email s.world u known in
                          let n : Names token s u = record {
                            value = v;
                            cached = cached;
                            email = set ∙ ap some (sym same);
                            found = at;
                          } in
                          rw known (elim (Bool-cases u.verified) [
                            | inl verified ↦ rw verified (already u n verified)
                            | inr not_yet ↦ rw not_yet (tried u n not_yet)
                          ])
                    ])
          ])
        ]
