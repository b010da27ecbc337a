-- ===== src/Auth/SigningIn.antt =====
-- `signIn`.
use coupang_eats_backend_v.Base.{
  ◌≡◌, ◌≢◌, refl, sym, ap, ◌∙◌, Bool, true, false, some, Bool-cases, Option-cases, inl, inr, eq_iff,
  some_inj,
}
use mathlib.Core.Bool.{false≢true}
use coupang_eats_backend_v.Http.{Result, ok, err, ok_inj, Result-cases, unauthorized}
use coupang_eats_backend_v.Action.{returned_and_threw}
use coupang_eats_backend_v.Entity.{User, user_entity}
use coupang_eats_backend_v.Packages.{Packages, PackageLaws, unsorted}
use coupang_eats_backend_v.Repository.{find_one_by_filters}
use coupang_eats_backend_v.Repository.Laws.{find_one_by_filters-none, find_one_by_filters-some}
use coupang_eats_backend_v.Auth.Redis.{Redis, Json, Jwt, Value}
use coupang_eats_backend_v.Auth.Tokens.{
  JwtConfig, TokenPair, generate_token_pair, generate_access_token, generate_refresh_token,
  store_refresh_token, cache_set,
}
use coupang_eats_backend_v.Auth.Hash.{Bcrypt, compare}
use coupang_eats_backend_v.Auth.Server.{Server, in_session}
use coupang_eats_backend_v.Auth.Service.{SignInBody, has_email, validate_user, sign_in}
use coupang_eats_backend_v.Auth.Accounts.{HasUniqueEmails}

module _ (p : Packages) (users : PackageLaws p user_entity) (r : Redis) (b : Bcrypt)
    (json : Json Value) (jwt : Jwt) (config : JwtConfig) where
  -- a live account with the email and the password of the request
  pub record Matches (body : SignInBody) (s : Server p r) (user : User) : Type 0 where
    pub found : p.row user.id s.world.users ≡ some user
    pub email : user.email ≡ body.email
    pub password : compare b body.password user.password ≡ ok true

  pub data SignInRun (body : SignInBody) (s : Server p r)
      : Result TokenPair × Server p r → Type 0 where
    wrong :
        (HasUniqueEmails p users s.world → (user : User) → ¬ Matches body s user)
        → SignInRun body s (err (unauthorized "Invalid credentials"), s)
    unverified :
        (user : User)
        → Matches body s user
        → user.verified ≡ false
        → SignInRun body s (err (unauthorized "이메일 인증을 완료해주세요."), s)
    issued :
        (user : User)
        → Matches body s user
        → user.verified ≡ true
        → SignInRun body s (in_session p r (generate_token_pair r json jwt config user.id) s)

  -- the one account with the email of the request has no other password
  no_other :
      (body : SignInBody) (s : Server p r) (u : User) (x : Result Bool)
      → p.row u.id s.world.users ≡ some u
      → u.email ≡ body.email
      → compare b body.password u.password ≡ x
      → x ≢ ok true
      → HasUniqueEmails p users s.world
      → (user : User) → ¬ Matches body s user
  no_other body s u x at same answer differs unique user m =
      let one = unique user.id u.id body.email user u m.found at (ap some m.email) (ap some same) in
      let alike : u ≡ user =
        some_inj (sym at ∙ ap (λ i. p.row i s.world.users) (sym one) ∙ m.found) in
      differs (sym answer ∙ ap (λ y. compare b body.password y.password) alike ∙ m.password)

  pub sign_in-SignInRun :
      (body : SignInBody) (s : Server p r) → SignInRun body s (sign_in p r b json jwt config body s)
  unfolding sign_in validate_user
  sign_in-SignInRun body s =
      elim (Option-cases (find_one_by_filters p (has_email body.email) unsorted s.world.users)) [
        | inl missing ↦ rw missing (
            wrong (λ unique user m. false≢true (
              sym (
                find_one_by_filters-none p user_entity users (has_email body.email) unsorted
                  s.world.users user.id user missing m.found)
              ∙ (eq_iff user.email body.email).1 m.email)))
        | inr (u, found) ↦
            let (at, passes) =
              find_one_by_filters-some p user_entity users (has_email body.email) unsorted
                s.world.users u found in
            let same : u.email ≡ body.email = (eq_iff u.email body.email).0 passes in
            rw found (elim (Result-cases (compare b body.password u.password)) [
              | inr (e, failed) ↦
                  rw failed (wrong (no_other body s u (err e) at same failed (λ k. cc)))
              | inl (false, refused) ↦ rw refused (
                  wrong (no_other body s u (ok false) at same refused (λ k. false≢true (ok_inj k))))
              | inl (true, passed) ↦
                  let m : Matches body s u = record {
                    found = at;
                    email = same;
                    password = passed;
                  } in
                  rw passed (elim (Bool-cases u.verified) [
                    | inl verified ↦ rw verified (issued u m verified)
                    | inr not_yet ↦ rw not_yet (unverified u m not_yet)
                  ])
            ])
      ]

  pub record SignedIn (body : SignInBody) (s : Server p r) (pair : TokenPair) (s' : Server p r)
      : Type 0 where
    pub user : User
    pub matches : Matches body s user
    pub verified : user.verified ≡ true
    pub tokens : generate_token_pair r json jwt config user.id s.session ≡ (ok pair, s'.session)
    pub same_world : s'.world ≡ s.world

  sign_in_outcome :
      (body : SignInBody) (s : Server p r) (pair : TokenPair) (s' : Server p r)
      (x : Result TokenPair × Server p r)
      → SignInRun body s x
      → x ≡ (ok pair, s')
      → SignedIn body s pair s'
  sign_in_outcome body s pair s' _ (wrong differs) h = absurd (returned_and_threw h refl)
  sign_in_outcome body s pair s' _ (unverified user m not_so) h = absurd (returned_and_threw h refl)
  sign_in_outcome body s pair s' _ (issued user m verified) h = record {
    user = user;
    matches = m;
    verified = verified;
    tokens = λ i. ((h i).0, (h i).1.session);
    same_world = ap (λ y. y.1.world) (sym h);
  }

  -- If `signIn` returns, a live account has the email of the request, bcrypt accepts the password
  -- for it, and its email is verified; the tokens are a pair generated for that account, and no
  -- table has changed.
  pub sign_in-SignedIn :
      (body : SignInBody) (s s' : Server p r) (pair : TokenPair)
      → sign_in p r b json jwt config body s ≡ (ok pair, s')
      → SignedIn body s pair s'
  sign_in-SignedIn body s s' pair h = sign_in_outcome body s pair s' _ (sign_in-SignInRun body s) h

  let_in :
      (body : SignInBody) (s : Server p r) (user : User) (x : Result TokenPair × Server p r)
      → HasUniqueEmails p users s.world
      → Matches body s user
      → user.verified ≡ true
      → SignInRun body s x
      → (pair : TokenPair) × (x.0 ≡ ok pair)
  unfolding generate_token_pair generate_access_token generate_refresh_token store_refresh_token
      cache_set
  let_in body s user _ unique m is_so (wrong differs) = absurd (differs unique user m)
  let_in body s user _ unique m is_so (unverified other n not_so) =
      let one =
        unique user.id other.id body.email user other m.found n.found (ap some m.email)
          (ap some n.email) in
      let alike : other ≡ user =
        some_inj (sym n.found ∙ ap (λ i. p.row i s.world.users) (sym one) ∙ m.found) in
      absurd (false≢true (sym not_so ∙ ap (λ y. y.verified) alike ∙ is_so))
  let_in body s user _ unique m is_so (issued other n verified) = (_, refl)

  -- Where emails are unique, `signIn` returns tokens for the email and the password of a verified
  -- account.
  pub sign_in-returns :
      (body : SignInBody) (s : Server p r) (user : User)
      → HasUniqueEmails p users s.world
      → Matches body s user
      → user.verified ≡ true
      → (pair : TokenPair) × ((sign_in p r b json jwt config body s).0 ≡ ok pair)
  sign_in-returns body s user unique m is_so =
      let_in body s user _ unique m is_so (sign_in-SignInRun body s)
