-- ===== src/Auth/Accounts.antt =====
-- `signUp` and the emails of the accounts.
use coupang_eats_backend_v.Base.{
  String, ◌≡◌, refl, sym, ap, ◌∙◌, Option, none, some, Option-cases, inl, inr, eq_iff, some_inj,
}
use mathlib.Core.Bool.{false≢true}
use coupang_eats_backend_v.Http.{Result, ok, err}
use coupang_eats_backend_v.Action.{returned_and_threw, >>=-eq-ok, pure}
use coupang_eats_backend_v.Entity.{User, user_entity}
use coupang_eats_backend_v.Packages.{Packages, PackageLaws, unsorted}
use coupang_eats_backend_v.Repository.{find_one_by_filters}
use coupang_eats_backend_v.Repository.Laws.{find_one_by_filters-none}
use coupang_eats_backend_v.World.{World, user_table, save, Transactional, TransactionalLaws}
use coupang_eats_backend_v.World.Runs.{run-kept}
use coupang_eats_backend_v.World.Laws.{Saved, save-Saved, Saved-entity}
use coupang_eats_backend_v.World.Unique.{IsUniqueBy, IsNew, Saved-IsUniqueBy}
use coupang_eats_backend_v.Auth.Redis.{Redis, Json, Value}
use coupang_eats_backend_v.Auth.Tokens.{cache_set}
use coupang_eats_backend_v.Auth.Hash.{Bcrypt, hash}
use coupang_eats_backend_v.Auth.Mail.{SesClient, MailConfig}
use coupang_eats_backend_v.Auth.Server.{Server}
use coupang_eats_backend_v.Auth.Service.{
  SignUpBody, user_to_entity, has_email, create_user_body, create_user_or_throw, sign_up,
  send_token,
}

-- the email as a key
abbrev pub email_of : User → Option String
email_of u = some u.email

module _ (p : Packages) (users : PackageLaws p user_entity) where
  abbrev pub HasUniqueEmails : World p → Type 0
  HasUniqueEmails w = IsUniqueBy p user_entity (user_table p) email_of w

  -- no account has the email
  email-IsNew :
      (email : String) (w : World p)
      → find_one_by_filters p (has_email email) unsorted w.users ≡ none
      → IsNew p user_entity (user_table p) email_of email w
  email-IsNew email w none_yet i a at same = false≢true (
      sym (
        find_one_by_filters-none p user_entity users (has_email email) unsorted w.users i a none_yet
          at)
      ∙ (eq_iff a.email email).1 (some_inj same))

  -- what a creation that returned has done
  pub record Created (body : SignUpBody) (hashed : String) (w u : World p) : Type 0 where
    pub unused : find_one_by_filters p (has_email body.email) unsorted w.users ≡ none
    pub user : User
    pub saved : Saved p user_entity (user_table p) (user_to_entity body hashed) w user u

  pub create_user_body-Created :
      (body : SignUpBody) (hashed : String) (w u : World p)
      → create_user_body p body hashed w ≡ (ok tt, u)
      → Created body hashed w u
  unfolding create_user_body
  create_user_body-Created body hashed w u h =
      elim (Option-cases (find_one_by_filters p (has_email body.email) unsorted w.users)) [
        | inr (old, found) ↦ absurd (returned_and_threw {s' = w} (rw found at h) refl)
        | inl missing ↦
            let (user, v, ran, done) =
              >>=-eq-ok (save p (user_table p) (user_to_entity body hashed)) (λ _. pure tt) w u tt
                (rw missing at h) in
            let same : v ≡ u = ap (λ x. x.1) done in
            record {
              unused = missing;
              user = user;
              saved = rw (← same) (
                  save-Saved p user_entity (user_table p) (user_to_entity body hashed) user w v
                    ran);
            }
      ]

  module _ (body : SignUpBody) (hashed : String) (w u : World p) (c : Created body hashed w u) where
    pub Created-entity : c.user ≡ user_entity.with_base c.user.base (user_to_entity body hashed)
    Created-entity =
        Saved-entity p user_entity (user_table p) users (user_to_entity body hashed) c.user w u
          c.saved

    pub Created-HasUniqueEmails : HasUniqueEmails w → HasUniqueEmails u
    unfolding user_to_entity
    Created-HasUniqueEmails unique =
        Saved-IsUniqueBy p user_entity (user_table p) email_of users (user_to_entity body hashed)
          c.user w u c.saved body.email (ap (λ x. some x.email) Created-entity)
          (email-IsNew body.email w c.unused) unique

  module _ (r : Redis) (b : Bcrypt) (json : Json Value) (t : Transactional p)
      (transactions : TransactionalLaws p t) (ses : SesClient) (mail : MailConfig) where
    create_user_or_throw-HasUniqueEmails :
        (body : SignUpBody) (hashed : String) (w : World p)
        → HasUniqueEmails w
        → HasUniqueEmails (create_user_or_throw p t body hashed w).1
    unfolding create_user_or_throw
    create_user_or_throw-HasUniqueEmails body hashed w unique =
        run-kept p t transactions (create_user_body p body hashed) w
          (λ d. HasUniqueEmails (record w { db = d })) unique
          (λ y u ran.
            Created-HasUniqueEmails body hashed w u (create_user_body-Created body hashed w u ran)
              unique)

    send_token-db :
        (email : String) (s : Server p r)
        → (send_token p r b json t ses mail email s).1.world.db ≡ s.world.db
    unfolding send_token cache_set
    send_token-db email s = refl

    sign_up-db :
        (body : SignUpBody) (s : Server p r)
        → (sign_up p r b json t ses mail body s).1.world.db
          ≡ (create_user_or_throw p t body (hash b s.salts body.password) s.world).1.db
    unfolding sign_up
    sign_up-db body s =
        go (create_user_or_throw p t body (hash b s.salts body.password) s.world) refl
      where
        go :
            (x : Result (Unit {0}) × World p)
            → create_user_or_throw p t body (hash b s.salts body.password) s.world ≡ x
            → (sign_up p r b json t ses mail body s).1.world.db ≡ x.1.db
        go (ok y, w) h = rw h (send_token-db body.email _)
        go (err e, w) h = rw h refl

    -- If no two accounts share an email before `signUp`, no two do after it, however the call ends.
    pub sign_up-HasUniqueEmails :
        (body : SignUpBody) (s : Server p r)
        → HasUniqueEmails s.world
        → HasUniqueEmails (sign_up p r b json t ses mail body s).1.world
    sign_up-HasUniqueEmails body s unique i j k a c at_i at_j =
        create_user_or_throw-HasUniqueEmails body (hash b s.salts body.password) s.world unique i j
          k a c (ap (λ d. p.row i d.users) (sym (sign_up-db body s)) ∙ at_i)
          (ap (λ d. p.row j d.users) (sym (sign_up-db body s)) ∙ at_j)
