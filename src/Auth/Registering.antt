-- ===== src/Auth/Registering.antt =====
-- From signing up over the mail to signing in.
use package.text.Mathlib.TextLemmas.{append_assoc}
use coupang_eats_backend_v.Base.{
  ◌<>◌, ℕ, ◌+◌, ◌-◌, String, ◌≡◌, refl, sym, ap, ◌∙◌, true, Option, none, some, List, [], ◌∷◌, ◌++◌,
  inl, inr, arith, ltb, eq_refl, ◌==◌, some_inj, none-ne-some, Bool-cases,
}
use coupang_eats_backend_v.Http.{Result, ok, err, ok_inj}
use coupang_eats_backend_v.Action.{returned_and_threw}
use coupang_eats_backend_v.Entity.{User, user_entity}
use coupang_eats_backend_v.Packages.{Packages, PackageLaws}
use coupang_eats_backend_v.World.{World, user_table, Transactional, TransactionalLaws}
use coupang_eats_backend_v.World.Runs.{run-eq-ok}
use coupang_eats_backend_v.World.Laws.{Saved-row}
use coupang_eats_backend_v.Auth.Redis.{Redis, RedisLaws, Json, IsKept, Jwt, Value, text}
use coupang_eats_backend_v.Auth.Tokens.{JwtConfig, TokenPair, parsed, cache_set}
use coupang_eats_backend_v.Auth.Cache.{cache_get-cache_set}
use coupang_eats_backend_v.Auth.Hash.{Bcrypt, BcryptLaws, hash, compare, salt_rounds}
use coupang_eats_backend_v.Auth.Mail.{
  SesClient, MailConfig, Mail, sent, welcome, send_welcome_notification, send_email, html_of,
  verify_url,
}
use coupang_eats_backend_v.Auth.Server.{Server, later}
use coupang_eats_backend_v.Auth.Service.{
  SignUpBody, user_to_entity, email_verify_key, create_user_body, create_user_or_throw, sign_up,
  send_token, verify_email, sign_in, given,
}
use coupang_eats_backend_v.Auth.Accounts.{
  HasUniqueEmails, create_user_body-Created, Created-entity, sign_up-HasUniqueEmails,
}
use coupang_eats_backend_v.Auth.SigningIn.{sign_in-returns}
use coupang_eats_backend_v.Auth.Verified.{verify_email-Verified}

-- a mail to an address whose text has the link for a token
pub record Linked (config : MailConfig) (m : Mail) (email token : String) : Type 0 where
  pub to : m.to ≡ email
  pub before : String
  pub after : String
  pub html_body :
      m.html_body ≡ before <> (config.base_url <> "/auth/verify-email?token=" <> token) <> after

welcome-Linked :
    (ses : SesClient) (config : MailConfig) (email token : String)
    → Linked config (welcome ses config email token) email token
unfolding html_of verify_url
welcome-Linked ses config email token = record {
  to = refl;
  before = _;
  after = "</small>" <> "\n      </div>" <> "\n    ";
  html_body =
      ap (λ w. w <> "\n    ")
        (append_assoc (_ <> verify_url ses config token) "</small>" "\n      </div>")
      ∙ append_assoc (_ <> verify_url ses config token) ("</small>" <> "\n      </div>") "\n    ";
}

module _ (p : Packages) (users : PackageLaws p user_entity) (r : Redis) (redis : RedisLaws r)
    (b : Bcrypt) (bcrypt : BcryptLaws b) (json : Json Value) (t : Transactional p)
    (transactions : TransactionalLaws p t) (ses : SesClient) (mail : MailConfig) where
  -- the last token that was drawn
  abbrev pub last_token : Server p r → String
  last_token s = p.v4 (s.world.fresh - 1)

  pub record Registered (body : SignUpBody) (s s' : Server p r) : Type 0 where
    pub user : User
    pub found : p.row user.id s'.world.users ≡ some user
    pub email : user.email ≡ body.email
    pub name : user.name ≡ body.name
    pub role : user.role ≡ body.role
    pub verified : user.verified ≡ body.undeclared.verified
    pub password : compare b body.password user.password ≡ ok true
    pub mailed : s'.mails ≡ s.mails ++ (welcome ses mail body.email (last_token s') ∷ [])
    pub stored :
        s'.session
        ≡ (cache_set r json (email_verify_key (last_token s')) (text body.email) 300 s.session).1

  -- the mail service took the mail
  delivered :
      (m : Mail) (refusal : Option String) (ms ms' : List Mail)
      → sent ses mail m refusal ms ≡ (ok tt, ms')
      → ms' ≡ ms ++ (m ∷ [])
  delivered m none ms ms' h = sym (ap (λ x. x.1) h)
  delivered m (some message) ms ms' h = absurd (returned_and_threw h refl)

  -- an email that was read from the cache
  named : (e f : String) → given (some (text f)) ≡ some e → e ≡ f
  named e f h = elim (Bool-cases (f == "")) [
    | inl empty ↦ absurd (none-ne-some (rw empty at h))
    | inr set ↦ sym (some_inj (rw set at h))
  ]

  record Sent (email : String) (s s' : Server p r) : Type 0 where
    pub token : p.v4 s.world.fresh ≡ last_token s'
    pub tables : s'.world.db ≡ s.world.db
    pub mailed : s'.mails ≡ s.mails ++ (welcome ses mail email (p.v4 s.world.fresh) ∷ [])
    pub stored :
        s'.session
        ≡ (cache_set r json (email_verify_key (p.v4 s.world.fresh)) (text email) 300 s.session).1

  send_token-Sent :
      (email : String) (s s' : Server p r)
      → send_token p r b json t ses mail email s ≡ (ok tt, s')
      → Sent email s s'
  unfolding send_token send_welcome_notification send_email cache_set
  send_token-Sent email s s' h =
      let m : Mail = welcome ses mail email (p.v4 s.world.fresh) in
      record {
        token = ap p.v4 (omega (arith, ap (λ x. x.1.world.fresh) h));
        tables = sym (ap (λ x. x.1.world.db) h);
        mailed = delivered m (ses.refusal m) s.mails s'.mails (λ i. ((h i).0, (h i).1.mails));
        stored = sym (ap (λ x. x.1.session) h);
      }

  -- If `signUp` returns, there is an account with the email, the name and the role of the request,
  -- unverified unless the body says otherwise, whose stored hash bcrypt accepts for the password; one mail went to the email with
  -- the token that Redis keeps for 300 seconds under it.
  pub sign_up-Registered :
      (body : SignUpBody) (s s' : Server p r)
      → sign_up p r b json t ses mail body s ≡ (ok tt, s')
      → Registered body s s'
  unfolding sign_up send_token send_welcome_notification send_email create_user_or_throw
      user_to_entity compare hash cache_set
  sign_up-Registered body s s' h =
      go (create_user_or_throw p t body (hash b s.salts body.password) s.world) refl
    where
      go :
          (x : Result (Unit {0}) × World p)
          → create_user_or_throw p t body (hash b s.salts body.password) s.world ≡ x
          → Registered body s s'
      go (err e, w) k = absurd (returned_and_threw (rw k at h) refl)
      go (ok y, w) k =
          let (u, ran, done) =
            run-eq-ok p t transactions (create_user_body p body (hash b s.salts body.password))
              s.world tt w k in
          let c =
            create_user_body-Created p users body (hash b s.salts body.password) s.world u ran in
          let content = Created-entity p users body (hash b s.salts body.password) s.world u c in
          let n = send_token-Sent body.email _ s' (rw k at h) in
          let tables : s'.world.db ≡ u.db = n.tables ∙ ap (λ x. x.db) done in
          record {
            user = c.user;
            found =
                ap (λ d. p.row c.user.id d.users) tables
                ∙ Saved-row p user_entity (user_table p) users _ c.user s.world u c.saved c.user.id
                ∙ ground (arith, eq_refl c.user.id);
            email = ap (λ x. x.email) content;
            name = ap (λ x. x.name) content;
            role = ap (λ x. x.role) content;
            verified = ap (λ x. x.verified) content;
            password =
                ap (λ x. b.compare body.password x.password) content
                ∙ bcrypt.compare-hash s.salts salt_rounds body.password;
            mailed = n.mailed ∙ ap (λ i. s.mails ++ (welcome ses mail body.email i ∷ [])) n.token;
            stored =
                n.stored
                ∙ ap
                    (λ i. (cache_set r json (email_verify_key i) (text body.email) 300 s.session).1)
                    n.token;
          }

  module _ (jwt : Jwt) (config : JwtConfig) where
    -- Round trip: where emails are unique, no account has an empty id and JSON keeps the email, if
    -- `signUp` returns, and `verifyEmail` with the token that it has drawn returns within 300
    -- seconds, then the one mail that `signUp` has sent goes to the email of the sign-up and has the
    -- link for that token in its text, and `signIn` with the email and the password of the sign-up
    -- returns tokens.
    pub sign_up-verify_email-sign_in :
        (body : SignUpBody) (s s' s'' : Server p r) (m : ℕ)
        → HasUniqueEmails p users s.world
        → IsKept json (text body.email)
        → sign_up p r b json t ses mail body s ≡ (ok tt, s')
        → p.row "" s'.world.users ≡ none
        → ltb m (s.session.now + 300) ≡ true
        → verify_email p r b json (last_token s') (later p r m s') ≡ (ok tt, s'')
        → (m : Mail) × (s'.mails ≡ s.mails ++ (m ∷ []))
          × Linked mail m body.email (last_token s')
          × (pair : TokenPair) × ((sign_in p r b json jwt config
                (record { email = body.email; password = body.password })
                s'').0
              ≡ ok pair)
    sign_up-verify_email-sign_in body s s' s'' m unique kept_email signed no_empty soon verified =
        let g = sign_up-Registered body s s' signed in
        let unique' : HasUniqueEmails p users s'.world =
          rw (← ap (λ x. x.1.world) signed)
            (sign_up-HasUniqueEmails p users r b json t transactions ses mail body s unique) in
        let v =
          verify_email-Verified p users r redis b json (last_token s') (later p r m s') s'' no_empty
            verified in
        let cached : parsed r json (r.get m (email_verify_key (last_token s')) s'.session.cache)
            ≡ ok (some (text body.email)) =
          ap (λ x. parsed r json (r.get m (email_verify_key (last_token s')) x.cache)) g.stored
          ∙ cache_get-cache_set r json redis (email_verify_key (last_token s')) (text body.email)
              300 m s.session kept_email refl soon in
        let value : text body.email ≡ v.names.value =
          some_inj (ok_inj (sym cached ∙ v.names.cached)) in
        let email : v.before.email ≡ body.email =
          named v.before.email body.email (ap (λ x. given (some x)) value ∙ v.names.email) in
        let one =
          unique' v.before.id g.user.id body.email v.before g.user v.names.found g.found
            (ap some email) (ap some g.email) in
        let alike : v.before ≡ g.user =
          some_inj (sym v.names.found ∙ ap (λ i. p.row i s'.world.users) one ∙ g.found) in
        let after_id : v.after.id ≡ v.before.id =
          users.row-id v.before.id s''.world.users v.after v.now in
        let (pair, opened) =
          sign_in-returns p users r b json jwt config _ s'' v.after (v.unique unique')
            (record {
              found = ap (λ i. p.row i s''.world.users) after_id ∙ v.now;
              email = v.email ∙ email;
              password =
                  ap (λ x. compare b body.password x) (v.password ∙ ap (λ x. x.password) alike)
                  ∙ g.password;
            })
            v.verified in
        (
          welcome ses mail body.email (last_token s'),
          g.mailed,
          welcome-Linked ses mail body.email (last_token s'),
          pair,
          opened,
        )
