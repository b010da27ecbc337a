-- ===== src/Auth/Verified.antt =====
-- What a `verifyEmail` that returned has done.
use coupang_eats_backend_v.Base.{
  ℕ, String, ◌≡◌, ◌≢◌, refl, sym, ap, ◌∙◌, Bool, true, none, some, if◌then◌else◌, arith, eq_iff,
  ==-false, none-ne-some, some_inj, false,
}
use coupang_eats_backend_v.Http.{Result, ok, err, bad_request, ok_inj}
use coupang_eats_backend_v.Action.{returned_and_threw, >>=-eq-ok}
use coupang_eats_backend_v.Entity.{User, user_entity}
use coupang_eats_backend_v.Packages.{Packages, PackageLaws}
use coupang_eats_backend_v.World.{user_table, save}
use coupang_eats_backend_v.World.Laws.{save-Saved, Saved-id, Saved-entity, Saved-row}
use coupang_eats_backend_v.World.Unique.{Saved-IsUniqueBy_again}
use coupang_eats_backend_v.Auth.Redis.{Redis, RedisLaws, Json, Value}
use mathlib.Core.Bool.{false≢true}
use coupang_eats_backend_v.Auth.Tokens.{Session, cache_get, cache_del}
use coupang_eats_backend_v.Auth.Hash.{Bcrypt}
use coupang_eats_backend_v.Auth.Server.{Server, in_world, in_session, later}
use coupang_eats_backend_v.Auth.Service.{email_verify_key, given, set_verified, verify_email}
use coupang_eats_backend_v.Auth.Accounts.{HasUniqueEmails, email_of}
use coupang_eats_backend_v.Auth.Verifying.{
  Names, VerifyRun, refused, already, tried, verify_email-VerifyRun,
}

module _ (p : Packages) (users : PackageLaws p user_entity) (r : Redis) (redis : RedisLaws r)
    (b : Bcrypt) (json : Json Value) where
  pub record Verified (token : String) (s s' : Server p r) : Type 0 where
    pub before : User
    pub names : Names p users r redis b json token s before
    pub after : User
    pub now : p.row before.id s'.world.users ≡ some after
    pub verified : after.verified ≡ true
    pub email : after.email ≡ before.email
    pub password : after.password ≡ before.password
    pub others : (i : String) → i ≢ before.id → p.row i s'.world.users ≡ p.row i s.world.users
    pub unique : HasUniqueEmails p users s.world → HasUniqueEmails p users s'.world
    pub used :
        before.verified ≡ false
        → s'.session ≡ record s.session { cache = r.del (email_verify_key token) s.session.cache }

  set_verified-Verified :
      (token : String) (s s' : Server p r) (user : User)
      → p.row "" s.world.users ≡ none
      → Names p users r redis b json token s user
      → set_verified p r b json (email_verify_key token) user s ≡ (ok tt, s')
      → Verified token s s'
  unfolding cache_del
  set_verified-Verified token s s' user no_empty n h =
      let written : User = record user { verified = true } in
      let (y, v, ran, done) =
        >>=-eq-ok (in_world p r (save p (user_table p) written))
          (λ _. in_session p r (cache_del r (email_verify_key token))) s s' tt h in
      let a =
        save-Saved p user_entity (user_table p) written y s.world v.world
          (λ i. ((ran i).0, (ran i).1.world)) in
      let same_world : v.world ≡ s'.world = ap (λ x. x.1.world) done in
      let content = Saved-entity p user_entity (user_table p) users written y s.world v.world a in
      let set : user.id ≢ "" = λ empty.
        none-ne-some (sym no_empty ∙ ap (λ i. p.row i s.world.users) (sym empty) ∙ n.found) in
      let same : y.id ≡ user.id =
        Saved-id p user_entity (user_table p) users written y s.world v.world a
        ∙ ap
            (λ (c : Bool).
              (if c then record user.base { id = p.v4 s.world.fresh } else user.base).id)
            (==-false user.id "" set) in
      let row = Saved-row p user_entity (user_table p) users written y s.world v.world a in
      rw (← same_world) (record {
        before = user;
        names = n;
        after = y;
        now = row user.id ∙ ground (arith, eq_iff y.id user.id);
        verified = ap (λ x. x.verified) content;
        email = ap (λ x. x.email) content;
        password = ap (λ x. x.password) content;
        others = λ i other. row i ∙ ground (arith, eq_iff y.id i);
        unique =
            Saved-IsUniqueBy_again p user_entity (user_table p) email_of users written y s.world
              v.world a user (ap (λ i. p.row i s.world.users) same ∙ n.found)
              (ap (λ x. some x.email) (sym content));
        used = λ _.
            sym (ap (λ x. x.1.session) done)
            ∙ ap (λ (c : Session r). record c { cache = r.del (email_verify_key token) c.cache })
                (sym (ap (λ x. x.1.session) ran));
      })

  verified_outcome :
      (token : String) (s s' : Server p r) (x : Result (Unit {0}) × Server p r)
      → p.row "" s.world.users ≡ none
      → VerifyRun p users r redis b json token s x
      → x ≡ (ok tt, s')
      → Verified token s s'
  verified_outcome token s s' _ no_empty (refused e) h = absurd (returned_and_threw h refl)
  verified_outcome token s s' _ no_empty (already user n was) h =
      let same : s ≡ s' = ap (λ y. y.1) h in
      rw (← same) (record {
        before = user;
        names = n;
        after = user;
        now = n.found;
        verified = was;
        email = refl;
        password = refl;
        others = λ i other. refl;
        unique = λ u. u;
        used = λ open'. absurd (false≢true (sym open' ∙ was));
      })
  verified_outcome token s s' _ no_empty (tried user n was) h =
      set_verified-Verified token s s' user no_empty n h

  -- If `verifyEmail` returns where no account has an empty id, the token stood for the email of a
  -- live account, that account is verified now with the same email and password, no other account
  -- has changed, and emails stay unique.
  pub verify_email-Verified :
      (token : String) (s s' : Server p r)
      → p.row "" s.world.users ≡ none
      → verify_email p r b json token s ≡ (ok tt, s')
      → Verified token s s'
  verify_email-Verified token s s' no_empty h =
      verified_outcome token s s' _ no_empty (verify_email-VerifyRun p users r redis b json token s)
        h

  pub verify_email_again :
      (token : String) (s s' : Server p r) (user : User) (m : ℕ)
      → p.row "" s.world.users ≡ none
      → HasUniqueEmails p users s.world
      → Names p users r redis b json token s user
      → user.verified ≡ false
      → verify_email p r b json token s ≡ (ok tt, s')
      → verify_email p r b json token (later p r m s')
        ≡ (err (bad_request "인증 링크가 만료되었거나 유효하지 않습니다."), later p r m s')
  unfolding verify_email cache_get
  verify_email_again token s s' user m no_empty unique n was h =
      let v = verify_email-Verified token s s' no_empty h in
      let value : n.value ≡ v.names.value = some_inj (ok_inj (sym n.cached ∙ v.names.cached)) in
      let email : user.email ≡ v.before.email =
        some_inj (sym n.email ∙ ap (λ x. given (some x)) value ∙ v.names.email) in
      let one =
        unique user.id v.before.id v.before.email user v.before n.found v.names.found
          (ap some email) refl in
      let alike : user ≡ v.before =
        some_inj (sym n.found ∙ ap (λ i. p.row i s.world.users) one ∙ v.names.found) in
      let gone : r.get m (email_verify_key token) s'.session.cache ≡ none =
        ap (λ x. r.get m (email_verify_key token) x.cache)
          (v.used (ap (λ x. x.verified) (sym alike) ∙ was))
        ∙ redis.get-del m (email_verify_key token) s.session.cache in
      rw gone refl
