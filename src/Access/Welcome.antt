-- ===== src/Access/Welcome.antt =====
-- `signIn`, and the guards afterwards.
use coupang_eats_backend_v.Base.{
  ℕ, ◌+◌, String, ◌≡◌, ◌≢◌, refl, sym, ap, ◌∙◌, true, false, some, ltb, ==-false,
}
use coupang_eats_backend_v.Http.{ok, ok_inj}
use coupang_eats_backend_v.Action.{Action}
use coupang_eats_backend_v.Entity.{User, user_entity}
use coupang_eats_backend_v.Packages.{Packages, PackageLaws}
use coupang_eats_backend_v.Repository.{find_one_by_filters}
use coupang_eats_backend_v.Repository.Laws.{find_one-key}
use coupang_eats_backend_v.Auth.Redis.{Redis, Json, Jwt, JwtLaws, JwtPayload, Value, access}
use coupang_eats_backend_v.Auth.Tokens.{
  JwtConfig, TokenPair, generate_token_pair, generate_access_token, generate_refresh_token,
  store_refresh_token, cache_set, is_token_blacklisted,
}
use coupang_eats_backend_v.Auth.Hash.{Bcrypt}
use coupang_eats_backend_v.Auth.Server.{Server, later}
use coupang_eats_backend_v.Auth.Service.{SignInBody, sign_in}
use coupang_eats_backend_v.Auth.SigningIn.{Matches, sign_in-SignedIn}
use coupang_eats_backend_v.Access.Passport.{
  Request, Passport, PassportLaws, validate_access, handle_access_request, access_user,
}
use coupang_eats_backend_v.Access.Guards.{
  header_token, blacklist_can_activate, activate, activate_all, enter, handle,
}
use coupang_eats_backend_v.Controllers.Routes.{signed_in_route}
use coupang_eats_backend_v.Access.Allowed.{Known}

module _ (p : Packages) (users : PackageLaws p user_entity) (r : Redis) (c : Passport (Server p r))
    (laws : PassportLaws c) (b : Bcrypt) (json : Json Value) (jwt : Jwt) (tokens : JwtLaws jwt)
    (config : JwtConfig) where
  validate_access-eq :
      (d : JwtPayload) (s : Server p r) (user : User)
      → d.type ≡ access
      → p.row d.sub s.world.users ≡ some user
      → validate_access p r d s ≡ (ok user, s)
  unfolding validate_access find_one_by_filters
  validate_access-eq d s user kind found =
      rw (kind, find_one-key p user_entity users d.sub s.world.users, found) refl

  -- the converse of `access_user-Known`
  pub access_user-eq :
      (request : Request) (s : Server p r) (user : User)
      → Known p users r c laws json jwt config request s user
      → access_user p r c jwt config request s ≡ (ok user, s)
  unfolding access_user handle_access_request
  access_user-eq request s user k =
      let checked = validate_access-eq k.payload s user k.is_access_token k.found in
      rw (k.sent, k.signed, laws.authenticate-ok (validate_access p r) k.payload user s s checked)
        refl

  pub handle-eq :
      {A : Type 0} (request : Request) (handler : User → Action (Server p r) A) (s : Server p r)
      (user : User) (token : String)
      → Known p users r c laws json jwt config request s user
      → header_token request.authorization ≡ some token
      → token ≢ ""
      → is_token_blacklisted r json jwt config token s.session ≡ (ok false, s.session)
      → handle p r c json jwt config signed_in_route request handler s ≡ handler user s
  unfolding handle enter activate_all activate blacklist_can_activate
  handle-eq request handler s user token known sent set live =
      rw (sent, ==-false token "" set, live)
        (rw (access_user-eq request s user known) (rw (access_user-eq request s user known) refl))

  pub sign_in-handle :
      {A : Type 0} (body : SignInBody) (s s' : Server p r) (pair : TokenPair) (m : ℕ)
      (request : Request) (handler : User → Action (Server p r) A)
      → sign_in p r b json jwt config body s ≡ (ok pair, s')
      → ltb m (s.session.now + tokens.lifetime config.access_expiration) ≡ true
      → c.bearer_token request.authorization ≡ some pair.access_token
      → header_token request.authorization ≡ some pair.access_token
      → pair.access_token ≢ ""
      → is_token_blacklisted r json jwt config pair.access_token (later p r m s').session
        ≡ (ok false, (later p r m s').session)
      → (user : User) × Matches p users r b json jwt config body s user
        × (handle p r c json jwt config signed_in_route request handler (later p r m s')
            ≡ handler user (later p r m s'))
  unfolding generate_token_pair generate_access_token generate_refresh_token store_refresh_token
      cache_set
  sign_in-handle body s s' pair m request handler h alive sent header set live =
      let g = sign_in-SignedIn p users r b json jwt config body s s' pair h in
      let payload : JwtPayload = record { sub = g.user.id; type = access } in
      let issued : pair.access_token
          ≡ jwt.sign config.access_secret payload config.access_expiration s.session.now =
        sym (ap (λ x. x.access_token) (ok_inj (ap (λ x. x.0) g.tokens))) in
      let k : Known p users r c laws json jwt config request (later p r m s') g.user = record {
        token = pair.access_token;
        payload = payload;
        sent = sent;
        signed =
            ap (jwt.verify config.access_secret m) issued
            ∙ tokens.verify-sign config.access_secret payload config.access_expiration s.session.now
                m alive;
        is_access_token = refl;
        found = ap (λ w. p.row g.user.id w.users) g.same_world ∙ g.matches.found;
      } in
      (
        g.user,
        g.matches,
        handle-eq request handler (later p r m s') g.user pair.access_token k header set live,
      )
