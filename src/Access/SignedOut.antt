-- ===== src/Access/SignedOut.antt =====
-- `signOut`, and the guards afterwards.
use coupang_eats_backend_v.Base.{
  ℕ, ◌+◌, String, ◌≡◌, ◌≢◌, refl, ap, ◌∙◌, sym, true, false, some, ltb, ==-false, ◌<>◌,
}
use coupang_eats_backend_v.Http.{ok, err, unauthorized}
use coupang_eats_backend_v.Action.{Action}
use coupang_eats_backend_v.Entity.{User}
use coupang_eats_backend_v.Packages.{Packages}
use coupang_eats_backend_v.Auth.Redis.{Redis, RedisLaws, Json, IsKept, Jwt, Value, flag}
use coupang_eats_backend_v.Auth.Tokens.{
  JwtConfig, parsed, get_blacklist_key, get_refresh_token_key, cache_get, cache_set, cache_del,
  is_token_blacklisted, revoke_all_user_tokens, revoke_refresh_token, parse_expiration_to_seconds,
}
use coupang_eats_backend_v.Auth.Cache.{cache_get-cache_set}
use coupang_eats_backend_v.Auth.Server.{Server, later}
use coupang_eats_backend_v.Auth.Service.{sign_out}
use coupang_eats_backend_v.Auth.Hash.{Bcrypt}
use coupang_eats_backend_v.Access.Passport.{Request, Passport}
use coupang_eats_backend_v.Access.Bearer.{header_token-append}
use coupang_eats_backend_v.Access.Guards.{
  Route, header_token, blacklist_can_activate, activate, activate_all, enter, handle,
}

module _ (p : Packages) (r : Redis) (redis : RedisLaws r) (c : Passport (Server p r)) (b : Bcrypt)
    (json : Json Value) (jwt : Jwt) (config : JwtConfig) where
  -- If `signOut` returns for an access token that is not empty, access tokens live for more than
  -- zero seconds and JSON keeps `true`, then until that time is over, as long as nothing but the
  -- clock of Redis has changed since, every request to a route that is not public, with a header
  -- that is 'Bearer ' and that token, is refused with 401 before its handler and changes nothing.
  pub sign_out-handle :
      {A : Type 0} (route : Route) (request : Request) (handler : User → Action (Server p r) A)
      (user_id token : String) (m : ℕ) (s s' : Server p r)
      → ltb 0 (parse_expiration_to_seconds config.access_expiration) ≡ true
      → IsKept json (flag true)
      → token ≢ ""
      → sign_out p r b json jwt config user_id token s ≡ (ok tt, s')
      → ltb m (s.session.now + parse_expiration_to_seconds config.access_expiration) ≡ true
      → route.is_public ≡ false
      → request.authorization ≡ some ("Bearer " <> token)
      → handle p r c json jwt config route request handler (later p r m s')
        ≡ (err (unauthorized "Token has been revoked"), later p r m s')
  unfolding handle enter activate_all activate blacklist_can_activate is_token_blacklisted cache_get
      sign_out revoke_all_user_tokens revoke_refresh_token cache_del cache_set
  sign_out-handle route request handler user_id token m s s' positive kept set h soon closed sent =
      let gone = record s.session {
        cache = r.del (get_refresh_token_key user_id) s.session.cache;
      } in
      let stored : parsed r json (r.get m (get_blacklist_key token) s'.session.cache)
          ≡ ok (some (flag true)) =
        ap (λ y. parsed r json (r.get m (get_blacklist_key token) y.1.session.cache)) (sym h)
        ∙ cache_get-cache_set r json redis (get_blacklist_key token) (flag true)
            (parse_expiration_to_seconds config.access_expiration) m gone kept positive soon in
      let read = ap header_token sent ∙ header_token-append token in
      rw (closed, read, ==-false token "" set) (rw stored refl)
