-- ===== src/Auth/Tokens.antt =====
-- src/core/cache/cache.service.ts and src/core/jwt/jwt.service.ts.
use coupang_eats_backend_v.Base.{
  ℕ, ◌*◌, String, Bool, true, false, not, Option, none, some, ◌==◌, ◌<>◌, if◌then◌else◌, ltb,
}
use coupang_eats_backend_v.Http.{Result, ok, err, unauthorized}
use coupang_eats_backend_v.Action.{Action, ◌>>=◌, ◌>>◌, pure, raise, raise_if, gets}
use coupang_eats_backend_v.Auth.Redis.{
  Redis, Json, Jwt, Value, text, flag, TokenType, access, refresh, JwtPayload, Verified, valid,
  token_expired, rejected, Expiration,
}

-- jwt.interface.ts
pub record TokenPair : Type 0 where
  pub access_token : String
  pub refresh_token : String

pub record DecodedToken : Type 0 where
  pub payload : JwtPayload
  pub expired : Bool

-- the settings that the constructor reads
pub record JwtConfig : Type 0 where
  pub access_secret : String
  pub refresh_secret : String
  pub access_expiration : Expiration
  pub refresh_expiration : Expiration

unfoldable pub parse_expiration_to_seconds : Expiration → ℕ
parse_expiration_to_seconds e =
    if e.unit == "s"
    then e.value
    else if e.unit == "m"
    then e.value * 60
    else if e.unit == "h"
    then e.value * 60 * 60
    else if e.unit == "d"
    then e.value * 60 * 60 * 24
    else 3600

unfoldable pub get_refresh_token_key : String → String
get_refresh_token_key user_id = "refresh-token/" <> user_id

unfoldable pub get_blacklist_key : String → String
get_blacklist_key token = "token-blacklist/" <> token

-- `!!value`
abbrev pub truthy : Option Value → Bool
truthy none = false
truthy (some (text t)) = not (t == "")
truthy (some (flag b)) = b

-- `storedToken === token`
abbrev pub is_token : Option Value → String → Bool
is_token none token = false
is_token (some (text t)) token = t == token
is_token (some (flag b)) token = false

abbrev pub type_eq : TokenType → TokenType → Bool
type_eq access access = true
type_eq refresh refresh = true
type_eq _ _ = false

module _ (r : Redis) where
  -- what Redis holds, and the clock
  pub record Session : Type 0 where
    pub cache : r.Store
    pub now : ℕ

  -- `CacheService.del`
  unfoldable pub cache_del : String → Action Session (Unit {0})
  cache_del key s = (ok tt, record s { cache = r.del key s.cache })

module _ {V : Type 0} (r : Redis) (json : Json V) where
  abbrev pub parsed : Option String → Result (Option V)
  parsed none = ok none
  parsed (some data') =
      if data' == ""
      then ok none
      else elim (json.parse data') [ ok v ↦ ok (some v) | err e ↦ err e ]

  -- `CacheService.get`
  unfoldable pub cache_get : String → Action (Session r) (Option V)
  cache_get key s = (parsed (r.get s.now key s.cache), s)

  -- `CacheService.set`: a time limit of 0 is none
  unfoldable pub cache_set : String → V → ℕ → Action (Session r) (Unit {0})
  cache_set key value ttl s =
      let cache = r.set key (json.stringify value) s.cache in
      (ok tt, record s { cache = if ltb 0 ttl then r.expire s.now key ttl cache else cache })

module _ (r : Redis) (json : Json Value) where
  module _ (jwt : Jwt) (config : JwtConfig) where
    unfoldable pub generate_access_token : String → Action (Session r) String
    generate_access_token user_id = gets (λ s.
        jwt.sign config.access_secret (record { sub = user_id; type = access })
          config.access_expiration s.now)

    unfoldable pub generate_refresh_token : String → Action (Session r) String
    generate_refresh_token user_id = gets (λ s.
        jwt.sign config.refresh_secret (record { sub = user_id; type = refresh })
          config.refresh_expiration s.now)

    unfoldable pub store_refresh_token : String → String → Action (Session r) (Unit {0})
    store_refresh_token user_id refresh_token =
        cache_set r json (get_refresh_token_key user_id) (text refresh_token)
          (parse_expiration_to_seconds config.refresh_expiration)

    unfoldable pub get_stored_refresh_token : String → Action (Session r) (Option Value)
    get_stored_refresh_token user_id = cache_get r json (get_refresh_token_key user_id)

    unfoldable pub generate_token_pair : String → Action (Session r) TokenPair
    generate_token_pair user_id = do
      access_token ← generate_access_token user_id
      refresh_token ← generate_refresh_token user_id
      store_refresh_token user_id refresh_token
      pure (record { access_token = access_token; refresh_token = refresh_token })

    -- the `catch` of both checks: an expired token is decoded, any other error is thrown again
    abbrev pub access_checked : String → Verified → Result DecodedToken
    access_checked token (valid payload) =
        if not (type_eq payload.type access)
        then err (unauthorized "Invalid token type")
        else ok (record { payload = payload; expired = false })
    access_checked token token_expired = ok (record { payload = jwt.decode token; expired = true })
    access_checked token (rejected e) = err e

    unfoldable pub verify_access_token : String → Action (Session r) DecodedToken
    verify_access_token token s =
        (access_checked token (jwt.verify config.access_secret s.now token), s)

    abbrev pub refresh_checked : String → Verified → Action (Session r) DecodedToken
    refresh_checked token (valid payload) = do
      raise_if (not (type_eq payload.type refresh)) (unauthorized "Invalid token type")
      stored_token ← get_stored_refresh_token payload.sub
      raise_if (not (is_token stored_token token)) (unauthorized "Invalid refresh token")
      pure (record { payload = payload; expired = false })
    refresh_checked token token_expired =
        pure (record { payload = jwt.decode token; expired = true })
    refresh_checked token (rejected e) = raise e

    unfoldable pub verify_refresh_token : String → Action (Session r) DecodedToken
    verify_refresh_token token s =
        refresh_checked token (jwt.verify config.refresh_secret s.now token) s

    unfoldable pub is_token_blacklisted : String → Action (Session r) Bool
    is_token_blacklisted token = do
      is_blacklisted ← cache_get r json (get_blacklist_key token)
      pure (truthy is_blacklisted)

    unfoldable pub refresh_tokens : String → Action (Session r) TokenPair
    refresh_tokens refresh_token = do
      decoded ← verify_refresh_token refresh_token
      raise_if decoded.expired (unauthorized "Refresh token expired")
      generate_token_pair decoded.payload.sub

    unfoldable pub revoke_refresh_token : String → Action (Session r) (Unit {0})
    revoke_refresh_token user_id = cache_del r (get_refresh_token_key user_id)

    unfoldable pub revoke_all_user_tokens : String → String → Action (Session r) (Unit {0})
    revoke_all_user_tokens user_id access_token = do
      revoke_refresh_token user_id
      cache_set r json (get_blacklist_key access_token) (flag true)
          (parse_expiration_to_seconds config.access_expiration)
