-- ===== src/Auth/Cache.antt =====
-- Reading the cache back (src/core/cache/cache.service.ts).
use coupang_eats_backend_v.Base.{
  ℕ, ◌+◌, String, ◌≡◌, ◌≢◌, refl, ap, ◌∙◌, true, none, some, if◌then◌else◌, ltb, ==-false,
}
use coupang_eats_backend_v.Http.{ok}
use coupang_eats_backend_v.Auth.Redis.{Redis, RedisLaws, Json, IsKept}
use coupang_eats_backend_v.Auth.Tokens.{Session, parsed, cache_set}

module _ {V : Type 0} (r : Redis) (json : Json V) (redis : RedisLaws r) where
  -- a value that was set with a time limit is read back until the limit
  pub cache_get-cache_set :
      (key : String) (value : V) (ttl m : ℕ) (s : Session r)
      → IsKept json value
      → ltb 0 ttl ≡ true
      → ltb m (s.now + ttl) ≡ true
      → parsed r json (r.get m key (cache_set r json key value ttl s).1.cache) ≡ ok (some value)
  unfolding cache_set
  cache_get-cache_set key value ttl m s kept positive soon =
      ap
        (λ b. parsed r json (
          r.get m key (
            if b
            then r.expire s.now key ttl (r.set key (json.stringify value) s.cache)
            else r.set key (json.stringify value) s.cache)))
        positive
      ∙ ap (parsed r json) (
          redis.get-expire s.now m ttl key (json.stringify value) s.cache
          ∙ ap (λ b. if b then some (json.stringify value) else none) soon)
      ∙ rw (==-false (json.stringify value) "" (kept.stringify-nonempty), kept.parse-stringify) refl

  -- and it is no other key
  pub cache_set-other :
      (key other : String) (value : V) (ttl m : ℕ) (s : Session r)
      → ltb 0 ttl ≡ true
      → key ≢ other
      → r.get m other (cache_set r json key value ttl s).1.cache ≡ r.get m other s.cache
  unfolding cache_set
  cache_set-other key other value ttl m s positive differ =
      ap
        (λ b. r.get m other (
          if b
          then r.expire s.now key ttl (r.set key (json.stringify value) s.cache)
          else r.set key (json.stringify value) s.cache))
        positive
      ∙ redis.get-expire_other s.now m ttl key other _ differ
      ∙ redis.get-set_other m key other _ s.cache differ
