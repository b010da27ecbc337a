-- ===== src/Tests/Signing.antt =====
-- Tokens of one user in a store in memory.
use coupang_eats_backend_v.Base.{◌+◌, ◌≡◌, refl, true, none, ltb}
use coupang_eats_backend_v.Http.{Result, ok, err, unauthorized}
use coupang_eats_backend_v.Auth.Redis.{refresh}
use coupang_eats_backend_v.Auth.Memory.{
  memory_redis, memory_redis_laws, memory_json, memory_json-IsKept, memory_jwt,
}
use coupang_eats_backend_v.Auth.Tokens.{
  TokenPair, JwtConfig, Session, cache_set, cache_del, generate_access_token,
  generate_refresh_token, store_refresh_token, generate_token_pair, verify_refresh_token,
  is_token_blacklisted, revoke_refresh_token, revoke_all_user_tokens, parse_expiration_to_seconds,
}
use coupang_eats_backend_v.Auth.Sessions.{
  judged, verify_refresh_token-generate_token_pair, revoke_all_user_tokens-refuses,
}

abbrev config : JwtConfig
config = record {
  access_secret = "a";
  refresh_secret = "r";
  access_expiration = record { value = 15; unit = "m" };
  refresh_expiration = record { value = 7; unit = "d" };
}

abbrev signed_out : Session memory_redis
signed_out = record { cache = λ i. none; now = 100 }

abbrev signing_in : Result TokenPair × Session memory_redis
signing_in = generate_token_pair memory_redis memory_json memory_jwt config "alice" signed_out

abbrev pair : TokenPair
pair = record { access_token = "alice"; refresh_token = "alice" }

signed_in : signing_in ≡ (ok pair, signing_in.1)
unfolding generate_token_pair generate_access_token generate_refresh_token store_refresh_token
    cache_set
signed_in = refl

a_week : ltb 0 (parse_expiration_to_seconds config.refresh_expiration) ≡ true
unfolding parse_expiration_to_seconds
a_week = refl

in_time : ltb 200 (100 + parse_expiration_to_seconds config.refresh_expiration) ≡ true
unfolding parse_expiration_to_seconds
in_time = refl

verify_refresh_token-generate_token_pair_example :
    verify_refresh_token memory_redis memory_json memory_jwt config "alice"
      (record signing_in.1 { now = 200 })
    ≡ (
      judged memory_redis memory_json memory_redis_laws memory_json-IsKept memory_jwt config
          (record { sub = "alice"; type = refresh })
          "alice"
          "alice",
      record signing_in.1 { now = 200 },
    )
verify_refresh_token-generate_token_pair_example =
    verify_refresh_token-generate_token_pair memory_redis memory_json memory_redis_laws
      memory_json-IsKept memory_jwt config "alice" "alice" 200 signed_out signing_in.1 pair a_week
      signed_in in_time refl

abbrev signing_out : Result (Unit {0}) × Session memory_redis
signing_out =
    revoke_all_user_tokens memory_redis memory_json memory_jwt config "alice" "alice" signing_in.1

was_signed_out : signing_out ≡ (ok tt, signing_out.1)
unfolding revoke_all_user_tokens revoke_refresh_token cache_del cache_set
was_signed_out = refl

a_while : ltb 0 (parse_expiration_to_seconds config.access_expiration) ≡ true
unfolding parse_expiration_to_seconds
a_while = refl

a_short_while :
    ltb 200 (signing_in.1.now + parse_expiration_to_seconds config.access_expiration) ≡ true
unfolding generate_token_pair parse_expiration_to_seconds generate_access_token
    generate_refresh_token store_refresh_token cache_set
a_short_while = refl

revoke_all_user_tokens-refuses_example :
    (is_token_blacklisted memory_redis memory_json memory_jwt config "alice"
        (record signing_out.1 { now = 200 })
      ≡ (ok true, record signing_out.1 { now = 200 }))
    × (verify_refresh_token memory_redis memory_json memory_jwt config "alice"
          (record signing_out.1 { now = 200 })
        ≡ (err (unauthorized "Invalid refresh token"), record signing_out.1 { now = 200 }))
revoke_all_user_tokens-refuses_example =
    revoke_all_user_tokens-refuses memory_redis memory_json memory_redis_laws memory_json-IsKept
      memory_jwt config "alice" "alice" "alice" 200 signing_in.1 signing_out.1 a_while
      was_signed_out a_short_while refl
