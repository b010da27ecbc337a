-- ===== src/Auth/Sessions.antt =====
-- What signing in, refreshing and signing out mean for the tokens of a user.
use mathlib.Core.Bool.{false≢true}
use Prim.Native.String.{slice}
use package.text.Mathlib.TextPositions.{slice-append_left}
use package.text.Mathlib.TextLemmas.{append_assoc}
use coupang_eats_backend_v.Base.{
  ℕ, ◌+◌, String, ◌≡◌, ◌≢◌, refl, sym, ap, ◌∙◌, true, false, none, some, ◌==◌, ◌<>◌, if◌then◌else◌,
  ltb, eq_iff, Bool-cases, inl, inr,
}
use coupang_eats_backend_v.Http.{Result, ok, err, unauthorized, ok_inj}
use coupang_eats_backend_v.Auth.Redis.{
  Redis, RedisLaws, Json, IsKept, Jwt, Value, text, flag, refresh, JwtPayload, valid,
}
use coupang_eats_backend_v.Auth.Cache.{cache_get-cache_set, cache_set-other}
use coupang_eats_backend_v.Auth.Tokens.{
  TokenPair, DecodedToken, JwtConfig, Session, parsed, cache_get, cache_set, cache_del,
  generate_access_token, generate_refresh_token, store_refresh_token, get_stored_refresh_token,
  generate_token_pair, verify_refresh_token, is_token_blacklisted, revoke_refresh_token,
  revoke_all_user_tokens, parse_expiration_to_seconds, get_refresh_token_key, get_blacklist_key,
}

-- the two kinds of keys begin with different letters
keys_apart : (a b : String) → get_blacklist_key a ≢ get_refresh_token_key b
unfolding get_blacklist_key get_refresh_token_key
keys_apart a b same =
    let t : slice ("token-blacklist/" <> a) 0 1 ≡ "t" =
      ap (λ x. slice x 0 1) (append_assoc "t" "oken-blacklist/" a)
      ∙ slice-append_left "t" ("oken-blacklist/" <> a) in
    let r : slice ("refresh-token/" <> b) 0 1 ≡ "r" =
      ap (λ x. slice x 0 1) (append_assoc "r" "efresh-token/" b)
      ∙ slice-append_left "r" ("efresh-token/" <> b) in
    false≢true ((eq_iff "t" "r").1 (sym t ∙ ap (λ x. slice x 0 1) same ∙ r))

module _ (r : Redis) (json : Json Value) (redis : RedisLaws r)
    (encoding : (v : Value) → IsKept json v) where
  module _ (jwt : Jwt) (config : JwtConfig) where
    -- the same session later
    abbrev pub at : ℕ → Session r → Session r
    at m s = record s { now = m }

    -- how many seconds a refresh token is kept
    abbrev pub kept_for : ℕ
    kept_for = parse_expiration_to_seconds config.refresh_expiration

    abbrev pub blacklisted_for : ℕ
    blacklisted_for = parse_expiration_to_seconds config.access_expiration

    -- what checking a token answers when another one may be stored
    abbrev pub judged : JwtPayload → String → String → Result DecodedToken
    judged payload stored token =
        if stored == token
        then ok (record { payload = payload; expired = false })
        else err (unauthorized "Invalid refresh token")

    -- If `generateTokenPair` returns for a user and refresh tokens are kept for more than zero
    -- seconds, then until that time is over, as long as nothing but the clock of Redis has changed
    -- since, a refresh token of the user that the JWT library accepts passes `verifyRefreshToken`
    -- exactly when it is the new one, and any other is refused with 401.
    pub verify_refresh_token-generate_token_pair :
        (user_id token : String) (m : ℕ) (s s' : Session r) (pair : TokenPair)
        → ltb 0 kept_for ≡ true
        → generate_token_pair r json jwt config user_id s ≡ (ok pair, s')
        → ltb m (s.now + kept_for) ≡ true
        → jwt.verify config.refresh_secret m token
          ≡ valid (record { sub = user_id; type = refresh })
        → verify_refresh_token r json jwt config token (at m s')
          ≡ (judged (record { sub = user_id; type = refresh }) pair.refresh_token token, at m s')
    unfolding generate_token_pair generate_access_token generate_refresh_token store_refresh_token
        cache_set verify_refresh_token get_stored_refresh_token cache_get
    verify_refresh_token-generate_token_pair user_id token m s s' pair positive h soon accepted =
        let issued : String =
          jwt.sign config.refresh_secret (record { sub = user_id; type = refresh })
            config.refresh_expiration s.now in
        let same : pair.refresh_token ≡ issued =
          sym (ap (λ y. y.refresh_token) (ok_inj (ap (λ y. y.0) h))) in
        let stored : parsed r json (r.get m (get_refresh_token_key user_id) s'.cache)
            ≡ ok (some (text issued)) =
          ap (λ y. parsed r json (r.get m (get_refresh_token_key user_id) y.1.cache)) (sym h)
          ∙ cache_get-cache_set r json redis (get_refresh_token_key user_id) (text issued) kept_for
              m s (encoding _) positive soon in
        rw (accepted, same)
          (rw stored (elim (Bool-cases (issued == token)) [
            | inl hit ↦ rw hit refl
            | inr miss ↦ rw miss refl
          ]))

    -- If `revokeAllUserTokens` returns and access tokens live for more than zero seconds, then until
    -- that time is over, as long as nothing but the clock of Redis has changed since, the access
    -- token is blacklisted, and every refresh token of the user that the JWT library accepts is
    -- refused with 401.
    pub revoke_all_user_tokens-refuses :
        (user_id access_token token : String) (m : ℕ) (s s' : Session r)
        → ltb 0 blacklisted_for ≡ true
        → revoke_all_user_tokens r json jwt config user_id access_token s ≡ (ok tt, s')
        → ltb m (s.now + blacklisted_for) ≡ true
        → jwt.verify config.refresh_secret m token
          ≡ valid (record { sub = user_id; type = refresh })
        → (is_token_blacklisted r json jwt config access_token (at m s') ≡ (ok true, at m s'))
          × (verify_refresh_token r json jwt config token (at m s')
              ≡ (err (unauthorized "Invalid refresh token"), at m s'))
    unfolding revoke_all_user_tokens revoke_refresh_token cache_del is_token_blacklisted cache_set
        verify_refresh_token get_stored_refresh_token cache_get
    revoke_all_user_tokens-refuses user_id access_token token m s s' positive h soon accepted =
        let gone : Session r = record s { cache = r.del (get_refresh_token_key user_id) s.cache } in
        let world : (cache_set r json (get_blacklist_key access_token) (flag true) blacklisted_for
              gone).1
            ≡ s' =
          ap (λ y. y.1) h in
        let stored : parsed r json (r.get m (get_blacklist_key access_token) s'.cache)
            ≡ ok (some (flag true)) =
          ap (λ y. parsed r json (r.get m (get_blacklist_key access_token) y.cache)) (sym world)
          ∙ cache_get-cache_set r json redis (get_blacklist_key access_token) (flag true)
              blacklisted_for m gone (encoding _) positive soon in
        let none_left : r.get m (get_refresh_token_key user_id) s'.cache ≡ none =
          ap (λ y. r.get m (get_refresh_token_key user_id) y.cache) (sym world)
          ∙ cache_set-other r json redis (get_blacklist_key access_token)
              (get_refresh_token_key user_id) (flag true) blacklisted_for m gone positive
              (keys_apart access_token user_id)
          ∙ redis.get-del m (get_refresh_token_key user_id) s.cache in
        (rw stored refl, rw accepted (rw none_left refl))
