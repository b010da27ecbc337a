-- ===== src/Access/Allowed.antt =====
-- What a request that passes the access guard and the blacklist has shown.
use coupang_eats_backend_v.Base.{
  String, ◌≡◌, ◌≢◌, refl, sym, ap, ◌∙◌, true, false, Option, none, some, ◌==◌, Bool-cases,
  Option-cases, inl, inr, none-ne-some, some_inj,
}
use coupang_eats_backend_v.Http.{Result, ok, err, Result-cases, ok_inj}
use coupang_eats_backend_v.Action.{Action, ◌>>=◌, returned_and_threw}
use coupang_eats_backend_v.Entity.{User, user_entity}
use coupang_eats_backend_v.Packages.{Packages, PackageLaws}
use coupang_eats_backend_v.Repository.{find_one_by_filters}
use coupang_eats_backend_v.Repository.Laws.{find_one-key}
use coupang_eats_backend_v.Auth.Redis.{
  Redis, Json, Jwt, JwtPayload, Value, TokenType, access, refresh, Verified, valid, token_expired,
  rejected,
}
use coupang_eats_backend_v.Auth.Tokens.{
  JwtConfig, parsed, truthy, get_blacklist_key, cache_get, type_eq, is_token_blacklisted,
}
use coupang_eats_backend_v.Auth.Server.{Server}
use coupang_eats_backend_v.Access.Passport.{
  Request, Passport, PassportLaws, verified, validate_access, handle_access_request, access_user,
}
use coupang_eats_backend_v.Access.Guards.{header_token, check_blacklist}

is_access : (t : TokenType) → type_eq t access ≡ true → t ≡ access
is_access access h = refl
is_access refresh h = absurd (cc)

module _ (p : Packages) (users : PackageLaws p user_entity) (r : Redis) (c : Passport (Server p r))
    (laws : PassportLaws c) (json : Json Value) (jwt : Jwt) (config : JwtConfig) where
  -- an access token of a live user that the JWT library accepts
  pub record Known (request : Request) (s : Server p r) (user : User) : Type 0 where
    pub token : String
    pub payload : JwtPayload
    pub sent : c.bearer_token request.authorization ≡ some token
    pub signed : jwt.verify config.access_secret s.session.now token ≡ valid payload
    pub is_access_token : payload.type ≡ access
    pub found : p.row payload.sub s.world.users ≡ some user

  validate_access-eq-ok :
      (d : JwtPayload) (s s' : Server p r) (user : User)
      → validate_access p r d s ≡ (ok user, s')
      → (d.type ≡ access) × (p.row d.sub s.world.users ≡ some user) × (s' ≡ s)
  unfolding validate_access find_one_by_filters
  validate_access-eq-ok d s s' user h = elim (Bool-cases (type_eq d.type access)) [
    | inr other ↦ absurd (returned_and_threw (rw other at h) refl)
    | inl same ↦ elim (Option-cases (p.row d.sub s.world.users)) [
      | inl missing ↦ absurd (
          returned_and_threw
            (rw (same, find_one-key p user_entity users d.sub s.world.users, missing) at h) refl)
      | inr (u, found) ↦
          let done = rw (same, find_one-key p user_entity users d.sub s.world.users, found) at h in
          (
            is_access d.type same,
            found ∙ ap some (ok_inj (ap (λ x. x.0) done)),
            sym (ap (λ x. x.1) done),
          )
    ]
  ]

  abbrev answered : Option Verified → Action (Server p r) User
  answered v = c.authenticate v (validate_access p r) >>= handle_access_request p r c jwt config

  not_accepted :
      (v : Option Verified) (s s' : Server p r) (user : User)
      → ((d : JwtPayload) → v ≢ some (valid d))
      → answered v s ≡ (ok user, s')
      → ⊥
  unfolding handle_access_request
  not_accepted v s s' user never h =
      let (m, out) = laws.authenticate-refused v (validate_access p r) s never in
      returned_and_threw (rw out at h) refl

  answered-eq-ok :
      (v : Option Verified) (s s' : Server p r) (user : User)
      → answered v s ≡ (ok user, s')
      → (d : JwtPayload) × (v ≡ some (valid d)) × (validate_access p r d s ≡ (ok user, s'))
  unfolding handle_access_request
  answered-eq-ok none s s' user h = absurd (not_accepted none s s' user (λ d k. cc) h)
  answered-eq-ok (some token_expired) s s' user h =
      absurd (not_accepted (some token_expired) s s' user (λ d k. cc) h)
  answered-eq-ok (some (rejected e)) s s' user h =
      absurd (not_accepted (some (rejected e)) s s' user (λ d k. cc) h)
  answered-eq-ok (some (valid d)) s s' user h = go (validate_access p r d s) refl
    where
      go :
          (x : Result User × Server p r)
          → validate_access p r d s ≡ x
          → (d' : JwtPayload) × (some (valid d) ≡ some (valid d'))
            × (validate_access p r d' s ≡ (ok user, s'))
      go (ok u, s1) e =
          (d, refl, e ∙ (rw (laws.authenticate-ok (validate_access p r) d u s s1 e) at h))
      go (err x, s1) e = absurd (
          returned_and_threw (rw (laws.authenticate-err (validate_access p r) d x s s1 e) at h)
            refl)

  verified_by :
      (f : String → Verified) (t : Option String) (d : JwtPayload)
      → verified f t ≡ some (valid d)
      → (token : String) × (t ≡ some token) × (f token ≡ valid d)
  verified_by f none d h = absurd (none-ne-some h)
  verified_by f (some token) d h = (token, refl, some_inj h)

  pub access_user-Known :
      (request : Request) (s s' : Server p r) (user : User)
      → access_user p r c jwt config request s ≡ (ok user, s')
      → Known request s user × (s' ≡ s)
  unfolding access_user
  access_user-Known request s s' user h =
      let (d, signed, checked) =
        answered-eq-ok
          (verified (jwt.verify config.access_secret s.session.now)
            (c.bearer_token request.authorization))
          s s' user h in
      let (token, sent, accepted) =
        verified_by (jwt.verify config.access_secret s.session.now)
          (c.bearer_token request.authorization) d signed in
      let (kind, found, same) = validate_access-eq-ok d s s' user checked in
      (
        record {
          token = token;
          payload = d;
          sent = sent;
          signed = accepted;
          is_access_token = kind;
          found = found;
        },
        same,
      )

  -- the token of the header is not empty, and Redis does not know it as revoked
  pub record NotRevoked (request : Request) (s : Server p r) : Type 0 where
    pub header : String
    pub given : header_token request.authorization ≡ some header
    pub accepted : (is_token_blacklisted r json jwt config header s.session).0 ≡ ok false

  pub check_blacklist-eq-ok :
      (request : Request) (t : Option String) (s s' : Server p r)
      → header_token request.authorization ≡ t
      → check_blacklist p r c json jwt config t s ≡ (ok tt, s')
      → NotRevoked request s × (s' ≡ s)
  unfolding is_token_blacklisted cache_get
  check_blacklist-eq-ok request none s s' header h = absurd (returned_and_threw h refl)
  check_blacklist-eq-ok request (some t) s s' header h = elim (Bool-cases (t == "")) [
    | inl empty ↦ absurd (returned_and_threw (rw empty at h) refl)
    | inr set ↦
        elim (Result-cases
          (parsed r json (r.get s.session.now (get_blacklist_key t) s.session.cache))) [
            | inr (e, broken) ↦ absurd (returned_and_threw (rw (set, broken) at h) refl)
            | inl (v, known) ↦ elim (Bool-cases (truthy v)) [
              | inl revoked ↦ absurd (returned_and_threw (rw (set, known, revoked) at h) refl)
              | inr live ↦ (
                record { header = t; given = header; accepted = rw known (ap ok live) },
                sym (ap (λ x. x.1) (rw (set, known, live) at h)),
              )
            ]
          ]
  ]
