-- ===== src/Access/Restricted.antt =====
-- Routes for users with a role, `@UseGuards(AccessTokenGuard, RolesGuard)` with `@Roles`: whose
-- requests reach the handler.
use coupang_eats_backend_v.Base.{
  ◌≡◌, refl, sym, ap, ◌∙◌, true, false, Option, none, some, List, [], ◌∷◌, Bool-cases, inl, inr,
  String, ◌<>◌, some_inj, Memᴰ,
}
use coupang_eats_backend_v.Http.{ok, ok_inj, type_error}
use coupang_eats_backend_v.Action.{Action, ◌>>=◌, pure, or_raise, returned_and_threw, >>=-eq-ok}
use coupang_eats_backend_v.Entity.{User, Role, client, owner, delivery, role_eq, user_entity}
use coupang_eats_backend_v.Packages.{Packages, PackageLaws}
use coupang_eats_backend_v.Auth.Redis.{Redis, Json, Jwt, JwtPayload, Value, access, valid}
use coupang_eats_backend_v.Auth.Tokens.{JwtConfig, is_token_blacklisted}
use coupang_eats_backend_v.Auth.Server.{Server}
use coupang_eats_backend_v.Access.Passport.{Request, Passport, PassportLaws, access_user}
use coupang_eats_backend_v.Access.Guards.{
  Guard, jwt_blacklist, access_token, roles, as_user, Route, Principal, account, header_token,
  includes_role, roles_can_activate, check_blacklist, blacklist_can_activate, activate,
  activate_all, enter, handle,
}
use coupang_eats_backend_v.Access.Bearer.{header_token-append}
use coupang_eats_backend_v.Access.Allowed.{
  Known, access_user-Known, NotRevoked, check_blacklist-eq-ok,
}

abbrev pub restricted : List Role → Route
restricted rs = record {
  is_public = false;
  required_roles = some rs;
  guards = access_token ∷ roles ∷ [];
}

same_role : (x role : Role) → role_eq x role ≡ true → x ≡ role
same_role client client h = refl
same_role owner owner h = refl
same_role delivery delivery h = refl
same_role client owner h = absurd (cc)
same_role client delivery h = absurd (cc)
same_role owner client h = absurd (cc)
same_role owner delivery h = absurd (cc)
same_role delivery client h = absurd (cc)
same_role delivery owner h = absurd (cc)

includes_role-mem : (rs : List Role) (role : Role) → includes_role rs role ≡ true → Memᴰ role rs
includes_role-mem [] role h = absurd (cc)
includes_role-mem (x ∷ xs) role h = elim (Bool-cases (role_eq x role)) [
  | inl same ↦ Memᴰ.head (sym (same_role x role same))
  | inr other ↦ Memᴰ.tail (includes_role-mem xs role (rw other at h))
]

module _ (p : Packages) (users : PackageLaws p user_entity) (r : Redis) (c : Passport (Server p r))
    (laws : PassportLaws c) (json : Json Value) (jwt : Jwt) (config : JwtConfig) where
  pub record Admitted (rs : List Role) (request : Request) (s : Server p r) : Type 0 where
    pub user : User
    pub known : Known p users r c laws json jwt config request s user
    pub not_revoked : NotRevoked p users r c laws json jwt config request s
    pub role : includes_role rs user.role ≡ true

  activate_all-cons :
      (g : Guard) (gs : List Guard) (route : Route) (request : Request) (u v : Option Principal)
      (s s' : Server p r)
      → activate_all p r c json jwt config (g ∷ gs) route request u s ≡ (ok v, s')
      → (w : Option Principal) × (t : Server p r) × (activate p r c json jwt config g route request
            u s
          ≡ (ok w, t))
        × (activate_all p r c json jwt config gs route request w t ≡ (ok v, s'))
  unfolding activate_all
  activate_all-cons g gs route request u v s s' h =
      >>=-eq-ok (activate p r c json jwt config g route request u)
        (λ w. activate_all p r c json jwt config gs route request w) s s' v h

  blacklist_passed :
      (rs : List Role) (request : Request) (u v : Option Principal) (s s' : Server p r)
      → activate p r c json jwt config jwt_blacklist (restricted rs) request u s ≡ (ok v, s')
      → NotRevoked p users r c laws json jwt config request s × (u ≡ v) × (s' ≡ s)
  unfolding activate blacklist_can_activate
  blacklist_passed rs request u v s s' h =
      let (t, s1, checked, passed) =
        >>=-eq-ok (check_blacklist p r c json jwt config (header_token request.authorization))
          (λ _. pure u) s s' v h in
      let (fresh, same) =
        check_blacklist-eq-ok p users r c laws json jwt config request
          (header_token request.authorization) s s1 refl checked in
      (fresh, ok_inj (ap (λ x. x.0) passed), sym (ap (λ x. x.1) passed) ∙ same)

  access_passed :
      (rs : List Role) (request : Request) (u v : Option Principal) (s s' : Server p r)
      → activate p r c json jwt config access_token (restricted rs) request u s ≡ (ok v, s')
      → (user : User) × Known p users r c laws json jwt config request s user
        × (some (account user) ≡ v)
        × (s' ≡ s)
  unfolding activate
  access_passed rs request u v s s' h =
      let (user, s1, checked, passed) =
        >>=-eq-ok (access_user p r c jwt config request) (λ x. pure (some (account x))) s s' v h in
      let (known, same) =
        access_user-Known p users r c laws json jwt config request s s1 user checked in
      (user, known, ok_inj (ap (λ x. x.0) passed), sym (ap (λ x. x.1) passed) ∙ same)

  roles_passed :
      (rs : List Role) (request : Request) (user : User) (v : Option Principal) (s s' : Server p r)
      → activate_all p r c json jwt config
          (roles ∷ [])
          (restricted rs)
          request
          (some (account user))
          s
        ≡ (ok v, s')
      → (includes_role rs user.role ≡ true) × (some (account user) ≡ v) × (s' ≡ s)
  unfolding activate activate_all roles_can_activate
  roles_passed rs request user v s s' h = elim (Bool-cases (includes_role rs user.role)) [
    | inl has ↦
        let done = rw has at h in (has, ok_inj (ap (λ x. x.0) done), sym (ap (λ x. x.1) done))
    | inr lacks ↦ absurd (returned_and_threw (rw lacks at h) refl)
  ]

  entered :
      (rs : List Role) (request : Request) (v : Option Principal) (s s' : Server p r)
      → enter p r c json jwt config (restricted rs) request s ≡ (ok v, s')
      → (a : Admitted rs request s) × (some (account a.user) ≡ v) × (s' ≡ s)
  unfolding enter
  entered rs request v s s' h =
      let (v1, s1, h1, k1) = activate_all-cons _ _ (restricted rs) request none v s s' h in
      let (fresh, e1, same1) = blacklist_passed rs request none v1 s s1 h1 in
      let (v2, s2, h2, k2) = activate_all-cons _ _ (restricted rs) request v1 v s1 s' k1 in
      let (u2, known2, e2, same2) = access_passed rs request v1 v2 s1 s2 h2 in
      let (v3, s3, h3, k3) = activate_all-cons _ _ (restricted rs) request v2 v s2 s' k2 in
      let (user, known, e3, same3) = access_passed rs request v2 v3 s2 s3 h3 in
      let (role, e4, same4) = roles_passed rs request user v s3 s' (rw (← e3) at k3) in
      let back : s2 ≡ s = same2 ∙ same1 in
      (
        record { user = user; known = rw (← back) known; not_revoked = fresh; role = role },
        e4,
        same4 ∙ same3 ∙ back,
      )

  -- whatever the header is
  handle-Admitted :
      {A : Type 0} (rs : List Role) (request : Request) (handler : User → Action (Server p r) A)
      (s s' : Server p r) (x : A)
      → handle p r c json jwt config (restricted rs) request handler s ≡ (ok x, s')
      → (a : Admitted rs request s) × (handler a.user s ≡ (ok x, s'))
  unfolding handle
  handle-Admitted {A} rs request handler s s' x h =
      let (v, s1, passed, rest) =
        >>=-eq-ok (enter p r c json jwt config (restricted rs) request)
          (λ v. or_raise (as_user p r c json jwt config v) type_error >>= handler) s s' x h in
      let (a, named, same) = entered rs request v s s1 passed in (a, rw (← named, same) at rest)

  -- a token that lets a user with one of the roles in
  pub record Allowed (rs : List Role) (token : String) (s : Server p r) : Type 0 where
    pub user : User
    pub payload : JwtPayload
    pub signed : jwt.verify config.access_secret s.session.now token ≡ valid payload
    pub is_access_token : payload.type ≡ access
    pub found : p.row payload.sub s.world.users ≡ some user
    pub not_revoked : (is_token_blacklisted r json jwt config token s.session).0 ≡ ok false
    pub role : Memᴰ user.role rs

  -- If a request to a route for some roles returns, and its header is 'Bearer ' and a token that
  -- passport finds behind it, the JWT library accepts this token as an access token, the same token
  -- is not revoked, it names a live user, the user has one of the roles, and the handler has run for
  -- that user on the state that the request found.
  pub handle-Allowed :
      {A : Type 0} (rs : List Role) (token : String) (request : Request)
      (handler : User → Action (Server p r) A) (s s' : Server p r) (x : A)
      → request.authorization ≡ some ("Bearer " <> token)
      → c.bearer_token (some ("Bearer " <> token)) ≡ some token
      → handle p r c json jwt config (restricted rs) request handler s ≡ (ok x, s')
      → (a : Allowed rs token s) × (handler a.user s ≡ (ok x, s'))
  handle-Allowed rs token request handler s s' x sent read h =
      let (a, ran) = handle-Admitted rs request handler s s' x h in
      let same : a.known.token ≡ token =
        some_inj (sym a.known.sent ∙ ap c.bearer_token sent ∙ read) in
      let checked : a.not_revoked.header ≡ token =
        some_inj (sym a.not_revoked.given ∙ ap header_token sent ∙ header_token-append token) in
      (
        record {
          user = a.user;
          payload = a.known.payload;
          signed = ap (jwt.verify config.access_secret s.session.now) (sym same) ∙ a.known.signed;
          is_access_token = a.known.is_access_token;
          found = a.known.found;
          not_revoked =
              ap (λ t. (is_token_blacklisted r json jwt config t s.session).0) (sym checked)
              ∙ a.not_revoked.accepted;
          role = includes_role-mem rs a.user.role a.role;
        },
        ran,
      )
