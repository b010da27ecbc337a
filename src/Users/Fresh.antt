-- ===== src/Users/Fresh.antt =====
-- `updateUser` and the cached `getUser`.
use coupang_eats_backend_v.Base.{
  ℕ, String, ◌≡◌, ◌≢◌, refl, sym, ap, ◌∙◌, Bool, Option, none, some, ◌==◌, Bool-cases, Option-cases,
  inl, inr, arith, eq_iff, ==-false, if◌then◌else◌,
}
use coupang_eats_backend_v.Http.{ok, ok_inj}
use coupang_eats_backend_v.Action.{◌>>=◌, ◌>>◌, pure, returned_and_threw, >>=-eq-ok}
use coupang_eats_backend_v.Entity.{UuidEntity, User, user_entity, generate_uuid}
use coupang_eats_backend_v.Packages.{Packages, PackageLaws}
use coupang_eats_backend_v.Repository.Laws.{find_by_id_or_throw-row}
use coupang_eats_backend_v.World.{user_table, save}
use coupang_eats_backend_v.World.Laws.{save-Saved, Saved-id, Saved-entity, Saved-row}
use coupang_eats_backend_v.Auth.Redis.{Redis, RedisLaws, Json}
use coupang_eats_backend_v.Auth.Tokens.{cache_get, cache_del}
use coupang_eats_backend_v.Auth.Hash.{Bcrypt}
use coupang_eats_backend_v.Auth.Server.{Server, in_world, in_session, later}
use coupang_eats_backend_v.Cached.Methods.{wrap_method, cache_key}
use coupang_eats_backend_v.Users.Service.{
  UpdateUserDto, user_key, with_name, with_password, find_user, write_user, get_user_body, get_user,
  update_user,
}

-- what changing the name leaves
with_name-base : (name : Option String) (u : User) → (with_name name u).base ≡ u.base
with_name-base none u = refl
with_name-base (some name) u = ground arith

with_name-email : (name : Option String) (u : User) → (with_name name u).email ≡ u.email
with_name-email none u = refl
with_name-email (some name) u = ground arith

-- the name after a request: a name that is not empty takes the place of the old one
abbrev pub new_name : Option String → String → String
new_name none old = old
new_name (some name) old = if name == "" then old else name

with_name-new_name :
    (name : Option String) (u : User) → (with_name name u).name ≡ new_name name u.name
with_name-new_name none u = refl
with_name-new_name (some name) u = ground arith

module _ (p : Packages) (users : PackageLaws p user_entity) (r : Redis) (redis : RedisLaws r)
    (b : Bcrypt) (json : Json User) where
  -- and changing the password
  record Rehashed (u v : User) (s s' : Server p r) : Type 0 where
    pub base : v.base ≡ u.base
    pub name : v.name ≡ u.name
    pub email : v.email ≡ u.email
    pub same_world : s'.world ≡ s.world

  kept : (u v : User) (s s' : Server p r) → pure u s ≡ (ok v, s') → Rehashed u v s s'
  kept u v s s' h =
      let same : u ≡ v = ok_inj (ap (λ x. x.0) h) in
      record {
        base = ap (λ x. x.base) (sym same);
        name = ap (λ x. x.name) (sym same);
        email = ap (λ x. x.email) (sym same);
        same_world = ap (λ x. x.1.world) (sym h);
      }

  with_password-Rehashed :
      (password : Option String) (u v : User) (s s' : Server p r)
      → with_password p r b json password u s ≡ (ok v, s')
      → Rehashed u v s s'
  with_password-Rehashed none u v s s' h = kept u v s s' h
  with_password-Rehashed (some password) u v s s' h = elim (Bool-cases (password == "")) [
    | inl empty ↦ kept u v s s' (rw empty at h)
    | inr set ↦
        let done = rw set at h in
        let same = ok_inj (ap (λ x. x.0) done) in
        record {
          base = ap (λ x. x.base) (sym same);
          name = ap (λ x. x.name) (sym same);
          email = ap (λ x. x.email) (sym same);
          same_world = ap (λ x. x.1.world) (sym done);
        }
  ]

  pub record Renewed (id : String) (dto : UpdateUserDto) (s : Server p r) (y : User)
      (s' : Server p r) (m : ℕ) : Type 0 where
    pub before : User
    pub was : p.row id s.world.users ≡ some before
    pub now : p.row id s'.world.users ≡ some y
    pub name : y.name ≡ new_name dto.name before.name
    pub email : y.email ≡ before.email
    pub others : (i : String) → i ≢ id → p.row i s'.world.users ≡ p.row i s.world.users
    pub read : (get_user p r b json id (later p r m s')).0 ≡ ok y

  found :
      (id : String) (s s' : Server p r) (u : User)
      → find_user p r b json id s ≡ (ok u, s')
      → (p.row id s.world.users ≡ some u) × (s' ≡ s)
  found id s s' u h = elim (Option-cases (p.row id s.world.users)) [
    | inl missing ↦ absurd (
        returned_and_threw
          (rw (find_by_id_or_throw-row p user_entity users id s.world.users, missing) at h) refl)
    | inr (x, at) ↦
        let done = rw (find_by_id_or_throw-row p user_entity users id s.world.users, at) at h in
        (at ∙ ap some (ok_inj (ap (λ k. k.0) done)), sym (ap (λ k. k.1) done))
  ]

  -- nothing is cached for the user, so the row is read
  missed :
      (id : String) (m : ℕ) (s : Server p r) (y : User)
      → r.get m (user_key id) s.session.cache ≡ none
      → p.row id s.world.users ≡ some y
      → (get_user p r b json id (later p r m s)).0 ≡ ok y
  unfolding get_user wrap_method cache_key user_key cache_get get_user_body
  missed id m s y gone at =
      rw gone (rw (find_by_id_or_throw-row p user_entity users id s.world.users) (rw at refl))

  -- the write of a changed user
  record Written (id : String) (changed : User) (s : Server p r) (y : User) (s' : Server p r)
      : Type 0 where
    pub content : y ≡ user_entity.with_base y.base changed
    pub same_id : y.id ≡ (generate_uuid (p.v4 s.world.fresh) changed.base).id
    pub row :
        (i : String)
        → p.row i s'.world.users ≡ (if y.id == i then some y else p.row i s.world.users)
    pub gone : (m : ℕ) → r.get m (user_key id) s'.session.cache ≡ none

  write_user-Written :
      (id : String) (changed y : User) (s s' : Server p r)
      → write_user p r b json id changed s ≡ (ok y, s')
      → Written id changed s y s'
  unfolding cache_del
  write_user-Written id changed y s s' h =
      let (z, v, ran, done) =
        >>=-eq-ok (in_world p r (save p (user_table p) changed))
          (λ u. in_session p r (cache_del r (user_key id)) >> pure u) s s' y h in
      let same : z ≡ y = ok_inj (ap (λ x. x.0) done) in
      let a =
        save-Saved p user_entity (user_table p) changed y s.world s'.world
          ((λ i. ((ran i).0, (ran i).1.world)) ∙ (λ i. (ok (same i), (done i).1.world))) in
      record {
        content = Saved-entity p user_entity (user_table p) users changed y s.world s'.world a;
        same_id = Saved-id p user_entity (user_table p) users changed y s.world s'.world a;
        row = Saved-row p user_entity (user_table p) users changed y s.world s'.world a;
        gone = λ m.
            ap (λ x. r.get m (user_key id) x.1.session.cache) (sym done)
            ∙ redis.get-del m (user_key id) v.session.cache;
      }

  -- If `updateUser` returns for an id that is not empty, the row of that id has the name of the
  -- request where it gives one that is not empty and the old name elsewhere, and the old email, no other user has
  -- changed, and the next `getUser` for the id returns exactly the updated user, whatever the cache
  -- held before.
  pub update_user-Renewed :
      (id : String) (dto : UpdateUserDto) (s s' : Server p r) (y : User) (m : ℕ)
      → id ≢ ""
      → update_user p r b json id dto s ≡ (ok y, s')
      → Renewed id dto s y s' m
  unfolding update_user
  update_user-Renewed id dto s s' y m set_id h =
      let (u, s1, looked, h1) =
        >>=-eq-ok (find_user p r b json id)
          (λ u.
            with_password p r b json dto.password (with_name dto.name u)
            >>= write_user p r b json id)
          s s' y h in
      let (v, s2, hashed, written) =
        >>=-eq-ok (with_password p r b json dto.password (with_name dto.name u))
          (write_user p r b json id) s1 s' y h1 in
      let (at, same) = found id s s1 u looked in
      let k = with_password-Rehashed dto.password (with_name dto.name u) v s1 s2 hashed in
      let w = write_user-Written id v y s2 s' written in
      let world : s2.world ≡ s.world = k.same_world ∙ ap (λ x. x.world) same in
      let base : v.base ≡ u.base = k.base ∙ with_name-base dto.name u in
      let was_id = users.row-id id s.world.users u at in
      let set : u.id ≢ "" = λ empty. set_id (sym was_id ∙ empty) in
      let y_id : y.id ≡ id =
        w.same_id
        ∙ ap (λ (c : UuidEntity). (generate_uuid (p.v4 s2.world.fresh) c).id) base
        ∙ ap (λ (c : Bool). (if c then record u.base { id = p.v4 s2.world.fresh } else u.base).id)
            (==-false u.id "" set)
        ∙ was_id in
      let now : p.row id s'.world.users ≡ some y = w.row id ∙ ground (arith, eq_iff y.id id) in
      record {
        before = u;
        was = at;
        now = now;
        name = ap (λ x. x.name) w.content ∙ k.name ∙ with_name-new_name dto.name u;
        email = ap (λ x. x.email) w.content ∙ k.email ∙ with_name-email dto.name u;
        others =
            λ i other. w.row i ∙ ground (arith, eq_iff y.id i) ∙ ap (λ x. p.row i x.users) world;
        read = missed id m s' y (w.gone m) now;
      }
