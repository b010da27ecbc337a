-- ===== src/Users/Service.antt =====
-- src/modules/user/dto/update-user.dto.ts and src/modules/user/user.service.ts.
use coupang_eats_backend_v.Base.{
  String, true, Option, none, some, [], ◌∷◌, ◌<>◌, if◌then◌else◌, ◌==◌,
}
use coupang_eats_backend_v.Action.{Action, ◌>>=◌, ◌>>◌, pure, reads}
use coupang_eats_backend_v.Entity.{User, user_entity}
use coupang_eats_backend_v.Packages.{Packages}
use coupang_eats_backend_v.Repository.{find_by_id_or_throw}
use coupang_eats_backend_v.World.{user_table, save}
use coupang_eats_backend_v.Auth.Redis.{Redis, Json}
use coupang_eats_backend_v.Auth.Tokens.{cache_get, cache_set, cache_del}
use coupang_eats_backend_v.Auth.Hash.{Bcrypt, hash}
use coupang_eats_backend_v.Auth.Server.{Server, in_world, in_session, draw_salt}
use coupang_eats_backend_v.Cached.Methods.{
  CacheOptions, text_argument, Cache, text_at, suffix, wrap_method,
}

pub record UpdateUserDto : Type 0 where
  pub name : Option String
  pub password : Option String

-- `CacheKeys.User`
unfoldable pub user_key : String → String
user_key user_id = "user/" <> user_id

-- `@Cache({ key: CacheKeys.User, ttl: 60 })`
abbrev pub user_options : CacheOptions
user_options = record { key = "user/"; ttl = 60; index = none }

-- `if (dto.name) user.name = dto.name`
abbrev pub with_name : Option String → User → User
with_name none user = user
with_name (some name) user = if name == "" then user else record user { name = name }

module _ (p : Packages) (r : Redis) (b : Bcrypt) (json : Json User) where
  -- the method itself
  unfoldable pub get_user_body : String → Action (Server p r) User
  get_user_body user_id = reads (λ s. find_by_id_or_throw p user_id s.world.users)

  -- the injected cache service; users are written as JSON
  abbrev pub user_cache : Cache (Server p r) User
  user_cache = record {
    get = λ key. in_session p r (cache_get r json key);
    set = λ key user ttl. in_session p r (cache_set r json key user ttl);
  }

  -- `getUser`, wrapped; every object is truthy
  unfoldable pub get_user : String → Action (Server p r) User
  get_user user_id =
      wrap_method user_cache (λ _. true) user_options
        (λ args. get_user_body (suffix (text_at 0 args))) (text_argument user_id ∷ [])

  -- `if (dto.password) user.password = await hash(dto.password)`
  abbrev pub with_password : Option String → User → Action (Server p r) User
  with_password none user = pure user
  with_password (some password) user =
      if password == ""
      then pure user
      else (draw_salt p r >>= λ salt. pure (record user { password = hash b salt password }))

  -- the write, and the invalidation of the cache
  abbrev pub write_user : String → User → Action (Server p r) User
  write_user user_id changed = do
    updated_user ← in_world p r (save p (user_table p) changed)
    in_session p r (cache_del r (user_key user_id))
    pure updated_user

  abbrev pub find_user : String → Action (Server p r) User
  find_user user_id = reads (λ s. find_by_id_or_throw p user_id s.world.users)

  unfoldable pub update_user : String → UpdateUserDto → Action (Server p r) User
  update_user user_id dto = do
    user ← find_user user_id
    changed ← with_password dto.password (with_name dto.name user)
    write_user user_id changed
