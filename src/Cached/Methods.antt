-- ===== src/Cached/Methods.antt =====
-- src/core/cache/cache.interface.ts and the wrapping of src/core/cache/cache.module.ts.
use coupang_eats_backend_v.Base.{
  ℕ, zero, suc, String, Bool, ◌&&◌, Option, none, some, List, [], ◌∷◌, map, select, ◌<>◌,
  if◌then◌else◌,
}
use coupang_eats_backend_v.Http.{Result, ok, err}
use coupang_eats_backend_v.Action.{Action, ◌>>=◌}

-- `ICacheOptions`
pub record CacheOptions : Type 0 where
  pub key : String
  pub ttl : ℕ
  pub index : Option ℕ

-- an argument of a method, as far as the key depends on it
pub data Argument : Type 0 where
  text_argument : String → Argument
  other_argument : Argument

-- the injected `cacheService`
pub record Cache (S V : Type 0) : Type 0 where
  pub get : String → Action S (Option V)
  pub set : String → V → ℕ → Action S (Unit {0})

-- `args[keyIndex]`, where it is a text
abbrev pub text_at : ℕ → List Argument → Option String
text_at n [] = none
text_at zero (text_argument t ∷ args) = some t
text_at zero (other_argument ∷ args) = none
text_at (suc n) (a ∷ args) = text_at n args

abbrev pub suffix : Option String → String
suffix none = ""
suffix (some t) = t

abbrev pub key_index : Option ℕ → ℕ
key_index none = 0
key_index (some n) = n

unfoldable pub cache_key : CacheOptions → List Argument → String
cache_key o args = o.key <> suffix (text_at (key_index o.index) args)

module _ {S V : Type 0} (cache : Cache S V) (is_truthy : V → Bool) where
  -- an error on writing the cache is logged and dropped
  abbrev pub stored : CacheOptions → List Argument → V → Action S V
  stored o args result s = (ok result, (cache.set (cache_key o args) result o.ttl s).1)

  abbrev pub answer :
      CacheOptions → (List Argument → Action S V) → List Argument → Result (Option V) → Action S V
  answer o original args (err e) s = original args s
  answer o original args (ok none) s = (original args >>= stored o args) s
  answer o original args (ok (some v)) s =
      if is_truthy v then (ok v, s) else (original args >>= stored o args) s

  -- `wrapMethod`
  unfoldable pub wrap_method :
      CacheOptions → (List Argument → Action S V) → List Argument → Action S V
  wrap_method o original args s =
      let (found, s') = cache.get (cache_key o args) s in answer o original args found s'

  -- a method of an instance, with what `@Cache` says of it
  pub record Method : Type 0 where
    pub name : String
    pub options : Option CacheOptions
    pub run : List Argument → Action S V

  abbrev pub wrapped : Method → Option CacheOptions → Method
  wrapped m none = m
  wrapped m (some o) = record m { run = wrap_method o m.run }

  -- `wrapInstanceMethods`
  unfoldable pub wrap_instance_methods : List Method → List Method
  wrap_instance_methods methods = map (λ m. wrapped m m.options) methods

  -- what the discovery service lists
  pub record Provider : Type 0 where
    pub is_dependency_tree_static : Bool
    pub has_instance : Bool
    pub has_metatype : Bool
    pub methods : List Method

  -- `getInstances`
  unfoldable pub get_instances : List Provider → List Provider
  get_instances providers =
      select (λ v. v.has_instance && v.has_metatype)
        (select (λ v. v.is_dependency_tree_static) providers)

  -- `wrapCache`: the instances with their new methods
  unfoldable pub wrap_cache : List Provider → List Provider
  wrap_cache providers =
      map (λ (v : Provider). record v { methods = wrap_instance_methods v.methods })
        (get_instances providers)
