-- ===== src/Logging/Config.antt =====
-- src/core/config/index.ts and the `APP` part of src/core/config/configuration.ts.
use coupang_eats_backend_v.Base.{String, Bool, true, false, Option, none, some, ◌==◌, if◌then◌else◌}

-- `Env`; the cast `as Env` lets any other text through
pub data Env : Type 0 where
  test : Env
  local : Env
  dev : Env
  prod : Env
  other_env : String → Env

-- `NODE_ENV ?? Env.local`, read as an `Env`
unfoldable pub env_of : Option String → Env
env_of none = local
env_of (some t) =
    if t == "test"
    then test
    else if t == "local"
    then local
    else if t == "dev"
    then dev
    else if t == "prod"
    then prod
    else other_env t

abbrev pub is_test_env : Env → Bool
is_test_env test = true
is_test_env _ = false

abbrev pub is_local_env : Env → Bool
is_local_env local = true
is_local_env _ = false

-- `t || other` for a variable of the environment
abbrev pub variable_or : Option String → String → String
variable_or none other = other
variable_or (some t) other = if t == "" then other else t

-- `AppConfig`
pub record AppConfig : Type 0 where
  pub name : String
  pub base_url : String
  pub port : String
  pub node_env : String
  pub env : Env

-- the variables of the process that `APP` reads
pub record Variables : Type 0 where
  pub name : Option String
  pub base_url : Option String
  pub port : Option String
  pub node_env : Option String

-- `APP` of `configurations`
unfoldable pub app_config : Variables → AppConfig
app_config v = record {
  name = variable_or v.name "";
  base_url = variable_or v.base_url "";
  port = variable_or v.port "3000";
  node_env = variable_or v.node_env "local";
  env = env_of v.node_env;
}
