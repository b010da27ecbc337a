-- ===== src/Logging/Service.antt =====
-- src/core/logger/logger.service.ts: winston is a journal of entries, the newest first, and uuid's
-- `v7` a parameter that gives the text drawn at each count.
use coupang_eats_backend_v.Base.{
  ℕ, ◌+◌, String, Bool, Option, none, some, List, ◌∷◌, ◌<>◌, ◌==◌, if◌then◌else◌,
}
use coupang_eats_backend_v.Logging.Config.{Env, AppConfig, is_test_env, is_local_env}

-- what a caller logs: an `Error` with its stack, a text, or another object
pub data Logged (A : Type 0) : Type 0 where
  logged_error : Option String → Logged A
  logged_text : String → Logged A
  logged_object : A → Logged A

-- `Log`
pub record Log (A : Type 0) : Type 0 where
  pub message : String
  pub log_id : String
  pub app : Option String
  pub env : Option Env
  pub stack : Option String
  pub log_data : Option A

pub data Level : Type 0 where
  at_verbose : Level
  at_debug : Level
  at_info : Level
  at_warn : Level
  at_error : Level

pub record Entry (A : Type 0) : Type 0 where
  pub level : Level
  pub log : Log A
  pub context : String

pub record Journal (A : Type 0) : Type 0 where
  pub entries : List (Entry A)
  -- how many log ids were drawn
  pub drawn : ℕ

-- `LoggerService`
pub record LoggerService : Type 0 where
  pub context : String
  pub is_test : Bool
  pub app : AppConfig

-- the constructor, for the name of the class of the caller, if there is one
unfoldable pub new_logger : AppConfig → Option String → LoggerService
new_logger app none = record { context = "Unknown"; is_test = is_test_env app.env; app = app }
new_logger app (some name) = record {
  context = if name == "" then "Unknown" else name;
  is_test = is_test_env app.env;
  app = app;
}

unfoldable pub set_context : String → LoggerService → LoggerService
set_context context s = record s { context = context }

unfoldable pub make_context_string : LoggerService → String → String
make_context_string s detailed_context = s.context <> "." <> detailed_context

module _ {A : Type 0} (v7 : ℕ → String) (s : LoggerService) where
  -- `format`, with the id that it draws
  unfoldable pub format : Logged A → String → String → Log A
  format obj message id =
      let log : Log A = record {
        message = message;
        log_id = id;
        app = if is_local_env s.app.env then none else some s.app.name;
        env = if is_local_env s.app.env then none else some s.app.env;
        stack = none;
        log_data = none;
      } in
      elim obj [
        | logged_error stack ↦ record log { stack = stack }
        | logged_text t ↦ record log { message = t <> " " <> message }
        | logged_object a ↦ record log { log_data = some a }
      ]

  -- the entry of a call of winston with the formatted log
  abbrev pub entry : Level → String → Logged A → String → ℕ → Entry A
  entry level detailed_context obj message n = record {
    level = level;
    log = format obj message (v7 n);
    context = make_context_string s detailed_context;
  }

  abbrev pub write : Level → String → Logged A → String → Journal A → Journal A
  write level detailed_context obj message j = record {
    entries = entry level detailed_context obj message j.drawn ∷ j.entries;
    drawn = j.drawn + 1;
  }

  unfoldable pub verbose : String → Logged A → String → Journal A → Journal A
  verbose detailed_context obj message j = write at_verbose detailed_context obj message j

  unfoldable pub debug : String → Logged A → String → Journal A → Journal A
  debug detailed_context obj message j = write at_debug detailed_context obj message j

  unfoldable pub info : String → Logged A → String → Journal A → Journal A
  info detailed_context obj message j = write at_info detailed_context obj message j

  unfoldable pub warn : String → Logged A → String → Journal A → Journal A
  warn detailed_context obj message j =
      if s.is_test then j else write at_warn detailed_context obj message j

  unfoldable pub error : String → Logged A → String → Journal A → Journal A
  error detailed_context obj message j =
      if s.is_test then j else write at_error detailed_context obj message j

  abbrev pub call : Level → String → Logged A → String → Journal A → Journal A
  call at_verbose = verbose
  call at_debug = debug
  call at_info = info
  call at_warn = warn
  call at_error = error
