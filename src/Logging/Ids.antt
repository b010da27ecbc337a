-- ===== src/Logging/Ids.antt =====
-- The ids of the log entries, over any sequence of calls by any loggers.
use coupang_eats_backend_v.Base.{
  ℕ, ◌<◌, String, ◌≡◌, ◌≢◌, refl, sym, ap, ◌∙◌, Bool, true, false, if◌then◌else◌, List, [], ◌∷◌,
  Memᴰ, arith,
}
use coupang_eats_backend_v.Logging.Service.{
  Logged, logged_error, logged_text, logged_object, Level, at_verbose, at_debug, at_info, at_warn,
  at_error, Entry, Journal, LoggerService, format, verbose, debug, info, warn, error, call, write,
}

if-keeps : {X : Type 0} {x y : X} (P : X → Type 0) (b : Bool) → P x → P y → P (if b then x else y)
if-keeps P true px py = px
if-keeps P false px py = py

module _ {A : Type 0} (v7 : ℕ → String) where
  -- calls of any methods of any loggers which share a journal
  pub data Calls : Journal A → Journal A → Type 0 where
    no_call : (j : Journal A) → Calls j j
    next_call :
        (s : LoggerService) (level : Level) (context : String) (obj : Logged A) (message : String)
        (j j' : Journal A)
        → Calls j j'
        → Calls j (call v7 s level context obj message j')

  abbrev pub HasUniqueIds : List (Entry A) → Type 0
  HasUniqueIds [] = Unit
  HasUniqueIds (e ∷ es) =
      ((f : Entry A) → Memᴰ f es → f.log.log_id ≢ e.log.log_id) × HasUniqueIds es

  -- the ids were drawn before the n-th
  abbrev IsDrawn : ℕ → List (Entry A) → Type 0
  IsDrawn n es = (e : Entry A) → Memᴰ e es → (k : ℕ) × (e.log.log_id ≡ v7 k) × (k < n)

  abbrev IsSound : Journal A → Type 0
  IsSound j = IsDrawn j.drawn j.entries × HasUniqueIds j.entries

  log_id-format :
      (s : LoggerService) (obj : Logged A) (m i : String) → (format v7 s obj m i).log_id ≡ i
  unfolding format
  log_id-format s (logged_error x) m i = refl
  log_id-format s (logged_text x) m i = refl
  log_id-format s (logged_object x) m i = refl

  module _ (fresh : (i k : ℕ) → v7 i ≡ v7 k → i ≡ k) where
    write-IsSound :
        (s : LoggerService) (level : Level) (context : String) (obj : Logged A) (message : String)
        (j : Journal A)
        → IsSound j
        → IsSound (write v7 s level context obj message j)
    write-IsSound s level context obj message j (d, u) =
        let new = log_id-format s obj message (v7 j.drawn) in
        (
          (λ f m. elim m [
            | Memᴰ.head p ↦ (j.drawn, ap (λ e. e.log.log_id) p ∙ new, omega arith)
            | Memᴰ.tail h ↦ let (k, same, lt) = d f h in (k, same, omega (arith, lt))
          ]),
          (
            (λ f h same.
                let (k, is_k, lt) = d f h in
                let e : k ≡ j.drawn = fresh k j.drawn (sym is_k ∙ same ∙ new) in
                omega (arith, e, lt)),
            u,
          ),
        )

    call-IsSound :
        (s : LoggerService) (level : Level) (context : String) (obj : Logged A) (message : String)
        (j : Journal A)
        → IsSound j
        → IsSound (call v7 s level context obj message j)
    unfolding verbose debug info warn error
    call-IsSound s at_verbose c o m j h = write-IsSound s at_verbose c o m j h
    call-IsSound s at_debug c o m j h = write-IsSound s at_debug c o m j h
    call-IsSound s at_info c o m j h = write-IsSound s at_info c o m j h
    call-IsSound s at_warn c o m j h =
        if-keeps IsSound s.is_test h (write-IsSound s at_warn c o m j h)
    call-IsSound s at_error c o m j h =
        if-keeps IsSound s.is_test h (write-IsSound s at_error c o m j h)

    Calls-IsSound : (j j' : Journal A) → Calls j j' → IsSound j → IsSound j'
    Calls-IsSound j _ (no_call _) h = h
    Calls-IsSound j _ (next_call s level c o m _ j' r) h =
        call-IsSound s level c o m j' (Calls-IsSound j j' r h)

    -- If `v7` never draws the same text twice, all entries that any sequence of calls of any loggers
    -- has written into an empty journal have different log ids.
    pub Calls-HasUniqueIds :
        (j : Journal A) → Calls (record { entries = []; drawn = 0 }) j → HasUniqueIds j.entries
    Calls-HasUniqueIds j r =
        (Calls-IsSound (record { entries = []; drawn = 0 }) j r ((λ e m. elim m [ ]), tt)).1
