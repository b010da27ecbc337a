-- ===== src/Auth/Server.antt =====
-- What the requests share: the tables, Redis with its clock, the mails that were sent, and the
-- random salts that were drawn.
use coupang_eats_backend_v.Base.{ℕ, ◌+◌, String, List}
use coupang_eats_backend_v.Http.{ok}
use coupang_eats_backend_v.Action.{Action}
use coupang_eats_backend_v.Packages.{Packages}
use coupang_eats_backend_v.World.{World}
use coupang_eats_backend_v.Auth.Redis.{Redis}
use coupang_eats_backend_v.Auth.Tokens.{Session}
use coupang_eats_backend_v.Auth.Mail.{Mail}

module _ (p : Packages) (r : Redis) where
  pub record Server : Type 0 where
    pub world : World p
    pub session : Session r
    pub mails : List Mail
    pub salts : ℕ

  -- a call that works on one part
  abbrev pub in_world : {A : Type 0} → Action (World p) A → Action Server A
  in_world m s = let (x, w) = m s.world in (x, record s { world = w })

  abbrev pub in_session : {A : Type 0} → Action (Session r) A → Action Server A
  in_session m s = let (x, c) = m s.session in (x, record s { session = c })

  abbrev pub in_mails : {A : Type 0} → Action (List Mail) A → Action Server A
  in_mails m s = let (x, ms) = m s.mails in (x, record s { mails = ms })

  -- a fresh salt, and a fresh UUID
  abbrev pub draw_salt : Action Server ℕ
  draw_salt s = (ok s.salts, record s { salts = s.salts + 1 })

  abbrev pub uuid_v4 : Action Server String
  uuid_v4 s =
      (ok (p.v4 s.world.fresh), record s { world = record s.world { fresh = s.world.fresh + 1 } })

  -- the same state at another time
  abbrev pub later : ℕ → Server → Server
  later m s = record s { session = record s.session { now = m } }
