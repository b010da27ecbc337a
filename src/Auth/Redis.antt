-- ===== src/Auth/Redis.antt =====
-- ioredis, the JWT library and JSON as parameters: the operations that the code calls, and what
-- they are documented to do. Times are in seconds.
use coupang_eats_backend_v.Base.{
  ℕ, ◌+◌, String, ◌≡◌, ◌≢◌, Bool, Option, none, some, ltb, true, if◌then◌else◌,
}
use coupang_eats_backend_v.Http.{Exception, Result, ok}

pub record Redis : Type 1 where
  pub Store : Type 0
  -- the value of a key at a time
  pub get : ℕ → String → Store → Option String
  pub set : String → String → Store → Store
  -- from a time on, for so many seconds
  pub expire : ℕ → String → ℕ → Store → Store
  pub del : String → Store → Store

pub record RedisLaws (r : Redis) : Type 0 where
  -- a key that was just set has no time limit yet
  pub get-set : (n : ℕ) (k v : String) (s : r.Store) → r.get n k (r.set k v s) ≡ some v
  pub get-set_other :
      (n : ℕ) (k j v : String) (s : r.Store) → k ≢ j → r.get n j (r.set k v s) ≡ r.get n j s
  pub get-expire :
      (n m t : ℕ) (k v : String) (s : r.Store)
      → r.get m k (r.expire n k t (r.set k v s)) ≡ (if ltb m (n + t) then some v else none)
  pub get-expire_other :
      (n m t : ℕ) (k j : String) (s : r.Store) → k ≢ j → r.get m j (r.expire n k t s) ≡ r.get m j s
  pub get-del : (n : ℕ) (k : String) (s : r.Store) → r.get n k (r.del k s) ≡ none
  pub get-del_other :
      (n : ℕ) (k j : String) (s : r.Store) → k ≢ j → r.get n j (r.del k s) ≡ r.get n j s

-- the values that the token service caches
pub data Value : Type 0 where
  text : String → Value
  flag : Bool → Value

pub record Json (V : Type 0) : Type 0 where
  pub stringify : V → String
  -- throws a SyntaxError on a text that is no JSON
  pub parse : String → Result V

-- a value that JSON keeps
pub record IsKept {V : Type 0} (j : Json V) (v : V) : Type 0 where
  pub parse-stringify : j.parse (j.stringify v) ≡ ok v
  pub stringify-nonempty : j.stringify v ≢ ""

pub data TokenType : Type 0 where
  access refresh : TokenType

pub record JwtPayload : Type 0 where
  pub sub : String
  pub type : TokenType

-- what `verifyAsync` answers: the payload, a TokenExpiredError, or another error
pub data Verified : Type 0 where
  valid : JwtPayload → Verified
  token_expired : Verified
  rejected : Exception → Verified

-- a setting such as '15m': the digits and the unit
pub record Expiration : Type 0 where
  pub value : ℕ
  pub unit : String

pub record Jwt : Type 0 where
  -- secret, payload, `expiresIn`, and the time of issue
  pub sign : String → JwtPayload → Expiration → ℕ → String
  pub verify : String → ℕ → String → Verified
  pub decode : String → JwtPayload

pub record JwtLaws (j : Jwt) : Type 0 where
  -- the seconds that the library reads out of a setting
  pub lifetime : Expiration → ℕ
  pub verify-sign :
      (secret : String) (payload : JwtPayload) (e : Expiration) (n m : ℕ)
      → ltb m (n + lifetime e) ≡ true
      → j.verify secret m (j.sign secret payload e n) ≡ valid payload
