-- ===== src/Auth/Hash.antt =====
-- bcrypt as a parameter, and src/core/hash/bcrypt.service.ts over it.
use coupang_eats_backend_v.Base.{ℕ, String, ◌≡◌, true, Bool}
use coupang_eats_backend_v.Http.{Result, ok}

pub record Bcrypt : Type 0 where
  -- the salt of the n-th call, the rounds, and the text
  pub hash : ℕ → ℕ → String → String
  -- throws where the text or the hash is missing
  pub compare : String → String → Result Bool

pub record BcryptLaws (b : Bcrypt) : Type 0 where
  pub compare-hash : (n rounds : ℕ) (t : String) → b.compare t (b.hash n rounds t) ≡ ok true

abbrev pub salt_rounds : ℕ
salt_rounds = 10

module _ (b : Bcrypt) where
  -- `BcryptService.hash`; the number stands for the random salt
  unfoldable pub hash : ℕ → String → String
  hash n t = b.hash n salt_rounds t

  -- `BcryptService.compare`
  unfoldable pub compare : String → String → Result Bool
  compare t hashed = b.compare t hashed
