-- ===== src/Auth/Memory.antt =====
-- A store in memory, an encoding of values and a signature that meet the laws of `Auth.Redis`.
use Prim.Native.String.{slice, len}
use mathlib.Core.Bool.{false≢true}
use package.text.Mathlib.TextPositions.{slice-append_left, slice-append_right, len-append}
use coupang_eats_backend_v.Base.{
  ℕ, ◌+◌, String, ◌≡◌, ◌≢◌, refl, sym, ap, ◌∙◌, true, false, Option, none, some, ltb, if◌then◌else◌,
  ◌==◌, ◌<>◌, ==-false, eq_iff, eq_refl,
}
use coupang_eats_backend_v.Http.{ok}
use coupang_eats_backend_v.Auth.Hash.{Bcrypt, BcryptLaws}
use coupang_eats_backend_v.Auth.Redis.{
  Redis, RedisLaws, Json, IsKept, Jwt, JwtLaws, JwtPayload, TokenType, access, Value, text, flag,
  refresh, valid,
}

-- a value with its time limit
abbrev pub Cell : Type 0
Cell = Option (String × Option ℕ)

abbrev pub read : ℕ → Cell → Option String
read n none = none
read n (some (v, none)) = some v
read n (some (v, some limit)) = if ltb n limit then some v else none

abbrev pub limited : ℕ → Cell → Cell
limited limit none = none
limited limit (some (v, l)) = some (v, some limit)

abbrev pub memory_redis : Redis
memory_redis = record {
  Store = String → Cell;
  get = λ n k s. read n (s k);
  set = λ k v s. λ i. if k == i then some (v, none) else s i;
  expire = λ n k t s. λ i. if k == i then limited (n + t) (s i) else s i;
  del = λ k s. λ i. if k == i then none else s i;
}

pub memory_redis_laws : RedisLaws memory_redis
memory_redis_laws = record {
  get-set = λ n k v s. rw (eq_refl k) refl;
  get-set_other = λ n k j v s other. rw (==-false k j other) refl;
  get-expire = λ n m t k v s. rw (eq_refl k) refl;
  get-expire_other = λ n m t k j s other. rw (==-false k j other) refl;
  get-del = λ n k s. rw (eq_refl k) refl;
  get-del_other = λ n k j s other. rw (==-false k j other) refl;
}

abbrev pub encode : Value → String
encode (text t) = "'" <> t
encode (flag true) = "t"
encode (flag false) = "f"

-- read by its first letter
abbrev pub decode : String → Value
decode d =
    if slice d 0 1 == "t"
    then flag true
    else if slice d 0 1 == "f"
    then flag false
    else text (slice d 1 (len d))

decode-encode : (v : Value) → decode (encode v) ≡ v
decode-encode (text t) =
    rw (slice-append_left "'" t, len-append "'" t) (ap text (slice-append_right "'" t))
decode-encode (flag true) = refl
decode-encode (flag false) = refl

encode-nonempty : (v : Value) → encode v ≢ ""
encode-nonempty (text t) h =
    false≢true ((eq_iff "'" "").1 (sym (slice-append_left "'" t) ∙ ap (λ x. slice x 0 1) h))
encode-nonempty (flag true) h = false≢true ((eq_iff "t" "").1 h)
encode-nonempty (flag false) h = false≢true ((eq_iff "f" "").1 h)

abbrev pub memory_json : Json Value
memory_json = record { stringify = encode; parse = λ d. ok (decode d) }

pub memory_json-IsKept : (v : Value) → IsKept memory_json v
memory_json-IsKept v = record {
  parse-stringify = ap ok (decode-encode v);
  stringify-nonempty = encode-nonempty v;
}

-- a token that names its user
abbrev pub memory_jwt : Jwt
memory_jwt = record {
  sign = λ secret payload expiration n. payload.sub;
  verify = λ secret n token. valid (record { sub = token; type = refresh });
  decode = λ token. record { sub = token; type = refresh };
}

-- a hash that keeps the text
abbrev pub memory_bcrypt : Bcrypt
memory_bcrypt = record { hash = λ n rounds t. t; compare = λ t hashed. ok (t == hashed) }

pub memory_bcrypt_laws : BcryptLaws memory_bcrypt
memory_bcrypt_laws = record { compare-hash = λ n rounds t. ap ok (eq_refl t) }

-- a token that names its type and its user, and does not expire
abbrev pub letter : TokenType → String
letter access = "A"
letter refresh = "R"

abbrev pub payload_of : String → JwtPayload
payload_of t = record {
  sub = slice t 1 (len t);
  type = if slice t 0 1 == "A" then access else refresh;
}

abbrev pub typed_jwt : Jwt
typed_jwt = record {
  sign = λ secret payload expiration n. letter payload.type <> payload.sub;
  verify = λ secret n token. valid (payload_of token);
  decode = payload_of;
}

pub payload_of-letter :
    (t : TokenType) (sub : String) → payload_of (letter t <> sub) ≡ record { sub = sub; type = t }
payload_of-letter access sub =
    rw (slice-append_left "A" sub, len-append "A" sub, slice-append_right "A" sub) refl
payload_of-letter refresh sub =
    rw (slice-append_left "R" sub, len-append "R" sub, slice-append_right "R" sub) refl

abbrev pub typed_jwt_laws : JwtLaws typed_jwt
typed_jwt_laws = record {
  lifetime = λ e. 1000;
  verify-sign = λ secret payload e n m soon. ap valid (payload_of-letter payload.type payload.sub);
}
