-- ===== src/Tests/Registering.antt =====
-- Signing up, following the link of the mail, and signing in, with tables and Redis in memory.
use coupang_eats_backend_v.Base.{◌++◌, ◌∷◌, String, ◌-◌, ◌≡◌, refl, none, none-ne-some, [], false}
use coupang_eats_backend_v.Http.{Result, ok, err, bad_request}
use coupang_eats_backend_v.Entity.{User, client, user_entity}
use coupang_eats_backend_v.Packages.Memory.{
  memory, memory_laws, memory_row, memory_find_one, memory_save, rows_at,
}
use coupang_eats_backend_v.Repository.{find_one_by_filters, find_one_or_throw}
use coupang_eats_backend_v.World.{save}
use coupang_eats_backend_v.World.Memory.{transactions, transactions_laws}
use coupang_eats_backend_v.Auth.Redis.{text}
use coupang_eats_backend_v.Auth.Memory.{
  memory_redis, memory_redis_laws, memory_json, memory_json-IsKept, memory_jwt, memory_bcrypt,
  memory_bcrypt_laws,
}
use coupang_eats_backend_v.Auth.Tokens.{
  JwtConfig, TokenPair, cache_get, cache_set, cache_del, generate_access_token,
  generate_refresh_token, store_refresh_token, generate_token_pair,
}
use coupang_eats_backend_v.Auth.Hash.{hash, compare}
use coupang_eats_backend_v.Auth.Mail.{
  Mail, SesClient, MailConfig, send_email, send_welcome_notification,
}
use coupang_eats_backend_v.Auth.Server.{Server, later}
use coupang_eats_backend_v.Auth.Service.{
  SignUpBody, SignInBody, new_user, user_to_entity, email_verify_key, create_user_body,
  create_user_or_throw, validate_user, send_token, sign_up, verify_email, sign_in,
}
use coupang_eats_backend_v.Auth.Accounts.{HasUniqueEmails, sign_up-HasUniqueEmails}
use coupang_eats_backend_v.Auth.SigningIn.{SignedIn, sign_in-SignedIn}
use coupang_eats_backend_v.Auth.Verifying.{Names}
use coupang_eats_backend_v.Auth.Verified.{verify_email_again}
use coupang_eats_backend_v.Auth.Registering.{
  Linked, Registered, sign_up-Registered, sign_up-verify_email-sign_in,
}
use coupang_eats_backend_v.Tests.Data.{start, table_of}

abbrev config : JwtConfig
config = record {
  access_secret = "a";
  refresh_secret = "r";
  access_expiration = record { value = 15; unit = "m" };
  refresh_expiration = record { value = 7; unit = "d" };
}

abbrev ses : SesClient
ses = record { refusal = λ m. none }

abbrev mail : MailConfig
mail = record { ses_sender_email = "eats@example.com"; base_url = "https://eats" }

abbrev nobody : Server memory memory_redis
nobody = record {
  world = record start { db = record start.db { users = table_of [] } };
  session = record { cache = λ i. none; now = 100 };
  mails = [];
  salts = 0;
}

abbrev eve : SignUpBody
eve = record {
  email = "eve@example.com";
  password = "secret1!";
  name = "Eve";
  role = client;
  undeclared = new_user;
}

abbrev login : SignInBody
login = record { email = "eve@example.com"; password = "secret1!" }

abbrev signing_up : Result (Unit {0}) × Server memory memory_redis
signing_up =
    sign_up memory memory_redis memory_bcrypt memory_json (transactions memory) ses mail eve nobody

abbrev in_time : Server memory memory_redis
in_time = later memory memory_redis 200 signing_up.1

abbrev token : String
token = memory.v4 (signing_up.1.world.fresh - 1)

abbrev verifying : Result (Unit {0}) × Server memory memory_redis
verifying = verify_email memory memory_redis memory_bcrypt memory_json token in_time

abbrev signing_in : Result TokenPair × Server memory memory_redis
signing_in =
    sign_in memory memory_redis memory_bcrypt memory_json memory_jwt config login verifying.1

nobody_yet : HasUniqueEmails memory (memory_laws user_entity) nobody.world
unfolding memory_row
nobody_yet i j k a b at_i at_j is_a is_b = absurd (none-ne-some at_i)

signed_up : signing_up ≡ (ok tt, signing_up.1)
unfolding sign_up create_user_or_throw create_user_body find_one_by_filters memory_row
    memory_find_one memory_save rows_at save user_to_entity send_token cache_set
    send_welcome_notification send_email hash
signed_up = refl

eve_alone : HasUniqueEmails memory (memory_laws user_entity) signing_up.1.world
eve_alone =
    sign_up-HasUniqueEmails memory (memory_laws user_entity) memory_redis memory_bcrypt memory_json
      (transactions memory) (transactions_laws memory) ses mail eve nobody nobody_yet

sign_up-HasUniqueEmails_example :
    HasUniqueEmails memory (memory_laws user_entity) signing_up.1.world
sign_up-HasUniqueEmails_example =
    sign_up-HasUniqueEmails memory (memory_laws user_entity) memory_redis memory_bcrypt memory_json
      (transactions memory) (transactions_laws memory) ses mail eve nobody nobody_yet

account_stored :
    Registered memory
      (memory_laws user_entity)
      memory_redis
      memory_redis_laws
      memory_bcrypt
      memory_bcrypt_laws
      memory_json
      (transactions memory)
      (transactions_laws memory)
      ses
      mail
      eve
      nobody
      signing_up.1
account_stored =
    sign_up-Registered memory (memory_laws user_entity) memory_redis memory_redis_laws memory_bcrypt
      memory_bcrypt_laws memory_json (transactions memory) (transactions_laws memory) ses mail eve
      nobody signing_up.1 signed_up

named : memory_row user_entity "" signing_up.1.world.users ≡ none
unfolding sign_up create_user_or_throw create_user_body find_one_by_filters memory_row
    memory_find_one memory_save rows_at save user_to_entity send_token cache_set
    send_welcome_notification send_email hash
named = refl

verified : verifying ≡ (ok tt, verifying.1)
unfolding sign_up create_user_or_throw create_user_body find_one_by_filters memory_row
    memory_find_one memory_save rows_at save user_to_entity send_token cache_set
    send_welcome_notification send_email hash verify_email cache_get email_verify_key
    find_one_or_throw cache_del
verified = refl

sign_up-verify_email-sign_in_example :
    (m : Mail) × (signing_up.1.mails ≡ nobody.mails ++ (m ∷ []))
    × Linked mail m "eve@example.com" token
    × (pair : TokenPair) × ((sign_in memory memory_redis memory_bcrypt memory_json memory_jwt config
          login verifying.1).0
        ≡ ok pair)
sign_up-verify_email-sign_in_example =
    sign_up-verify_email-sign_in memory (memory_laws user_entity) memory_redis memory_redis_laws
      memory_bcrypt memory_bcrypt_laws memory_json (transactions memory) (transactions_laws memory)
      ses mail memory_jwt config eve nobody signing_up.1 verifying.1 200 nobody_yet
      (memory_json-IsKept (text "eve@example.com")) signed_up named refl verified

abbrev registered : User
registered = record {
  base = record { id = "u"; created_at = 0; updated_at = 0; deleted_at = none };
  email = "eve@example.com";
  password = "secret1!";
  name = "Eve";
  role = client;
  verified = false;
}

the_token :
    Names memory
      (memory_laws user_entity)
      memory_redis
      memory_redis_laws
      memory_bcrypt
      memory_json
      token
      in_time
      registered
unfolding sign_up create_user_or_throw create_user_body find_one_by_filters memory_row
    memory_find_one memory_save rows_at save user_to_entity send_token cache_set
    send_welcome_notification send_email hash verify_email cache_get email_verify_key
the_token = record { value = text "eve@example.com"; cached = refl; email = refl; found = refl }

verify_email_again_example :
    verify_email memory memory_redis memory_bcrypt memory_json token
      (later memory memory_redis 250 verifying.1)
    ≡ (err (bad_request "인증 링크가 만료되었거나 유효하지 않습니다."), later memory memory_redis 250 verifying.1)
verify_email_again_example =
    verify_email_again memory (memory_laws user_entity) memory_redis memory_redis_laws memory_bcrypt
      memory_json token in_time verifying.1 registered 250 named eve_alone the_token refl verified

abbrev pair : TokenPair
pair = record { access_token = "u"; refresh_token = "u" }

signed_in : signing_in ≡ (ok pair, signing_in.1)
unfolding sign_up create_user_or_throw create_user_body find_one_by_filters memory_row
    memory_find_one memory_save rows_at save user_to_entity send_token cache_set
    send_welcome_notification send_email hash verify_email cache_get email_verify_key
    find_one_or_throw cache_del sign_in validate_user compare generate_token_pair
    generate_access_token generate_refresh_token store_refresh_token
signed_in = refl

sign_in-SignedIn_example :
    SignedIn memory
      (memory_laws user_entity)
      memory_redis
      memory_bcrypt
      memory_json
      memory_jwt
      config
      login
      verifying.1
      pair
      signing_in.1
sign_in-SignedIn_example =
    sign_in-SignedIn memory (memory_laws user_entity) memory_redis memory_bcrypt memory_json
      memory_jwt config login verifying.1 signing_in.1 pair signed_in
