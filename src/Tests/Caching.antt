-- ===== src/Tests/Caching.antt =====
-- Changing a user whose data is cached, and adding a category, on the data in memory.
use mathlib.Core.Bool.{false≢true}
use coupang_eats_backend_v.Base.{String, ◌≡◌, ◌≢◌, refl, none, some, [], eq_iff, none-ne-some}
use coupang_eats_backend_v.Http.{Result, ok}
use coupang_eats_backend_v.Entity.{User, category_entity, user_entity}
use coupang_eats_backend_v.Packages.Memory.{
  memory, memory_laws, memory_row, memory_find_one, memory_save, rows_at,
}
use coupang_eats_backend_v.Repository.{find_by_id_or_throw}
use coupang_eats_backend_v.World.{World, save}
use coupang_eats_backend_v.Auth.Redis.{Json}
use coupang_eats_backend_v.Auth.Tokens.{cache_del}
use coupang_eats_backend_v.Auth.Memory.{memory_redis, memory_redis_laws, memory_bcrypt}
use coupang_eats_backend_v.Auth.Hash.{hash}
use coupang_eats_backend_v.Auth.Server.{Server}
use coupang_eats_backend_v.Users.Service.{UpdateUserDto, update_user, user_key}
use coupang_eats_backend_v.Users.Fresh.{Renewed, update_user-Renewed}
use coupang_eats_backend_v.Categories.Service.{
  CreateCategoryDto, new_category, Texts, create_category,
}
use coupang_eats_backend_v.Categories.Slugs.{HasUniqueSlugs, create_category-HasUniqueSlugs}
use coupang_eats_backend_v.Tests.Data.{start, alice, table_of}

-- every text in the cache stands for the old user
abbrev json : Json User
json = record { stringify = λ u. "alice"; parse = λ t. ok alice }

abbrev cached : Server memory memory_redis
cached = record {
  world = start;
  session = record { cache = λ i. some ("alice", none); now = 100 };
  mails = [];
  salts = 0;
}

abbrev changes : UpdateUserDto
changes = record { name = some "Alice B."; password = some "secret2!" }

abbrev changing : Result User × Server memory memory_redis
changing = update_user memory memory_redis memory_bcrypt json "alice" changes cached

abbrev new_alice : User
new_alice = record alice { name = "Alice B."; password = "secret2!" }

changed : changing ≡ (ok new_alice, changing.1)
unfolding update_user find_by_id_or_throw cache_del user_key save memory_row memory_find_one
    memory_save rows_at hash
changed = refl

named : ◌≢◌ {A = String} "alice" ""
named same = false≢true ((eq_iff "alice" "").1 same)

update_user-Renewed_example :
    Renewed memory
      (memory_laws user_entity)
      memory_redis
      memory_redis_laws
      memory_bcrypt
      json
      "alice"
      changes
      cached
      new_alice
      changing.1
      110
update_user-Renewed_example =
    update_user-Renewed memory (memory_laws user_entity) memory_redis memory_redis_laws
      memory_bcrypt json "alice" changes cached changing.1 new_alice 110 named changed

abbrev texts : Texts
texts = record { trim = λ t. t; to_lower_case = λ t. t }

abbrev chicken : CreateCategoryDto
chicken = record { name = "fried chicken"; cover_img = none; undeclared = new_category }

abbrev no_category : World memory
no_category = record start { db = record start.db { categories = table_of [] } }

none_yet : HasUniqueSlugs texts memory (memory_laws category_entity) no_category
unfolding memory_row
none_yet i j k a b at_i at_j is_a is_b = absurd (none-ne-some at_i)

create_category-HasUniqueSlugs_example :
    HasUniqueSlugs texts memory
      (memory_laws category_entity)
      (create_category texts memory chicken no_category).1
create_category-HasUniqueSlugs_example =
    create_category-HasUniqueSlugs texts memory (memory_laws category_entity) chicken no_category
      none_yet
