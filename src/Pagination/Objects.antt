-- ===== src/Pagination/Objects.antt =====
-- Pagination (src/common/pagination): the request, the builder and the response.
use coupang_eats_backend_v.Base.{ℕ, ◌+◌, ◌-◌, ◌*◌, ◌/◌, Bool, Option, none, some, List, [], ltb}

-- pagination.request.ts: validation has set the defaults 1 and 10, and refused what is below 1
pub record PaginationRequest : Type 0 where
  pub page : ℕ
  pub limit : ℕ

abbrev pub page_default : ℕ
page_default = 1

abbrev pub limit_default : ℕ
limit_default = 10

abbrev or_default : ℕ → Option ℕ → ℕ
or_default d none = d
or_default d (some n) = n

-- the class initialisers: a property that the query leaves out has its default
unfoldable pub request_of : Option ℕ → Option ℕ → PaginationRequest
request_of page limit = record {
  page = or_default page_default page;
  limit = or_default limit_default limit;
}

unfoldable pub get_has_next : PaginationRequest → ℕ → Bool
get_has_next r total_count = ltb (r.page * r.limit) total_count

-- pagination.builder.ts: a property that was not set is undefined
pub record PaginationBuilder (T : Type 0) : Type 0 where
  pub list : List T
  pub page : ℕ
  pub limit : ℕ
  pub total : ℕ

abbrev pub new_builder : {T : Type 0} → PaginationBuilder T
new_builder = record { list = []; page = 0; limit = 0; total = 0 }

module _ {T : Type 0} where
  unfoldable pub set_data : List T → PaginationBuilder T → PaginationBuilder T
  set_data data' b = record b { list = data' }

  unfoldable pub set_page : ℕ → PaginationBuilder T → PaginationBuilder T
  set_page page b = record b { page = page }

  unfoldable pub set_limit : ℕ → PaginationBuilder T → PaginationBuilder T
  set_limit limit b = record b { limit = limit }

  unfoldable pub set_total_count : ℕ → PaginationBuilder T → PaginationBuilder T
  set_total_count total b = record b { total = total }

-- pagination.response.ts
pub record PaginationResponse (T : Type 0) : Type 0 where
  pub total : ℕ
  pub list : List T
  pub page : ℕ
  pub limit : ℕ

module _ {T : Type 0} where
  -- `build`, and the constructor of `PaginationResponse`
  unfoldable pub build : PaginationBuilder T → PaginationResponse T
  build b = record { total = b.total; list = b.list; page = b.page; limit = b.limit }

  -- `Math.ceil(total / limit)`, for the limits that validation lets through
  unfoldable pub total_pages : PaginationResponse T → ℕ
  total_pages r = (r.total + r.limit - 1) / r.limit

  unfoldable pub has_next : PaginationResponse T → Bool
  unfolding total_pages
  has_next r = ltb r.page (total_pages r)
