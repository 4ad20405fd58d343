-- ===== src/Management/Response.antt =====
-- response.go: the pages of the lists.
use oidc_demo.Base.{
  ℕ, ℤ, String, Option, none, some, List, ltb, str_eq, is_positive, is_negative, to_nat,
  if◌then◌else◌,
}
use oidc_demo.Env.{Env}
use oidc_demo.Http.{Request, Response, Value, json, page}

pub record PaginationParams : Type 0 where
  pub limit : ℕ
  pub offset : ℕ

abbrev pub default_limit : ℕ
default_limit = 50

abbrev pub max_limit : ℕ
max_limit = 100

-- What `strconv.Atoi` reads, where it reads something and the number is positive.
unfoldable pub limit_of : Option ℤ → ℕ
limit_of none = default_limit
limit_of (some n) = if is_positive n then to_nat n else default_limit

unfoldable pub offset_of : Option ℤ → ℕ
offset_of none = 0
offset_of (some n) = if is_negative n then 0 else to_nat n

abbrev pub capped : ℕ → ℕ
capped limit = if ltb max_limit limit then max_limit else limit

module _ (env : Env) where
  abbrev pub query_number : Request → String → Option ℤ
  query_number r name =
      if str_eq (r.query_param name) "" then none else env.atoi (r.query_param name)

  unfoldable pub parse_pagination : Request → PaginationParams
  parse_pagination r = record {
    limit = capped (limit_of (query_number r "limit"));
    offset = offset_of (query_number r "offset");
  }

-- `ListResponse`
unfoldable pub list_response : List (List (String × Value)) → ℕ → Response
list_response data_rows total_count = json 200 (page data_rows total_count)
