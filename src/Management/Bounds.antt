-- ===== src/Management/Bounds.antt =====
-- response.go: the bounds of the limit of a page.
use oidc_demo.Base.{ℕ, ℤ, pos, negsuc, zero, suc, Option, none, some, ◌≤◌, arith}
use oidc_demo.Env.{Env}
use oidc_demo.Http.{Request}
use oidc_demo.Management.Response.{parse_pagination, limit_of, capped, query_number}

limit_of_pos : (n : Option ℤ) → 1 ≤ limit_of n
unfolding limit_of
limit_of_pos none = omega arith
limit_of_pos (some (pos zero)) = omega arith
limit_of_pos (some (pos (suc n))) = omega arith
limit_of_pos (some (negsuc n)) = omega arith

capped_bounds : (n : ℕ) → 1 ≤ n → (1 ≤ capped n) × (capped n ≤ 100)
capped_bounds n h = (ground arith, ground arith)

-- Whatever the query says, the limit that is read from it is between 1 and 100.
pub parse_pagination_bounds :
    (env : Env) (r : Request)
    → (1 ≤ (parse_pagination env r).limit) × ((parse_pagination env r).limit ≤ 100)
unfolding parse_pagination
parse_pagination_bounds env r = capped_bounds _ (limit_of_pos (query_number env r "limit"))
