-- ===== src/Store/Tenants.antt =====
-- tenant_repository.go
use oidc_demo.Base.{ℕ, String, Bool, true, Option, List, ◌||◌, ◌==◌, str_eq}
use oidc_demo.Model.{Uuid, Time, Tenant}
use oidc_demo.World.{Env, M, tenants, first, count, page_desc, save, create, ◌>>=◌, pure}

-- The unique indexes of the table: the id and the code.
abbrev clash : Tenant → Tenant → Bool
clash a b = a.id == b.id || str_eq a.code b.code

module _ (env : Env) where
  unfoldable pub find_by_code : String → M (Option Tenant)
  find_by_code code = first env tenants (λ t. str_eq t.code code)

  unfoldable pub find_by_id : Uuid → M (Option Tenant)
  find_by_id id = first env tenants (λ t. t.id == id)

  unfoldable pub list : ℕ → ℕ → M (List Tenant × ℕ)
  list limit offset = do
    total ← count env tenants (λ t. true)
    rows ← page_desc env tenants (λ t. t.created_at) (λ t. true) limit offset
    pure (rows, total)

  -- The row is given as a function of the id and the time that the database fills in.
  unfoldable pub create_tenant : (Uuid → Time → Tenant) → M Tenant
  create_tenant mk = create env tenants clash mk

  -- `Save` writes every column of the row with that id, and the tenant takes the new moment.
  unfoldable pub update : Tenant → M Tenant
  update tenant = do
    at ← save env tenants (λ t. t.id == tenant.id) (λ at. record tenant { updated_at = at })
    pure (record tenant { updated_at = at })
