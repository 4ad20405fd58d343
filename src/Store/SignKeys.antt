-- ===== src/Store/SignKeys.antt =====
-- sign_key_repository.go
use oidc_demo.Base.{ℕ, String, Bool, true, false, Option, some, List, ◌||◌, ◌==◌, str_eq}
use oidc_demo.Model.{Uuid, Time, SignKey}
use oidc_demo.World.{
  Env, M, sign_keys, first, first_desc, find_desc, updates, create, time_now, ◌>>=◌,
}

abbrev pub clash : SignKey → SignKey → Bool
clash a b = a.id == b.id || str_eq a.kid b.kid

abbrev pub retired : Time → Time → SignKey → SignKey
retired now at k = record k { active = false; rotated_at = some now }

module _ (env : Env) where
  unfoldable pub create_key : (Uuid → Time → SignKey) → M SignKey
  create_key mk = create env sign_keys clash mk

  unfoldable pub find_active : M (Option SignKey)
  find_active = first_desc env sign_keys (λ k. k.created_at) (λ k. k.active)

  unfoldable pub find_all_active : M (List SignKey)
  find_all_active = find_desc env sign_keys (λ k. k.created_at) (λ k. k.active)

  unfoldable pub find_all : M (List SignKey)
  find_all = find_desc env sign_keys (λ k. k.created_at) (λ k. true)

  unfoldable pub find_by_kid : String → M (Option SignKey)
  find_by_kid kid = first env sign_keys (λ k. str_eq k.kid kid)

  unfoldable pub deactivate : String → M ℕ
  deactivate kid = do
    now ← time_now env
    updates env sign_keys (λ k. str_eq k.kid kid) (retired now)

  unfoldable pub deactivate_all_active : M ℕ
  deactivate_all_active = do now ← time_now env; updates env sign_keys (λ k. k.active) (retired now)
