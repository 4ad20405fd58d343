-- ===== src/Auth/Service.antt =====
-- service.go
use oidc_demo.Base.{◌+◌, String, Option, none, some, List, [], ◌∷◌, not, str_eq, if◌then◌else◌}
use oidc_demo.Crypto.Argon2id.{verify_password}
use oidc_demo.Model.{
  Uuid, Time, Tenant, User, Session, Credential, PasswordCredential, LoginInput, LoginOutput,
  is_valid,
}
use oidc_demo.Model.Time.{duration}
use oidc_demo.World.{
  Env, M, invalid_credentials, session_not_found, session_expired, internal, or_raise, raise_if,
  ignore, time_now, pure, ◌>>=◌, ◌>>◌,
}
use oidc_demo.Store.Tenants
use oidc_demo.Store.Users
use oidc_demo.Store.Sessions

abbrev hash_or : Option PasswordCredential → String → String
hash_or none rest = rest
hash_or (some p) rest = p.password_hash

unfoldable pub find_password_hash : List Credential → String
find_password_hash [] = ""
find_password_hash (cred ∷ credentials) =
    let rest = find_password_hash credentials in
    if str_eq cred.kind "password" then hash_or cred.password_credential rest else rest

abbrev pub new_session : User → Tenant → LoginInput → Time → Uuid → Time → Session
new_session user tenant input expires_at id at = record {
  id = id;
  user_id = user.id;
  tenant_id = tenant.id;
  ip_address = input.ip_address;
  user_agent = input.user_agent;
  expires_at = expires_at;
  revoked_at = none;
  created_at = at;
  updated_at = at;
}

module _ (env : Env) where
  -- The user that the input names, once the password is right.
  unfoldable pub check_credentials : LoginInput → M (Tenant × User)
  check_credentials input = do
    found_tenant ← Tenants.find_by_code env input.tenant_code
    tenant ← or_raise found_tenant invalid_credentials
    found_user ← Users.find_by_tenant_and_login_id env tenant.id input.login_id
    user ← or_raise found_user invalid_credentials
    raise_if (not (str_eq user.status "active")) invalid_credentials
    raise_if (str_eq (find_password_hash user.credentials) "") invalid_credentials
    match ←
        or_raise (verify_password env input.password (find_password_hash user.credentials)) internal
    raise_if (not match) invalid_credentials
    pure (tenant, user)

  unfoldable pub login : LoginInput → M LoginOutput
  login input = do
    checked ← check_credentials input
    now ← time_now env
    session ←
        Sessions.create_session env
          (new_session checked.1 checked.0 input (now + duration checked.0.session_lifetime))
    last_login ← time_now env
    ignore (Users.update_last_login_at env checked.1.id last_login)
    pure (record { session_id = session.id; user = checked.1 })

  unfoldable pub validate_session : Uuid → M Session
  validate_session session_id = do
    found ← Sessions.find_by_id env session_id
    session ← or_raise found session_not_found
    now ← time_now env
    raise_if (not (is_valid now session)) session_expired
    pure session
