-- ===== src/Jwt/Keys.antt =====
-- key_service.go. The service's encryption key is an argument, `enc_key`.
use oidc_demo.Base.{String, true, Option, none, some, List, [], ◌∷◌, is_some, if◌then◌else◌}
use Prim.Native.String.{◌++◌ as join}
use oidc_demo.Model.{Uuid, Time, SignKey, Jwk}
use oidc_demo.Env.{Env, Bytes}
use oidc_demo.World.{M, or_raise, rand_read, rsa_key, time_now, pure, internal, ◌>>=◌, ◌>>◌}
use oidc_demo.Crypto.{encrypt, decrypt}
use oidc_demo.Store.SignKeys

-- The row that `generateAndSaveKey` writes.
abbrev new_key : String → String → String → Uuid → Time → SignKey
new_key kid public_key private_key_ref id at = record {
  id = id;
  kid = kid;
  algorithm = "RS256";
  public_key = public_key;
  private_key_ref = private_key_ref;
  active = true;
  created_at = at;
  rotated_at = none;
}

module _ (env : Env) (enc_key : Bytes) where
  unfoldable pub generate_and_save_key : M SignKey
  generate_and_save_key = do
    private_key ← rsa_key env
    encrypted ← encrypt env (env.pem_encode "RSA PRIVATE KEY" private_key) enc_key
    public_bytes ← or_raise (env.rsa_public_key private_key) internal
    random_bytes ← rand_read env 4
    now ← time_now env
    SignKeys.create_key env (
        new_key (join (env.format_date now) (join "-" (env.hex_encode random_bytes)))
          (env.bytes_text (env.pem_encode "PUBLIC KEY" public_bytes)) encrypted)

  unfoldable pub ensure_signing_key : M Unit
  ensure_signing_key = do
    existing ← SignKeys.find_active env
    if is_some existing then pure tt else (do generate_and_save_key; pure tt)

  unfoldable pub rotate_key : M SignKey
  rotate_key = do SignKeys.deactivate_all_active env; generate_and_save_key

  unfoldable pub get_active_signing_key : M (String × Bytes)
  get_active_signing_key = do
    found ← SignKeys.find_active env
    key ← or_raise found internal
    pem ← or_raise (decrypt env key.private_key_ref enc_key) internal
    block ← or_raise (env.pem_decode pem) internal
    private_key ← or_raise (env.parse_private_key block) internal
    pure (key.kid, private_key)

  -- The key as it enters the set; one that cannot be read is skipped.
  unfoldable pub to_jwk : SignKey → Option Jwk
  to_jwk k = elim (env.pem_decode (env.text_bytes k.public_key)) [
    | none ↦ none
    | some block ↦ elim (env.parse_public_key block) [
      | none ↦ none
      | some public_key ↦ some (record {
        public_key = public_key;
        key_id = k.kid;
        algorithm = "RS256";
        key_usage = "sig";
      })
    ]
  ]

  abbrev add_key : Option Jwk → List Jwk → List Jwk
  add_key none keys = keys
  add_key (some k) keys = k ∷ keys

  unfoldable pub jwk_set : List SignKey → List Jwk
  unfolding to_jwk
  jwk_set [] = []
  jwk_set (k ∷ keys) = add_key (to_jwk k) (jwk_set keys)

  unfoldable pub get_jwk_set : M (List Jwk)
  get_jwk_set = do keys ← SignKeys.find_all_active env; pure (jwk_set keys)
