-- ===== src/Crypto.antt =====
-- op/backend/internal/crypto: aes.go and pkce.go here, argon2id.go in Argon2id.
pub mod RoundTrip
pub mod Argon2id
use oidc_demo.Base.{
  ℕ, zero, suc, String, Bool, Option, none, some, [], ◌∷◌, ◌++◌, length, ◌==◌, ltb, str_eq,
  if◌then◌else◌, not,
}
use oidc_demo.Env.{Env, Bytes}
use oidc_demo.World.{M, raise_if, rand_read, pure, internal, ◌>>=◌, ◌>>◌}

abbrev pub take : ℕ → Bytes → Bytes
take zero bytes = []
take (suc n) [] = []
take (suc n) (b ∷ bytes) = b ∷ take n bytes

abbrev pub drop : ℕ → Bytes → Bytes
drop zero bytes = bytes
drop (suc n) [] = []
drop (suc n) (b ∷ bytes) = drop n bytes

module _ (env : Env) where
  unfoldable pub verify_code_challenge : String → String → Bool
  verify_code_challenge code_verifier code_challenge =
      str_eq (env.base64_raw_url (env.sha256 code_verifier)) code_challenge

  -- The nonce stands in front of the ciphertext.
  unfoldable pub encrypt : Bytes → Bytes → M String
  encrypt plaintext key = do
    raise_if (not (length key == 32)) internal
    nonce ← rand_read env env.gcm_nonce_size
    pure (env.base64_encode (nonce ++ env.gcm_seal key nonce plaintext))

  abbrev open_sealed : Bytes → Bytes → Option Bytes
  open_sealed sealed key =
      if ltb (length sealed) env.gcm_nonce_size
      then none
      else env.gcm_open key (take env.gcm_nonce_size sealed) (drop env.gcm_nonce_size sealed)

  unfoldable pub decrypt : String → Bytes → Option Bytes
  decrypt encrypted key =
      if length key == 32
      then elim (env.base64_decode encrypted) [ none ↦ none | some sealed ↦ open_sealed sealed key ]
      else none
