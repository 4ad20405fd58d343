-- ===== src/Crypto/Argon2id.antt =====
-- argon2id.go: the hash of a password, and its verification.
pub mod Verified
use oidc_demo.Base.{
  ℕ, String, Bool, Option, none, some, List, [], ◌∷◌, length, join, split, str_eq, if◌then◌else◌,
}
use oidc_demo.Env.{Env, Bytes}
use oidc_demo.World.{M, rand_read, pure, ◌>>=◌}

-- The separator of the parts, `$`.
abbrev pub dollar : ℕ
dollar = 36

abbrev pub salt_len : ℕ
salt_len = 16

-- The parameters as `Sprintf` writes them. The version of argon2 is 19.
abbrev pub parameters : String
parameters = "m=65536,t=3,p=4"

module _ (env : Env) where
  -- The hash of a password with the parameters of the package.
  unfoldable pub id_key : String → Bytes → Bytes
  id_key password salt = env.argon2_id_key (env.text_bytes password) salt 3 65536 4 32

  unfoldable pub encode : Bytes → Bytes → String
  encode salt hash = join "$" (
      join "argon2id" (
        join "$" (
          join "v=19" (
            join "$" (
              join parameters (
                join "$" (join (env.base64_raw_std salt) (join "$" (env.base64_raw_std hash)))))))))

  unfoldable pub hash_password : String → M String
  hash_password password = do
    salt ← rand_read env salt_len
    pure (encode salt (id_key password salt))

  abbrev compare : String → ℕ × ℕ × ℕ → Bytes → Bytes → Bool
  compare password (memory, time, threads) salt expected_hash =
      env.constant_time_compare
        (env.argon2_id_key (env.text_bytes password) salt time memory threads
          (length expected_hash))
        expected_hash

  abbrev compare_parts : String → Option (ℕ × ℕ × ℕ) → Option Bytes → Option Bytes → Option Bool
  compare_parts password (some p) (some salt) (some expected_hash) =
      some (compare password p salt expected_hash)
  compare_parts password (some p) (some salt) none = none
  compare_parts password (some p) none hash = none
  compare_parts password none salt hash = none

  -- The three parts after the version, `none` where one of them cannot be read.
  unfoldable pub verify_parts : String → String → String → String → Option Bool
  verify_parts password params salt_text hash_text =
      compare_parts password (env.sscanf_parameters params) (env.base64_raw_std_decode salt_text)
        (env.base64_raw_std_decode hash_text)

  -- Six parts: nothing, the algorithm, the version (which is not read), the parameters, salt and hash.
  unfoldable pub verify_split : String → List String → Option Bool
  unfolding verify_parts
  verify_split password (first ∷ algorithm ∷ version ∷ params ∷ salt ∷ hash ∷ []) =
      if str_eq algorithm "argon2id" then verify_parts password params salt hash else none
  verify_split password parts = none

  -- An error is `none`.
  unfoldable pub verify_password : String → String → Option Bool
  unfolding verify_split
  verify_password password encoded = verify_split password (split dollar encoded)
