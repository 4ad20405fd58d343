-- ===== src/Env.antt =====
-- What the backend calls and the repository does not hold: gorm and PostgreSQL, the clock, the
-- random source, and the cryptography, JWT, PEM and URL packages. Every definition of the model
-- takes these as one argument. A function that may answer differently each time takes the number of
-- the call, and `none` is an error.
use oidc_demo.Base.{ℕ, ℤ, String, Bool, Option, List}
use oidc_demo.Model.{Uuid, Time, Jwt, Jwk}
use oidc_demo.Gorm.{Gorm}

abbrev pub Bytes : Type 0
Bytes = List ℕ

pub record Env : Type 1 where
  pub gorm : Gorm
  pub now : ℕ → Time
  pub rand_read : ℕ → ℕ → Option Bytes
  pub new_uuid : ℕ → String
  pub uuid_string : Uuid → String
  pub uuid_parse : String → Option Uuid
  -- crypto/sha256, encoding/hex and encoding/base64
  pub sha256 : String → Bytes
  pub hex_encode : Bytes → String
  pub hex_decode : String → Option Bytes
  pub base64_raw_url : Bytes → String
  pub base64_encode : Bytes → String
  pub base64_decode : String → Option Bytes
  -- AES-256-GCM under a 32-byte key: nonce, then the text
  pub gcm_nonce_size : ℕ
  pub gcm_seal : Bytes → Bytes → Bytes → Bytes
  pub gcm_open : Bytes → Bytes → Bytes → Option Bytes
  -- crypto/rsa, crypto/x509 and encoding/pem: a private key in its PKCS #1 bytes
  pub rsa_generate_key : ℕ → Option Bytes
  pub rsa_public_key : Bytes → Option Bytes
  pub pem_encode : String → Bytes → Bytes
  pub pem_decode : Bytes → Option Bytes
  pub parse_private_key : Bytes → Option Bytes
  pub parse_public_key : Bytes → Option Bytes
  pub bytes_text : Bytes → String
  pub text_bytes : String → Bytes
  pub format_date : Time → String
  pub format_rfc3339 : Time → String
  -- lestrrat-go/jwx: `jwt.Sign` with the key id in the header, and `jwt.Parse` with a key set
  pub jwt_sign : String → Bytes → Jwt → Option String
  pub jwt_parse : ℕ → List Jwk → String → Option Jwt
  -- argon2.IDKey: password, salt, time, memory, threads and length of the key; its output is
  -- compared by crypto/subtle, written in base64 without padding, and its parameters are read by
  -- `fmt.Sscanf(text, "m=%d,t=%d,p=%d", &memory, &time, &threads)`
  pub argon2_id_key : Bytes → Bytes → ℕ → ℕ → ℕ → ℕ → Bytes
  pub constant_time_compare : Bytes → Bytes → Bool
  pub base64_raw_std : Bytes → String
  pub base64_raw_std_decode : String → Option Bytes
  pub sscanf_parameters : String → Option (ℕ × ℕ × ℕ)
  -- `strconv.Atoi`
  pub atoi : String → Option ℤ
  -- net/url: whether `Parse` reads the address, and three parts of what it reads
  pub url_parses : String → Bool
  pub url_fragment : String → String
  pub url_scheme : String → String
  pub url_host : String → String
