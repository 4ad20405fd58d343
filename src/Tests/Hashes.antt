-- ===== src/Tests/Hashes.antt =====
-- An environment in which the hashes of passwords can be read back, and the server runs on them.
use oidc_demo.Base.{ℕ, zero, suc, String, true, [], ◌∷◌, some, length, ◌≡◌, refl, ap, ==_refl}
use oidc_demo.Env.{Env, Bytes}
use oidc_demo.Crypto.Argon2id.{dollar}
use oidc_demo.Crypto.Argon2id.Verified.{HashLaws, IsFree}
use oidc_demo.Tests.Cipher.{strokes, unary, read_from, read-unary, length-replicate}
use oidc_demo.Tests.Example.{env, same_bytes}

abbrev pub hash_env : Env
hash_env = record env { base64_raw_std = unary; base64_raw_std_decode = λ s. some (read_from 0 s) }

same_refl : (bytes : Bytes) → same_bytes bytes bytes ≡ true
same_refl [] = refl
same_refl (b ∷ bytes) = rw (==_refl b, same_refl bytes) refl

strokes-IsFree : (n : ℕ) (s : String) → IsFree dollar s → IsFree dollar (strokes n s)
strokes-IsFree zero s h = (refl, h)
strokes-IsFree (suc n) s h = (refl, strokes-IsFree n s h)

unary-IsFree : (bytes : Bytes) → IsFree dollar (unary bytes)
unary-IsFree [] = tt
unary-IsFree (b ∷ bytes) = strokes-IsFree b (unary bytes) (unary-IsFree bytes)

pub hash_env-HashLaws : HashLaws hash_env
hash_env-HashLaws = record {
  key_length = λ password salt time memory threads size. length-replicate size (length password);
  compare_refl = same_refl;
  base64 = λ bytes. ap some (read-unary bytes);
  base64_free = unary-IsFree;
  sscanf = refl;
}
