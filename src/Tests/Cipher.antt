-- ===== src/Tests/Cipher.antt =====
-- An environment whose encoding can be read back, whatever the numbers are.
use Prim.Native.Char.{char, code}
use oidc_demo.Base.{
  ℕ, zero, suc, ◌+◌, String, [], ◌∷◌, some, length, ◌≡◌, refl, sym, ap, Option, ◌∙◌, ◌==◌,
  if◌then◌else◌, arith,
}
use oidc_demo.Env.{Env, Bytes}
use oidc_demo.Crypto.RoundTrip.{CipherLaws}
use oidc_demo.Tests.Example.{env, replicate}

-- A number as strokes, and a stop after it.
abbrev pub strokes : ℕ → String → String
strokes zero s = String.◌∷◌ (char 46 tt) s
strokes (suc n) s = String.◌∷◌ (char 49 tt) (strokes n s)

abbrev pub unary : Bytes → String
unary [] = ""
unary (b ∷ bytes) = strokes b (unary bytes)

abbrev pub read_from : ℕ → String → Bytes
read_from k String.[] = []
read_from k (String.◌∷◌ c s) = if code c == 49 then read_from (suc k) s else k ∷ read_from 0 s

read-strokes : (n k : ℕ) (s : String) → read_from k (strokes n s) ≡ (n + k) ∷ read_from 0 s
read-strokes zero k s = ap (λ m. m ∷ read_from 0 s) (omega arith)
read-strokes (suc n) k s = read-strokes n (suc k) s ∙ ap (λ m. m ∷ read_from 0 s) (omega arith)

pub read-unary : (bytes : Bytes) → read_from 0 (unary bytes) ≡ bytes
read-unary [] = refl
read-unary (b ∷ bytes) =
    read-strokes b 0 (unary bytes)
    ∙ (λ i. (let e : b + 0 ≡ b = omega arith in e i) ∷ read-unary bytes i)

pub length-replicate : (size n : ℕ) → length (replicate size n) ≡ size
length-replicate zero n = refl
length-replicate (suc size) n = ap suc (length-replicate size n)

same : (xs ys : Bytes) → ◌≡◌ {A = Option Bytes} (some xs) (some ys) → xs ≡ ys
same xs ys e = cc

abbrev pub cipher_env : Env
cipher_env = record env {
  base64_encode = unary;
  base64_decode = λ s. some (read_from 0 s);
  gcm_nonce_size = 2;
}

pub cipher_env-CipherLaws : CipherLaws cipher_env
cipher_env-CipherLaws = record {
  base64 = λ bytes. ap some (read-unary bytes);
  gcm = λ key nonce text. refl;
  rand =
      λ n size bytes e. sym (ap length (same (replicate size n) bytes e)) ∙ length-replicate size n;
}
