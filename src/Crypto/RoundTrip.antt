-- ===== src/Crypto/RoundTrip.antt =====
-- aes.go: what `encrypt` gives is what `decrypt` takes.
use oidc_demo.Base.{
  ℕ, String, Bool, true, false, Option, none, some, [], ◌∷◌, ◌++◌, length, ◌≡◌, refl, sym, ap, not,
  ◌==◌, ltb, arith,
}
use oidc_demo.Env.{Env, Bytes}
use oidc_demo.World.{World, ok, rand_read, or_internal}
use oidc_demo.Outcome.{Ensures, ensures-bind, ensures-raise_if, ensures-pure}
use oidc_demo.Crypto.{encrypt, decrypt, take, drop}

-- What the documentation of encoding/base64, crypto/cipher and crypto/rand says of their calls.
pub record CipherLaws (env : Env) : Type 0 where
  pub base64 : (bytes : Bytes) → env.base64_decode (env.base64_encode bytes) ≡ some bytes
  pub gcm :
      (key nonce text : Bytes) → env.gcm_open key nonce (env.gcm_seal key nonce text) ≡ some text
  pub rand : (n size : ℕ) (bytes : Bytes) → env.rand_read n size ≡ some bytes → length bytes ≡ size

take-append : (xs ys : Bytes) → take (length xs) (xs ++ ys) ≡ xs
take-append [] ys = refl
take-append (x ∷ xs) ys = ap (λ t. x ∷ t) (take-append xs ys)

drop-append : (xs ys : Bytes) → drop (length xs) (xs ++ ys) ≡ ys
drop-append [] ys = refl
drop-append (x ∷ xs) ys = drop-append xs ys

length-append : (xs ys : Bytes) → ltb (length (xs ++ ys)) (length xs) ≡ false
length-append [] ys = ground arith
length-append (x ∷ xs) ys = let rest = length-append xs ys in ground arith

negated : (b : Bool) → not b ≡ false → b ≡ true
negated b h = ground arith

module _ (env : Env) (laws : CipherLaws env) where
  or_internal-ok :
      (o : Option Bytes) (w : World) {a : Bytes} {v : World}
      → or_internal env o w ≡ (ok a, v)
      → o ≡ some a
  or_internal-ok none w h = absurd (cc)
  or_internal-ok (some x) w h = cc

  ensures-rand_read :
      (size : ℕ) (w : World) → Ensures (rand_read env size) w (λ bytes _. length bytes ≡ size)
  unfolding rand_read
  ensures-rand_read size w = record {
    at = λ bytes v run.
        laws.rand w.tick size bytes (or_internal-ok (env.rand_read w.tick size) _ run);
  }

  opened :
      (key nonce text : Bytes)
      → length key ≡ 32
      → length nonce ≡ env.gcm_nonce_size
      → decrypt env (env.base64_encode (nonce ++ env.gcm_seal key nonce text)) key ≡ some text
  unfolding decrypt
  opened key nonce text hk hn =
      rw
        (
          hk,
          laws.base64 (nonce ++ env.gcm_seal key nonce text),
          sym hn,
          length-append nonce (env.gcm_seal key nonce text),
          take-append nonce (env.gcm_seal key nonce text),
          drop-append nonce (env.gcm_seal key nonce text),
        )
        (laws.gcm key nonce text)

  is_32 : (n : ℕ) → not (n == 32) ≡ false → n ≡ 32
  is_32 n h = ground arith

  -- If `encrypt` succeeds, `decrypt` under the same key gives the plaintext back.
  pub decrypt-encrypt :
      (text key : Bytes) (encrypted : String) (w v : World)
      → encrypt env text key w ≡ (ok encrypted, v)
      → decrypt env encrypted key ≡ some text
  unfolding encrypt
  decrypt-encrypt text key encrypted w v run =
      (ensures-bind {Q = λ s _. decrypt env s key ≡ some text} (ensures-raise_if _ _ w) λ u w1 e1.
          ensures-bind (ensures-rand_read env.gcm_nonce_size w1)
            λ nonce w2 size. ensures-pure _ w2 _ (opened key nonce text (is_32 _ e1.0) size)).at
        encrypted v run
