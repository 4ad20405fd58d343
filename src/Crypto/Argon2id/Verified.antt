-- ===== src/Crypto/Argon2id/Verified.antt =====
-- argon2id.go: what `hash_password` gives is verified with its password.
use Prim.Native.Char.{Char, code}
use Prim.Native.String.{◌∷◌ as cons}
use text.Mathlib.TextLemmas.{cons-append, nil-append}
use oidc_demo.Base.{
  ℕ, String, true, false, some, List, [], ◌∷◌, ◌≡◌, refl, sym, ap, ◌∙◌, subst, length, join, split,
  ◌==◌,
}
use oidc_demo.Env.{Env, Bytes}
use oidc_demo.World.{World, ok}
use oidc_demo.Outcome.{ensures-bind, ensures-pure}
use oidc_demo.Crypto.Argon2id.{
  dollar, parameters, id_key, encode, hash_password, verify_parts, verify_split, verify_password,
}

-- No character of the text is the separator.
abbrev pub IsFree : ℕ → String → Type 0
IsFree sep String.[] = Unit
IsFree sep (String.◌∷◌ c s) = ((code c == sep) ≡ false) × IsFree sep s

-- What the documentation of the packages says: argon2 gives a key of the length that is asked for,
-- equal slices compare as such, base64 is decoded to what was encoded and has no `$` in its alphabet,
-- and `Sscanf` reads back the parameters that were written.
pub record HashLaws (env : Env) : Type 0 where
  pub key_length :
      (password salt : Bytes) (time memory threads size : ℕ)
      → length (env.argon2_id_key password salt time memory threads size) ≡ size
  pub compare_refl : (bytes : Bytes) → env.constant_time_compare bytes bytes ≡ true
  pub base64 : (bytes : Bytes) → env.base64_raw_std_decode (env.base64_raw_std bytes) ≡ some bytes
  pub base64_free : (bytes : Bytes) → IsFree dollar (env.base64_raw_std bytes)
  pub sscanf : env.sscanf_parameters parameters ≡ some (65536, 3, 4)

-- The part before a separator is split off.
split-join :
    (sep : ℕ) (c : Char) (a b : String)
    → (code c == sep) ≡ true
    → IsFree sep a
    → split sep (join a (cons c b)) ≡ a ∷ split sep b
unfolding split
split-join sep c String.[] b is h = rw (nil-append (cons c b), is) refl
split-join sep c (String.◌∷◌ d a) b is (off, h) =
    rw (cons-append d a (cons c b), split-join sep c a b is h, off) refl

split-free : (sep : ℕ) (a : String) → IsFree sep a → split sep a ≡ a ∷ []
unfolding split
split-free sep String.[] h = refl
split-free sep (String.◌∷◌ d a) (off, h) = rw (split-free sep a h, off) refl

abbrev dollar_char : Char
dollar_char = "$"

-- The text after a separator.
at_dollar :
    (a b : String) → IsFree dollar a → split dollar (join a (join "$" b)) ≡ a ∷ split dollar b
at_dollar a b h =
    ap (λ t. split dollar (join a t))
      (cons-append dollar_char String.[] b ∙ ap (λ t. cons dollar_char t) (nil-append b))
    ∙ split-join dollar dollar_char a b refl h

abbrev then_parts : {a : String} {xs ys : List String} → xs ≡ ys → a ∷ xs ≡ a ∷ ys
then_parts {a} e = ap (λ t. a ∷ t) e

module _ (env : Env) (laws : HashLaws env) where
  parts :
      (salt hash : Bytes)
      → split dollar (encode env salt hash)
        ≡ ""
          ∷ "argon2id"
          ∷ "v=19"
          ∷ parameters
          ∷ env.base64_raw_std salt
          ∷ env.base64_raw_std hash
          ∷ []
  unfolding encode
  parts salt hash =
      ap (λ t. split dollar t) (sym (nil-append _))
      ∙ at_dollar "" _ tt
      ∙ then_parts (
          at_dollar "argon2id" _ (refl, (refl, (refl, (refl, (refl, (refl, (refl, (refl, tt))))))))
          ∙ then_parts (
              at_dollar "v=19" _ (refl, (refl, (refl, (refl, tt))))
              ∙ then_parts (
                  at_dollar parameters _ parameters_free
                  ∙ then_parts (
                      at_dollar (env.base64_raw_std salt) _ (laws.base64_free salt)
                      ∙ then_parts (split-free dollar _ (laws.base64_free hash))))))
    where
      parameters_free : IsFree dollar parameters
      parameters_free = (
        refl,
        (
          refl,
          (
            refl,
            (
              refl,
              (
                refl,
                (refl, (refl, (refl, (refl, (refl, (refl, (refl, (refl, (refl, (refl, tt)))))))))),
              ),
            ),
          ),
        ),
      )

  same_key :
      (password : String) (salt : Bytes)
      → verify_parts env password parameters
          (env.base64_raw_std salt)
          (env.base64_raw_std (id_key env password salt))
        ≡ some true
  unfolding verify_parts id_key
  same_key password salt =
      rw (laws.sscanf, laws.base64 salt, laws.base64 (id_key env password salt))
        (ap some (
          subst
            (λ n.
              env.constant_time_compare
                (env.argon2_id_key (env.text_bytes password) salt 3 65536 4 n)
                (id_key env password salt)
              ≡ true)
            (sym (laws.key_length (env.text_bytes password) salt 3 65536 4 32))
            (laws.compare_refl (id_key env password salt))))

  verified :
      (password : String) (salt : Bytes)
      → verify_password env password (encode env salt (id_key env password salt)) ≡ some true
  unfolding verify_password verify_split
  verified password salt =
      ap (λ xs. verify_split env password xs) (parts salt (id_key env password salt))
      ∙ same_key password salt

  -- If a password is hashed, the text that comes out is verified with that password.
  pub verify_password-hash_password :
      (password encoded : String) (w v : World)
      → hash_password env password w ≡ (ok encoded, v)
      → verify_password env password encoded ≡ some true
  unfolding hash_password
  verify_password-hash_password password encoded w v run =
      (ensures-bind {Q = λ e _. verify_password env password e ≡ some true}
          (record { at = λ a u e. tt }) λ salt u t. ensures-pure _ u _ (verified password salt)).at
        encoded v run
