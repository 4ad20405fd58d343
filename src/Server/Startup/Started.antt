-- ===== src/Server/Startup/Started.antt =====
-- What holds when the server begins to answer.
use Prim.Native.Char.{Char, code}
use Prim.Native.String.{◌∷◌ as cons}
use text.Mathlib.TextLemmas.{cons-append, nil-append}
use oidc_demo.Base.{
  ℕ, zero, suc, String, Bool, true, false, Option, none, some, [], keep, is_some, strip_prefix, ◌≡◌,
  ◌≢◌, refl, sym, ap, ◌∙◌, subst, length, join, ◌==◌, ◌&&◌, str_eq, eq_iff, arith, Bool-cases, inl,
  inr, ==→eq, if◌then◌else◌,
}
use text.Mathlib.TextEquality.{Char-path}
use oidc_demo.Env.{Env, Bytes}
use oidc_demo.Gorm.{GormLaws}
use oidc_demo.World.{World, Result, ok, err, internal, lift, map_err}
use oidc_demo.Outcome.{Ensures, ensures-bind, ensures-pure, ensures-map_err, ensures-or_raise}
use oidc_demo.Jwt.Ensured.{ensures-signing_key}
use oidc_demo.Oidc.Config.{Config}
use oidc_demo.Server.Startup.{checked_key, new_key_service, handlers_config, start_up}
use oidc_demo.Config as Settings
use oidc_demo.Config.{trim_right, slash, load, is_empty, is_secure}

-- The last character of the text is this one.
abbrev pub ends_with : ℕ → String → Bool
ends_with sep String.[] = false
ends_with sep (String.◌∷◌ c s) = if is_empty s then code c == sep else ends_with sep s

no_end :
    (sep : ℕ) (c : Char) (rest : String)
    → ends_with sep rest ≡ false
    → ends_with sep (if is_empty rest && code c == sep then String.[] else cons c rest) ≡ false
no_end sep c String.[] h = elim (Bool-cases (code c == sep)) [ inl e ↦ rw e refl | inr e ↦ rw e e ]
no_end sep c (String.◌∷◌ d s) h = h

pub trimmed : (sep : ℕ) (s : String) → ends_with sep (trim_right sep s) ≡ false
unfolding trim_right
trimmed sep String.[] = refl
trimmed sep (String.◌∷◌ c s) = no_end sep c (trim_right sep s) (trimmed sep s)

abbrev pub repeated : ℕ → Char → String → String
repeated zero c s = s
repeated (suc n) c s = cons c (repeated n c s)

abbrev slash_char : Char
slash_char = "/"

-- A text is what is left and the slashes that are cut off.
abbrev IsCut : String → String → Type 0
IsCut s rest = (n : ℕ) × (s ≡ join rest (repeated n slash_char String.[]))

keep_char : (c : Char) (s rest : String) → IsCut s rest → IsCut (cons c s) (cons c rest)
keep_char c s rest (n, e) = (n, ap (λ t. cons c t) e ∙ sym (cons-append c rest _))

IsCut-char :
    (c : Char) (s : String) → code c ≡ slash → IsCut s String.[] → IsCut (cons c s) String.[]
IsCut-char c s is (n, e) = (
  suc n,
  ap (λ d. cons d s) (Char-path c slash_char is)
      ∙ ap (λ t. cons slash_char t) (e ∙ nil-append _)
      ∙ sym (nil-append _),
)

IsCut-step :
    (c : Char) (s rest : String)
    → IsCut s rest
    → IsCut (cons c s) (if is_empty rest && code c == slash then String.[] else cons c rest)
IsCut-step c s String.[] h = elim (Bool-cases (code c == slash)) [
  | inl e ↦ rw e (IsCut-char c s (==→eq (code c) slash e) h)
  | inr e ↦ rw e (keep_char c s String.[] h)
]
IsCut-step c s (String.◌∷◌ d rest) h = keep_char c s (cons d rest) h

cut : (s : String) → IsCut s (trim_right slash s)
unfolding trim_right
cut String.[] = (0, sym (nil-append String.[]))
cut (String.◌∷◌ c s) = IsCut-step c s (trim_right slash s) (cut s)

-- All five variables are set.
pub record IsGiven (getenv : String → String) : Type 0 where
  pub port : getenv "OP_BACKEND_PORT" ≢ ""
  pub dsn : getenv "OP_BACKEND_DSN" ≢ ""
  pub base_url : getenv "OP_BACKEND_BASE_URL" ≢ ""
  pub key : getenv "OP_KEY_ENCRYPTION_KEY" ≢ ""
  pub frontend : getenv "OP_FRONTEND_BASE_URL" ≢ ""

nonempty : (s : String) → str_eq s "" ≡ false → s ≢ ""
nonempty s h e = ground (arith, eq_iff s "")

passed :
    {A : Type 0} (b : Bool) (e : String) (r : Result String A) (a : A)
    → (if b then err e else r) ≡ ok a
    → (b ≡ false) × (r ≡ ok a)
passed true e r a h = absurd (cc)
passed false e r a h = (refl, h)

-- What `load` has found, and the settings that it gives.
loaded :
    (getenv : String → String) (cfg : Settings.Config)
    → load getenv ≡ ok cfg
    → IsGiven getenv
      × (cfg.base_url ≡ trim_right slash (getenv "OP_BACKEND_BASE_URL"))
      × (cfg.key_encryption_key ≡ getenv "OP_KEY_ENCRYPTION_KEY")
unfolding load
loaded getenv cfg h =
    let (a, h1) = passed _ _ _ cfg h in
    let (b, h2) = passed _ _ _ cfg h1 in
    let (c, h3) = passed _ _ _ cfg h2 in
    let (d, h4) = passed _ _ _ cfg h3 in
    let (e, h5) = passed _ _ _ cfg h4 in
    (
      record {
        port = nonempty _ a;
        dsn = nonempty _ b;
        base_url = nonempty _ c;
        key = nonempty _ d;
        frontend = nonempty _ e;
      },
      sym (ap base_of h5),
      sym (ap key_of h5),
    )
  where
    base_of : Result String Settings.Config → String
    base_of (ok x) = x.base_url
    base_of (err e) = trim_right slash (getenv "OP_BACKEND_BASE_URL")

    key_of : Result String Settings.Config → String
    key_of (ok x) = x.key_encryption_key
    key_of (err e) = getenv "OP_KEY_ENCRYPTION_KEY"

-- The server as it begins to answer.
pub record IsStarted (env : Env) (getenv : String → String) (config : Config) (v : World)
    : Type 0 where
  pub given : IsGiven getenv
  pub issuer_cut : IsCut (getenv "OP_BACKEND_BASE_URL") config.issuer_base_url
  pub no_slash : ends_with slash config.issuer_base_url ≡ false
  pub secure : config.is_secure ≡ is_some (strip_prefix "https://" config.issuer_base_url)
  pub key_read : env.hex_decode (getenv "OP_KEY_ENCRYPTION_KEY") ≡ some config.enc_key
  pub key_size : length config.enc_key ≡ 32
  pub has_key : keep (λ k. k.active) v.sign_keys ≢ []

read_key :
    (o : Option Bytes) (key : Bytes) → checked_key o ≡ some key → (o ≡ some key) × (length key ≡ 32)
read_key none key h = absurd (cc)
read_key (some bytes) key h = of_size (length bytes == 32) (==→eq (length bytes) 32) h
  where
    of_size :
        (b : Bool)
        → (b ≡ true → length bytes ≡ 32)
        → ◌≡◌ {A = Option Bytes} (if b then some bytes else none) (some key)
        → (◌≡◌ {A = Option Bytes} (some bytes) (some key)) × (length key ≡ 32)
    of_size true size e =
        let same : bytes ≡ key = cc in (e, subst (λ x. length x ≡ 32) same (size refl))
    of_size false size e = absurd (cc)

module _ (env : Env) (laws : GormLaws env.gorm) where
  ensures-load :
      (getenv : String → String) (w : World)
      → Ensures
          (map_err (λ (e : String). internal) (lift (load getenv)))
          w
          (λ cfg v. load getenv ≡ ok cfg)
  unfolding lift
  ensures-load getenv w = ensures-map_err _ (record { at = λ cfg v run. ap (λ x. x.0) run })

  -- If the program comes to answer requests, all five settings were given; the issuer is the setting
  -- without the slashes at its end, and ends with none; cookies are secure exactly if the issuer
  -- starts with https://; the encryption key has 32 bytes; and some signing key is active.
  pub start_up-IsStarted :
      (getenv : String → String) (w : World) (config : Config) (v : World)
      → start_up env getenv w ≡ (ok config, v)
      → IsStarted env getenv config v
  unfolding start_up new_key_service handlers_config is_secure
  start_up-IsStarted getenv w config v run =
      (ensures-bind {Q = λ c x. IsStarted env getenv c x} (ensures-load getenv w) λ cfg w1 e1.
          ensures-bind (ensures-or_raise _ _ w1) λ key w2 e2.
            ensures-bind (ensures-signing_key env key laws w2) λ u w3 active.
              let (given, base, secret) = loaded getenv cfg e1 in
              let (decoded, size) = read_key (env.hex_decode cfg.key_encryption_key) key e2.0 in
              ensures-pure _ w3 _ (record {
                given = given;
                issuer_cut =
                    subst (λ s. IsCut (getenv "OP_BACKEND_BASE_URL") s) (sym base)
                      (cut (getenv "OP_BACKEND_BASE_URL"));
                no_slash = ap (ends_with slash) base ∙ trimmed slash (getenv "OP_BACKEND_BASE_URL");
                secure = refl;
                key_read = ap env.hex_decode (sym secret) ∙ decoded;
                key_size = size;
                has_key = active;
              })).at
        config v run
