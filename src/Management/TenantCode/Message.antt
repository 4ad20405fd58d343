-- ===== src/Management/TenantCode/Message.antt =====
-- What the error message of tenant.go says of a tenant code, against the pattern that the code tests:
-- "code must be 3-63 chars, lowercase alphanumeric and hyphens, start/end with alphanumeric".
use Prim.Native.Char.{Char, code}
use Prim.Native.String.{count}
use oidc_demo.Base.{ℕ, ◌+◌, ◌≤◌, String, ◌≡◌, ◌⊎◌}

abbrev Between : Char → Char → Char → Type 0
Between low high c = (code low ≤ code c) × (code c ≤ code high)

-- A lowercase letter or a digit.
abbrev pub Alphanumeric : Char → Type 0
Alphanumeric c = Between "a" "z" c ⊎ Between "0" "9" c

abbrev pub AlphanumericOrHyphen : Char → Type 0
AlphanumericOrHyphen c = Alphanumeric c ⊎ (code c ≡ code "-")

abbrev pub AllChars : (Char → Type 0) → String → Type 0
AllChars P String.[] = Unit
AllChars P (String.◌∷◌ c s) = P c × AllChars P s

abbrev pub StartsWith : (Char → Type 0) → String → Type 0
StartsWith P String.[] = ⊥
StartsWith P (String.◌∷◌ c s) = P c

abbrev pub EndsWith : (Char → Type 0) → String → Type 0
EndsWith P String.[] = ⊥
EndsWith P (String.◌∷◌ c String.[]) = P c
EndsWith P (String.◌∷◌ c (String.◌∷◌ d s)) = EndsWith P (String.◌∷◌ d s)

-- The message.
pub record IsAsDescribed (s : String) : Type 0 where
  pub length : (3 ≤ count s) × (count s ≤ 63)
  pub chars : AllChars AlphanumericOrHyphen s
  pub start : StartsWith Alphanumeric s
  pub end : EndsWith Alphanumeric s

-- What is to follow `n` characters, the first of them aside.
abbrev Rest : ℕ → String → Type 0
Rest n s =
    (2 ≤ n + count s)
    × (n + count s ≤ 62)
    × AllChars AlphanumericOrHyphen s
    × EndsWith Alphanumeric s
