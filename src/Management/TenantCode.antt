-- ===== src/Management/TenantCode.antt =====
-- tenantCodeRegex of tenant.go, `^[a-z0-9][a-z0-9-]{1,61}[a-z0-9]$`: the pattern, and its matcher.
pub mod Pattern
pub mod Message
use Prim.Native.Char.{Char, code}
use Prim.Native.String.{◌∷◌ as cons}
use oidc_demo.Base.{ℕ, suc, String, Bool, true, false, ◌&&◌, ◌||◌, ◌==◌, leb, ltb, if◌then◌else◌}

abbrev pub in_range : ℕ → ℕ → Char → Bool
in_range low high c = leb low (code c) && leb (code c) high

-- `[a-z0-9]`
abbrev pub is_alphanumeric : Char → Bool
is_alphanumeric c = in_range 97 122 c || in_range 48 57 c

-- `[a-z0-9-]`
abbrev pub is_inner : Char → Bool
is_inner c = is_alphanumeric c || code c == 45

abbrev pub is_empty : String → Bool
is_empty String.[] = true
is_empty (String.◌∷◌ c s) = false

-- After the first character and `n` inner ones: the last character ends the text.
unfoldable pub rest_matches : ℕ → String → Bool
rest_matches n String.[] = false
rest_matches n (String.◌∷◌ c s) =
    let rest = rest_matches (suc n) s in
    if is_empty s then leb 1 n && is_alphanumeric c else ltb n 61 && is_inner c && rest

unfoldable pub tenant_code_matches : String → Bool
tenant_code_matches String.[] = false
tenant_code_matches (String.◌∷◌ c s) = is_alphanumeric c && rest_matches 0 s

-- The regular expressions that the pattern needs: a character of a class, a number of characters of a
-- class, and one after the other.
pub data Regex : Type 0 where
  class : (Char → Bool) → Regex
  repeat : (Char → Bool) → ℕ → ℕ → Regex
  follow : Regex → Regex → Regex

abbrev pub tenant_code_regex : Regex
tenant_code_regex =
    follow (class is_alphanumeric) (follow (repeat is_inner 1 61) (class is_alphanumeric))
