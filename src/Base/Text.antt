-- ===== src/Base/Text.antt =====
-- `strings.Split` at a one-character separator, and the search of a list of texts.
use Prim.Native.Nat.{ℕ}
use Prim.Native.Char.{Char, code}
use Prim.Native.String.{String}
use mathlib.Core.Bool.{Bool, true, false}
use mathlib.Core.Option.{Option, none, some}
use mathlib.Core.List.{List, [], ◌∷◌}
use oidc_demo.Base.Tests.{◌==◌, str_eq, if◌then◌else◌}

-- Puts a character in front of the first part.
abbrev grow : Char → List String → List String
grow c [] = String.◌∷◌ c String.[] ∷ []
grow c (part ∷ parts) = String.◌∷◌ c part ∷ parts

unfoldable pub split : ℕ → String → List String
split sep String.[] = String.[] ∷ []
split sep (String.◌∷◌ c s) =
    let rest = split sep s in if code c == sep then String.[] ∷ rest else grow c rest

unfoldable pub contains : List String → String → Bool
contains [] target = false
contains (s ∷ scopes) target = if str_eq s target then true else contains scopes target

-- What follows a prefix: `strings.HasPrefix` and `strings.TrimPrefix`.
unfoldable pub strip_prefix : String → String → Option String
strip_prefix String.[] s = some s
strip_prefix (String.◌∷◌ c prefix) String.[] = none
strip_prefix (String.◌∷◌ c prefix) (String.◌∷◌ d s) =
    let rest = strip_prefix prefix s in if code c == code d then rest else none
