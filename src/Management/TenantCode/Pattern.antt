-- ===== src/Management/TenantCode/Pattern.antt =====
-- The matcher of tenantCodeRegex accepts what its pattern describes.
use Prim.Native.Char.{Char}
use Prim.Native.String.{count, ◌∷◌ as cons}
use text.Mathlib.TextLemmas.{cons-append, nil-append, length-nil, length-cons}
use oidc_demo.Base.{
  ℕ, suc, ◌+◌, ◌≤◌, String, Bool, true, false, ◌≡◌, refl, sym, ap, ◌∙◌, subst, ◌↔◌, &&_left,
  &&_right, ◌&&◌, leb, ltb, join, arith,
}
use oidc_demo.Management.TenantCode.{
  Regex, class, repeat, follow, tenant_code_regex, tenant_code_matches, rest_matches, is_inner,
  is_alphanumeric, is_empty,
}

abbrev AllChars : (Char → Bool) → String → Type 0
AllChars p String.[] = Unit
AllChars p (String.◌∷◌ c s) = (p c ≡ true) × AllChars p s

-- What each expression describes.
abbrev pub Describes : Regex → String → Type 0
Describes (class p) s = (c : Char) × (p c ≡ true) × (s ≡ cons c String.[])
Describes (repeat p low high) s = AllChars p s × (low ≤ count s) × (count s ≤ high)
Describes (follow a b) s =
    (x : String) × (y : String) × Describes a x × Describes b y × (s ≡ join x y)

-- What is to follow `n` inner characters.
abbrev Rest : ℕ → String → Type 0
Rest n s =
    (m : String) × (d : Char) × AllChars is_inner m
    × (1 ≤ n + count m)
    × (n + count m ≤ 61)
    × (is_alphanumeric d ≡ true)
    × (s ≡ join m (cons d String.[]))

one_more : (n : ℕ) (c : Char) (s : String) → is_inner c ≡ true → Rest (suc n) s → Rest n (cons c s)
one_more n c s h (m, d, inner, low, high, last, e) = (
  cons c m,
  d,
  (h, inner),
  omega (arith, length-cons c m),
  omega (arith, length-cons c m),
  last,
  ap (λ t. cons c t) e ∙ sym (cons-append c m _),
)

room : (n : ℕ) → ltb n 61 ≡ true → suc n ≤ 61
room n h = ground arith

below : (n k : ℕ) → n + suc k ≤ 61 → ltb n 61 ≡ true
below n k h = ground arith

both : (a b : Bool) → a ≡ true → b ≡ true → (a && b) ≡ true
both a b ha hb = ground arith

Rest-sound : (n : ℕ) (s : String) → n ≤ 61 → rest_matches n s ≡ true → Rest n s
unfolding rest_matches
Rest-sound n String.[] le h = absurd (cc)
Rest-sound n (String.◌∷◌ c String.[]) le h = (
  String.[],
  c,
  tt,
  ground (arith, length-nil),
  ground (arith, length-nil),
  &&_right _ _ h,
  sym (nil-append (cons c String.[])),
)
Rest-sound n (String.◌∷◌ c (String.◌∷◌ d s)) le h =
    one_more n c (cons d s) (&&_right _ _ (&&_left _ _ h))
      (Rest-sound (suc n) (cons d s) (room n (&&_left _ _ (&&_left _ _ h))) (&&_right _ _ h))

open_end : (m : String) (d : Char) → is_empty (join m (cons d String.[])) ≡ false
open_end String.[] d = ap is_empty (nil-append (cons d String.[]))
open_end (String.◌∷◌ c m) d = ap is_empty (cons-append c m (cons d String.[]))

-- One step of the matcher, where the text goes on.
go_on :
    (n : ℕ) (c : Char) (s : String)
    → is_empty s ≡ false
    → rest_matches n (cons c s) ≡ (ltb n 61 && is_inner c && rest_matches (suc n) s)
unfolding rest_matches
go_on n c s h = rw h refl

all_true : (a b c : Bool) → a ≡ true → b ≡ true → c ≡ true → (a && b && c) ≡ true
all_true a b c ha hb hc = ground arith

rest_complete :
    (n : ℕ) (m : String) (d : Char)
    → AllChars is_inner m
    → 1 ≤ n + count m
    → n + count m ≤ 61
    → is_alphanumeric d ≡ true
    → rest_matches n (join m (cons d String.[])) ≡ true
unfolding rest_matches
rest_complete n String.[] d inner low high last =
    rw (nil-append (cons d String.[])) (both (leb 1 n) _ (ground (arith, length-nil)) last)
rest_complete n (String.◌∷◌ c m) d (h, inner) low high last =
    rw (cons-append c m (cons d String.[]), go_on n c (join m (cons d String.[])) (open_end m d))
      (all_true _ _ _ (below n (count m) (omega (arith, length-cons c m))) h
        (rest_complete (suc n) m d inner (omega arith) (omega (arith, length-cons c m)) last))

-- The matcher accepts exactly the texts that the regular expression of the source describes.
pub tenant_code_matches-Describes :
    (s : String) → (tenant_code_matches s ≡ true) ↔ Describes tenant_code_regex s
unfolding tenant_code_matches
tenant_code_matches-Describes s = (to s, from s)
  where
    to : (s : String) → tenant_code_matches s ≡ true → Describes tenant_code_regex s
    to String.[] h = absurd (cc)
    to (String.◌∷◌ c s) h =
        let (m, d, inner, low, high, last, e) =
          Rest-sound 0 s (omega arith) (&&_right (is_alphanumeric c) _ h) in
        (
          cons c String.[],
          s,
          (c, &&_left _ _ h, refl),
          (m, cons d String.[], (inner, omega arith, omega arith), (d, last, refl), e),
          sym (cons-append c String.[] s ∙ ap (λ t. cons c t) (nil-append s)),
        )

    from : (s : String) → Describes tenant_code_regex s → tenant_code_matches s ≡ true
    from s (x, y, (c, first, ex), (m, z, (inner, low, high), (d, last, ez), ey), e) =
        subst (λ t. tenant_code_matches t ≡ true)
          (sym (
            e
            ∙ ap (λ t. join t y) ex
            ∙ cons-append c String.[] y
            ∙ ap (λ t. cons c t) (nil-append y ∙ ey ∙ ap (λ t. join m t) ez)))
          (both _ _ first (rest_complete 0 m d inner (omega arith) (omega arith) last))
