-- ===== src/Base/Lists.antt =====
-- A table is the list of its rows. What a statement reads and writes in it, and the lemmas on the
-- first row that passes a test.
use Prim.Native.Nat.{ℕ, zero, suc}
use mathlib.Core.Path.{◌≡◌, refl, sym, ◌∙◌, subst}
use mathlib.Core.Bool.{Bool, true, false}
use mathlib.Core.Option.{Option, none, some}
use mathlib.Core.Option
use mathlib.Core.Logic.{inl, inr}
use mathlib.Core.List.{List, [], ◌∷◌, map}
use native.Mathlib.Omega.{arith}
use oidc_demo.Base.Tests.{if◌then◌else◌, Bool-cases, Option-cases}

module _ {ℓ} {A : Type ℓ} where
  abbrev pub length : List A → ℕ
  length [] = 0
  length (x ∷ xs) = suc (length xs)

  -- The first row that passes a test.
  abbrev pub find? : (A → Bool) → List A → Option A
  find? p [] = none
  find? p (x ∷ xs) = if p x then some x else find? p xs

  -- The rows that pass a test.
  abbrev pub keep : (A → Bool) → List A → List A
  keep p [] = []
  keep p (x ∷ xs) = let rest = keep p xs in if p x then x ∷ rest else rest

  abbrev pub take_rows : ℕ → List A → List A
  take_rows zero xs = []
  take_rows (suc n) [] = []
  take_rows (suc n) (x ∷ xs) = x ∷ take_rows n xs

  abbrev pub drop_rows : ℕ → List A → List A
  drop_rows zero xs = xs
  drop_rows (suc n) [] = []
  drop_rows (suc n) (x ∷ xs) = drop_rows n xs

  -- The row that an update leaves.
  abbrev pub change : (A → Bool) → (A → A) → A → A
  change p f x = if p x then f x else x

  abbrev pub any : (A → Bool) → List A → Bool
  any p [] = false
  any p (x ∷ xs) = if p x then true else any p xs

  abbrev pub All {κ} : (A → Type κ) → List A → Type κ
  All P [] = Unit
  All P (x ∷ xs) = P x × All P xs

  -- `ys` is `xs` with the row `r` put in somewhere.
  pub data Insert (r : A) : List A → List A → Type ℓ where
    here : {xs : List A} → Insert r xs (r ∷ xs)
    there : {x : A} {xs ys : List A} → Insert r xs ys → Insert r (x ∷ xs) (x ∷ ys)

  -- The first row that passes `p` has the mark `q`.
  abbrev pub has_mark : (A → Bool) → Option A → Bool
  has_mark q none = false
  has_mark q (some r) = q r

  abbrev pub marked : (A → Bool) → (A → Bool) → List A → Bool
  marked p q t = has_mark q (find? p t)

  has_mark-map :
      (q : A → Bool) (f : A → A) (o : Option A)
      → ((r : A) → q r ≡ true → q (f r) ≡ true)
      → has_mark q o ≡ true
      → has_mark q (Option.map f o) ≡ true
  has_mark-map q f none keeps h = h
  has_mark-map q f (some r) keeps h = keeps r h

  pub find-map :
      (p : A → Bool) (f : A → A) (t : List A)
      → ((r : A) → p (f r) ≡ p r)
      → find? p (map f t) ≡ Option.map f (find? p t)
  find-map p f [] same = refl
  find-map p f (x ∷ xs) same = elim (Bool-cases (p x)) [
    | inl e ↦ rw (same x, e)
    | inr e ↦ rw (same x, e) (find-map p f xs same)
  ]

  pub find-holds : (p : A → Bool) (t : List A) (r : A) → find? p t ≡ some r → p r ≡ true
  find-holds p [] r h = cc
  find-holds p (x ∷ xs) r h = ground (arith, find-holds p xs r)

  -- The row that is found is one of the table's.
  pub found-All {κ} :
      (P : A → Type κ) (p : A → Bool) (ts : List A) (t : A) → All P ts → find? p ts ≡ some t → P t
  found-All P p [] t all h = absurd (cc)
  found-All P p (x ∷ xs) t (px, all) h = elim (Bool-cases (p x)) [
    | inl e ↦ let same : x ≡ t = cc in subst P same px
    | inr e ↦ found-All P p xs t all (cc)
  ]

  -- Rows that are replaced by one that has a property.
  pub replaced-All {κ} :
      (P : A → Type κ) (p : A → Bool) (t : A) (ts : List A)
      → P t
      → All P ts
      → All P (map (change p (λ x. t)) ts)
  replaced-All P p t [] pt all = tt
  replaced-All P p t (x ∷ xs) pt (px, all) = (at_row (p x), replaced-All P p t xs pt all)
    where
      at_row : (b : Bool) → P (if b then t else x)
      at_row true = pt
      at_row false = px

  pub find-Insert :
      (p : A → Bool) {r : A} {t t' : List A} → p r ≡ false → Insert r t t' → find? p t' ≡ find? p t
  find-Insert p off here = rw off
  find-Insert p off (there {x = y} i) = rw (find-Insert p off i)

  -- A row that clashes with no row of the table is not found by a key of a row that is there.
  pub fresh-key :
      (p clash : A → Bool) (t : List A) (s : A)
      → find? p t ≡ some s
      → find? clash t ≡ none
      → clash s ≡ false
  fresh-key p clash [] s h n = cc
  fresh-key p clash (x ∷ xs) s h n = ground (arith, fresh-key p clash xs s)

  -- A new row that clashes with every row of its own key is found by that key.
  pub find-added :
      (p clash : A → Bool) {r : A} {t t' : List A}
      → ((s : A) → p s ≡ true → clash s ≡ true)
      → p r ≡ true
      → find? clash t ≡ none
      → Insert r t t'
      → find? p t' ≡ some r
  find-added p clash same on fresh here = rw on refl
  find-added p clash same on fresh (there {x = y} i) = elim (Bool-cases (clash y)) [
    | inl hit ↦ let found : some y ≡ none = sym (rw hit refl) ∙ fresh in absurd (cc)
    | inr miss ↦ elim (Bool-cases (p y)) [
      | inl e ↦ let hit = same y e in absurd (cc)
      | inr off ↦ rw off (find-added p clash same on (sym (rw miss refl) ∙ fresh) i)
    ]
  ]

  -- An update that keeps the key and the mark of every row keeps the mark of the found row.
  pub marked-map :
      (p q : A → Bool) (f : A → A) (t : List A)
      → ((r : A) → p (f r) ≡ p r)
      → ((r : A) → q r ≡ true → q (f r) ≡ true)
      → marked p q t ≡ true
      → marked p q (map f t) ≡ true
  marked-map p q f t same keeps h = rw (find-map p f t same) (has_mark-map q f (find? p t) keeps h)

  -- So does a new row that clashes with every row of its own key.
  pub marked-Insert :
      (p q : A → Bool) (clash : A → A → Bool) {r : A} {t t' : List A}
      → ((s : A) → p r ≡ true → p s ≡ true → clash r s ≡ true)
      → find? (clash r) t ≡ none
      → Insert r t t'
      → marked p q t ≡ true
      → marked p q t' ≡ true
  marked-Insert p q clash {r} {t} {t'} same fresh i h = elim (Option-cases (find? p t)) [
    | inl e ↦ absurd (no (subst (λ o. has_mark q o ≡ true) e h))
    | inr (s, e) ↦ elim (Bool-cases (p r)) [
      | inl on ↦
          absurd (no (sym (fresh-key p (clash r) t s e fresh) ∙ same s on (find-holds p t s e)))
      | inr off ↦ rw (find-Insert p off i) h
    ]
  ]
    where
      no : ¬ (false ≡ true)
      no e = cc
