-- ===== src/Progress/Rows.antt =====
-- A write to rows keeps the marks of the rows that are found by a key.
use mathlib.Core.Option
use oidc_demo.Base.{
  ℕ, String, Bool, true, false, some, List, map, ◌≡◌, refl, ap, ◌∙◌, find?, find-map, change,
  has_mark, marked, marked-map, str_eq, ◌==◌, ◌||◌, arith, eq_iff, if◌then◌else◌,
}

module _ {ℓ} {A : Type ℓ} where
  change-key {κ} :
      {B : Type κ} (key : A → B) (p : A → Bool) (f : A → A)
      → ((r : A) → key (f r) ≡ key r)
      → (r : A) → key (change p f r) ≡ key r
  change-key key p f same r = elim (p r) as (λ b. key (if b then f r else r) ≡ key r) [
    | true ↦ same r
    | false ↦ refl
  ]

  change-mark :
      (q p : A → Bool) (f : A → A)
      → ((r : A) → q r ≡ true → q (f r) ≡ true)
      → (r : A) → q r ≡ true
      → q (change p f r) ≡ true
  change-mark q p f keeps r h = elim (p r) as (λ b. q (if b then f r else r) ≡ true) [
    | true ↦ keeps r h
    | false ↦ h
  ]

  -- A write that keeps the key of each row, and its mark, keeps the mark of the row that is found.
  pub marked-change :
      (key q p : A → Bool) (f : A → A) (t : List A)
      → ((r : A) → key (f r) ≡ key r)
      → ((r : A) → q r ≡ true → q (f r) ≡ true)
      → marked key q t ≡ true
      → marked key q (map (change p f) t) ≡ true
  marked-change key q p f t same keeps =
      marked-map key q (change p f) t (change-key key p f same) (change-mark q p f keeps)

  -- The row that a key finds is found again after the write, as the write left it.
  pub find-change :
      (key p : A → Bool) (f : A → A) (t : List A) (r : A)
      → ((r : A) → key (f r) ≡ key r)
      → find? key t ≡ some r
      → find? key (map (change p f) t) ≡ some (change p f r)
  find-change key p f t r same h =
      find-map key (change p f) t (change-key key p f same) ∙ ap (Option.map (change p f)) h

  -- If the write hits that row, its mark is the one that is written.
  pub marked-change_hit :
      (key q p : A → Bool) (f : A → A) (t : List A) (r : A)
      → ((r : A) → key (f r) ≡ key r)
      → find? key t ≡ some r
      → p r ≡ true
      → q (f r) ≡ true
      → marked key q (map (change p f) t) ≡ true
  marked-change_hit key q p f t r same h hit set =
      ap (has_mark q) (find-change key p f t r same h)
      ∙ ap (λ b. q (if b then f r else r)) hit
      ∙ set

-- Rows with one text key clash at its unique index.
pub clash_of_key :
    (a : Bool) (s t u : String) → str_eq s u ≡ true → str_eq t u ≡ true → (a || str_eq s t) ≡ true
clash_of_key a s t u hs ht = ground (arith, eq_iff s u, eq_iff t u, eq_iff s t)

-- Rows with one number for a key clash at the primary key.
pub clash_of_id : (i j k : ℕ) → (i == k) ≡ true → (j == k) ≡ true → (i == j) ≡ true
clash_of_id i j k hi hj = ground arith
