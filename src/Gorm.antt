-- ===== src/Gorm.antt =====
-- gorm over PostgreSQL, as far as the repositories use it. A table is the list of its rows in the
-- order of the primary key. Each operation takes the number of the call, since a statement may
-- fail at one time and succeed at another. A failed statement changes nothing: it is rolled back.
use oidc_demo.Base.{
  ℕ, ◌≡◌, Bool, true, false, Option, none, some, List, [], ◌∷◌, map, find?, keep, change, length,
  Insert, take_rows, drop_rows, not, All, ◌≤◌,
}
use mathlib.Core.List.{Mem, Perm}

-- `result.Error`: the statement's value, or an error.
pub data Reply (A : Type 0) : Type 0 where
  done : A → Reply A
  failed : Reply A

-- `updates` and `create` give the moment that gorm's clock read to the written row.
pub record Gorm : Type 1 where
  -- `Where(p).First(&row)`; `none` is `gorm.ErrRecordNotFound`
  pub first : {Row : Type 0} → ℕ → (Row → Bool) → List Row → Reply (Option Row)
  -- `Where(p).Find(&rows)`
  pub find : {Row : Type 0} → ℕ → (Row → Bool) → List Row → Reply (List Row)
  -- `Where(p).Order("<column> DESC")`, and its first row
  pub first_desc : {Row : Type 0} → ℕ → (Row → ℕ) → (Row → Bool) → List Row → Reply (Option Row)
  pub find_desc : {Row : Type 0} → ℕ → (Row → ℕ) → (Row → Bool) → List Row → Reply (List Row)
  -- `Where(p).Order("<column> ASC").Find(&rows)`
  pub find_asc : {Row : Type 0} → ℕ → (Row → ℕ) → (Row → Bool) → List Row → Reply (List Row)
  -- `Model(&Row{}).Where(p).Count(&n)`
  pub count : {Row : Type 0} → ℕ → (Row → Bool) → List Row → Reply ℕ
  -- `Where(p).Order("<column> DESC").Limit(limit).Offset(offset).Find(&rows)`
  pub page_desc :
      {Row : Type 0} → ℕ → (Row → ℕ) → (Row → Bool) → ℕ → ℕ → List Row → Reply (List Row)
  -- `Delete(&Row{}, p)`
  pub delete : {Row : Type 0} → ℕ → (Row → Bool) → List Row → Reply (List Row)
  -- `Where(p).Update(...)`, with `RowsAffected`
  pub updates :
      {Row : Type 0} → ℕ → (Row → Bool) → (ℕ → Row → Row) → List Row → Reply (ℕ × List Row)
  -- `Save(&row)`, which writes every column; the answer is the moment that it gives to the row
  pub save : {Row : Type 0} → ℕ → (Row → Bool) → (ℕ → Row) → List Row → Reply (ℕ × List Row)
  -- `Create(&row)`; the database chooses the id. The test says which rows clash with a new one at
  -- a unique index.
  pub create :
      {Row : Type 0} → ℕ → (Row → Row → Bool) → (ℕ → ℕ → Row) → List Row → Reply (Row × List Row)

-- The answer is a row that passes the test with the greatest key, or nothing where none passes.
abbrev pub IsNewest : {Row : Type 0} → (Row → ℕ) → (Row → Bool) → List Row → Option Row → Type 0
IsNewest key p t none = All (λ r. p r ≡ false) t
IsNewest key p t (some r) = Mem r t × (p r ≡ true) × All (λ s. p s ≡ true → key s ≤ key r) t

-- Every row is followed by rows with no greater key.
abbrev pub IsDescending : {Row : Type 0} → (Row → ℕ) → List Row → Type 0
IsDescending key [] = Unit
IsDescending key (r ∷ t) = All (λ s. key s ≤ key r) t × IsDescending key t

-- What the documentation of gorm and PostgreSQL says of a statement that succeeds.
pub record GormLaws (g : Gorm) : Type 1 where
  pub first_done :
      {Row : Type 0} (n : ℕ) (p : Row → Bool) (t : List Row) {o : Option Row}
      → g.first n p t ≡ done o
      → o ≡ find? p t
  pub find_done :
      {Row : Type 0} (n : ℕ) (p : Row → Bool) (t : List Row) {rows : List Row}
      → g.find n p t ≡ done rows
      → rows ≡ keep p t
  pub first_desc_done :
      {Row : Type 0} (n : ℕ) (key : Row → ℕ) (p : Row → Bool) (t : List Row) {o : Option Row}
      → g.first_desc n key p t ≡ done o
      → IsNewest key p t o
  -- the same rows in another order
  pub find_desc_done :
      {Row : Type 0} (n : ℕ) (key : Row → ℕ) (p : Row → Bool) (t : List Row) {rows : List Row}
      → g.find_desc n key p t ≡ done rows
      → Perm rows (keep p t)
  pub find_asc_done :
      {Row : Type 0} (n : ℕ) (key : Row → ℕ) (p : Row → Bool) (t : List Row) {rows : List Row}
      → g.find_asc n key p t ≡ done rows
      → Perm rows (keep p t)
  pub count_done :
      {Row : Type 0} (n : ℕ) (p : Row → Bool) (t : List Row) {k : ℕ}
      → g.count n p t ≡ done k
      → k ≡ length (keep p t)
  -- a part of the rows that pass, put in order
  pub page_desc_done :
      {Row : Type 0} (n : ℕ) (key : Row → ℕ) (p : Row → Bool) (limit offset : ℕ) (t : List Row)
      {rows : List Row}
      → g.page_desc n key p limit offset t ≡ done rows
      → (all : List Row) × Perm all (keep p t)
        × IsDescending key all
        × (rows ≡ take_rows limit (drop_rows offset all))
  pub delete_done :
      {Row : Type 0} (n : ℕ) (p : Row → Bool) (t : List Row) {t' : List Row}
      → g.delete n p t ≡ done t'
      → t' ≡ keep (λ r. not (p r)) t
  pub updates_done :
      {Row : Type 0} (n : ℕ) (p : Row → Bool) (f : ℕ → Row → Row) (t : List Row) {k : ℕ}
      {t' : List Row}
      → g.updates n p f t ≡ done (k, t')
      → (k ≡ length (keep p t)) × ((at : ℕ) × (t' ≡ map (change p (f at)) t))
  pub save_done :
      {Row : Type 0} (n : ℕ) (p : Row → Bool) (f : ℕ → Row) (t : List Row) {at : ℕ} {t' : List Row}
      → g.save n p f t ≡ done (at, t')
      → t' ≡ map (change p (λ r. f at)) t
  pub create_done :
      {Row : Type 0} (n : ℕ) (clash : Row → Row → Bool) (mk : ℕ → ℕ → Row) (t : List Row) {r : Row}
      {t' : List Row}
      → g.create n clash mk t ≡ done (r, t')
      → ((id : ℕ) × (at : ℕ) × (r ≡ mk id at)) × (find? (clash r) t ≡ none) × Insert r t t'

-- A database on which no update fails, as it is when it can be reached.
pub record UpdatesSucceed (g : Gorm) : Type 1 where
  pub answer :
      {Row : Type 0} (n : ℕ) (p : Row → Bool) (f : ℕ → Row → Row) (t : List Row)
      → (k : ℕ) × (t' : List Row) × (g.updates n p f t ≡ done (k, t'))

-- A database on which no lookup of one row fails.
pub record FindsSucceed (g : Gorm) : Type 1 where
  pub answer :
      {Row : Type 0} (n : ℕ) (p : Row → Bool) (t : List Row)
      → (o : Option Row) × (g.first n p t ≡ done o)
