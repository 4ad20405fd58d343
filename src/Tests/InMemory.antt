-- ===== src/Tests/InMemory.antt =====
-- gorm over tables in memory: every statement succeeds, but for a new row that clashes.
use mathlib.Core.Logic.{inl, inr}
use mathlib.Core.List.{Perm, mem-cons_self, mem-cons_of_mem}
use mathlib.Core.List.Perm as Perm
use oidc_demo.Base.{
  sym, subst, ℕ, ◌≡◌, refl, Bool, true, false, Option, none, some, List, [], ◌∷◌, map, find?, keep,
  change, length, All, Insert, leb, take_rows, drop_rows, not, ◌≤◌, Bool-cases, arith,
  if◌then◌else◌,
}
use oidc_demo.Gorm.{
  Gorm, GormLaws, UpdatesSucceed, FindsSucceed, Reply, done, failed, IsNewest, IsDescending,
}

module _ {Row : Type 0} where
  abbrev newer : (Row → ℕ) → Row → Option Row → Option Row
  newer key r none = some r
  newer key r (some s) = if leb (key s) (key r) then some r else some s

  abbrev pub newest : (Row → ℕ) → (Row → Bool) → List Row → Option Row
  newest key p [] = none
  newest key p (r ∷ t) = let rest = newest key p t in if p r then newer key r rest else rest

  abbrev place : (Row → ℕ) → Row → List Row → List Row
  place key r [] = r ∷ []
  place key r (s ∷ t) =
      let rest = place key r t in if leb (key s) (key r) then r ∷ s ∷ t else s ∷ rest

  abbrev ordered : (Row → ℕ) → List Row → List Row
  ordered key [] = []
  ordered key (r ∷ t) = place key r (ordered key t)

  -- A new row is put first. The number of the call is its id and its time.
  abbrev pub insert : Option Row → Row → List Row → Reply (Row × List Row)
  insert none r t = done (r, r ∷ t)
  insert (some clash) r t = failed

abbrev pub in_memory : Gorm
in_memory = record {
  first = λ n p t. done (find? p t);
  find = λ n p t. done (keep p t);
  first_desc = λ n key p t. done (newest key p t);
  find_desc = λ n key p t. done (keep p t);
  save = λ n p f t. done (n, map (change p (λ r. f n)) t);
  find_asc = λ n key p t. done (keep p t);
  count = λ n p t. done (length (keep p t));
  page_desc =
      λ n key p limit offset t. done (take_rows limit (drop_rows offset (ordered key (keep p t))));
  delete = λ n p t. done (keep (λ r. not (p r)) t);
  updates = λ n p f t. done (length (keep p t), map (change p (f n)) t);
  create = λ n clash mk t. insert (find? (clash (mk n n)) t) (mk n n) t;
}

module _ {Row : Type 0} (key : Row → ℕ) (p : Row → Bool) where
  bounded :
      (n k : ℕ) (t : List Row)
      → All (λ s. p s ≡ true → key s ≤ n) t
      → n ≤ k
      → All (λ s. p s ≡ true → key s ≤ k) t
  bounded n k [] h le = tt
  bounded n k (s ∷ t) (hs, ht) le = (λ on. let hn = hs on in omega arith, bounded n k t ht le)

  vacuous : (k : ℕ) (t : List Row) → All (λ r. p r ≡ false) t → All (λ s. p s ≡ true → key s ≤ k) t
  vacuous k [] h = tt
  vacuous k (s ∷ t) (off, rest) = (λ on. absurd (cc), vacuous k t rest)

  extend :
      (r : Row) (t : List Row) (o : Option Row)
      → p r ≡ true
      → IsNewest key p t o
      → IsNewest key p (r ∷ t) (newer key r o)
  extend r t none on h = (mem-cons_self, on, ((λ _. omega arith), vacuous (key r) t h))
  extend r t (some s) on (m, ps, bound) = elim (Bool-cases (leb (key s) (key r))) [
    | inl e ↦
        rw e
          (mem-cons_self, on, ((λ _. omega arith), bounded (key s) (key r) t bound (ground arith)))
    | inr e ↦ rw e (mem-cons_of_mem r m, ps, ((λ _. ground arith), bound))
  ]

  pass_over :
      (r : Row) (t : List Row) (o : Option Row)
      → p r ≡ false
      → IsNewest key p t o
      → IsNewest key p (r ∷ t) o
  pass_over r t none off h = (off, h)
  pass_over r t (some s) off (m, ps, bound) =
      (mem-cons_of_mem r m, ps, ((λ on. absurd (cc)), bound))

  newest-IsNewest : (t : List Row) → IsNewest key p t (newest key p t)
  newest-IsNewest [] = tt
  newest-IsNewest (r ∷ t) = elim (Bool-cases (p r)) [
    | inl e ↦ rw e (extend r t (newest key p t) e (newest-IsNewest t))
    | inr e ↦ rw e (pass_over r t (newest key p t) e (newest-IsNewest t))
  ]

newest_lem :
    {Row : Type 0} (key : Row → ℕ) (p : Row → Bool) (t : List Row) {o : Option Row}
    → done (newest key p t) ≡ done o
    → IsNewest key p t o
newest_lem key p t e = subst (λ o. IsNewest key p t o) (cc) (newest-IsNewest key p t)

module _ {Row : Type 0} (key : Row → ℕ) where
  All-place : (P : Row → Type 0) (r : Row) (t : List Row) → P r → All P t → All P (place key r t)
  All-place P r [] hr h = (hr, tt)
  All-place P r (s ∷ t) hr (hs, ht) = elim (Bool-cases (leb (key s) (key r))) [
    | inl e ↦ rw e (hr, (hs, ht))
    | inr e ↦ rw e (hs, All-place P r t hr ht)
  ]

  below : (a b : ℕ) (t : List Row) → All (λ s. key s ≤ a) t → a ≤ b → All (λ s. key s ≤ b) t
  below a b [] h le = tt
  below a b (s ∷ t) (hs, ht) le = (omega arith, below a b t ht le)

  place-IsDescending :
      (r : Row) (t : List Row) → IsDescending key t → IsDescending key (place key r t)
  place-IsDescending r [] h = (tt, tt)
  place-IsDescending r (s ∷ t) (hs, ht) = elim (Bool-cases (leb (key s) (key r))) [
    | inl e ↦ rw e ((ground arith, below (key s) (key r) t hs (ground arith)), (hs, ht))
    | inr e ↦ rw e (All-place (λ x. key x ≤ key s) r t (ground arith) hs, place-IsDescending r t ht)
  ]

  ordered-IsDescending : (t : List Row) → IsDescending key (ordered key t)
  ordered-IsDescending [] = tt
  ordered-IsDescending (r ∷ t) = place-IsDescending r (ordered key t) (ordered-IsDescending t)

  place-Perm : (r : Row) (t : List Row) → Perm (place key r t) (r ∷ t)
  place-Perm r [] = Perm.refl (r ∷ [])
  place-Perm r (s ∷ t) = elim (Bool-cases (leb (key s) (key r))) [
    | inl e ↦ rw e (Perm.refl (r ∷ s ∷ t))
    | inr e ↦ rw e (Perm.trans (Perm.cons s (place-Perm r t)) (Perm.swap r s t))
  ]

  ordered-Perm : (t : List Row) → Perm (ordered key t) t
  ordered-Perm [] = Perm.refl []
  ordered-Perm (r ∷ t) = Perm.trans (place-Perm r (ordered key t)) (Perm.cons r (ordered-Perm t))

same-Perm : {Row : Type 0} {t rows : List Row} → done t ≡ done rows → Perm rows t
same-Perm {t = t} e = subst (λ rows. Perm rows t) (cc) (Perm.refl t)

saved :
    {Row : Type 0} (p : Row → Bool) (f : ℕ → Row) (t t' : List Row) (n at : ℕ)
    → ◌≡◌ {A = Reply (ℕ × List Row)} (done (n, map (change p (λ r. f n)) t)) (done (at, t'))
    → t' ≡ map (change p (λ r. f at)) t
saved p f t t' n at e =
    let same_time : n ≡ at = cc in
    let same_rows : map (change p (λ r. f n)) t ≡ t' = cc in
    subst (λ k. t' ≡ map (change p (λ r. f k)) t) same_time (sym same_rows)

insert_lem :
    {Row : Type 0} (o : Option Row) (r : Row) (t : List Row) {r' : Row} {t' : List Row}
    → insert o r t ≡ done (r', t')
    → (o ≡ none) × (r ≡ r') × (r ∷ t ≡ t')
insert_lem none r t e = (refl, cc, cc)
insert_lem (some c) r t e = absurd (cc)

pub in_memory-GormLaws : GormLaws in_memory
in_memory-GormLaws = record {
  first_done = λ n p t e. cc;
  find_done = λ n p t e. cc;
  first_desc_done = λ n key p t e. newest_lem key p t e;
  find_desc_done = λ n key p t e. same-Perm e;
  save_done = λ n p f t {at} {t'} e. saved p f t t' n at e;
  find_asc_done = λ n key p t e. same-Perm e;
  count_done = λ n p t e. cc;
  page_desc_done = λ n key p limit offset t e. (
    ordered key (keep p t),
    ordered-Perm key (keep p t),
    ordered-IsDescending key (keep p t),
    cc,
  );
  delete_done = λ n p t e. cc;
  updates_done = λ n p f t e. (cc, (n, cc));
  create_done = λ n clash mk t {r} {t'} e.
      let (none_found, same, grown) = insert_lem (find? (clash (mk n n)) t) (mk n n) t e in
      (
        (n, n, sym same),
        subst (λ x. find? (clash x) t ≡ none) same none_found,
        subst (λ x. Insert x t t') same (subst (λ x. Insert (mk n n) t x) grown Insert.here),
      );
}

pub in_memory-UpdatesSucceed : UpdatesSucceed in_memory
in_memory-UpdatesSucceed = record { answer = λ n p f t. (_, _, refl) }

pub in_memory-FindsSucceed : FindsSucceed in_memory
in_memory-FindsSucceed = record { answer = λ n p t. (_, refl) }
