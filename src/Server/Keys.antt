-- ===== src/Server/Keys.antt =====
-- The last active signing key stays: DELETE /management/v1/keys/:kid.
use mathlib.Core.Nat.{ℕ as Count, zero as none_yet, suc as one_more}
use mathlib.Core.List.{Perm, length as count}
use mathlib.Core.List.Perm as Permutation
use oidc_demo.Base.{
  ℕ, suc, ◌+◌, ◌≤◌, String, Bool, false, List, [], ◌∷◌, map, keep, change, length, leb, ◌≡◌, refl,
  sym, ap, ◌∙◌, subst, str_eq, arith,
}
use oidc_demo.Gorm.{GormLaws}
use oidc_demo.Model.{SignKey}
use oidc_demo.World.{World, Env, ok, sign_keys, advance}
use oidc_demo.Http.{Response}
use oidc_demo.Outcome.{
  Ensures, ensures-bind, ensures-pure, ensures-raise_if, ensures-or_raise, ensures-map_err,
  ensures-time_now, ensures-updates, ensures-first, ensures-find_desc,
}
use oidc_demo.Store.SignKeys
use oidc_demo.Management.Key.{deactivate_key}

-- The library's length, as a native number.
abbrev native : Count → ℕ
native none_yet = 0
native (one_more n) = suc (native n)

native-count : {A : Type 0} (xs : List A) → native (count xs) ≡ length xs
native-count [] = refl
native-count (x ∷ xs) = ap suc (native-count xs)

same_length : {A : Type 0} {xs ys : List A} → Perm xs ys → length xs ≡ length ys
same_length {xs = xs} {ys = ys} p =
    sym (native-count xs) ∙ ap native (Permutation.length-eq p) ∙ native-count ys

-- An update of the rows under `q` costs at most as many rows under `p`.
keep-lost :
    {A : Type 0} (p q : A → Bool) (f : A → A) (t : List A)
    → length (keep p t) ≤ length (keep p (map (change q f) t)) + length (keep q t)
keep-lost p q f [] = omega arith
keep-lost p q f (x ∷ t) = let rest = keep-lost p q f t in ground arith

abbrev keys_of : String → World → List SignKey
keys_of kid w = keep (λ k. str_eq k.kid kid) w.sign_keys

abbrev active_keys : World → List SignKey
active_keys w = keep (λ k. k.active) w.sign_keys

module _ (env : Env) (laws : GormLaws env.gorm) where
  ensures-deactivate :
      (kid : String) (w : World)
      → Ensures
          (SignKeys.deactivate env kid)
          w
          (λ _ v. length (active_keys w) ≤ length (active_keys v) + length (keys_of kid w))
  unfolding SignKeys.deactivate
  ensures-deactivate kid w = ensures-bind (ensures-time_now env w) λ now w1 e1. record {
    at = λ k v run.
        let (at, e2) = (ensures-updates env sign_keys laws _ _ w1).at k v run in
        subst (λ x. length (active_keys x) ≤ length (active_keys v) + length (keys_of kid x)) e1.1
          (subst (λ x. length (active_keys w1) ≤ length (active_keys x) + length (keys_of kid w1))
            (sym e2)
            (keep-lost (λ k. k.active) (λ k. str_eq k.kid kid) (SignKeys.retired now at)
              w1.sign_keys));
  }

  enough : (n m k : ℕ) → leb n 1 ≡ false → n ≤ m + k → k ≤ 1 → 1 ≤ m
  enough n m k h le one = ground arith

  ensures-deactivate_key :
      (kid : String) (w : World)
      → length (keys_of kid w) ≤ 1
      → Ensures (deactivate_key env kid) w (λ _ v. 1 ≤ length (active_keys v))
  unfolding deactivate_key SignKeys.find_by_kid SignKeys.find_all_active
  ensures-deactivate_key kid w one =
      ensures-bind (ensures-map_err _ (ensures-first env sign_keys laws _ w)) λ found w1 e1.
        ensures-bind (ensures-or_raise found _ w1) λ key w2 e2.
          ensures-bind (ensures-raise_if _ _ w2) λ u w3 e3.
            ensures-bind (ensures-map_err _ (ensures-find_desc env sign_keys laws _ _ w3))
              λ rows w4 e4. ensures-bind (ensures-raise_if _ _ w4) λ u w5 e5.
                ensures-bind (ensures-map_err _ (ensures-deactivate kid w5)) λ k w6 le.
                  let start : w3 ≡ advance env w = sym (e2.1 ∙ e3.1) ∙ e1.1 in
                  let here : w5 ≡ advance env w3 = sym e5.1 ∙ e4.1 in
                  let many : length rows ≡ length (active_keys w5) =
                    same_length e4.0 ∙ ap (λ x. length (active_keys x)) (sym here) in
                  let few : length (keys_of kid w5) ≤ 1 =
                    subst (λ x. length (keys_of kid x) ≤ 1) (sym (here ∙ ap (advance env) start))
                      one in
                  ensures-pure _ w6 _ (
                    enough (length rows) (length (active_keys w6)) (length (keys_of kid w5)) e5.0
                      (subst (λ n. n ≤ length (active_keys w6) + length (keys_of kid w5)) (sym many)
                        le)
                      few)

  -- The deactivation of a key leaves an active key: if the table holds at most one key under the id, as
  -- its unique index has it, and the request comes to its end, then a key is active after it.
  pub deactivation_leaves_a_key :
      (kid : String) (w : World) (response : Response) (v : World)
      → length (keep (λ k. str_eq k.kid kid) w.sign_keys) ≤ 1
      → deactivate_key env kid w ≡ (ok response, v)
      → 1 ≤ length (keep (λ k. k.active) v.sign_keys)
  deactivation_leaves_a_key kid w response v one run =
      (ensures-deactivate_key kid w one).at response v run
