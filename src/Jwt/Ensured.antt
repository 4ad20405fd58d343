-- ===== src/Jwt/Ensured.antt =====
-- key_service.go: EnsureSigningKey, which main.go calls before the first request.
use mathlib.Core.List.{Memᴰ}
use mathlib.Core.List.Memᴰ
use mathlib.Core.Logic.{∥∥₁_elim}
use mathlib.Core.HLevel.{⊥_prop}
use oidc_demo.Base.{
  ℕ, Bool, true, false, Option, none, some, List, [], ◌∷◌, ◌≡◌, ◌≢◌, refl, sym, ap, ◌∙◌, subst,
  keep, All, is_some, if◌then◌else◌,
}
use oidc_demo.Env.{Env, Bytes}
use oidc_demo.Gorm.{GormLaws, IsNewest}
use oidc_demo.Model.{SignKey}
use oidc_demo.World.{World, sign_keys}
use oidc_demo.Outcome.{Ensures, ensures-bind, ensures-pure, ensures-if}
use oidc_demo.Outcome.Statements.{ensures-first_desc}
use oidc_demo.Jwt.Keys.{ensure_signing_key}
use oidc_demo.Jwt.Rotation.{ensures-generate}
use oidc_demo.Store.SignKeys

none_kept : {A : Type 0} (p : A → Bool) (t : List A) → All (λ r. p r ≡ false) t → keep p t ≡ []
none_kept p [] h = refl
none_kept p (x ∷ t) (off, h) = rw off (none_kept p t h)

module _ {A : Type 0} (p : A → Bool) where
  pass_on :
      (x : A) (t : List A) (b : Bool)
      → (b ≡ false → keep p t ≢ [])
      → (if b then x ∷ keep p t else keep p t) ≢ []
  pass_on x t true h e = cc
  pass_on x t false h e = h refl e

  pub not_empty : (r : A) (t : List A) → Memᴰ r t → p r ≡ true → keep p t ≢ []
  not_empty r [] m on = absurd (Memᴰ.not-nil m)
  not_empty r (x ∷ t) (Memᴰ.head same) on =
      pass_on x t (p x) λ miss e. apart (sym on ∙ ap p same ∙ miss)
    where
      apart : ¬ (true ≡ false)
      apart h = cc
  not_empty r (x ∷ t) (Memᴰ.tail rest) on = pass_on x t (p x) λ miss. not_empty r t rest on

abbrev active_keys : World → List SignKey
active_keys w = keep (λ k. k.active) w.sign_keys

newest_active :
    (key : SignKey → ℕ) (o : Option SignKey) (t : List SignKey)
    → IsNewest key (λ k. k.active) t o
    → is_some o ≡ true
    → keep (λ k. k.active) t ≢ []
newest_active key none t h on e = absurd (cc)
newest_active key (some k) t (m, active, bound) on e =
    ∥∥₁_elim m ⊥_prop (λ d. not_empty (λ x. x.active) k t d active e)

none_active :
    (key : SignKey → ℕ) (o : Option SignKey) (t : List SignKey)
    → IsNewest key (λ k. k.active) t o
    → is_some o ≡ false
    → keep (λ k. k.active) t ≡ []
none_active key none t h off = none_kept (λ k. k.active) t h
none_active key (some k) t h off = absurd (cc)

module _ (env : Env) (enc_key : Bytes) (laws : GormLaws env.gorm) where
  -- After the start, some key is active.
  pub ensures-signing_key :
      (w : World) → Ensures (ensure_signing_key env enc_key) w (λ _ v. active_keys v ≢ [])
  unfolding ensure_signing_key SignKeys.find_active
  ensures-signing_key w =
      ensures-bind (ensures-first_desc env sign_keys laws _ _ w) λ existing w1 (newest, e1).
        let found =
          subst (λ (x : World). IsNewest (λ k. k.created_at) (λ k. k.active) x.sign_keys existing)
            (sym e1) newest in
        ensures-if (is_some existing) w1
          (λ on. ensures-pure tt w1 _ (newest_active _ existing w1.sign_keys found on))
          λ off.
            ensures-bind
              (ensures-generate env enc_key laws w1 (none_active _ existing w1.sign_keys found off))
              λ key w2 one. ensures-pure tt w2 _ (some_left one)
    where
      some_left : {k : SignKey} {ks : List SignKey} → ks ≡ k ∷ [] → ks ≢ []
      some_left h e = cc
