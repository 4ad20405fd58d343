-- ===== src/Jwt/Rotation.antt =====
-- What a rotation of the signing key leaves.
use oidc_demo.Base.{
  Bool, true, false, List, [], ◌∷◌, map, keep, change, ◌≡◌, refl, sym, ap, ◌∙◌, subst, Insert,
  Bool-cases, inl, inr, if◌then◌else◌,
}
use oidc_demo.Gorm.{GormLaws}
use oidc_demo.Env.{Env, Bytes}
use oidc_demo.Model.{SignKey}
use oidc_demo.World.{World, ok, sign_keys, M}
use oidc_demo.Outcome.{Ensures, ensures-bind, ensures-time_now, ensures-updates, ensures-create}
use oidc_demo.Quiet.{Quiet, quiet_rules}
use oidc_demo.Crypto.{encrypt}
use oidc_demo.Store.SignKeys
use oidc_demo.Jwt.Keys.{generate_and_save_key, rotate_key}

abbrev active_keys : World → List SignKey
active_keys w = keep (λ k. k.active) w.sign_keys

keep-change :
    {A : Type 0} (p : A → Bool) (f : A → A) (t : List A)
    → ((x : A) → p (f x) ≡ false)
    → keep p (map (change p f) t) ≡ []
keep-change p f [] off = refl
keep-change p f (x ∷ t) off = elim (Bool-cases (p x)) [
  | inl e ↦ rw (e, off x) (keep-change p f t off)
  | inr e ↦ rw (e, e) (keep-change p f t off)
]

keep-Insert :
    {A : Type 0} (p : A → Bool) {r : A} {t t' : List A}
    → p r ≡ true
    → keep p t ≡ []
    → Insert r t t'
    → keep p t' ≡ r ∷ []
keep-Insert p on h Insert.here = rw (on, h) refl
keep-Insert p on h (Insert.there {x = x} {xs = xs} i) = elim (Bool-cases (p x)) [
  | inl e ↦ absurd (cc)
  | inr e ↦
      rw e (keep-Insert p on (subst (λ b. (if b then x ∷ keep p xs else keep p xs) ≡ []) e h) i)
]

module _ (env : Env) (enc_key : Bytes) where
  Quiet-encrypt : (text key : Bytes) → Quiet (encrypt env text key)
  unfolding encrypt
  Quiet-encrypt text key = search quiet_rules depth 14

  ensures-kept :
      {A : Type 0} {m : M A}
      → Quiet m
      → (w : World) → Ensures m w (λ _ v. active_keys v ≡ active_keys w)
  ensures-kept {m = m} q w = record {
    at = λ a v e. let (n, same) = q.at w in ap active_keys (sym (ap (λ x. x.1) e) ∙ same);
  }

  module _ (laws : GormLaws env.gorm) where
    ensures-deactivate :
        (w : World) → Ensures (SignKeys.deactivate_all_active env) w (λ _ v. active_keys v ≡ [])
    unfolding SignKeys.deactivate_all_active
    ensures-deactivate w = ensures-bind (ensures-time_now env w) λ now w1 e1. record {
      at = λ k v run.
          let (at, e2) = (ensures-updates env sign_keys laws _ _ w1).at k v run in
          ap active_keys e2
          ∙ keep-change (λ k. k.active) (SignKeys.retired now at) w1.sign_keys (λ k. refl);
    }

    pub ensures-generate :
        (w : World)
        → active_keys w ≡ []
        → Ensures (generate_and_save_key env enc_key) w (λ key v. active_keys v ≡ key ∷ [])
    unfolding generate_and_save_key SignKeys.create_key
    ensures-generate w none_active =
        ensures-bind (ensures-kept (search quiet_rules) w) λ private w1 e1.
          ensures-bind (ensures-kept (Quiet-encrypt _ _) w1) λ sealed w2 e2.
            ensures-bind (ensures-kept (search quiet_rules) w2) λ public w3 e3.
              ensures-bind (ensures-kept (search quiet_rules) w3) λ bytes w4 e4.
                ensures-bind (ensures-kept (search quiet_rules) w4) λ now w5 e5. record {
                  at = λ key v run.
                      let (rows, i, (id, at, made), e) =
                        (ensures-create env sign_keys laws _ _ w5).at key v run in
                      ap active_keys e
                      ∙ keep-Insert (λ k. k.active) (ap (λ (k : SignKey). k.active) made)
                          (e5 ∙ e4 ∙ e3 ∙ e2 ∙ e1 ∙ none_active) i;
                }

    -- A rotation that succeeds leaves exactly one active key, the one that it returns.
    pub rotation_leaves_one_key :
        (w : World) (key : SignKey) (v : World)
        → rotate_key env enc_key w ≡ (ok key, v)
        → keep (λ k. k.active) v.sign_keys ≡ key ∷ []
    unfolding rotate_key
    rotation_leaves_one_key w =
        (ensures-bind (ensures-deactivate w) λ k w1 none_active. ensures-generate w1 none_active).at
