-- ===== src/Progress/Rules.antt =====
-- The rules of `Grows`, for `search`.
use oidc_demo.Outcome.{Ensures}
use oidc_demo.Base.{
  subst, ap, ℕ, List, String, Bool, true, false, Option, none, some, if◌then◌else◌,
}
use oidc_demo.World.{
  World, Exec, Result, ok, err, Env, map_err, pure, raise, lift, ignore, attempt, raise_if,
  or_raise, or_internal, roll_back, transaction, ◌>>=◌, time_now, rand_read, rsa_key, jwt_parse,
  new_uuid, advance,
}
use oidc_demo.Model.{Jwk}
use oidc_demo.Progress.Order.{Later, Later-refl, Later-trans}

-- Whether it succeeds or fails, the action undoes nothing.
pub record Grows {E A : Type 0} (m : Exec E A) : Type 0 where
  pub at : (w : World) → Later w (m w).1

-- A call that changes no table.
abbrev pub idle : (w : World) → Later w (record w { tick = ℕ.suc w.tick })
idle w = record {
  codes = λ c h. h;
  access = λ c h. h;
  refresh = λ c h. h;
  sessions = λ c h. h;
  admins = λ c h. h;
}

module _ {E A : Type 0} where
  pub Grows-pure : (a : A) → Grows (pure {E = E} a)
  unfolding pure
  Grows-pure a = record { at = Later-refl }

  pub Grows-raise : (e : E) → Grows (raise {E = E} {A = A} e)
  unfolding raise
  Grows-raise e = record { at = Later-refl }

  pub Grows-lift : (r : Result E A) → Grows (lift r)
  unfolding lift
  Grows-lift r = record { at = Later-refl }

  pub Grows-ignore : {F : Type 0} {m : Exec E A} → Grows m → Grows (ignore {E = F} m)
  unfolding ignore
  Grows-ignore g = record { at = g.at }

  pub Grows-attempt : {F : Type 0} {m : Exec E A} → Grows m → Grows (attempt {F = F} m)
  unfolding attempt
  Grows-attempt g = record { at = g.at }

  pub Grows-map_err : {F : Type 0} (f : E → F) {m : Exec E A} → Grows m → Grows (map_err f m)
  unfolding map_err
  Grows-map_err f g = record { at = g.at }

  pub Grows-or_raise : (o : Option A) (e : E) → Grows (or_raise o e)
  unfolding or_raise
  Grows-or_raise none e = record { at = Later-refl }
  Grows-or_raise (some a) e = record { at = Later-refl }

  -- What is rolled back undoes nothing either.
  roll_back-Later :
      (w : World) (r : Result E A) (v : World) → Later w v → Later w (roll_back w (r, v)).1
  roll_back-Later w (ok a) v l = l
  roll_back-Later w (err e) v l = record {
    codes = λ c h. h;
    access = λ c h. h;
    refresh = λ c h. h;
    sessions = λ c h. h;
    admins = λ c h. h;
  }

  pub Grows-transaction : {m : Exec E A} → Grows m → Grows (transaction m)
  unfolding transaction
  Grows-transaction {m} g = record { at = λ w. roll_back-Later w (m w).0 (m w).1 (g.at w) }

  pub Grows-if : (b : Bool) {m n : Exec E A} → Grows m → Grows n → Grows (if b then m else n)
  Grows-if true gm gn = gm
  Grows-if false gm gn = gn

pub Grows-raise_if : {E : Type 0} (b : Bool) (e : E) → Grows (raise_if b e)
unfolding raise_if
Grows-raise_if true e = record { at = Later-refl }
Grows-raise_if false e = record { at = Later-refl }

module _ {E A B : Type 0} where
  Grows-continue :
      (r : Result E A) (f : A → Exec E B)
      → ((a : A) → Grows (f a))
      → (w : World) → Later w ((lift r >>= f) w).1
  unfolding ◌>>=◌
  Grows-continue (ok a) f gf w = (gf a).at w
  Grows-continue (err e) f gf w = Later-refl w

  pub Grows-bind :
      {m : Exec E A} {f : A → Exec E B} → Grows m → ((a : A) → Grows (f a)) → Grows (m >>= f)
  unfolding ◌>>=◌
  Grows-bind {m} {f} gm gf = record {
    at = λ w. let (r, v) = m w in Later-trans (gm.at w) (Grows-continue r f gf v);
  }

module _ (env : Env) where
  Grows-or_internal :
      {A : Type 0} (o : Option A) (w : World) → Later w (or_internal env o (advance env w)).1
  Grows-or_internal none w = idle w
  Grows-or_internal (some a) w = idle w

  pub Grows-time_now : Grows (time_now env)
  unfolding time_now
  Grows-time_now = record { at = idle }

  pub Grows-new_uuid : Grows (new_uuid env)
  unfolding new_uuid
  Grows-new_uuid = record { at = idle }

  pub Grows-jwt_parse : (keys : List Jwk) (text : String) → Grows (jwt_parse env keys text)
  unfolding jwt_parse
  Grows-jwt_parse keys text = record { at = idle }

  pub Grows-rand_read : (size : ℕ) → Grows (rand_read env size)
  unfolding rand_read
  Grows-rand_read size = record { at = λ w. Grows-or_internal (env.rand_read w.tick size) w }

  pub Grows-rsa_key : Grows (rsa_key env)
  unfolding rsa_key
  Grows-rsa_key = record { at = λ w. Grows-or_internal (env.rsa_generate_key w.tick) w }

pub ruleset grows_rules = (
  Grows-pure, Grows-raise, Grows-lift, Grows-ignore, Grows-attempt, Grows-map_err, Grows-or_raise,
  Grows-transaction, Grows-if, Grows-raise_if, Grows-bind, Grows-time_now, Grows-new_uuid,
  Grows-jwt_parse, Grows-rand_read, Grows-rsa_key,
)

-- What follows from the growth alone holds of every success.
pub ensures-Grows :
    {E A : Type 0} {m : Exec E A} (g : Grows m) (w : World) {Q : A → World → Type 0}
    → ((a : A) (v : World) → Later w v → Q a v)
    → Ensures m w Q
ensures-Grows g w h = record {
  at = λ a v e. h a v (subst (λ x. Later w x) (ap (λ x. x.1) e) (g.at w));
}
