-- ===== src/Quiet.antt =====
-- Actions that read: they change no table, and count only their calls, forwards.
use oidc_demo.Base.{
  ℕ, suc, Bool, true, false, Option, none, some, List, ◌≡◌, refl, sym, ap, ◌∙◌, subst, ◌≤◌, ◌<◌,
  arith, if◌then◌else◌,
}
use oidc_demo.Gorm.{Reply, done, failed}
use oidc_demo.Model.{Time}
use oidc_demo.World.{
  World, Env, Exec, Table, Result, ok, err, pure, raise, or_raise, raise_if, map_err, attempt, lift,
  ◌>>=◌, time_now, jwt_parse, rand_read, rsa_key, or_internal, advance, first, find, find_desc,
  read_reply,
}
use oidc_demo.Model.{Jwk}
use oidc_demo.Outcome.{Ensures}
use oidc_demo.Base.{String}

abbrev pub Ticked : World → World → Type 0
Ticked w v = (n : ℕ) × (v ≡ record w { tick = n })

pub record Quiet {E A : Type 0} (m : Exec E A) : Type 0 where
  pub at : (w : World) → Ticked w (m w).1
  pub forward : (w : World) → w.tick ≤ (m w).1.tick

pub Ticked-refl : (w : World) → Ticked w w
Ticked-refl w = (w.tick, refl)

pub Ticked-trans : (u : World) {v w : World} → Ticked u v → Ticked v w → Ticked u w
Ticked-trans u (n, e) (k, f) = (k, f ∙ ap (λ (x : World). record x { tick = k }) e)

module _ {E A : Type 0} where
  pub Quiet-pure : (a : A) → Quiet (pure {E = E} a)
  unfolding pure
  Quiet-pure a = record { at = Ticked-refl; forward = λ w. omega arith }

  pub Quiet-raise : (e : E) → Quiet (raise {E = E} {A = A} e)
  unfolding raise
  Quiet-raise e = record { at = Ticked-refl; forward = λ w. omega arith }

  pub Quiet-or_raise : (o : Option A) (e : E) → Quiet (or_raise o e)
  unfolding or_raise
  Quiet-or_raise none e = record { at = Ticked-refl; forward = λ w. omega arith }
  Quiet-or_raise (some a) e = record { at = Ticked-refl; forward = λ w. omega arith }

  pub Quiet-attempt : {F : Type 0} {m : Exec E A} → Quiet m → Quiet (attempt {F = F} m)
  unfolding attempt
  Quiet-attempt q = record { at = q.at; forward = q.forward }

  pub Quiet-map_err : {F : Type 0} (f : E → F) {m : Exec E A} → Quiet m → Quiet (map_err f m)
  unfolding map_err
  Quiet-map_err f q = record { at = q.at; forward = q.forward }

  pub Quiet-if : (b : Bool) {m n : Exec E A} → Quiet m → Quiet n → Quiet (if b then m else n)
  Quiet-if true qm qn = qm
  Quiet-if false qm qn = qn

pub Quiet-raise_if : {E : Type 0} (b : Bool) (e : E) → Quiet (raise_if b e)
unfolding raise_if
Quiet-raise_if true e = record { at = Ticked-refl; forward = λ w. omega arith }
Quiet-raise_if false e = record { at = Ticked-refl; forward = λ w. omega arith }

up : {a b c : ℕ} → a ≤ b → b ≤ c → a ≤ c
up h k = omega arith

module _ {E A B : Type 0} where
  Quiet-continue :
      (r : Result E A) (f : A → Exec E B)
      → ((a : A) → Quiet (f a))
      → (w : World) → Ticked w ((lift r >>= f) w).1
  unfolding ◌>>=◌
  Quiet-continue (ok a) f q w = (q a).at w
  Quiet-continue (err e) f q w = Ticked-refl w

  forward-continue :
      (r : Result E A) (f : A → Exec E B)
      → ((a : A) → Quiet (f a))
      → (w : World) → w.tick ≤ ((lift r >>= f) w).1.tick
  unfolding ◌>>=◌
  forward-continue (ok a) f q w = (q a).forward w
  forward-continue (err e) f q w = omega arith

  pub Quiet-bind :
      {m : Exec E A} {f : A → Exec E B} → Quiet m → ((a : A) → Quiet (f a)) → Quiet (m >>= f)
  unfolding ◌>>=◌
  Quiet-bind {m} {f} qm qf = record {
    at = λ w. let (r, v) = m w in Ticked-trans w (qm.at w) (Quiet-continue r f qf v);
    forward = λ w. let (r, v) = m w in up (qm.forward w) (forward-continue r f qf v);
  }

module _ (env : Env) where
  pub Quiet-time_now : Quiet (time_now env)
  unfolding time_now
  Quiet-time_now = record { at = λ w. (suc w.tick, refl); forward = λ w. omega arith }

  or_internal-Ticked :
      {A : Type 0} (o : Option A) (w : World) → Ticked w (or_internal env o (advance env w)).1
  or_internal-Ticked none w = (suc w.tick, refl)
  or_internal-Ticked (some a) w = (suc w.tick, refl)

  or_internal-forward :
      {A : Type 0} (o : Option A) (w : World) → w.tick ≤ (or_internal env o (advance env w)).1.tick
  or_internal-forward none w = omega arith
  or_internal-forward (some a) w = omega arith

  pub Quiet-rand_read : (size : ℕ) → Quiet (rand_read env size)
  unfolding rand_read
  Quiet-rand_read size = record {
    at = λ w. or_internal-Ticked (env.rand_read w.tick size) w;
    forward = λ w. or_internal-forward (env.rand_read w.tick size) w;
  }

  pub Quiet-rsa_key : Quiet (rsa_key env)
  unfolding rsa_key
  Quiet-rsa_key = record {
    at = λ w. or_internal-Ticked (env.rsa_generate_key w.tick) w;
    forward = λ w. or_internal-forward (env.rsa_generate_key w.tick) w;
  }

  pub Quiet-jwt_parse : (keys : List Jwk) (text : String) → Quiet (jwt_parse env keys text)
  unfolding jwt_parse
  Quiet-jwt_parse keys text = record { at = λ w. (suc w.tick, refl); forward = λ w. omega arith }

  module _ {Row : Type 0} (table : Table Row) where
    read-Ticked : {A : Type 0} (r : Reply A) (w : World) → Ticked w (read_reply env table r w).1
    read-Ticked (done a) w = (suc w.tick, refl)
    read-Ticked failed w = (suc w.tick, refl)

    read-forward :
        {A : Type 0} (r : Reply A) (w : World) → w.tick ≤ (read_reply env table r w).1.tick
    read-forward (done a) w = omega arith
    read-forward failed w = omega arith

    pub Quiet-first : (p : Row → Bool) → Quiet (first env table p)
    unfolding first
    Quiet-first p = record {
      at = λ w. read-Ticked (env.gorm.first w.tick p (table.rows w)) w;
      forward = λ w. read-forward (env.gorm.first w.tick p (table.rows w)) w;
    }

    pub Quiet-find : (p : Row → Bool) → Quiet (find env table p)
    unfolding find
    Quiet-find p = record {
      at = λ w. read-Ticked (env.gorm.find w.tick p (table.rows w)) w;
      forward = λ w. read-forward (env.gorm.find w.tick p (table.rows w)) w;
    }

    pub Quiet-find_desc : (key : Row → Time) (p : Row → Bool) → Quiet (find_desc env table key p)
    unfolding find_desc
    Quiet-find_desc key p = record {
      at = λ w. read-Ticked (env.gorm.find_desc w.tick key p (table.rows w)) w;
      forward = λ w. read-forward (env.gorm.find_desc w.tick key p (table.rows w)) w;
    }

pub ruleset quiet_rules = (
  Quiet-pure, Quiet-raise, Quiet-or_raise, Quiet-attempt, Quiet-map_err, Quiet-if, Quiet-raise_if,
  Quiet-bind, Quiet-time_now, Quiet-rand_read, Quiet-rsa_key, Quiet-jwt_parse, Quiet-first,
  Quiet-find, Quiet-find_desc,
)

-- What the clock read at some call between two states of a run.
abbrev pub ReadBetween : Env → World → World → (Time → Type 0) → Type 0
ReadBetween env w v P = (n : ℕ) × (w.tick ≤ n) × (n < v.tick) × P (env.now n)

-- The reading of `time_now`, where the rest of the run has changed no state.
pub read-now :
    (env : Env) (P : Time → Type 0) (w w1 v : World) (now : Time)
    → (now ≡ env.now w.tick) × (w1 ≡ advance env w)
    → w1 ≡ v
    → P now
    → ReadBetween env w v P
read-now env P w w1 v now (read, e) k h =
    let counted : suc w.tick ≡ v.tick = ap (λ (x : World). x.tick) (sym e ∙ k) in
    (w.tick, omega arith, omega arith, subst P read h)

-- A longer stretch of the run.
pub read-within :
    (env : Env) (P : Time → Type 0) (w v w' v' : World)
    → w'.tick ≤ w.tick
    → v.tick ≤ v'.tick
    → ReadBetween env w v P
    → ReadBetween env w' v' P
read-within env P w v w' v' h k (n, low, high, p) = (n, omega arith, omega arith, p)

-- A quiet success counts forwards.
pub forward-Quiet :
    {E A : Type 0} {m : Exec E A} {w : World} {a : A} {v : World}
    → Quiet m
    → m w ≡ (ok a, v)
    → w.tick ≤ v.tick
forward-Quiet {w = w} q run = subst (λ n. w.tick ≤ n) (ap (λ x. x.1.tick) run) (q.forward w)

-- With what else is known of it.
pub ensures-forward :
    {E A : Type 0} {m : Exec E A} {w : World} {Q : A → World → Type 0}
    → Quiet m
    → Ensures m w Q
    → Ensures m w (λ a v. (w.tick ≤ v.tick) × Q a v)
ensures-forward q h = record { at = λ a v e. (forward-Quiet q e, h.at a v e) }

-- What a quiet success leaves of the state before it.
pub ensures-Quiet :
    {E A : Type 0} {m : Exec E A} {w : World} {Q : A → World → Type 0}
    → Quiet m
    → Ensures m w Q
    → Ensures m w (λ a v. Ticked w v × Q a v)
ensures-Quiet {w = w} q h = record {
  at = λ a v e. let (n, same) = q.at w in ((n, sym (ap (λ x. x.1) e) ∙ same), h.at a v e);
}
