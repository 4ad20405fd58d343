-- ===== src/Answers.antt =====
-- How an action fails: what holds of each of its errors. For a handler, an error is a response that
-- comes before the end.
use oidc_demo.Base.{Bool, true, false, Option, none, some, ◌≡◌, refl, subst, if◌then◌else◌}
use oidc_demo.World.{
  World, Exec, Result, ok, err, pure, raise, or_raise, raise_if, ignore, attempt, map_err,
  result_map_err, continue, ◌>>=◌,
}
use oidc_demo.Http.{Response, answer, respond}
use oidc_demo.Outcome.{Ensures, ensures-bind}

-- From this state, an error satisfies `R`.
pub record Answers {E A : Type 0} (m : Exec E A) (w : World) (R : E → Type 0) : Type 0 where
  pub at : (e : E) (v : World) → m w ≡ (err e, v) → R e

module _ {E A : Type 0} {R : E → Type 0} where
  pub answers-pure : (a : A) (w : World) → Answers (pure a) w R
  unfolding pure
  answers-pure a w = record { at = λ e v h. absurd (cc) }

  pub answers-raise : (e : E) (w : World) → R e → Answers (raise {A = A} e) w R
  unfolding raise
  answers-raise e w r = record { at = λ e' v h. subst R (cc) r }

  pub answers-or_raise : (o : Option A) (e : E) (w : World) → R e → Answers (or_raise o e) w R
  unfolding or_raise
  answers-or_raise none e w r = record { at = λ e' v h. subst R (cc) r }
  answers-or_raise (some a) e w r = record { at = λ e' v h. absurd (cc) }

  pub answers-ignore : {F : Type 0} (m : Exec F A) (w : World) → Answers (ignore m) w R
  unfolding ignore
  answers-ignore m w = record { at = λ e v h. absurd (cc) }

  pub answers-attempt : {F : Type 0} (m : Exec F A) (w : World) → Answers (attempt m) w R
  unfolding attempt
  answers-attempt m w = record { at = λ e v h. absurd (cc) }

  pub answers-if :
      (b : Bool) {m n : Exec E A} (w : World)
      → Answers m w R
      → Answers n w R
      → Answers (if b then m else n) w R
  answers-if true w hm hn = hm
  answers-if false w hm hn = hn

pub answers-raise_if :
    {E : Type 0} {R : E → Type 0} (b : Bool) (e : E) (w : World) → R e → Answers (raise_if b e) w R
unfolding raise_if
answers-raise_if {R = R} true e w r = record { at = λ e' v h. subst R (cc) r }
answers-raise_if false e w r = record { at = λ e' v h. absurd (cc) }

mapped :
    {E F A : Type 0} (f : E → F) (R : F → Type 0) (r : Result E A) (e : F)
    → ((e : E) → R (f e))
    → result_map_err f r ≡ err e
    → R e
mapped f R (ok a) e hf h = absurd (cc)
mapped f R (err x) e hf h = subst R (cc) (hf x)

pub answers-map_err :
    {E F A : Type 0} {R : F → Type 0} (f : E → F) (m : Exec E A) (w : World)
    → ((e : E) → R (f e))
    → Answers (map_err f m) w R
unfolding map_err
answers-map_err {R = R} f m w hf = record { at = λ e v h. mapped f R (m w).0 e hf (cc) }

module _ {E A B : Type 0} {R : E → Type 0} where
  continue-err :
      (m : Exec E A) (f : A → Exec E B) (w : World) (r : Result E A) (u : World) (e : E) (v : World)
      → m w ≡ (r, u)
      → Answers m w R
      → ((a : A) (v : World) → m w ≡ (ok a, v) → Answers (f a) v R)
      → continue r f u ≡ (err e, v)
      → R e
  continue-err m f w (ok a) u e v run hm hf h = (hf a u run).at e v h
  continue-err m f w (err x) u e v run hm hf h = subst R (cc) (hm.at x u run)

  pub answers-bind :
      {m : Exec E A} {f : A → Exec E B} {w : World}
      → Answers m w R
      → ((a : A) (v : World) → m w ≡ (ok a, v) → Answers (f a) v R)
      → Answers (m >>= f) w R
  unfolding ◌>>=◌
  answers-bind {m} {f} {w} hm hf = record {
    at = λ e v h. continue-err m f w (m w).0 (m w).1 e v refl hm hf h;
  }

pub ruleset answers_rules = (
  answers-pure, answers-raise, answers-or_raise, answers-ignore, answers-attempt, answers-if,
  answers-raise_if, answers-map_err, answers-bind,
)

-- What holds of the response that a handler ends with, whether it is early or late.
pub record Always (m : Exec Response Response) (w : World) (R : Response → Type 0) : Type 0 where
  pub early : Answers m w R
  pub late : Ensures m w (λ a v. R a)

module _ {R : Response → Type 0} where
  pub always-bind :
      {A : Type 0} {m : Exec Response A} {f : A → Exec Response Response} {w : World}
      → Answers m w R
      → ((a : A) (v : World) → m w ≡ (ok a, v) → Always (f a) v R)
      → Always (m >>= f) w R
  always-bind {m = m} {w = w} hm hf = record {
    early = answers-bind hm (λ a v e. (hf a v e).early);
    late =
        ensures-bind {P = λ a v. m w ≡ (ok a, v)} (record { at = λ a v e. e })
          λ a v e. (hf a v e).late;
  }

  always-answer :
      {m : Exec Response Response} {w : World} (r : Result Response Response) (v : World)
      → m w ≡ (r, v)
      → Always m w R
      → R (answer r)
  always-answer (ok a) v run h = h.late.at a v run
  always-answer (err e) v run h = h.early.at e v run

  pub always-respond : {m : Exec Response Response} {w : World} → Always m w R → R (respond m w).0
  unfolding respond
  always-respond {m} {w} h = always-answer (m w).0 (m w).1 refl h
