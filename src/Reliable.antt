-- ===== src/Reliable.antt =====
-- On a database on which no update fails, an update runs to its end.
use oidc_demo.Base.{ℕ, Bool, ◌≡◌, refl, ap, ◌∙◌}
use oidc_demo.Gorm.{UpdatesSucceed}
use oidc_demo.Model.{Time}
use oidc_demo.World.{
  World, Env, M, Table, ok, ignore, updates, write_reply, advance, time_now, ◌>>=◌,
}
use oidc_demo.Outcome.{bind-run}

pub ignored :
    {E A : Type 0} (m : M A) (w : World) {a : A} {v : World}
    → m w ≡ (ok a, v)
    → ignore {E = E} m w ≡ (ok tt, v)
unfolding ignore
ignored m w h = ap (λ x. (ok tt, x.1)) h

module _ (env : Env) (reliable : UpdatesSucceed env.gorm) where
  pub update_runs :
      {Row : Type 0} (table : Table Row) (p : Row → Bool) (f : Time → Row → Row) (w : World)
      → (k : ℕ) × (v : World) × (updates env table p f w ≡ (ok k, v))
  unfolding updates
  update_runs table p f w =
      let (k, t', e) = reliable.answer w.tick p f (table.rows w) in
      (k, table.set t' (advance env w), ap (λ r. write_reply env table r w) e)

  pub stamped_runs :
      {Row : Type 0} (table : Table Row) (p : Row → Bool) (f : Time → Time → Row → Row) (w : World)
      → (k : ℕ) × (v : World) × ((time_now env >>= λ now. updates env table p (f now)) w
          ≡ (ok k, v))
  unfolding time_now
  stamped_runs table p f w =
      let (k, v, run) = update_runs table p (f (env.now w.tick)) (advance env w) in
      (k, v, bind-run (time_now env) _ w _ _ refl ∙ run)
