-- ===== src/Outcome/Statements.antt =====
-- What the statements of the management API did, when they succeed.
use mathlib.Core.List.{Perm}
use oidc_demo.Base.{
  ℕ, Bool, List, ◌≡◌, refl, sym, ap, ◌∙◌, keep, length, not, take_rows, drop_rows, map, change,
}
use oidc_demo.Gorm.{Reply, done, failed, GormLaws, IsDescending, IsNewest}
use oidc_demo.Model.{Time}
use oidc_demo.World.{
  World, Env, Exec, Table, Result, ok, err, first_desc, count, page_desc, delete, delete_reply,
  save, write_reply, advance, transaction, roll_back,
}
use oidc_demo.Outcome.{Ensures, read-ok}

rolled-ok :
    {E A : Type 0} (w : World) (r : Result E A) (u : World) {a : A} {v : World}
    → roll_back w (r, u) ≡ (ok a, v)
    → ◌≡◌ {A = Result E A × World} (r, u) (ok a, v)
rolled-ok w (ok x) u h = h
rolled-ok w (err e) u h = absurd (cc)

-- A transaction that succeeds did what its statements did.
pub ensures-transaction :
    {E A : Type 0} {m : Exec E A} {w : World} {Q : A → World → Type 0}
    → Ensures m w Q
    → Ensures (transaction m) w Q
unfolding transaction
ensures-transaction {m} {w} h = record {
  at = λ a v run. h.at a v (rolled-ok w (m w).0 (m w).1 run);
}

module _ (env : Env) {Row : Type 0} (table : Table Row) (laws : GormLaws env.gorm) where
  pub ensures-count :
      (p : Row → Bool) (w : World)
      → Ensures
          (count env table p)
          w
          (λ n v. (n ≡ length (keep p (table.rows w))) × (v ≡ advance env w))
  unfolding count
  ensures-count p w = record {
    at = λ n v h.
        let (e, same) = read-ok env table laws (env.gorm.count w.tick p (table.rows w)) w h in
        (laws.count_done w.tick p (table.rows w) e, same);
  }

  pub ensures-first_desc :
      (key : Row → Time) (p : Row → Bool) (w : World)
      → Ensures
          (first_desc env table key p)
          w
          (λ o v. IsNewest key p (table.rows w) o × (v ≡ advance env w))
  unfolding first_desc
  ensures-first_desc key p w = record {
    at = λ o v h.
        let (e, same) =
          read-ok env table laws (env.gorm.first_desc w.tick key p (table.rows w)) w h in
        (laws.first_desc_done w.tick key p (table.rows w) e, same);
  }

  -- A part of all rows in order.
  pub ensures-page_desc :
      (key : Row → Time) (p : Row → Bool) (limit offset : ℕ) (w : World)
      → Ensures (page_desc env table key p limit offset) w (λ rows v.
        ((all : List Row) × Perm all (keep p (table.rows w))
          × IsDescending key all
          × (rows ≡ take_rows limit (drop_rows offset all)))
        × (v ≡ advance env w))
  unfolding page_desc
  ensures-page_desc key p limit offset w = record {
    at = λ rows v h.
        let (e, same) =
          read-ok env table laws (env.gorm.page_desc w.tick key p limit offset (table.rows w)) w
            h in
        (laws.page_desc_done w.tick key p limit offset (table.rows w) e, same);
  }

  deleted-ok :
      (r : Reply (List Row)) (w : World) {a : Unit} {v : World}
      → delete_reply env table r w ≡ (ok a, v)
      → (rows : List Row) × (r ≡ done rows) × (v ≡ table.set rows (advance env w))
  deleted-ok (done rows) w h = (rows, refl, sym (ap (λ y. y.1) h))
  deleted-ok failed w h = absurd (cc)

  pub ensures-delete :
      (p : Row → Bool) (w : World)
      → Ensures
          (delete env table p)
          w
          (λ _ v. v ≡ table.set (keep (λ r. not (p r)) (table.rows w)) (advance env w))
  unfolding delete
  ensures-delete p w = record {
    at = λ a v h.
        let (rows, e, same) = deleted-ok (env.gorm.delete w.tick p (table.rows w)) w h in
        same ∙ ap (λ t. table.set t (advance env w)) (laws.delete_done w.tick p (table.rows w) e);
  }

  saved-ok :
      (r : Reply (Time × List Row)) (w : World) {at : Time} {v : World}
      → write_reply env table r w ≡ (ok at, v)
      → (rows : List Row) × (r ≡ done (at, rows)) × (v ≡ table.set rows (advance env w))
  saved-ok (done (x, rows)) w h = (rows, cc, sym (ap (λ y. y.1) h))
  saved-ok failed w h = absurd (cc)

  -- The rows with the key of the saved one are that one.
  pub ensures-save :
      (p : Row → Bool) (f : Time → Row) (w : World)
      → Ensures
          (save env table p f)
          w
          (λ at v. v ≡ table.set (map (change p (λ r. f at)) (table.rows w)) (advance env w))
  unfolding save
  ensures-save p f w = record {
    at = λ at v h.
        let (rows, e, same) = saved-ok (env.gorm.save w.tick p f (table.rows w)) w h in
        same ∙ ap (λ t. table.set t (advance env w)) (laws.save_done w.tick p f (table.rows w) e);
  }
