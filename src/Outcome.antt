-- ===== src/Outcome.antt =====
-- What a successful action did: one rule for each way to build an action, and for each
-- statement what gorm's laws say of its answer. The same forwards: how a chain runs on.
pub mod Statements
use mathlib.Core.List.{Perm}
use oidc_demo.Base.{
  Bool, true, false, Option, none, some, List, map, ◌≡◌, refl, sym, ap, ◌∙◌, subst, find?, keep,
  change, Insert, if◌then◌else◌,
}
use oidc_demo.Gorm.{Reply, done, failed, GormLaws}
use oidc_demo.World.{
  World, Env, Exec, Table, Result, ok, err, continue, ◌>>=◌, pure, or_raise, raise_if, raise,
  ignore, attempt, result_option, map_err, result_map_err, time_now, advance, first, find,
  find_desc, updates, create, read_reply, write_reply,
}
use oidc_demo.Model.{Uuid, Time}

-- Whatever the action returns from this state satisfies `Q`, with the state that it leaves.
pub record Ensures {E A : Type 0} (m : Exec E A) (w : World) (Q : A → World → Type 0) : Type 0 where
  pub at : (a : A) (v : World) → m w ≡ (ok a, v) → Q a v

module _ {E A : Type 0} where
  pub ensures-pure :
      (a : A) (w : World) (Q : A → World → Type 0) → Q a w → Ensures (pure {E = E} a) w Q
  unfolding pure
  ensures-pure a w Q h = record {
    at = λ b v e. subst (λ v. Q b v) (ap (λ x. x.1) e) (subst (λ b. Q b w) (cc) h);
  }

  pub ensures-raise : (e : E) (w : World) (Q : A → World → Type 0) → Ensures (raise {E = E} e) w Q
  unfolding raise
  ensures-raise e w Q = record { at = λ b v h. absurd (cc) }

  pub ensures-or_raise :
      (o : Option A) (e : E) (w : World) → Ensures (or_raise o e) w (λ a v. (o ≡ some a) × (w ≡ v))
  unfolding or_raise
  ensures-or_raise none e w = record { at = λ b v h. absurd (cc) }
  ensures-or_raise (some x) e w = record { at = λ b v h. (cc, ap (λ y. y.1) h) }

  pub ensures-if :
      (b : Bool) {m n : Exec E A} (w : World) {Q : A → World → Type 0}
      → (b ≡ true → Ensures m w Q)
      → (b ≡ false → Ensures n w Q)
      → Ensures (if b then m else n) w Q
  ensures-if true w hm hn = hm refl
  ensures-if false w hm hn = hn refl

pub ensures-raise_if :
    {E : Type 0} (b : Bool) (e : E) (w : World)
    → Ensures (raise_if b e) w (λ _ v. (b ≡ false) × (w ≡ v))
unfolding raise_if
ensures-raise_if true e w = record { at = λ b v h. absurd (cc) }
ensures-raise_if false e w = record { at = λ b v h. (refl, ap (λ y. y.1) h) }

module _ {E A B : Type 0} where
  continue-ok :
      (f : A → Exec E B) (r : Result E A) (v : World) {b : B} {w' : World}
      → continue r f v ≡ (ok b, w')
      → (a : A) × (r ≡ ok a) × (f a v ≡ (ok b, w'))
  continue-ok f (ok a) v h = (a, refl, h)
  continue-ok f (err e) v h = absurd (cc)

  -- The first step's result and state are the start of the rest.
  pub ensures-bind :
      {m : Exec E A} {f : A → Exec E B} {w : World} {P : A → World → Type 0}
      {Q : B → World → Type 0}
      → Ensures m w P
      → ((a : A) (v : World) → P a v → Ensures (f a) v Q)
      → Ensures (m >>= f) w Q
  unfolding ◌>>=◌
  ensures-bind {m} {f} {w} hm hf = record {
    at = λ b v h.
        let (r, u) = m w in
        let (a, e, k) = continue-ok f r u h in (hf a u (hm.at a u (ap (λ x. (x, u)) e))).at b v k;
  }

  -- Whatever the first step did, the rest ends so.
  pub ensures-then :
      (m : Exec E A) {f : A → Exec E B} {w : World} {Q : B → World → Type 0}
      → ((a : A) (v : World) → Ensures (f a) v Q)
      → Ensures (m >>= f) w Q
  ensures-then m hf = ensures-bind (record { at = λ a v e. tt }) λ a v u. hf a v

  pub bind-run :
      (m : Exec E A) (f : A → Exec E B) (w : World) (a : A) (v : World)
      → m w ≡ (ok a, v)
      → (m >>= f) w ≡ f a v
  unfolding ◌>>=◌
  bind-run m f w a v h = ap (λ x. continue x.0 f x.1) h

  -- A first step that fails ends the chain.
  pub bind-fails :
      (m : Exec E A) (f : A → Exec E B) (w : World) (e : E) (v : World)
      → m w ≡ (err e, v)
      → (m >>= f) w ≡ (err e, v)
  unfolding ◌>>=◌
  bind-fails m f w e v h = ap (λ x. continue x.0 f x.1) h

attempt-ok : {E A : Type 0} (r : Result E A) (a : A) → result_option r ≡ some a → r ≡ ok a
attempt-ok (ok x) a h = cc
attempt-ok (err e) a h = cc

module _ {E F A : Type 0} where
  -- An attempt that has something succeeded.
  pub ensures-attempt :
      {m : Exec E A} {w : World} {Q : A → World → Type 0}
      → Ensures m w Q
      → Ensures (attempt {F = F} m) w (λ o v. (a : A) → o ≡ some a → Q a v)
  unfolding attempt
  ensures-attempt {m} {w} {Q} h = record {
    at = λ o v e a s.
        let (r, u) = m w in
        subst (λ x. Q a x) (ap (λ y. y.1) e) (h.at a u (ap (λ x. (x, u)) (attempt-ok r a (cc))));
  }

  map_err-ok : (f : E → F) (r : Result E A) (a : A) → result_map_err f r ≡ ok a → r ≡ ok a
  map_err-ok f (ok x) a h = cc
  map_err-ok f (err e) a h = cc

  pub ensures-map_err :
      (f : E → F) {m : Exec E A} {w : World} {Q : A → World → Type 0}
      → Ensures m w Q
      → Ensures (map_err f m) w Q
  unfolding map_err
  ensures-map_err f {m} {w} {Q} h = record {
    at = λ a v e.
        let (r, u) = m w in
        subst (λ x. Q a x) (ap (λ y. y.1) e) (h.at a u (ap (λ x. (x, u)) (map_err-ok f r a (cc))));
  }

pub ensures-ignore :
    {E F A : Type 0} (m : Exec F A) (w : World) → Ensures (ignore {E = E} m) w (λ _ v. v ≡ (m w).1)
unfolding ignore
ensures-ignore m w = record { at = λ a v h. sym (ap (λ y. y.1) h) }

pub ensures-time_now :
    (env : Env) (w : World)
    → Ensures (time_now env) w (λ now v. (now ≡ env.now w.tick) × (v ≡ advance env w))
unfolding time_now
ensures-time_now env w = record { at = λ a v h. (cc, sym (ap (λ y. y.1) h)) }

module _ (env : Env) {Row : Type 0} (table : Table Row) (laws : GormLaws env.gorm) where
  pub read-ok :
      {A : Type 0} (r : Reply A) (w : World) {a : A} {v : World}
      → read_reply env table r w ≡ (ok a, v)
      → (r ≡ done a) × (v ≡ advance env w)
  read-ok (done x) w h = (cc, sym (ap (λ y. y.1) h))
  read-ok failed w h = (cc, cc)

  pub ensures-first :
      (p : Row → Bool) (w : World)
      → Ensures (first env table p) w (λ o v. (o ≡ find? p (table.rows w)) × (v ≡ advance env w))
  unfolding first
  ensures-first p w = record {
    at = λ o v h.
        let (e, same) = read-ok (env.gorm.first w.tick p (table.rows w)) w h in
        (laws.first_done w.tick p (table.rows w) e, same);
  }

  pub ensures-find :
      (p : Row → Bool) (w : World)
      → Ensures
          (find env table p)
          w
          (λ rows v. (rows ≡ keep p (table.rows w)) × (v ≡ advance env w))
  unfolding find
  ensures-find p w = record {
    at = λ o v h.
        let (e, same) = read-ok (env.gorm.find w.tick p (table.rows w)) w h in
        (laws.find_done w.tick p (table.rows w) e, same);
  }

  -- The rows in another order.
  pub ensures-find_desc :
      (key : Row → Time) (p : Row → Bool) (w : World)
      → Ensures
          (find_desc env table key p)
          w
          (λ rows v. (Perm rows (keep p (table.rows w))) × (v ≡ advance env w))
  unfolding find_desc
  ensures-find_desc key p w = record {
    at = λ rows v h.
        let (e, same) = read-ok (env.gorm.find_desc w.tick key p (table.rows w)) w h in
        (laws.find_desc_done w.tick key p (table.rows w) e, same);
  }

  write-ok :
      {A : Type 0} (r : Reply (A × List Row)) (w : World) {a : A} {v : World}
      → write_reply env table r w ≡ (ok a, v)
      → (rows : List Row) × (r ≡ done (a, rows)) × (v ≡ table.set rows (advance env w))
  write-ok (done (x, rows)) w h = (rows, cc, sym (ap (λ y. y.1) h))
  write-ok failed w h = absurd (cc)

  pub ensures-updates :
      (p : Row → Bool) (f : Time → Row → Row) (w : World)
      → Ensures (updates env table p f) w (λ k v.
        (at : Time) × (v ≡ table.set (map (change p (f at)) (table.rows w)) (advance env w)))
  unfolding updates
  ensures-updates p f w = record {
    at = λ k v h.
        let (rows, e, same) = write-ok (env.gorm.updates w.tick p f (table.rows w)) w h in
        let (_, (at, written)) = laws.updates_done w.tick p f (table.rows w) e in
        (at, same ∙ ap (λ t. table.set t (advance env w)) written);
  }

  pub ensures-create_fresh :
      (clash : Row → Row → Bool) (mk : Uuid → Time → Row) (w : World)
      → Ensures (create env table clash mk) w (λ r v.
        (find? (clash r) (table.rows w) ≡ none)
        × ((rows : List Row) × Insert r (table.rows w) rows
            × ((id : Uuid) × (at : Time) × (r ≡ mk id at))
            × (v ≡ table.set rows (advance env w))))
  unfolding create
  ensures-create_fresh clash mk w = record {
    at = λ r v h.
        let (rows, e, same) = write-ok (env.gorm.create w.tick clash mk (table.rows w)) w h in
        let (made, fresh, i) = laws.create_done w.tick clash mk (table.rows w) e in
        (fresh, (rows, i, made, same));
  }

  -- The new row, and where its table stands with it.
  pub ensures-create :
      (clash : Row → Row → Bool) (mk : Uuid → Time → Row) (w : World)
      → Ensures (create env table clash mk) w (λ r v.
        (rows : List Row) × Insert r (table.rows w) rows
        × ((id : Uuid) × (at : Time) × (r ≡ mk id at))
        × (v ≡ table.set rows (advance env w)))
  ensures-create clash mk w = record {
    at = λ r v h. let (fresh, rest) = (ensures-create_fresh clash mk w).at r v h in rest;
  }
