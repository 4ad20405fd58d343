-- ===== src/Progress/Statements.antt =====
-- The statements. A read changes no table. A write to a table is `Later` if the rows that it leaves
-- are, and gorm's laws say which rows these are.
use oidc_demo.Base.{
  ℕ, Bool, none, List, ◌≡◌, refl, sym, subst, map, find?, keep, not, change, Insert,
}
use oidc_demo.Gorm.{Reply, done, failed, GormLaws}
use oidc_demo.Model.{Uuid, Time}
use oidc_demo.World.{
  World, Env, Table, first, find, first_desc, find_desc, find_asc, count, page_desc, delete,
  delete_reply, save, updates, create, read_reply, write_reply, advance,
}
use oidc_demo.Progress.Order.{Later}
use oidc_demo.Progress.Rules.{Grows, idle}

module _ (env : Env) {Row : Type 0} (table : Table Row) where
  read-Later : {A : Type 0} (r : Reply A) (w : World) → Later w (read_reply env table r w).1
  read-Later (done a) w = idle w
  read-Later failed w = idle w

  pub Grows-first : (p : Row → Bool) → Grows (first env table p)
  unfolding first
  Grows-first p = record { at = λ w. read-Later (env.gorm.first w.tick p (table.rows w)) w }

  pub Grows-find : (p : Row → Bool) → Grows (find env table p)
  unfolding find
  Grows-find p = record { at = λ w. read-Later (env.gorm.find w.tick p (table.rows w)) w }

  pub Grows-first_desc : (key : Row → Time) (p : Row → Bool) → Grows (first_desc env table key p)
  unfolding first_desc
  Grows-first_desc key p = record {
    at = λ w. read-Later (env.gorm.first_desc w.tick key p (table.rows w)) w;
  }

  pub Grows-find_desc : (key : Row → Time) (p : Row → Bool) → Grows (find_desc env table key p)
  unfolding find_desc
  Grows-find_desc key p = record {
    at = λ w. read-Later (env.gorm.find_desc w.tick key p (table.rows w)) w;
  }

  pub Grows-find_asc : (key : Row → Time) (p : Row → Bool) → Grows (find_asc env table key p)
  unfolding find_asc
  Grows-find_asc key p = record {
    at = λ w. read-Later (env.gorm.find_asc w.tick key p (table.rows w)) w;
  }

  pub Grows-count : (p : Row → Bool) → Grows (count env table p)
  unfolding count
  Grows-count p = record { at = λ w. read-Later (env.gorm.count w.tick p (table.rows w)) w }

  pub Grows-page_desc :
      (key : Row → Time) (p : Row → Bool) (limit offset : ℕ)
      → Grows (page_desc env table key p limit offset)
  unfolding page_desc
  Grows-page_desc key p limit offset = record {
    at = λ w. read-Later (env.gorm.page_desc w.tick key p limit offset (table.rows w)) w;
  }

  write-Later :
      {A : Type 0} (r : Reply (A × List Row)) (w : World)
      → ((a : A) (rows : List Row) → r ≡ done (a, rows) → Later w (table.set rows (advance env w)))
      → Later w (write_reply env table r w).1
  write-Later (done (a, rows)) w h = h a rows refl
  write-Later failed w h = idle w

  delete-Later :
      (r : Reply (List Row)) (w : World)
      → ((rows : List Row) → r ≡ done rows → Later w (table.set rows (advance env w)))
      → Later w (delete_reply env table r w).1
  delete-Later (done rows) w h = h rows refl
  delete-Later failed w h = idle w

  module _ (laws : GormLaws env.gorm) where
    pub Grows-delete :
        (p : Row → Bool)
        → ((w : World) → Later w (table.set (keep (λ r. not (p r)) (table.rows w)) (advance env w)))
        → Grows (delete env table p)
    unfolding delete
    Grows-delete p h = record {
      at = λ w. delete-Later (env.gorm.delete w.tick p (table.rows w)) w λ rows e.
          subst (λ t. Later w (table.set t (advance env w)))
            (sym (laws.delete_done w.tick p (table.rows w) e)) (h w);
    }

    pub Grows-save :
        (p : Row → Bool) (f : Time → Row)
        → ((w : World) (at : Time)
            → Later w (table.set (map (change p (λ r. f at)) (table.rows w)) (advance env w)))
        → Grows (save env table p f)
    unfolding save
    Grows-save p f h = record {
      at = λ w. write-Later (env.gorm.save w.tick p f (table.rows w)) w λ at rows e.
          subst (λ t. Later w (table.set t (advance env w)))
            (sym (laws.save_done w.tick p f (table.rows w) e)) (h w at);
    }

    pub Grows-updates :
        (p : Row → Bool) (f : Time → Row → Row)
        → ((w : World) (at : Time)
            → Later w (table.set (map (change p (f at)) (table.rows w)) (advance env w)))
        → Grows (updates env table p f)
    unfolding updates
    Grows-updates p f h = record {
      at = λ w. write-Later (env.gorm.updates w.tick p f (table.rows w)) w λ k rows e.
          let (_, (at, same)) = laws.updates_done w.tick p f (table.rows w) e in
          subst (λ t. Later w (table.set t (advance env w))) (sym same) (h w at);
    }

    pub Grows-create :
        (clash : Row → Row → Bool) (mk : Uuid → Time → Row)
        → ((w : World) (id at : ℕ) (rows : List Row)
            → find? (clash (mk id at)) (table.rows w) ≡ none
            → Insert (mk id at) (table.rows w) rows
            → Later w (table.set rows (advance env w)))
        → Grows (create env table clash mk)
    unfolding create
    Grows-create clash mk h = record {
      at = λ w. write-Later (env.gorm.create w.tick clash mk (table.rows w)) w λ r rows e.
          let (made, fresh, i) = laws.create_done w.tick clash mk (table.rows w) e in
          let (id, at, same) = made in
          h w id at rows (subst (λ x. find? (clash x) (table.rows w) ≡ none) same fresh)
            (subst (λ x. Insert x (table.rows w) rows) same i);
    }
