-- ===== src/Management/UpdatedClient.antt =====
-- What a request to update a client has checked and written, when it comes to its end.
use oidc_demo.Base.{
  ℕ, suc, String, Bool, List, Option, none, some, map, ◌≡◌, sym, ap, ◌∙◌, subst, ◌==◌, find?,
  change, All, found-All, replaced-All, true,
}
use oidc_demo.Gorm.{GormLaws}
use oidc_demo.Model.{Uuid, Time, Client}
use oidc_demo.World.{World, Env, clients, advance}
use oidc_demo.Http.{Request, Fields}
use oidc_demo.Outcome.{
  Ensures, ensures-bind, ensures-pure, ensures-or_raise, ensures-first, ensures-map_err,
}
use oidc_demo.Outcome.Statements.{ensures-save}
use oidc_demo.Store.Clients
use oidc_demo.Management.Client.{handle_update, valid_auth_method}
use oidc_demo.Management.CheckedClient.{IsSupported}
use oidc_demo.Management.TakenFields.{still_named}
use oidc_demo.Management.ClientFields.{TakesClient, TakesList, TakesMethod, ensures-apply_update}

-- The client of the path takes the fields of the body, and nothing else changes.
pub record UpdatesClient (env : Env) (r : Request) (w v : World) : Type 0 where
  pub id : Uuid
  pub fields : Fields
  pub old : Client
  pub now : Client
  pub is_named : env.uuid_parse (r.param "id") ≡ some id
  pub has_body : r.bind ≡ some fields
  pub is_found : find? (λ c. c.id == id) w.clients ≡ some old
  pub takes : TakesClient fields old now
  pub tick : ℕ
  pub rest :
      v
      ≡ record w { tick = tick; clients = map (change (λ c. c.id == old.id) (λ c. now)) w.clients }

still_list :
    (valid : String → Bool) (o : Option (List String)) (old now : List String)
    → TakesList valid o old now
    → All (λ x. valid x ≡ true) old
    → All (λ x. valid x ≡ true) now
still_list valid none old now h all = subst (All (λ x. valid x ≡ true)) (sym h) all
still_list valid (some xs) old now h all = h.1

still_method :
    (o : Option String) (old now : String)
    → TakesMethod o old now
    → valid_auth_method old ≡ true
    → valid_auth_method now ≡ true
still_method none old now h is = ap valid_auth_method h ∙ is
still_method (some x) old now h is = h.1

-- A supported client stays supported.
TakesClient-IsSupported :
    (fields : Fields) (old now : Client)
    → TakesClient fields old now
    → IsSupported old
    → IsSupported now
TakesClient-IsSupported fields old now h is = record {
  name = still_named _ _ _ h.name is.name;
  grant_types = still_list _ _ _ _ h.grant_types is.grant_types;
  response_types = still_list _ _ _ _ h.response_types is.response_types;
  auth_method = still_method _ _ _ h.auth_method is.auth_method;
}

pub UpdatesClient-AllSupported :
    (env : Env) (r : Request) (w v : World)
    → UpdatesClient env r w v
    → All IsSupported w.clients
    → All IsSupported v.clients
UpdatesClient-AllSupported env r w v h all =
    subst (λ (x : World). All IsSupported x.clients) (sym h.rest)
      (replaced-All IsSupported _ h.now w.clients
        (TakesClient-IsSupported h.fields h.old h.now h.takes
          (found-All IsSupported _ w.clients h.old all h.is_found))
        all)

-- The table with the row of that id replaced.
abbrev replaced : Uuid → Client → World → World
replaced id now w = record w {
  tick = suc w.tick;
  clients = map (change (λ c. c.id == id) (λ c. now)) w.clients;
}

module _ (env : Env) (laws : GormLaws env.gorm) where
  ensures-update :
      (c : Client) (w : World)
      → Ensures
          (Clients.update env c)
          w
          (λ _ v. (at : Time) × (v ≡ replaced c.id (record c { updated_at = at }) w))
  unfolding Clients.update
  ensures-update c w =
      ensures-bind (ensures-save env clients laws _ _ w)
        λ at w1 state. ensures-pure _ w1 _ (at, state)

  pub ensures-update_client :
      (r : Request) (w : World) → Ensures (handle_update env r) w (λ _ v. UpdatesClient env r w v)
  unfolding handle_update Clients.find_by_id
  ensures-update_client r w = ensures-bind (ensures-or_raise _ _ w) λ id w1 e1.
      ensures-bind (ensures-map_err _ (ensures-first env clients laws _ w1)) λ found w2 e2.
        ensures-bind (ensures-or_raise found _ w2) λ old w3 e3.
          ensures-bind (ensures-or_raise _ _ w3) λ fields w4 e4.
            ensures-bind (ensures-apply_update fields old w4) λ changed w5 (taken, e5).
              ensures-bind (ensures-map_err _ (ensures-update changed w5)) λ saved w6 (at, state).
                let start : w5 ≡ advance env w =
                  sym (e3.1 ∙ e4.1 ∙ e5) ∙ e2.1 ∙ ap (advance env) (sym e1.1) in
                ensures-pure _ w6 _ (record {
                  id = id;
                  fields = fields;
                  old = old;
                  now = record changed { updated_at = at };
                  is_named = e1.0;
                  has_body = e4.0;
                  is_found =
                      ap (λ (x : World). find? (λ c. c.id == id) x.clients) e1.1 ∙ sym e2.0 ∙ e3.0;
                  takes = taken at;
                  tick = suc (suc w.tick);
                  rest =
                      state
                      ∙ ap (λ n. replaced n (record changed { updated_at = at }) w5) (taken at).id
                      ∙ ap (replaced old.id (record changed { updated_at = at })) start;
                })
