-- ===== src/Server/UpdatedClient.antt =====
-- PUT /management/v1/clients/:id, from the request to the table.
use oidc_demo.Base.{ℕ, ◌<◌, String, List, Option, none, some, All, subst}
use oidc_demo.Gorm.{GormLaws}
use oidc_demo.Model.{Client as Row}
use oidc_demo.World.{World, Env}
use oidc_demo.Http.{Request, Fields}
use oidc_demo.Answers.{Answers}
use oidc_demo.Oidc.Config.{Config}
use oidc_demo.Management.Client
use oidc_demo.Management.CheckedClient.{IsSupported}
use oidc_demo.Management.UpdatedClient.{
  UpdatesClient, UpdatesClient-AllSupported, ensures-update_client,
}
use oidc_demo.Server.Admin.{IsRefusal, refusal_rules, management_success}
use oidc_demo.Management.Client.{check_each}
use oidc_demo.Server.ClientRefusals.{answers-check_each}
use oidc_demo.Server.Routes.{ManagementRoute, management, manage, serve}

refuses-apply_name :
    (o : Option String) (c : Row) (w : World) → Answers (Client.apply_name o c) w IsRefusal
unfolding Client.apply_name
refuses-apply_name none c w = search refusal_rules depth 20
refuses-apply_name (some name) c w = search refusal_rules depth 20

refuses-grant_types :
    (o : Option (List String)) (c : Row) (w : World)
    → Answers (Client.apply_grant_types o c) w IsRefusal
unfolding Client.apply_grant_types
refuses-grant_types none c w = search refusal_rules depth 20
refuses-grant_types (some xs) c w = search (refusal_rules, answers-check_each) depth 20

refuses-response_types :
    (o : Option (List String)) (c : Row) (w : World)
    → Answers (Client.apply_response_types o c) w IsRefusal
unfolding Client.apply_response_types
refuses-response_types none c w = search refusal_rules depth 20
refuses-response_types (some xs) c w = search (refusal_rules, answers-check_each) depth 20

refuses-auth_method :
    (o : Option String) (c : Row) (w : World) → Answers (Client.apply_auth_method o c) w IsRefusal
unfolding Client.apply_auth_method
refuses-auth_method none c w = search refusal_rules depth 20
refuses-auth_method (some x) c w = search refusal_rules depth 20

refuses-apply_update :
    (fields : Fields) (c : Row) (w : World) → Answers (Client.apply_update fields c) w IsRefusal
unfolding Client.apply_update
refuses-apply_update fields c w =
    search
      (
        refusal_rules, refuses-apply_name, refuses-grant_types, refuses-response_types,
        refuses-auth_method,
      )
      depth 20

refuses-update :
    (env : Env) (r : Request) (w : World) → Answers (Client.handle_update env r) w IsRefusal
unfolding Client.handle_update
refuses-update env r w = search (refusal_rules, refuses-apply_update) depth 20

UpdatesClient-after :
    (env : Env) (r : Request) (w : World) (n : ℕ) (v : World)
    → UpdatesClient env r (record w { tick = n }) v
    → UpdatesClient env r w v
UpdatesClient-after env r w n v k = record {
  id = k.id;
  fields = k.fields;
  old = k.old;
  now = k.now;
  is_named = k.is_named;
  has_body = k.has_body;
  is_found = k.is_found;
  takes = k.takes;
  tick = k.tick;
  rest = k.rest;
}

module _ (env : Env) (config : Config) (laws : GormLaws env.gorm) where
  pub updated_client_takes_fields :
      (r : Request) (w : World)
      → (serve env config (management ManagementRoute.update_client) r w).0.status < 400
      → UpdatesClient env r w (serve env config (management ManagementRoute.update_client) r w).1
  unfolding manage
  updated_client_takes_fields r w h =
      management_success env config laws ManagementRoute.update_client r w (refuses-update env r)
        (λ u (n, same). record {
          at = λ a v run. UpdatesClient-after env r w n v (
              subst (λ x. UpdatesClient env r x v) same
                ((ensures-update_client env laws r u).at a v run));
        })
        h

  -- If all clients have a name of 1 to 255 bytes and supported grant types, response types and
  -- authentication, and the request to update one is answered with a status below 400, all clients have
  -- them after it.
  pub updated_clients-IsSupported :
      (r : Request) (w : World)
      → All IsSupported w.clients
      → (serve env config (management ManagementRoute.update_client) r w).0.status < 400
      → All IsSupported (serve env config (management ManagementRoute.update_client) r w).1.clients
  updated_clients-IsSupported r w all h =
      UpdatesClient-AllSupported env r w _ (updated_client_takes_fields r w h) all
