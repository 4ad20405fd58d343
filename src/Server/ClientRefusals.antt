-- ===== src/Server/ClientRefusals.antt =====
-- Whatever the management routes of clients answer in place of their end, its status is at least 400.
use oidc_demo.Base.{Bool, String, List, [], ◌∷◌}
use oidc_demo.World.{World, Env}
use oidc_demo.Http.{Request, Fields}
use oidc_demo.Answers.{Answers, answers-pure, answers-bind, answers-raise_if}
use oidc_demo.Management.RedirectUri
use oidc_demo.Management.Client
use oidc_demo.Server.Admin.{IsRefusal, IsRefusal-bad_request, refusal_rules, answers-raise_text}

pub answers-check_each :
    (valid : String → Bool) (message : String) (xs : List String) (w : World)
    → Answers (Client.check_each valid message xs) w IsRefusal
unfolding Client.check_each
answers-check_each valid message [] w = answers-pure tt w
answers-check_each valid message (x ∷ xs) w =
    answers-bind (answers-raise_if _ _ w (IsRefusal-bad_request _))
      λ a v e. answers-check_each valid message xs v

answers-check_uris :
    (env : Env) (uris : List String) (w : World) → Answers (Client.check_uris env uris) w IsRefusal
unfolding Client.check_uris
answers-check_uris env [] w = answers-pure tt w
answers-check_uris env (uri ∷ uris) w =
    answers-bind (answers-raise_text _ w) λ a v e. answers-check_uris env uris v

answers-check_new :
    (env : Env) (fields : Fields) (xs ys us vs : List String) (w : World)
    → Answers (Client.check_new env fields xs ys us vs) w IsRefusal
unfolding Client.check_new Client.check_name Client.check_grant_types Client.check_response_types
    Client.check_required Client.check_auth_method
answers-check_new env fields xs ys us vs w =
    search (refusal_rules, answers-check_each, answers-check_uris) depth 20

module _ (env : Env) (r : Request) where
  pub refuses-create : (w : World) → Answers (Client.handle_create env r) w IsRefusal
  unfolding Client.handle_create
  refuses-create w = search (refusal_rules, answers-check_new) depth 30

  pub refuses-delete : (w : World) → Answers (Client.handle_delete env r) w IsRefusal
  unfolding Client.handle_delete
  refuses-delete w = search refusal_rules depth 20

  pub refuses-rotate : (w : World) → Answers (Client.handle_rotate_secret env r) w IsRefusal
  unfolding Client.handle_rotate_secret
  refuses-rotate w = search refusal_rules depth 20

  pub refuses-create_uri : (w : World) → Answers (RedirectUri.handle_create env r) w IsRefusal
  unfolding RedirectUri.handle_create
  refuses-create_uri w = search refusal_rules depth 20

  pub refuses-delete_uri : (w : World) → Answers (RedirectUri.handle_delete env r) w IsRefusal
  unfolding RedirectUri.handle_delete
  refuses-delete_uri w = search refusal_rules depth 20
