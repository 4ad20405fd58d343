-- ===== src/Management/ClientFields.antt =====
-- The fields that an update of a client takes from the body of the request.
use oidc_demo.Base.{
  String, Bool, true, Option, none, some, List, ◌≡◌, refl, sym, ap, ◌∙◌, subst, All,
}
use oidc_demo.Model.{Time, Client}
use oidc_demo.World.{World}
use oidc_demo.Http.{Fields}
use oidc_demo.Outcome.{Ensures, ensures-bind, ensures-pure, ensures-raise_if}
use oidc_demo.Management.Client.{
  apply_name, apply_grant_types, apply_response_types, apply_auth_method, apply_rest, apply_update,
  or_keep, or_kept, valid_grant_type, valid_response_type, valid_auth_method,
}
use oidc_demo.Management.CheckedClient.{ensures-check_each, accepted}
use oidc_demo.Management.TakenFields.{TakesName, name_taken}

-- A list that is given has valid values only and is the new one; otherwise the old one stays.
abbrev pub TakesList : (String → Bool) → Option (List String) → List String → List String → Type 0
TakesList valid none old now = now ≡ old
TakesList valid (some xs) old now = (xs ≡ now) × All (λ x. valid x ≡ true) now

abbrev pub TakesMethod : Option String → String → String → Type 0
TakesMethod none old now = now ≡ old
TakesMethod (some x) old now = (x ≡ now) × (valid_auth_method now ≡ true)

abbrev pub TakesFlag : Option Bool → Bool → Bool → Type 0
TakesFlag none old now = now ≡ old
TakesFlag (some b) old now = b ≡ now

abbrev pub TakesAddress : Option String → Option String → Option String → Type 0
TakesAddress none old now = now ≡ old
TakesAddress (some s) old now = now ≡ some s

-- The row with the fields that the request gives, and the others as they were.
pub record TakesClient (fields : Fields) (old now : Client) : Type 0 where
  pub id : now.id ≡ old.id
  pub tenant_id : now.tenant_id ≡ old.tenant_id
  pub client_id : now.client_id ≡ old.client_id
  pub client_secret_hash : now.client_secret_hash ≡ old.client_secret_hash
  pub status : now.status ≡ old.status
  pub created_at : now.created_at ≡ old.created_at
  pub name : TakesName (fields.pointer "name") old.name now.name
  pub grant_types :
      TakesList valid_grant_type (fields.list "grant_types") old.grant_types now.grant_types
  pub response_types :
      TakesList valid_response_type
        (fields.list "response_types")
        old.response_types
        now.response_types
  pub auth_method :
      TakesMethod
        (fields.pointer "token_endpoint_auth_method")
        old.token_endpoint_auth_method
        now.token_endpoint_auth_method
  pub require_pkce : TakesFlag (fields.flag "require_pkce") old.require_pkce now.require_pkce
  pub frontchannel :
      TakesAddress
        (fields.pointer "frontchannel_logout_uri")
        old.frontchannel_logout_uri
        now.frontchannel_logout_uri
  pub backchannel :
      TakesAddress
        (fields.pointer "backchannel_logout_uri")
        old.backchannel_logout_uri
        now.backchannel_logout_uri

ensures-name :
    (o : Option String) (c : Client) (w : World)
    → Ensures
        (apply_name o c)
        w
        (λ d v. TakesName o c.name d.name × (d ≡ record c { name = d.name }) × (w ≡ v))
unfolding apply_name
ensures-name none c w = ensures-pure c w _ (refl, refl, refl)
ensures-name (some name) c w =
    ensures-bind (ensures-raise_if _ _ w)
      λ u w1 e1. ensures-pure _ w1 _ (name_taken name e1.0, refl, e1.1)

ensures-grant_types :
    (o : Option (List String)) (c : Client) (w : World)
    → Ensures (apply_grant_types o c) w (λ d v.
      TakesList valid_grant_type o c.grant_types d.grant_types
      × (d ≡ record c { grant_types = d.grant_types })
      × (w ≡ v))
unfolding apply_grant_types
ensures-grant_types none c w = ensures-pure c w _ (refl, refl, refl)
ensures-grant_types (some xs) c w =
    ensures-bind (ensures-check_each _ _ xs w)
      λ u w1 (valid, e1). ensures-pure _ w1 _ ((refl, valid), refl, e1)

ensures-response_types :
    (o : Option (List String)) (c : Client) (w : World)
    → Ensures (apply_response_types o c) w (λ d v.
      TakesList valid_response_type o c.response_types d.response_types
      × (d ≡ record c { response_types = d.response_types })
      × (w ≡ v))
unfolding apply_response_types
ensures-response_types none c w = ensures-pure c w _ (refl, refl, refl)
ensures-response_types (some xs) c w =
    ensures-bind (ensures-check_each _ _ xs w)
      λ u w1 (valid, e1). ensures-pure _ w1 _ ((refl, valid), refl, e1)

ensures-auth_method :
    (o : Option String) (c : Client) (w : World)
    → Ensures (apply_auth_method o c) w (λ d v.
      TakesMethod o c.token_endpoint_auth_method d.token_endpoint_auth_method
      × (d ≡ record c { token_endpoint_auth_method = d.token_endpoint_auth_method })
      × (w ≡ v))
unfolding apply_auth_method
ensures-auth_method none c w = ensures-pure c w _ (refl, refl, refl)
ensures-auth_method (some x) c w =
    ensures-bind (ensures-raise_if _ _ w)
      λ u w1 e1. ensures-pure _ w1 _ ((refl, accepted _ e1.0), refl, e1.1)

flag_taken : (o : Option Bool) (old : Bool) → TakesFlag o old (or_keep o old)
flag_taken none old = refl
flag_taken (some b) old = refl

address_taken : (o old : Option String) → TakesAddress o old (or_kept o old)
address_taken none old = refl
address_taken (some s) old = refl

-- The row after the four checked fields, and then after the others.
all_taken :
    (fields : Fields) (c : Client) (name auth_method : String) (grants responses : List String)
    (at : Time)
    → TakesName (fields.pointer "name") c.name name
    → TakesList valid_grant_type (fields.list "grant_types") c.grant_types grants
    → TakesList valid_response_type (fields.list "response_types") c.response_types responses
    → TakesMethod
        (fields.pointer "token_endpoint_auth_method")
        c.token_endpoint_auth_method
        auth_method
    → TakesClient fields c
        (record (apply_rest fields (record c {
          name = name;
          grant_types = grants;
          response_types = responses;
          token_endpoint_auth_method = auth_method;
        })) { updated_at = at })
unfolding apply_rest
all_taken fields c name auth_method grants responses at n g r a = record {
  id = refl;
  tenant_id = refl;
  client_id = refl;
  client_secret_hash = refl;
  status = refl;
  created_at = refl;
  name = n;
  grant_types = g;
  response_types = r;
  auth_method = a;
  require_pkce = flag_taken (fields.flag "require_pkce") c.require_pkce;
  frontchannel = address_taken (fields.pointer "frontchannel_logout_uri") c.frontchannel_logout_uri;
  backchannel = address_taken (fields.pointer "backchannel_logout_uri") c.backchannel_logout_uri;
}

-- What an update that passes its checks makes of a row.
pub ensures-apply_update :
    (fields : Fields) (c : Client) (w : World)
    → Ensures
        (apply_update fields c)
        w
        (λ d v. ((at : Time) → TakesClient fields c (record d { updated_at = at })) × (w ≡ v))
unfolding apply_update
ensures-apply_update fields c w = ensures-bind (ensures-name _ c w) λ c1 w1 (n, same1, e1).
    ensures-bind (ensures-grant_types _ c1 w1) λ c2 w2 (g, same2, e2).
      ensures-bind (ensures-response_types _ c2 w2) λ c3 w3 (r, same3, e3).
        ensures-bind (ensures-auth_method _ c3 w3) λ c4 w4 (a, same4, e4).
          let two : c2 ≡ record c { name = c1.name; grant_types = c2.grant_types } =
            same2 ∙ ap (λ (x : Client). record x { grant_types = c2.grant_types }) same1 in
          let three : c3 ≡ record c {
            name = c1.name;
            grant_types = c2.grant_types;
            response_types = c3.response_types;
          } =
            same3 ∙ ap (λ (x : Client). record x { response_types = c3.response_types }) two in
          let whole = sym (
            same4
            ∙ ap
                (λ (x : Client). record x {
                  token_endpoint_auth_method = c4.token_endpoint_auth_method;
                })
                three) in
          ensures-pure _ w4 _ (
            subst
                (λ (x : Client).
                  (at : Time)
                  → TakesClient fields c (record (apply_rest fields x) { updated_at = at }))
                whole
                (λ at.
                  all_taken fields c c1.name c4.token_endpoint_auth_method c2.grant_types
                    c3.response_types at n
                    (subst
                      (λ xs.
                        TakesList valid_grant_type (fields.list "grant_types") xs c2.grant_types)
                      (ap (λ (x : Client). x.grant_types) same1) g)
                    (subst
                      (λ xs.
                        TakesList valid_response_type (fields.list "response_types") xs
                          c3.response_types)
                      (ap (λ (x : Client). x.response_types) two) r)
                    (subst
                      (λ m.
                        TakesMethod (fields.pointer "token_endpoint_auth_method") m
                          c4.token_endpoint_auth_method)
                      (ap (λ (x : Client). x.token_endpoint_auth_method) three) a)),
            e1 ∙ e2 ∙ e3 ∙ e4,
          )
