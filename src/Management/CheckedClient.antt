-- ===== src/Management/CheckedClient.antt =====
-- What the checks of a new client have found, when none of them has refused it.
use oidc_demo.Base.{
  ◌≤◌, len, String, Bool, true, false, List, [], ◌∷◌, ◌≡◌, ◌≢◌, refl, ◌∙◌, All, not, arith,
}
use oidc_demo.Model.{Client as Row}
use oidc_demo.World.{World, Env}
use oidc_demo.Http.{Fields, text_field}
use oidc_demo.Outcome.{Ensures, ensures-bind, ensures-pure, ensures-raise_if}
use oidc_demo.Management.NewTenant.{ensures-raise_text, is_nonempty, fits}
use oidc_demo.Management.Addresses.{IsAddress, validated-IsAddress, neither}
use oidc_demo.Management.Client
use oidc_demo.Management.Client.{
  list_field, check_each, check_required, check_uris, check_new, valid_grant_type,
  valid_response_type, valid_auth_method, auth_method_or_default, new_client,
}

-- A name of 1 to 255 bytes, and supported grant types, response types and authentication.
pub record IsSupported (c : Row) : Type 0 where
  pub name : (c.name ≢ "") × (len c.name ≤ 255)
  pub grant_types : All (λ g. valid_grant_type g ≡ true) c.grant_types
  pub response_types : All (λ g. valid_response_type g ≡ true) c.response_types
  pub auth_method : valid_auth_method c.token_endpoint_auth_method ≡ true

-- What the checks have found of the fields of a new client.
pub record IsCheckedClient (env : Env) (fields : Fields) (grants responses uris posts : List String)
    : Type 0 where
  pub name : (text_field fields "name" ≢ "") × (len (text_field fields "name") ≤ 255)
  pub auth_method : valid_auth_method (auth_method_or_default fields) ≡ true
  pub has_grants : grants ≢ []
  pub has_responses : responses ≢ []
  pub grants_valid : All (λ g. valid_grant_type g ≡ true) grants
  pub responses_valid : All (λ g. valid_response_type g ≡ true) responses
  pub uris_valid : All (IsAddress env) uris
  pub posts_valid : All (IsAddress env) posts

pub accepted : (b : Bool) → not b ≡ false → b ≡ true
accepted b h = ground arith

pub ensures-check_each :
    (valid : String → Bool) (message : String) (xs : List String) (w : World)
    → Ensures (check_each valid message xs) w (λ _ v. All (λ x. valid x ≡ true) xs × (w ≡ v))
unfolding check_each
ensures-check_each valid message [] w = ensures-pure tt w _ (tt, refl)
ensures-check_each valid message (x ∷ xs) w = ensures-bind (ensures-raise_if _ _ w) λ u w1 e1.
    record {
      at = λ a v run.
          let (rest, same) = (ensures-check_each valid message xs w1).at a v run in
          ((accepted _ e1.0, rest), e1.1 ∙ same);
    }

ensures-check_uris :
    (env : Env) (uris : List String) (w : World)
    → Ensures (check_uris env uris) w (λ _ v. All (IsAddress env) uris × (w ≡ v))
unfolding check_uris
ensures-check_uris env [] w = ensures-pure tt w _ (tt, refl)
ensures-check_uris env (uri ∷ uris) w = ensures-bind (ensures-raise_text _ w) λ u w1 e1. record {
  at = λ a v run.
      let (rest, same) = (ensures-check_uris env uris w1).at a v run in
      ((validated-IsAddress env uri e1.0, rest), e1.1 ∙ same);
}

given : (xs : List String) → Client.is_nil xs ≡ false → xs ≢ []
given [] h e = absurd (cc)
given (x ∷ xs) h e = absurd (cc)

ensures-check_required :
    (valid : String → Bool) (required message : String) (xs : List String) (w : World)
    → Ensures
        (check_required valid required message xs)
        w
        (λ _ v. (xs ≢ []) × All (λ x. valid x ≡ true) xs × (w ≡ v))
unfolding check_required
ensures-check_required valid required message xs w =
    ensures-bind (ensures-raise_if _ _ w) λ u w1 e1. record {
      at = λ a v run.
          let (rest, same) = (ensures-check_each valid message xs w1).at a v run in
          (given xs e1.0, rest, e1.1 ∙ same);
    }

pub ensures-check_new :
    (env : Env) (fields : Fields) (grants responses uris posts : List String) (w : World)
    → Ensures
        (check_new env fields grants responses uris posts)
        w
        (λ _ v. IsCheckedClient env fields grants responses uris posts × (w ≡ v))
unfolding check_new Client.check_name Client.check_grant_types Client.check_response_types
    Client.check_auth_method
ensures-check_new env fields grants responses uris posts w =
    ensures-bind (ensures-raise_if _ _ w) λ u1 w1 e1.
      ensures-bind (ensures-check_required _ _ _ grants w1) λ u2 w2 (some_grant, gs, e2).
        ensures-bind (ensures-check_required _ _ _ responses w2) λ u3 w3 (some_response, rs, e3).
          ensures-bind (ensures-raise_if _ _ w3) λ u4 w4 e4.
            ensures-bind (ensures-check_uris env uris w4) λ u5 w5 (us, e5). record {
              at = λ a v run.
                  let (ps, e6) = (ensures-check_uris env posts w5).at a v run in
                  (
                    record {
                      name =
                          let (filled, short) = neither _ _ e1.0 in
                          (is_nonempty _ filled, fits _ short);
                      auth_method = accepted _ e4.0;
                      has_grants = some_grant;
                      has_responses = some_response;
                      grants_valid = gs;
                      responses_valid = rs;
                      uris_valid = us;
                      posts_valid = ps;
                    },
                    e1.1 ∙ e2 ∙ e3 ∙ e4.1 ∙ e5 ∙ e6,
                  );
            }
