-- ===== src/Management/Addresses.antt =====
-- What the requests that add and delete an address of a client have written, when they come to
-- their end.
use oidc_demo.Base.{
  Option, ◌≢◌, eq_iff, ℕ, suc, String, Bool, true, false, none, some, List, ◌≡◌, refl, sym, ap, ◌∙◌,
  find?, keep, any, not, Insert, ◌||◌, ◌&&◌, ◌==◌, str_eq, Bool-cases, inl, inr, arith,
  if◌then◌else◌,
}
use oidc_demo.Gorm.{GormLaws}
use oidc_demo.Model.{Uuid, RedirectUri}
use oidc_demo.World.{World, Env, clients, redirect_uris, advance}
use oidc_demo.Http.{Request, Fields, text_field}
use oidc_demo.Outcome.{
  Ensures, ensures-bind, ensures-pure, ensures-raise_if, ensures-or_raise, ensures-first,
  ensures-create, ensures-map_err,
}
use oidc_demo.Outcome.Statements.{ensures-delete}
use oidc_demo.Store.Clients
use oidc_demo.Store.RedirectUris
use oidc_demo.Management.NewTenant.{ensures-raise_text}
use oidc_demo.Management.RedirectUri
use oidc_demo.Management.RedirectUri.{validate_redirect_uri}

-- The addresses of a client, as a set: the order, the ids and the times are forgotten.
abbrev pub registered : World → Uuid → String → Bool
registered w client uri = any (λ u. u.client_db_id == client && str_eq u.uri uri) w.redirect_uris

-- The same for the addresses after a logout.
abbrev pub registered_post : World → Uuid → String → Bool
registered_post w client uri =
    any (λ u. u.client_db_id == client && str_eq u.uri uri) w.post_logout_redirect_uris

-- An address that is registered can be parsed, and has a scheme and a host and no fragment.
pub record IsAddress (env : Env) (uri : String) : Type 0 where
  pub parses : env.url_parses uri ≡ true
  pub no_fragment : env.url_fragment uri ≡ ""
  pub has_scheme : env.url_scheme uri ≢ ""
  pub has_host : env.url_host uri ≢ ""

pub neither : (a b : Bool) → (a || b) ≡ false → (a ≡ false) × (b ≡ false)
neither a b h = (ground arith, ground arith)

no_text : (s : String) → str_eq s "" ≡ false → s ≢ ""
no_text s h e = ground (arith, eq_iff s "")

is_blank : (s : String) → str_eq s "" ≡ true → s ≡ ""
is_blank s h = ground (arith, eq_iff s "")

passed :
    (b : Bool) (text : String) (rest : Option String)
    → (if b then some text else rest) ≡ none
    → (b ≡ false) × (rest ≡ none)
passed true text rest h = absurd (cc)
passed false text rest h = (refl, h)

unnegated : (b : Bool) → not b ≡ false → b ≡ true
unnegated b h = ground arith

-- What the checks of an address have found.
pub validated-IsAddress :
    (env : Env) (uri : String) → validate_redirect_uri env uri ≡ none → IsAddress env uri
unfolding validate_redirect_uri
validated-IsAddress env uri h =
    let (parses, h1) = passed _ _ _ h in
    let (blank, h2) = passed _ _ _ h1 in
    let (ends, h3) = passed _ _ _ h2 in
    let (scheme, host) = neither _ _ ends in
    record {
      parses = unnegated _ parses;
      no_fragment = is_blank _ (unnegated _ blank);
      has_scheme = no_text _ scheme;
      has_host = no_text _ host;
    }

-- An address is registered.
pub record Registers (env : Env) (client : Uuid) (uri : String) (w v : World) : Type 0 where
  pub is_valid : IsAddress env uri
  pub grows :
      (c : Uuid) (u : String)
      → registered v c u ≡ ((client == c && str_eq uri u) || registered w c u)
  pub tick : ℕ
  pub rows : List RedirectUri
  pub rest : v ≡ record w { tick = tick; redirect_uris = rows }

-- The request adds the address of its body to the client of its path.
pub record AddsUri (env : Env) (r : Request) (w v : World) : Type 0 where
  pub client : Uuid
  pub fields : Fields
  pub is_named : env.uuid_parse (r.param "id") ≡ some client
  pub has_body : r.bind ≡ some fields
  pub registers : Registers env client (text_field fields "uri") w v

-- The request deletes the row that its path names, which is the client's.
pub record DeletesUri (env : Env) (r : Request) (w v : World) : Type 0 where
  pub client : Uuid
  pub id : Uuid
  pub uri : RedirectUri
  pub is_named :
      (env.uuid_parse (r.param "id") ≡ some client) × (env.uuid_parse (r.param "uri_id") ≡ some id)
  pub is_found : find? (λ u. u.id == id) w.redirect_uris ≡ some uri
  pub is_own : uri.client_db_id ≡ client
  pub tick : ℕ
  pub rest :
      v ≡ record w { tick = tick; redirect_uris = keep (λ u. not (u.id == id)) w.redirect_uris }

swap_first : (a b c : Bool) → (if b then true else a || c) ≡ (a || (if b then true else c))
swap_first a true c = ground arith
swap_first a false c = refl

-- A new row adds what it is itself.
pub any-Insert :
    {A : Type 0} (p : A → Bool) {r : A} {t t' : List A}
    → Insert r t t'
    → any p t' ≡ (p r || any p t)
any-Insert p {r} (Insert.here {xs = t}) = elim (Bool-cases (p r)) [
  | inl e ↦ rw e refl
  | inr e ↦ rw e refl
]
any-Insert p {r} (Insert.there {x = x} {xs = t} i) =
    ap (λ b. if p x then true else b) (any-Insert p i) ∙ swap_first (p r) (p x) (any p t)

module _ (env : Env) (laws : GormLaws env.gorm) where
  pub ensures-create_uri :
      (client : Uuid) (uri : String) (w : World)
      → Ensures (RedirectUris.create_uri env client uri) w (λ _ v.
        ((c : Uuid) (u : String)
          → registered v c u ≡ ((client == c && str_eq uri u) || registered w c u))
        × ((rows : List RedirectUri) × (v ≡ record w { tick = suc w.tick; redirect_uris = rows })))
  unfolding RedirectUris.create_uri
  ensures-create_uri client uri w = record {
    at = λ r v run.
        let (rows, added, (id, at, made), state) =
          (ensures-create env redirect_uris laws _ _ w).at r v run in
        (
          λ c u.
              ap (λ (x : World). registered x c u) state
              ∙ any-Insert (λ x. x.client_db_id == c && str_eq x.uri u) added
              ∙ ap
                  (λ (x : RedirectUri). (x.client_db_id == c && str_eq x.uri u) || registered w c u)
                  made,
          (rows, state),
        );
  }

  -- A step that has counted a call only is no other start.
  pub ensures-handle_create :
      (r : Request) (w : World)
      → Ensures (RedirectUri.handle_create env r) w (λ _ v. AddsUri env r w v)
  unfolding RedirectUri.handle_create Clients.find_by_id
  ensures-handle_create r w = ensures-bind (ensures-or_raise _ _ w) λ client w1 e1.
      ensures-bind (ensures-map_err _ (ensures-first env clients laws _ w1)) λ found w2 e2.
        ensures-bind (ensures-or_raise found _ w2) λ row w3 e3.
          ensures-bind (ensures-or_raise _ _ w3) λ fields w4 e4.
            ensures-bind (ensures-raise_text _ w4) λ u5 w5 e5.
              ensures-bind
                (ensures-map_err _ (ensures-create_uri client (text_field fields "uri") w5))
                λ uri w6 (grows, (rows, state)).
                  let start : w5 ≡ advance env w =
                    sym (e3.1 ∙ e4.1 ∙ e5.1) ∙ e2.1 ∙ ap (advance env) (sym e1.1) in
                  ensures-pure _ w6 _ (record {
                    client = client;
                    fields = fields;
                    is_named = e1.0;
                    has_body = e4.0;
                    registers = record {
                      is_valid = validated-IsAddress env _ e5.0;
                      grows = λ c u.
                          grows c u
                          ∙ ap
                              (λ x.
                                (client == c && str_eq (text_field fields "uri") u)
                                || registered x c u)
                              start;
                      tick = suc (suc w.tick);
                      rows = rows;
                      rest =
                          state
                          ∙ ap (λ (x : World). record x { tick = suc x.tick; redirect_uris = rows })
                              start;
                    };
                  })

  same_number : (a b : ℕ) → not (a == b) ≡ false → a ≡ b
  same_number a b h = ground arith

  pub ensures-handle_delete :
      (r : Request) (w : World)
      → Ensures (RedirectUri.handle_delete env r) w (λ _ v. DeletesUri env r w v)
  unfolding RedirectUri.handle_delete RedirectUris.find_by_id RedirectUris.delete_uri
  ensures-handle_delete r w = ensures-bind (ensures-or_raise _ _ w) λ client w1 e1.
      ensures-bind (ensures-or_raise _ _ w1) λ id w2 e2.
        ensures-bind (ensures-map_err _ (ensures-first env redirect_uris laws _ w2)) λ found w3 e3.
          ensures-bind (ensures-or_raise found _ w3) λ uri w4 e4.
            ensures-bind (ensures-raise_if _ _ w4) λ u5 w5 e5.
              ensures-bind (ensures-map_err _ (ensures-delete env redirect_uris laws _ w5))
                λ u6 w6 state.
                  let start : w5 ≡ advance env w =
                    sym (e4.1 ∙ e5.1) ∙ e3.1 ∙ ap (advance env) (sym (e1.1 ∙ e2.1)) in
                  ensures-pure _ w6 _ (record {
                    client = client;
                    id = id;
                    uri = uri;
                    is_named = (e1.0, e2.0);
                    is_found =
                        ap (λ (x : World). find? (λ u. u.id == id) x.redirect_uris) (e1.1 ∙ e2.1)
                        ∙ sym e3.0
                        ∙ e4.0;
                    is_own = same_number uri.client_db_id client e5.0;
                    tick = suc (suc w.tick);
                    rest =
                        state
                        ∙ ap
                            (λ (x : World). record x {
                              tick = suc x.tick;
                              redirect_uris = keep (λ u. not (u.id == id)) x.redirect_uris;
                            })
                            start;
                  })
