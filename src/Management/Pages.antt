-- ===== src/Management/Pages.antt =====
-- What the lists of tenants and of clients answer with.
use mathlib.Core.List.{Perm}
use oidc_demo.Base.{
  ℕ, zero, suc, String, true, some, List, [], ◌∷◌, map, ◌≡◌, ◌≤◌, refl, sym, ap, ◌∙◌, subst, keep,
  length, ◌==◌, take_rows, drop_rows, arith,
}
use oidc_demo.Gorm.{GormLaws, IsDescending}
use oidc_demo.Model.{Uuid, Time, Tenant, Client}
use oidc_demo.World.{World, Env, tenants, clients, advance}
use oidc_demo.Http.{Request, Response, Value, json, page}
use oidc_demo.Outcome.{
  Ensures, ensures-bind, ensures-pure, ensures-or_raise, ensures-map_err, ensures-first,
}
use oidc_demo.Outcome.Statements.{ensures-count, ensures-page_desc}
use oidc_demo.Store.Tenants
use oidc_demo.Store.Clients
use oidc_demo.Management.Response.{PaginationParams, parse_pagination, list_response}
use oidc_demo.Management.Bounds.{parse_pagination_bounds}
use oidc_demo.Management.Tenant
use oidc_demo.Management.Client

-- The response shows a part of the rows, put in order from the newest, and the number of all.
pub record IsPage {Row : Type 0} (created : Row → Time) (shown : Row → List (String × Value))
    (rows : List Row) (p : PaginationParams) (response : Response) : Type 0 where
  pub all : List Row
  pub is_all : Perm all rows
  pub in_order : IsDescending created all
  pub is_part :
      response
      ≡ json 200 (page (map shown (take_rows p.limit (drop_rows p.offset all))) (length rows))
  pub short : length (take_rows p.limit (drop_rows p.offset all)) ≤ 100

-- What the list of the clients of a tenant answers with.
abbrev pub IsClientPage : Env → Request → World → Response → Type 0
IsClientPage env r w response =
    (id : Uuid) × (env.uuid_parse (r.param "tenant_id") ≡ some id)
    × IsPage (λ (c : Client). c.created_at) (Client.to_client_response env)
        (keep (λ c. c.tenant_id == id) w.clients) (parse_pagination env r) response

length-take : {A : Type 0} (n : ℕ) (xs : List A) → length (take_rows n xs) ≤ n
length-take zero xs = omega arith
length-take (suc n) [] = omega arith
length-take (suc n) (x ∷ xs) = let rest = length-take n xs in omega arith

at_most : (a b c : ℕ) → a ≤ b → b ≤ c → a ≤ c
at_most a b c h k = omega arith

keep_all : {A : Type 0} (xs : List A) → keep (λ x. true) xs ≡ xs
keep_all [] = refl
keep_all (x ∷ xs) = ap (λ t. x ∷ t) (keep_all xs)

module _ (env : Env) (laws : GormLaws env.gorm) where
  ensures-list :
      (limit offset : ℕ) (w : World)
      → Ensures (Tenants.list env limit offset) w (λ found v.
        ((all : List Tenant) × Perm all w.tenants
          × IsDescending (λ (t : Tenant). t.created_at) all
          × (found ≡ (take_rows limit (drop_rows offset all), length w.tenants)))
        × (v ≡ advance env (advance env w)))
  unfolding Tenants.list
  ensures-list limit offset w =
      ensures-bind (ensures-count env tenants laws _ w) λ n w1 (total, e1).
        ensures-bind (ensures-page_desc env tenants laws _ _ limit offset w1)
          λ rows w2 ((all, perm, down, part), e2). ensures-pure _ w2 _ (
            (
              all,
              subst (λ t. Perm all t) (keep_all w1.tenants ∙ ap (λ (x : World). x.tenants) e1) perm,
              down,
              λ i. (part i, (total ∙ ap length (keep_all w.tenants)) i),
            ),
            e2 ∙ ap (advance env) e1,
          )

  pub ensures-list_tenants :
      (r : Request) (w : World)
      → Ensures (Tenant.handle_list env r) w (λ response v.
        IsPage
          (λ (t : Tenant). t.created_at)
          (Tenant.to_tenant_response env)
          w.tenants
          (parse_pagination env r)
          response
        × (v ≡ advance env (advance env w)))
  unfolding Tenant.handle_list list_response
  ensures-list_tenants r w =
      ensures-bind (ensures-map_err _ (ensures-list _ _ w)) λ found w1 ((all, perm, down, e), e1).
        ensures-pure _ w1 _ (
          record {
            all = all;
            is_all = perm;
            in_order = down;
            is_part = ap (λ x. json 200 (page (map (Tenant.to_tenant_response env) x.0) x.1)) e;
            short = at_most _ _ 100 (length-take _ _) (parse_pagination_bounds env r).1;
          },
          e1,
        )

  ensures-list_of :
      (id : Uuid) (limit offset : ℕ) (w : World)
      → Ensures (Clients.list_by_tenant_id env id limit offset) w (λ found v.
        ((all : List Client) × Perm all (keep (λ c. c.tenant_id == id) w.clients)
          × IsDescending (λ (c : Client). c.created_at) all
          × (found ≡ (
            take_rows limit (drop_rows offset all),
            length (keep (λ c. c.tenant_id == id) w.clients),
          )))
        × (v ≡ advance env (advance env w)))
  unfolding Clients.list_by_tenant_id
  ensures-list_of id limit offset w =
      ensures-bind (ensures-count env clients laws _ w) λ n w1 (total, e1).
        ensures-bind (ensures-page_desc env clients laws _ _ limit offset w1)
          λ rows w2 ((all, perm, down, part), e2). ensures-pure _ w2 _ (
            (
              all,
              subst (λ (x : World). Perm all (keep (λ c. c.tenant_id == id) x.clients)) e1 perm,
              down,
              λ i. (part i, total i),
            ),
            e2 ∙ ap (advance env) e1,
          )

  pub ensures-list_clients :
      (r : Request) (w : World)
      → Ensures (Client.handle_list env r) w (λ response v. IsClientPage env r w response)
  unfolding Client.handle_list Tenants.find_by_id list_response
  ensures-list_clients r w = ensures-bind (ensures-or_raise _ _ w) λ id w1 e1.
      ensures-bind (ensures-map_err _ (ensures-first env tenants laws _ w1)) λ found w2 e2.
        ensures-bind (ensures-or_raise found _ w2) λ tenant w3 e3.
          ensures-bind (ensures-map_err _ (ensures-list_of id _ _ w3))
            λ rows w4 ((all, perm, down, e), e4).
              let start : w3 ≡ advance env w = sym e3.1 ∙ e2.1 ∙ ap (advance env) (sym e1.1) in
              ensures-pure _ w4 _ (
                id,
                e1.0,
                record {
                  all = all;
                  is_all =
                      subst (λ (x : World). Perm all (keep (λ c. c.tenant_id == id) x.clients))
                        start perm;
                  in_order = down;
                  is_part =
                      ap (λ x. json 200 (page (map (Client.to_client_response env) x.0) x.1)) e
                      ∙ ap
                          (λ (x : World). json 200 (
                            page
                              (map (Client.to_client_response env) (
                                take_rows (parse_pagination env r).limit
                                  (drop_rows (parse_pagination env r).offset all)))
                              (length (keep (λ c. c.tenant_id == id) x.clients))))
                          start;
                  short = at_most _ _ 100 (length-take _ _) (parse_pagination_bounds env r).1;
                },
              )
