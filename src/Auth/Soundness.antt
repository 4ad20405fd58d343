-- ===== src/Auth/Soundness.antt =====
-- What a valid session is, and what a login found and wrote.
use oidc_demo.Base.{
  suc, ◌≤◌, ℕ, ◌+◌, String, Bool, true, false, Option, none, some, List, ◌≡◌, ◌≢◌, refl, sym, ap,
  ◌∙◌, subst, find?, Insert, not, ◌&&◌, ◌==◌, ◌<◌, str_eq, arith, eq_iff,
}
use oidc_demo.Gorm.{GormLaws, Reply, done, failed}
use oidc_demo.Crypto.Argon2id.{verify_password}
use oidc_demo.Model.{Uuid, Tenant, User, Session, LoginInput, LoginOutput, is_valid}
use oidc_demo.Model.Time.{duration}
use oidc_demo.World.{World, Env, ok, advance, sessions, tenants, users, updates, write_reply}
use oidc_demo.Outcome.{
  Ensures, ensures-bind, ensures-pure, ensures-raise_if, ensures-or_raise, ensures-time_now,
  ensures-first, ensures-create, ensures-ignore,
}
use oidc_demo.Quiet.{ReadBetween, Quiet, quiet_rules, ensures-forward, read-now, read-within}
use oidc_demo.Store.Tenants
use oidc_demo.Store.Users
use oidc_demo.Store.Sessions
use oidc_demo.Auth.Service.{find_password_hash, check_credentials, login, validate_session}

-- The session in the table is neither revoked nor over.
-- The clock is read between the states `w` and `v`.
pub record IsCurrent (env : Env) (id : Uuid) (w v : World) (s : Session) : Type 0 where
  pub is_found : find? (λ s. s.id == id) w.sessions ≡ some s
  pub not_revoked : s.revoked_at ≡ none
  pub in_time : ReadBetween env w v (λ now. now < s.expires_at)

-- The tenant and the active user whose password was given.
pub record Knows (env : Env) (input : LoginInput) (w : World) (tenant : Tenant) (user : User)
    : Type 0 where
  pub is_tenant : find? (λ t. str_eq t.code input.tenant_code) w.tenants ≡ some tenant
  pub is_user :
      find? (λ u. u.tenant_id == tenant.id && str_eq u.login_id input.login_id) w.users ≡ some user
  pub is_active : user.status ≡ "active"
  pub has_password : find_password_hash user.credentials ≢ ""
  pub is_verified :
      verify_password env input.password (find_password_hash user.credentials) ≡ some true

-- A login's tenant and user, and the one session that it has added.
pub record LogsIn (env : Env) (input : LoginInput) (w : World) (output : LoginOutput) (v : World)
    : Type 0 where
  pub tenant : Tenant
  pub session : Session
  pub knows : Knows env input w tenant output.user
  pub is_added : Insert session w.sessions v.sessions
  pub is_returned : output.session_id ≡ session.id
  pub of_user : session.user_id ≡ output.user.id
  pub of_tenant : session.tenant_id ≡ tenant.id
  pub not_revoked : session.revoked_at ≡ none
  pub lifetime :
      ReadBetween env w v (λ now. session.expires_at ≡ now + duration tenant.session_lifetime)

valid-parts :
    (now : ℕ) (s : Session)
    → not (is_valid now s) ≡ false
    → (s.revoked_at ≡ none) × (now < s.expires_at)
unfolding is_valid
valid-parts now s h = (ground arith, ground arith)

is_text : (s t : String) → not (str_eq s t) ≡ false → s ≡ t
is_text s t h = ground (arith, eq_iff s t)

is_other : (s t : String) → str_eq s t ≡ false → s ≢ t
is_other s t h e = ground (arith, eq_iff s t)

matched : (o : Option Bool) (b : Bool) → o ≡ some b → not b ≡ false → o ≡ some true
matched o true h e = h
matched o false h e = absurd (cc)

module _ (env : Env) (laws : GormLaws env.gorm) where
  counted : (w w1 w2 : World) → w1 ≡ advance env w → w1 ≡ w2 → w.tick ≤ w2.tick
  counted w w1 w2 e k = subst (λ (x : World). w.tick ≤ x.tick) (sym e ∙ k) (omega arith)

  ensures-validate_session :
      (id : Uuid) (w : World) → Ensures (validate_session env id) w (λ s v. IsCurrent env id w v s)
  unfolding validate_session Sessions.find_by_id
  ensures-validate_session id w = ensures-bind (ensures-first env sessions laws _ w) λ found w1 e1.
      ensures-bind (ensures-or_raise found _ w1) λ s w2 e2.
        ensures-bind (ensures-time_now env w2) λ now w3 e3.
          ensures-bind (ensures-raise_if _ _ w3) λ u w4 e4.
            let parts = valid-parts now s e4.0 in
            ensures-pure s w4 _ (record {
              is_found = sym e1.0 ∙ e2.0;
              not_revoked = parts.0;
              in_time =
                  read-within env (λ t. t < s.expires_at) w2 w4 w w4 (counted w w1 w2 e1.1 e2.1)
                    (omega arith)
                    (read-now env (λ t. t < s.expires_at) w2 w3 w4 now e3 e4.1 parts.1);
            })

  -- A session that is validated is the one that the table holds under the id, it is not revoked, and
  -- the clock, as it was read during the call, was before its end.
  pub validate_session-IsCurrent :
      (id : Uuid) (w : World) (s : Session) (v : World)
      → validate_session env id w ≡ (ok s, v)
      → IsCurrent env id w v s
  validate_session-IsCurrent id w = (ensures-validate_session id w).at

  ensures-check_credentials :
      (input : LoginInput) (w : World)
      → Ensures
          (check_credentials env input)
          w
          (λ x v. Knows env input w x.0 x.1 × (w.sessions ≡ v.sessions))
  unfolding check_credentials Tenants.find_by_code Users.find_by_tenant_and_login_id
  ensures-check_credentials input w = ensures-bind (ensures-first env tenants laws _ w) λ t w1 e1.
      ensures-bind (ensures-or_raise t _ w1) λ tenant w2 e2.
        ensures-bind (ensures-first env users laws _ w2) λ u w3 e3.
          ensures-bind (ensures-or_raise u _ w3) λ user w4 e4.
            ensures-bind (ensures-raise_if _ _ w4) λ _ w5 e5.
              ensures-bind (ensures-raise_if _ _ w5) λ _ w6 e6.
                ensures-bind (ensures-or_raise _ _ w6) λ b w7 e7.
                  ensures-bind (ensures-raise_if _ _ w7) λ _ w8 e8.
                    let before : w2 ≡ advance env w = sym e2.1 ∙ e1.1 in
                    ensures-pure (tenant, user) w8 _
                      (
                        record {
                          is_tenant = sym e1.0 ∙ e2.0;
                          is_user =
                              ap
                                (λ (x : World).
                                  find?
                                    (λ u.
                                      u.tenant_id == tenant.id && str_eq u.login_id input.login_id)
                                    x.users)
                                (sym before)
                              ∙ sym e3.0
                              ∙ e4.0;
                          is_active = is_text _ _ e5.0;
                          has_password = is_other _ _ e6.0;
                          is_verified = matched _ b e7.0 e8.0;
                        },
                        ap (λ (x : World). x.sessions) (sym before)
                            ∙ ap (λ (x : World). x.sessions)
                                (sym e3.1 ∙ e4.1 ∙ e5.1 ∙ e6.1 ∙ e7.1 ∙ e8.1),
                      )

  -- The last write, of the login's time, leaves the sessions, whatever comes of it.
  users-kept :
      {A : Type 0} (r : Reply (A × List User)) (w : World)
      → (write_reply env users r w).1.sessions ≡ w.sessions
  users-kept (done x) w = refl
  users-kept failed w = refl

  users-counted :
      {A : Type 0} (r : Reply (A × List User)) (w : World)
      → (write_reply env users r w).1.tick ≡ suc w.tick
  users-counted (done x) w = refl
  users-counted failed w = refl

  last_login-counted :
      (id : Uuid) (t : ℕ) (w : World) → (Users.update_last_login_at env id t w).1.tick ≡ suc w.tick
  unfolding Users.update_last_login_at updates
  last_login-counted id t w = users-counted (env.gorm.updates w.tick _ _ w.users) w

  last_login-kept :
      (id : Uuid) (t : ℕ) (w : World)
      → (Users.update_last_login_at env id t w).1.sessions ≡ w.sessions
  unfolding Users.update_last_login_at updates
  last_login-kept id t w = users-kept (env.gorm.updates w.tick _ _ w.users) w

  added :
      (s : Session) {ss rows t t' : List Session}
      → t ≡ ss
      → Insert s ss rows
      → rows ≡ t'
      → Insert s t t'
  added s {ss} {rows} {t} {t'} e i k =
      subst (λ x. Insert s x t') (sym e) (subst (λ x. Insert s ss x) k i)

  Quiet-check_credentials : (input : LoginInput) → Quiet (check_credentials env input)
  unfolding check_credentials Tenants.find_by_code Users.find_by_tenant_and_login_id
  Quiet-check_credentials input = search quiet_rules depth 20

  ensures-login :
      (input : LoginInput) (w : World) → Ensures (login env input) w (LogsIn env input w)
  unfolding login Sessions.create_session
  ensures-login input w =
      ensures-bind
        (ensures-forward (Quiet-check_credentials input) (ensures-check_credentials input w))
        λ x w1 (up, q1). ensures-bind (ensures-time_now env w1) λ now w2 e2.
          ensures-bind (ensures-create env sessions laws _ _ w2) λ s w3 e3.
            ensures-bind (ensures-time_now env w3) λ last w4 e4.
              ensures-bind (ensures-ignore _ w4) λ u w5 e5.
                let (rows, i, (id, at, made), e) = e3 in
                let same : w.sessions ≡ w2.sessions =
                  q1.1 ∙ ap (λ (x : World). x.sessions) (sym e2.1) in
                let first : w2.tick ≡ suc w1.tick = ap (λ (x : World). x.tick) e2.1 in
                let second : w3.tick ≡ suc w2.tick = ap (λ (x : World). x.tick) e in
                let third : w4.tick ≡ suc w3.tick = ap (λ (x : World). x.tick) e4.1 in
                let fourth : w5.tick ≡ suc w4.tick =
                  ap (λ (x : World). x.tick) e5 ∙ last_login-counted x.1.id last w4 in
                let kept : rows ≡ w5.sessions =
                  ap (λ (x : World). x.sessions) (sym e)
                  ∙ ap (λ (x : World). x.sessions) (sym e4.1)
                  ∙ sym (last_login-kept x.1.id last w4)
                  ∙ ap (λ (x : World). x.sessions) (sym e5) in
                ensures-pure _ w5 _ (record {
                  tenant = x.0;
                  session = s;
                  knows = q1.0;
                  is_added = added s same i kept;
                  is_returned = refl;
                  of_user = ap (λ (s : Session). s.user_id) made;
                  of_tenant = ap (λ (s : Session). s.tenant_id) made;
                  not_revoked = ap (λ (s : Session). s.revoked_at) made;
                  lifetime = (
                    w1.tick,
                    up,
                    omega arith,
                    ap (λ (s : Session). s.expires_at) made
                        ∙ ap (λ t. t + duration x.0.session_lifetime) e2.0,
                  );
                })

  -- A login succeeds only with the password of an active user of the tenant, and adds exactly one
  -- session: it is that user's and that tenant's, it is not revoked, it ends the tenant's session
  -- lifetime after the time that the clock had during the login, and its id is what the login returns.
  pub login_is_sound :
      (input : LoginInput) (w : World) (output : LoginOutput) (v : World)
      → login env input w ≡ (ok output, v)
      → LogsIn env input w output v
  login_is_sound input w = (ensures-login input w).at
