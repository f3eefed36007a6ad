-- ===== src/Auth/Login/Entered.antt =====
-- Whom Authenticate of ms-auth/internal/usecase/auth_service.go lets in.
use controlitix.Common.{
  ℕ, String, true, List, [], Option, none, some, if_elim, ◌≡◌, refl, sym, ap, ◌∙◌, subst,
  string_key, inl, inr, nat_key,
}
use controlitix.Common.Map.{get, put, get-put_self}
use controlitix.Common.Result.{Result, ok, >>=-eq-ok, Result-cases}
use controlitix.Auth.Types.{User, IdentitySource, AuthError, Directory}
use controlitix.Auth.Names.{merge_roles, add_names}
use controlitix.Auth.Names.Scopes.{IsNames, add_names-IsNames}
use controlitix.Auth.Tokens.{unless_fails, get_roles}
use controlitix.Auth.Users.{update_last_login, logged_in_at}
use controlitix.Auth.Admin.Manned.{unless_fails-ok}
use controlitix.Auth.Login.Vouched.{IsVouched, identify-IsVouched, user_of-subject}
use controlitix.Auth.Login.{
  Credentials, ExternalIdentity, AuthenticatedUser, Desk, Outage, resolve_roles, enter,
  tell_entered, enter_known, user_of, identified, identify, authenticate,
}

module _ (k : Desk) (o : Outage) where
  -- The user `u` is active, its login is stored, and its roles are named once.
  pub record IsEntered (d : Directory) (now : ℕ) (source : IdentitySource) (u : User)
      (a : AuthenticatedUser) : Type 0 where
    pub source_is : a.source ≡ source
    pub user_is : a.user ≡ record u { last_login_at = some now }
    pub active : a.user.is_active ≡ true
    pub stamped : a.user.last_login_at ≡ some now
    pub row : User
    pub row_is : get d.users a.user.id ≡ some row
    pub row_stamped : row.last_login_at ≡ some now
    pub roles_named : IsNames a.roles

  merge_roles-IsNames : (local mapped : List String) → IsNames (merge_roles k.trim local mapped)
  unfolding merge_roles
  merge_roles-IsNames local mapped =
      add_names-IsNames k.trim (add_names k.trim [] local) mapped
        (add_names-IsNames k.trim [] local tt)

  logged-stored :
      (d : Directory) (id : String) (now : ℕ) (m : Option User) {after : Directory}
      → logged_in_at d id now m ≡ ok after
      → (row : User) × (get after.users id ≡ some row) × (row.last_login_at ≡ some now)
  logged-stored d id now none h = cc
  logged-stored d id now (some u) {after} h =
      let stored : record d { users = put d.users id (record u { last_login_at = some now }) }
          ≡ after =
        cc in
      (
        record u { last_login_at = some now },
        ap (λ x. get x.users id) (sym stored)
            ∙ get-put_self d.users id (record u { last_login_at = some now }),
        refl,
      )

  enter-IsEntered :
      (now : ℕ) (d after : Directory) (source : IdentitySource) (e : ExternalIdentity) (u : User)
      (a : AuthenticatedUser)
      → enter k o now d source e u ≡ ok (after, a)
      → IsEntered after now source u a
  unfolding enter update_last_login
  enter-IsEntered now d after source e u a h =
      if_elim
        (λ (x : Result AuthError (Directory × AuthenticatedUser)).
          x ≡ ok (after, a) → IsEntered after now source u a)
        u.is_active
        (λ active q.
          let (local, e1, h1) = >>=-eq-ok (get_roles o.roles_fail d u.id) _ q in
          let (mapped, e2, h2) = >>=-eq-ok (resolve_roles k o source.id e.groups) _ h1 in
          let (d', e3, h3) =
            >>=-eq-ok (unless_fails o.login_fails (logged_in_at d u.id now (get d.users u.id))) _
              h2 in
          let (row, stored, stamped) =
            logged-stored d u.id now (get d.users u.id) (unless_fails-ok o.login_fails _ e3) in
          let made : AuthenticatedUser = record {
            user = record u { last_login_at = some now };
            source = source;
            roles = merge_roles k.trim local mapped;
          } in
          let entered : IsEntered d' now source u made = record {
            source_is = refl;
            user_is = refl;
            active = active;
            stamped = refl;
            row = row;
            row_is = stored;
            row_stamped = stamped;
            roles_named = merge_roles-IsNames local mapped;
          } in
          let (same_d, same_a) : (d' ≡ after) × (made ≡ a) = (cc, cc) in
          subst (λ x. IsEntered x now source u a) same_d
            (subst (λ x. IsEntered d' now source u x) same_a entered))
        (λ _ q. cc) h

  -- A login that succeeds is that of an active user with the subject of an identity for which the
  -- provider of an enabled source of the requested kind took the credentials; for the local source,
  -- the password was verified against the one that an active user of the source is stored with,
  -- whose subject it is. The time of the login is stored in the row of the user, and the roles are
  -- without an empty one and without repetition.
  pub authenticate-IsEntered :
      (id : String) (now : ℕ) (d after : Directory) (kind : String) (creds : Credentials)
      (a : AuthenticatedUser)
      → authenticate k o id now d kind creds ≡ (after, ok a)
      → (source : IdentitySource) × (e : ExternalIdentity) × (u : User) × IsVouched k o d kind creds
          source e
        × (u.subject ≡ e.subject)
        × IsEntered after now source u a
  unfolding authenticate identified enter_known tell_entered
  authenticate-IsEntered id now d after kind creds a h =
      elim (Result-cases (identify k o d kind creds)) [
        | inl (e, q) ↦
            absurd (let p = ap (λ m. (identified k o id now d m).1) (sym q) ∙ ap (λ x. x.1) h in cc)
        | inr ((source, e), q) ↦
            let p = ap (λ m. identified k o id now d m) (sym q) ∙ h in
            elim (Result-cases (user_of k o id d source e)) [
              | inl (x, r) ↦ absurd (
                  let s =
                    ap (λ m. (enter_known k o now d source e m).1) (sym r) ∙ ap (λ y. y.1) p in
                  cc)
              | inr ((d', u), r) ↦
                  let s = ap (λ m. enter_known k o now d source e m) (sym r) ∙ p in
                  elim (Result-cases (enter k o now d' source e u)) [
                    | inl (x, t) ↦ absurd (
                        let v = ap (λ m. (tell_entered k o d' m).1) (sym t) ∙ ap (λ y. y.1) s in cc)
                    | inr ((d'', b), t) ↦
                        let v : ◌≡◌ {A = Directory × Result AuthError AuthenticatedUser} (d'', ok b)
                            (after, ok a) =
                          ap (λ m. tell_entered k o d' m) (sym t) ∙ s in
                        let same_a : b ≡ a =
                          (let w : ◌≡◌ {A = Result AuthError AuthenticatedUser} (ok b) (ok a) =
                              ap (λ y. y.1) v in
                            cc) in
                        (
                          source,
                          e,
                          u,
                          identify-IsVouched k o d kind creds source e q,
                          user_of-subject k o id d d' source e u r,
                          subst (λ x. IsEntered x now source u a) (ap (λ y. y.0) v)
                              (subst (λ x. IsEntered d'' now source u x) same_a
                                (enter-IsEntered now d' d'' source e u b t)),
                        )
                  ]
            ]
      ]
