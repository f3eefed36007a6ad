-- ===== src/Auth/Admin/GuardedRoles.antt =====
-- SetUserRoles, RemoveUserRole and RevokeUserSessions of
-- ms-auth/internal/usecase/admin_service.go leave an active administrator.
use controlitix.Common.{
  ℕ, String, true, ◌&&◌, List, some, same, if◌then◌else◌, Bool-cases, ◌≡◌, sym, subst, ap, ◌∙◌,
  arith, ◌⊎◌, inl, inr, string_key,
}
use controlitix.Common.Map.{get}
use controlitix.Common.Result.{ok, >>=-eq-ok, >>-eq-ok, refuse_if, Result-cases}
use controlitix.Auth.Types.{AuthError}
use controlitix.Auth.Names.{contains_role, validate_roles}
use controlitix.Auth.Tokens.{get_roles, roles_of}
use controlitix.Auth.Users.{set_roles}
use controlitix.Auth.Admin.{AuthDb, Tools, Outage, load_user, refuse_last_admin}
use controlitix.Auth.Admin.Roles.{
  demotes, check_demotion, check_set_roles, tell_roles, set_checked_roles, set_user_roles,
  remove_from, remove_user_role, revoke_loaded, revoke_user_sessions, without_role,
}
use controlitix.Auth.Admin.Manned.{
  HasAdmin, HasOther, IsId, is_admin, unless_fails-ok, refuse_last_admin-other,
}
use controlitix.Auth.Admin.Written.{
  record_audit-directory, end_sessions-directory, load_user-eq-ok, set_roles-eq-ok,
}
use controlitix.Auth.Admin.Guarded.{IsManned, user_id, roles-IsManned}

module _ (t : Tools) where
  -- The checked roles keep the administrator that they are given to, or another one is there.
  check_set_roles-other :
      (o : Outage) (db : AuthDb) (actor id : String) (roles next : List String)
      → IsManned t db.directory
      → check_set_roles t o db actor id roles ≡ ok next
      → (a : HasAdmin db.directory) → a.id ≡ id
      → (contains_role next "admin" ≡ true) ⊎ HasOther db.directory id
  unfolding check_set_roles check_demotion get_roles
  check_set_roles-other o db actor id roles next manned h a same_id =
      let (valid, e1, h1) = >>=-eq-ok (validate_roles t.trim roles) _ h in
      let (u, e2, h2) = >>=-eq-ok (load_user o db id) _ h1 in
      let (current, e3, h3) = >>=-eq-ok (get_roles o.roles_fail db.directory id) _ h2 in
      let (allowed, kept) = >>-eq-ok (check_demotion t o db actor u valid current) _ h3 in
      let (selfless, counted) =
        >>-eq-ok
          (refuse_if (same u.subject actor && demotes current valid)
            AuthError.forbidden_self_demote)
          _ allowed in
      let next_is : valid ≡ next = cc in
      let found : get db.directory.users id ≡ some u = load_user-eq-ok o db id e2 in
      let (mine, named) = user_id t db.directory id manned found in
      let active : u.is_active ≡ true =
        (let s : a.user ≡ u =
            (let p = ap (λ x. get db.directory.users x) same_id in let q = a.stored in cc) in
          ap (λ x. x.is_active) (sym s) ∙ a.active) in
      let current_is : roles_of (get db.directory.user_roles id) ≡ current =
        (let q = unless_fails-ok o.roles_fail _ e3 in cc) in
      let was : contains_role current "admin" ≡ true =
        ap (λ r. contains_role r "admin") (sym current_is)
        ∙ ap (λ x. is_admin db.directory x) (sym same_id)
        ∙ a.admin in
      elim (Bool-cases (contains_role valid "admin")) [
        | inl stays ↦ inl (ap (λ r. contains_role r "admin") (sym next_is) ∙ stays)
        | inr leaves ↦
            let both : u.is_active && demotes current valid ≡ true = ground arith in
            inr (
              subst (λ x. HasOther db.directory x) mine
                (refuse_last_admin-other t o db u.id manned.keyed
                  (subst (λ x. IsId t.trim x) (sym mine) named)
                  (ap (λ b. if b then refuse_last_admin t o db u.id else ok tt) (sym both)
                    ∙ counted)))
      ]

  pub set_user_roles-IsManned :
      (o : Outage) (db : AuthDb) (actor id : String) (roles : List String)
      → IsManned t db.directory
      → IsManned t (set_user_roles t o db actor id roles).0.directory
  unfolding set_user_roles set_checked_roles tell_roles
  set_user_roles-IsManned o db actor id roles manned =
      elim (Result-cases (check_set_roles t o db actor id roles)) [
        | inl (e, q) ↦ rw q manned
        | inr (next, q) ↦
            rw q (elim (Result-cases (set_roles o.set_roles_fails db.directory id next)) [
              | inl (e, p) ↦ rw p manned
              | inr (d, p) ↦
                  let (kept, d_is, keeps) =
                    set_roles-eq-ok o.set_roles_fails db.directory id next p in
                  rw p (
                    subst (λ x. IsManned t x)
                      (sym (
                        record_audit-directory o.audit_fails (record db { directory = d }) _
                        ∙ d_is))
                      (roles-IsManned t db.directory id kept manned (λ a mine.
                        elim (check_set_roles-other o db actor id roles next manned q a mine) [
                          | inl asked ↦ inl (keeps "admin" asked)
                          | inr other ↦ inr other
                        ])))
            ])
      ]

  pub remove_user_role-IsManned :
      (o : Outage) (db : AuthDb) (actor id role : String)
      → IsManned t db.directory
      → IsManned t (remove_user_role t o db actor id role).0.directory
  unfolding remove_user_role remove_from
  remove_user_role-IsManned o db actor id role manned =
      elim (Result-cases (get_roles o.roles_fail db.directory id)) [
        | inl (e, q) ↦ rw q manned
        | inr (current, q) ↦
            rw q (set_user_roles-IsManned o db actor id (without_role current role) manned)
      ]

  pub revoke_user_sessions-IsManned :
      (o : Outage) (now : ℕ) (db : AuthDb) (actor id : String)
      → IsManned t db.directory
      → IsManned t (revoke_user_sessions o now db actor id).0.directory
  unfolding revoke_user_sessions revoke_loaded
  revoke_user_sessions-IsManned o now db actor id manned = elim (Result-cases (load_user o db id)) [
    | inl (e, q) ↦ rw q manned
    | inr (u, q) ↦ rw q (
        subst (λ x. IsManned t x)
          (sym (end_sessions-directory o now db true id "admin_revoke_sessions" _)) manned)
  ]
