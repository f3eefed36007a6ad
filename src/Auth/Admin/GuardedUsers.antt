-- ===== src/Auth/Admin/GuardedUsers.antt =====
-- CreateUser, UpdateUser and DeactivateUser of ms-auth/internal/usecase/admin_service.go leave an
-- active administrator.
use controlitix.Common.{
  ℕ, String, Bool, true, ◌||◌, List, Option, some, same, if◌then◌else◌, if_elim, ◌≡◌, ◌≢◌, refl,
  sym, subst, ap, ◌∙◌, inl, inr, string_key,
}
use controlitix.Common.Map.{get}
use controlitix.Common.Result.{Result, ok, err, >>=-eq-ok, >>-eq-ok, Result-cases}
use controlitix.Auth.Types.{User, AuditEvent, AuthError, Directory}
use controlitix.Auth.Names.{validate_roles}
use controlitix.Auth.Users.{with_user, set_roles, create_user_row}
use controlitix.Auth.Admin.{AuthDb, Tools, Outage, load_user, ensure_can_deactivate_user}
use controlitix.Auth.Admin.Create.{
  CreateUserInput, new_user, tell_created, give_roles, store_user, create_validated, create_user,
}
use controlitix.Auth.Admin.Update.{
  UpdateUserInput, password_change, deactivates, check_update, change_of, tell_updated,
  write_update, update_loaded, update_user, deactivation, finish_deactivation, deactivate_checked,
  deactivate_loaded, deactivate_user,
}
use controlitix.Auth.Admin.Manned.{HasOther, IsId, HasOther-with_user, with_user-IsKeyed}
use controlitix.Auth.Admin.Written.{
  record_audit-directory, end_sessions-directory, load_user-eq-ok, set_roles-eq-ok,
  create_user_row-eq-ok,
}
use controlitix.Auth.Admin.Guarded.{IsManned, roles-IsManned, update-IsManned}

module _ (t : Tools) where
  tell_updated-directory :
      (o : Outage) (now : ℕ) (db : AuthDb) (revokes : Bool) (id : String) (e : AuditEvent)
      (r : Directory × Result AuthError User)
      → (tell_updated o now db revokes id e r).0.directory ≡ r.0
  unfolding tell_updated
  tell_updated-directory o now db revokes id e (d, err x) = refl
  tell_updated-directory o now db revokes id e (d, ok user) =
      end_sessions-directory o now (record db { directory = d }) revokes id "admin_deactivate" e

  write_update-IsManned :
      (o : Outage) (now : ℕ) (db : AuthDb) (actor id : String) (input : UpdateUserInput) (u : User)
      (m : Result AuthError (Option String))
      → IsManned t db.directory
      → get db.directory.users id ≡ some u
      → check_update t o db actor input u ≡ m
      → IsManned t (write_update t o now db actor id input u m).0.directory
  unfolding write_update check_update
  write_update-IsManned o now db actor id input u (err e) manned found checked = manned
  write_update-IsManned o now db actor id input u (ok hash) manned found checked =
      let (changed, e, h1) = >>=-eq-ok (password_change t input.password) _ checked in
      let guarded =
        (>>-eq-ok
          (if deactivates input.is_active u
            then ensure_can_deactivate_user t o db u actor
            else ok tt)
          _ h1).0 in
      subst (λ d. IsManned t d) (sym (tell_updated-directory o now db _ id _ _))
        (update-IsManned t o.update_fails o.reload_fails o db id actor u (change_of input hash)
          manned found
          (λ gone.
            ap (λ b. if b then ensure_can_deactivate_user t o db u actor else ok tt) (sym gone)
            ∙ guarded))

  pub update_user-IsManned :
      (o : Outage) (now : ℕ) (db : AuthDb) (actor id : String) (input : UpdateUserInput)
      → IsManned t db.directory
      → IsManned t (update_user t o now db actor id input).0.directory
  unfolding update_user update_loaded
  update_user-IsManned o now db actor id input manned = elim (Result-cases (load_user o db id)) [
    | inl (e, q) ↦ rw q manned
    | inr (u, q) ↦
        rw q (
          write_update-IsManned o now db actor id input u _ manned (load_user-eq-ok o db id q) refl)
  ]

  pub finish-directory :
      (o : Outage) (now : ℕ) (db : AuthDb) (actor id : String)
      (r : Directory × Result AuthError User)
      → (finish_deactivation o now db actor id r).0.directory ≡ r.0
  unfolding finish_deactivation
  finish-directory o now db actor id (d, err x) = refl
  finish-directory o now db actor id (d, ok user) =
      end_sessions-directory o now (record db { directory = d }) true id "admin_deactivate" _

  deactivate_checked-IsManned :
      (o : Outage) (now : ℕ) (db : AuthDb) (actor id : String) (u : User)
      (m : Result AuthError (Unit {0}))
      → IsManned t db.directory
      → get db.directory.users id ≡ some u
      → ensure_can_deactivate_user t o db u actor ≡ m
      → IsManned t (deactivate_checked t o now db actor id m).0.directory
  unfolding deactivate_checked
  deactivate_checked-IsManned o now db actor id u (err e) manned found checked = manned
  deactivate_checked-IsManned o now db actor id u (ok tt) manned found checked =
      subst (λ d. IsManned t d) (sym (finish-directory o now db actor id _))
        (update-IsManned t o.update_fails o.reload_fails o db id actor u deactivation manned found
          (λ _. checked))

  pub deactivate_user-IsManned :
      (o : Outage) (now : ℕ) (db : AuthDb) (actor id : String)
      → IsManned t db.directory
      → IsManned t (deactivate_user t o now db actor id).0.directory
  unfolding deactivate_user deactivate_loaded
  deactivate_user-IsManned o now db actor id manned = elim (Result-cases (load_user o db id)) [
    | inl (e, q) ↦ rw q manned
    | inr (u, q) ↦ rw q (
        if_elim (λ (x : AuthDb × Result AuthError (Unit {0})). IsManned t x.0.directory) u.is_active
          (λ _.
            deactivate_checked-IsManned o now db actor id u _ manned (load_user-eq-ok o db id q)
              refl)
          (λ _. manned))
  ]

  give_roles-IsManned :
      (o : Outage) (db : AuthDb) (actor id : String) (roles : List String) (n : User)
      → IsManned t db.directory
      → IsId t.trim id
      → IsManned t
          (give_roles o db actor roles
            (create_user_row t.lower o.create_fails db.directory id n)).0.directory
  unfolding give_roles tell_created
  give_roles-IsManned o db actor id roles n manned named =
      elim (Result-cases (create_user_row t.lower o.create_fails db.directory id n)) [
        | inl (e, q) ↦ rw q manned
        | inr ((d, u), q) ↦
            let (free, d_is, mine) =
              create_user_row-eq-ok t.lower o.create_fails db.directory id n q in
            let new : manned.manned.id ≢ id = λ e.
              (let p = ap (λ x. get db.directory.users x) e in
                let s = manned.manned.stored in cc) in
            let others = HasOther-with_user db.directory id u (manned.manned, new) in
            let first : IsManned t d =
              subst (λ x. IsManned t x) (sym d_is)
                (record {
                  keyed = with_user-IsKeyed t.trim db.directory id u manned.keyed mine named;
                  manned = others.0;
                }) in
            let besides : HasOther d u.id =
              subst (λ x. HasOther x u.id) (sym d_is)
                (subst (λ x. HasOther (with_user db.directory id u) x) (sym mine) others) in
            rw q (given d u first besides)
      ]
    where
      given :
          (d : Directory) (u : User)
          → IsManned t d
          → HasOther d u.id
          → IsManned t
              (tell_created o
                (record db { directory = d })
                actor
                u
                (set_roles o.set_roles_fails d u.id roles)).0.directory
      given d u first besides = elim (Result-cases (set_roles o.set_roles_fails d u.id roles)) [
        | inl (e, q) ↦ rw q first
        | inr (d', q) ↦
            let (kept, d'_is, keeps) = set_roles-eq-ok o.set_roles_fails d u.id roles q in
            rw q (
              subst (λ x. IsManned t x)
                (sym
                  (record_audit-directory o.audit_fails (record db { directory = d' }) _ ∙ d'_is))
                (roles-IsManned t d u.id kept first (λ a mine. inr besides)))
      ]

  pub create_user-IsManned :
      (o : Outage) (id : String) (subject_id : Option String) (db : AuthDb) (actor : String)
      (input : CreateUserInput)
      → IsManned t db.directory
      → IsId t.trim id
      → IsManned t (create_user t o id subject_id db actor input).0.directory
  unfolding create_user create_validated store_user
  create_user-IsManned o id subject_id db actor input manned named =
      if_elim (λ (x : AuthDb × Result AuthError User). IsManned t x.0.directory)
        (same (t.trim input.username) "" || same (t.trim input.password) "") (λ _. manned)
        (λ _. elim (Result-cases (validate_roles t.trim input.roles)) [
          | inl (e, q) ↦ rw q manned
          | inr (roles, q) ↦ rw q (elim (Result-cases (new_user t o subject_id db input)) [
            | inl (e, p) ↦ rw p manned
            | inr (n, p) ↦ rw p (give_roles-IsManned o db actor id roles n manned named)
          ])
        ])
