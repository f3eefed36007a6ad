-- ===== src/Auth/Admin/Guarded.antt =====
-- Writes that the checks of ms-auth/internal/usecase/admin_service.go guard leave an active
-- administrator.
use controlitix.Common.{
  String, Bool, true, false, List, Option, none, some, Bool-cases, ◌≡◌, refl, sym, subst, ap, ◌∙◌,
  arith, ◌⊎◌, inl, inr, string_key,
}
use controlitix.Common.Map.{get, Each-get}
use controlitix.Common.Result.{ok}
use controlitix.Auth.Types.{User, Directory}
use controlitix.Auth.Names.{contains_role}
use controlitix.Auth.Users.{UserChange, or_kept, with_user, changed_user, update}
use controlitix.Auth.Admin.{AuthDb, Tools, Outage, ensure_can_deactivate_user}
use controlitix.Auth.Admin.Update.{deactivates}
use controlitix.Auth.Admin.Manned.{
  HasAdmin, HasOther, IsId, IsKeyed, is_admin, with_roles, ensure_can_deactivate_user-other,
  with_user-HasAdmin, with_roles-HasAdmin, with_user-IsKeyed,
}
use controlitix.Auth.Admin.Written.{update-cases}

-- Users under their identifiers, and an active administrator among them.
pub record IsManned (t : Tools) (d : Directory) : Type 0 where
  pub keyed : IsKeyed t.trim d
  pub manned : HasAdmin d

module _ (t : Tools) where
  pub user_id :
      (d : Directory) (id : String) {u : User}
      → IsManned t d
      → get d.users id ≡ some u
      → (u.id ≡ id) × IsId t.trim id
  user_id d id m found = Each-get _ d.users id m.keyed.keyed found

  pub changed-IsManned :
      (d : Directory) (id : String) (u u' : User)
      → IsManned t d
      → get d.users id ≡ some u
      → u'.id ≡ u.id
      → (u.is_active ≡ true → is_admin d id ≡ true → (u'.is_active ≡ true) ⊎ HasOther d id)
      → IsManned t (with_user d id u')
  changed-IsManned d id u u' m found same_id spared =
      let (mine, named) = user_id d id m found in
      record {
        keyed = with_user-IsKeyed t.trim d id u' m.keyed (same_id ∙ mine) named;
        manned = with_user-HasAdmin d id u u' m.manned found spared;
      }

  pub roles-IsManned :
      (d : Directory) (id : String) (roles : List String)
      → IsManned t d
      → ((a : HasAdmin d) → a.id ≡ id → (contains_role roles "admin" ≡ true) ⊎ HasOther d id)
      → IsManned t (with_roles d id roles)
  roles-IsManned d id roles m spared = record {
    keyed = record { distinct = m.keyed.distinct; keyed = m.keyed.keyed };
    manned = with_roles-HasAdmin d id roles m.manned spared;
  }

  -- Both users' operations that deactivate check the same; `other` is what they learn.
  pub checked-other :
      (o : Outage) (db : AuthDb) (id actor : String) (u : User)
      → IsManned t db.directory
      → get db.directory.users id ≡ some u
      → ensure_can_deactivate_user t o db u actor ≡ ok tt
      → u.is_active ≡ true
      → is_admin db.directory id ≡ true
      → HasOther db.directory id
  checked-other o db id actor u m found passed active admin =
      let (mine, named) = user_id db.directory id m found in
      subst (λ x. HasOther db.directory x) mine
        (ensure_can_deactivate_user-other t o db u actor m.keyed
          (subst (λ x. IsId t.trim x) (sym mine) named) passed active
          (ap (λ x. is_admin db.directory x) mine ∙ admin))

  -- A write of the user's row that its operation has checked.
  pub update-IsManned :
      (fails reload_fails : Bool) (o : Outage) (db : AuthDb) (id actor : String) (u : User)
      (c : UserChange)
      → IsManned t db.directory
      → get db.directory.users id ≡ some u
      → (deactivates c.is_active u ≡ true → ensure_can_deactivate_user t o db u actor ≡ ok tt)
      → IsManned t (update t.trim fails reload_fails db.directory id c).0
  update-IsManned fails reload_fails o db id actor u c m found checked =
      elim (update-cases t.trim fails reload_fails db.directory id c) [
        | inl e ↦ subst (λ d. IsManned t d) (sym e) m
        | inr (v, found', e) ↦
            let same_user : v ≡ u = cc in
            subst (λ d. IsManned t d) (sym e)
              (changed-IsManned db.directory id v (changed_user t.trim c v) m found' refl
                (λ active admin. elim (Bool-cases (deactivates c.is_active u)) [
                  | inl gone ↦ inr (
                      checked-other o db id actor u m found (checked gone)
                        (ap (λ x. x.is_active) (sym same_user) ∙ active) admin)
                  | inr kept ↦ inl (
                      still c.is_active v (ap (λ x. deactivates c.is_active x) same_user ∙ kept)
                        active)
                ]))
      ]
    where
      still :
          (wish : Option Bool) (v : User)
          → deactivates wish v ≡ false
          → v.is_active ≡ true
          → or_kept wish v.is_active ≡ true
      still none v kept active = active
      still (some true) v kept active = refl
      still (some false) v kept active = ground arith
