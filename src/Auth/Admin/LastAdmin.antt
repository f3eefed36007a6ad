-- ===== src/Auth/Admin/LastAdmin.antt =====
-- The administration of ms-auth/internal/usecase/admin_service.go, one call after the other, never
-- takes away the last active administrator.
use controlitix.Common.{ℕ, String, List, Option, string_key}
use controlitix.Auth.Admin.{AuthDb, Tools, Outage}
use controlitix.Auth.Admin.Create.{CreateUserInput, create_user}
use controlitix.Auth.Admin.Update.{UpdateUserInput, update_user, deactivate_user}
use controlitix.Auth.Admin.Roles.{set_user_roles, remove_user_role, revoke_user_sessions}
use controlitix.Auth.Admin.Manned.{IsId}
use controlitix.Auth.Admin.Guarded.{IsManned}
use controlitix.Auth.Admin.GuardedUsers.{
  create_user-IsManned, update_user-IsManned, deactivate_user-IsManned,
}
use controlitix.Auth.Admin.GuardedRoles.{
  set_user_roles-IsManned, remove_user_role-IsManned, revoke_user_sessions-IsManned,
}

-- One call of the administration; an identifier that the database draws has no spaces around it.
pub data Step (t : Tools) (db : AuthDb) : AuthDb → Type 0 where
  creates :
      (o : Outage) (id : String) (subject_id : Option String) (actor : String)
      (input : CreateUserInput)
      → IsId t.trim id
      → Step t db (create_user t o id subject_id db actor input).0
  updates :
      (o : Outage) (now : ℕ) (actor id : String) (input : UpdateUserInput)
      → Step t db (update_user t o now db actor id input).0
  deactivates_user :
      (o : Outage) (now : ℕ) (actor id : String) → Step t db (deactivate_user t o now db actor id).0
  sets_roles :
      (o : Outage) (actor id : String) (roles : List String)
      → Step t db (set_user_roles t o db actor id roles).0
  removes_role :
      (o : Outage) (actor id role : String) → Step t db (remove_user_role t o db actor id role).0
  revokes_sessions :
      (o : Outage) (now : ℕ) (actor id : String)
      → Step t db (revoke_user_sessions o now db actor id).0

pub data Steps (t : Tools) (db : AuthDb) : AuthDb → Type 0 where
  here : Steps t db db
  after : {v u : AuthDb} → Steps t db v → Step t v u → Steps t db u

module _ (t : Tools) where
  Step-IsManned : (db v : AuthDb) → Step t db v → IsManned t db.directory → IsManned t v.directory
  Step-IsManned db v (creates o id subject_id actor input named) m =
      create_user-IsManned t o id subject_id db actor input m named
  Step-IsManned db v (updates o now actor id input) m =
      update_user-IsManned t o now db actor id input m
  Step-IsManned db v (deactivates_user o now actor id) m =
      deactivate_user-IsManned t o now db actor id m
  Step-IsManned db v (sets_roles o actor id roles) m =
      set_user_roles-IsManned t o db actor id roles m
  Step-IsManned db v (removes_role o actor id role) m =
      remove_user_role-IsManned t o db actor id role m
  Step-IsManned db v (revokes_sessions o now actor id) m =
      revoke_user_sessions-IsManned t o now db actor id m

  -- From a state in which each user is stored once, under its identifier, and some active user has
  -- the role admin, whichever users an administrator creates, updates or deactivates, whichever
  -- roles and sessions are changed, one call after the other and whichever database calls fail:
  -- some active user has the role admin, and each user is stored once, under its identifier.
  pub Steps-IsManned :
      (db v : AuthDb) → Steps t db v → IsManned t db.directory → IsManned t v.directory
  Steps-IsManned db v here m = m
  Steps-IsManned db v (after {v = u} run step) m =
      Step-IsManned u v step (Steps-IsManned db u run m)
