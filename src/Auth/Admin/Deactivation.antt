-- ===== src/Auth/Admin/Deactivation.antt =====
-- What DeactivateUser of ms-auth/internal/usecase/admin_service.go leaves, also when the revocation
-- of the sessions fails, and what Rotate of token_service.go then does.
use controlitix.Common.{
  ℕ, String, true, false, List, some, if◌then◌else◌, if_elim, Bool-cases, ◌≡◌, ◌≢◌, refl, sym,
  subst, ap, ◌∙◌, inl, inr, string_key,
}
use controlitix.Common.Map.{get}
use controlitix.Common.Result.{Result, ok, err, Result-cases}
use controlitix.Auth.Types.{User, AuthError, Directory}
use controlitix.Auth.Tokens.{unless_fails, get_roles, roles_of}
use controlitix.Auth.Users.{with_user, changed_user, update}
use controlitix.Auth.Admin.{
  AuthDb, Tools, Outage, load_user, ensure_can_deactivate_user, end_sessions,
}
use controlitix.Auth.Admin.Update.{
  deactivation, finish_deactivation, deactivate_checked, deactivate_loaded, deactivate_user,
}
use controlitix.Auth.Admin.Written.{load_user-eq-ok}
use controlitix.Auth.Admin.Guarded.{IsManned, user_id}
use controlitix.Common.Map.{get-put_self}
use controlitix.Auth.Types.{RefreshRecord, TokenMeta, TokenConfig, IssuedTokens}
use controlitix.Auth.Tokens.{Codec, Chance}
use controlitix.Auth.Tokens
use controlitix.Auth.Users.{update_found, find_by_id}
use controlitix.Auth.Rotation.{rotated, rotate}
use controlitix.Auth.Rotation.Renewal.{rotate-IsRenewal}
use controlitix.Auth.Admin.Guarded.{IsManned, user_id}
use controlitix.Auth.Admin.GuardedUsers.{deactivate_user-IsManned, finish-directory}

-- The user is stored, and not active.
pub record IsInactive (d : Directory) (id : String) : Type 0 where
  pub user : User
  pub stored : get d.users id ≡ some user
  pub inactive : user.is_active ≡ false

module _ (t : Tools) where
  -- The UPDATE of a deactivation, when the database runs it.
  pub deactivate_checked-directory :
      (o : Outage) (now : ℕ) (db : AuthDb) (actor id : String) (u : User)
      → o.update_fails ≡ false
      → get db.directory.users id ≡ some u
      → (deactivate_checked t o now db actor id (ok tt)).0.directory
        ≡ with_user db.directory id (changed_user t.trim deactivation u)
  unfolding deactivate_checked update update_found
  deactivate_checked-directory o now db actor id u works found =
      let written : (update t.trim o.update_fails o.reload_fails db.directory id deactivation).0
          ≡ with_user db.directory id (changed_user t.trim deactivation u) =
        rw works (rw found refl) in
      finish-directory t o now db actor id
        (update t.trim o.update_fails o.reload_fails db.directory id deactivation)
      ∙ written

  stored-IsInactive :
      (o : Outage) (now : ℕ) (db : AuthDb) (actor id : String) (u : User)
      → o.update_fails ≡ false
      → get db.directory.users id ≡ some u
      → IsInactive (deactivate_checked t o now db actor id (ok tt)).0.directory id
  stored-IsInactive o now db actor id u works found = record {
    user = changed_user t.trim deactivation u;
    stored =
        ap (λ d. get d.users id) (deactivate_checked-directory o now db actor id u works found)
        ∙ get-put_self db.directory.users id _;
    inactive = refl;
  }

  -- An UPDATE that fails makes the call fail.
  works-update :
      (o : Outage) (now : ℕ) (db : AuthDb) (actor id : String)
      → (deactivate_checked t o now db actor id (ok tt)).1 ≡ ok tt
      → o.update_fails ≡ false
  unfolding deactivate_checked update finish_deactivation
  works-update o now db actor id h = elim (Bool-cases o.update_fails) [
    | inl e ↦ absurd (
        let q =
          ap
            (λ b.
              (finish_deactivation o now db actor id
                (update t.trim b o.reload_fails db.directory id deactivation)).1)
            (sym e)
          ∙ h in
        cc)
    | inr e ↦ e
  ]

  -- A deactivation that succeeds leaves the user inactive, whether it was active before or not.
  pub deactivate_user-IsInactive :
      (o : Outage) (now : ℕ) (db : AuthDb) (actor id : String)
      → (deactivate_user t o now db actor id).1 ≡ ok tt
      → IsInactive (deactivate_user t o now db actor id).0.directory id
  unfolding deactivate_user deactivate_loaded deactivate_checked
  deactivate_user-IsInactive o now db actor id h = elim (Result-cases (load_user o db id)) [
    | inl (e, q) ↦
        absurd (let p = ap (λ m. (deactivate_loaded t o now db actor id m).1) (sym q) ∙ h in cc)
    | inr (u, q) ↦
        let found = load_user-eq-ok o db id q in
        let loaded = ap (λ m. (deactivate_loaded t o now db actor id m).1) (sym q) ∙ h in
        rw q (
          if_elim
            (λ (x : AuthDb × Result AuthError (Unit {0})).
              x.1 ≡ ok tt → IsInactive x.0.directory id)
            u.is_active
            (λ active done. elim (Result-cases (ensure_can_deactivate_user t o db u actor)) [
              | inl (e, p) ↦ absurd (
                  let r = ap (λ m. (deactivate_checked t o now db actor id m).1) (sym p) ∙ done in
                  cc)
              | inr (passed, p) ↦
                  let r = ap (λ m. (deactivate_checked t o now db actor id m).1) (sym p) ∙ done in
                  rw p
                    (stored-IsInactive o now db actor id u (works-update o now db actor id r) found)
            ])
            (λ inactive done. record { user = u; stored = found; inactive = inactive }) loaded)
  ]

  -- After a deactivation that succeeds, in a directory that stores each user under its identifier
  -- and has an active administrator, no refresh token is exchanged for tokens of that user,
  -- whatever sessions there are.
  pub deactivate_user-locks_out :
      (o : Outage) (now : ℕ) (db : AuthDb) (actor id : String) (c : Codec) (cfg : TokenConfig)
      (o' : Tokens.Outage) (ch : Chance) (rows : List RefreshRecord) (later : ℕ) (meta : TokenMeta)
      (token : String) (stored : List RefreshRecord) (tokens : IssuedTokens) (user : User)
      → IsManned t db.directory
      → (deactivate_user t o now db actor id).1 ≡ ok tt
      → rotate c cfg o' ch (deactivate_user t o now db actor id).0.directory rows later meta token
        ≡ (stored, rotated tokens user)
      → user.id ≢ id
  deactivate_user-locks_out o now db actor id c cfg o' ch rows later meta token stored tokens user
        manned done turned mine =
      let renewal =
        rotate-IsRenewal c cfg o' ch (deactivate_user t o now db actor id).0.directory rows later
          meta token turned in
      let gone = deactivate_user-IsInactive o now db actor id done in
      let after = deactivate_user-IsManned t o now db actor id manned in
      let named = (user_id t _ renewal.redeemed.user_id after renewal.user_is).0 in
      let looked =
        ap (λ x. get (deactivate_user t o now db actor id).0.directory.users x)
          (sym named ∙ mine) in
      let same_user : user ≡ gone.user = (let p = renewal.user_is in let q = gone.stored in cc) in
      let clash = sym renewal.active ∙ ap (λ u. u.is_active) same_user ∙ gone.inactive in
      absurd (cc)

  pub reaches :
      (o : Outage) (now : ℕ) (db : AuthDb) (actor id : String) (u : User)
      → load_user o db id ≡ ok u
      → u.is_active ≡ true
      → ensure_can_deactivate_user t o db u actor ≡ ok tt
      → deactivate_user t o now db actor id ≡ deactivate_checked t o now db actor id (ok tt)
  unfolding deactivate_user deactivate_loaded
  reaches o now db actor id u loaded active passed =
      ap (λ m. deactivate_loaded t o now db actor id m) loaded
      ∙ ap
          (λ b.
            if b
            then deactivate_checked t o now db actor id (ensure_can_deactivate_user t o db u actor)
            else (db, ok tt))
          active
      ∙ ap (λ m. deactivate_checked t o now db actor id m) passed

  unrevoked :
      (o : Outage) (now : ℕ) (db : AuthDb) (actor id : String) (u : User)
      → (o.update_fails ≡ false) × (o.reload_fails ≡ false)
      → o.revoke_fails ≡ true
      → get db.directory.users id ≡ some u
      → ((deactivate_checked t o now db actor id (ok tt)).1 ≡ err AuthError.internal)
        × ((deactivate_checked t o now db actor id (ok tt)).0.sessions ≡ db.sessions)
  unfolding deactivate_checked update update_found finish_deactivation end_sessions
  unrevoked o now db actor id u works fails found =
      rw works.0 (rw works.1 (rw found (rw fails (refl, refl))))

  -- An inactive user is left alone.
  idle :
      (o : Outage) (now : ℕ) (db : AuthDb) (actor id : String)
      → IsInactive db.directory id
      → o.find_fails ≡ false
      → deactivate_user t o now db actor id ≡ (db, ok tt)
  unfolding deactivate_user deactivate_loaded load_user find_by_id
  idle o now db actor id gone finds = rw finds (rw gone.stored (rw gone.inactive refl))

  -- A deactivation of an active user that passes its checks, whose UPDATE succeeds and whose
  -- revocation fails: it reports an error, the user is inactive and every session is as it was.
  -- Calling it again while the database answers the load reports success and changes nothing, so
  -- the sessions stay.
  pub deactivate_user-unrevoked :
      (o o' : Outage) (now later : ℕ) (db : AuthDb) (actor actor' id : String) (u : User)
      → load_user o db id ≡ ok u
      → u.is_active ≡ true
      → ensure_can_deactivate_user t o db u actor ≡ ok tt
      → (o.update_fails ≡ false) × (o.reload_fails ≡ false)
      → o.revoke_fails ≡ true
      → o'.find_fails ≡ false
      → let db' = (deactivate_user t o now db actor id).0 in
        ((deactivate_user t o now db actor id).1 ≡ err AuthError.internal)
        × IsInactive db'.directory id
        × (db'.sessions ≡ db.sessions)
        × (deactivate_user t o' later db' actor' id ≡ (db', ok tt))
  deactivate_user-unrevoked o o' now later db actor actor' id u loaded active passed works fails
        finds =
      let reached : deactivate_user t o now db actor id
          ≡ deactivate_checked t o now db actor id (ok tt) =
        reaches o now db actor id u loaded active passed in
      let found = load_user-eq-ok o db id loaded in
      let gone = stored-IsInactive o now db actor id u works.0 found in
      let broken : ((deactivate_checked t o now db actor id (ok tt)).1 ≡ err AuthError.internal)
          × ((deactivate_checked t o now db actor id (ok tt)).0.sessions ≡ db.sessions) =
        unrevoked o now db actor id u works fails found in
      subst
        (λ (x : AuthDb × Result AuthError (Unit {0})).
          (x.1 ≡ err AuthError.internal)
          × IsInactive x.0.directory id
          × (x.0.sessions ≡ db.sessions)
          × (deactivate_user t o' later x.0 actor' id ≡ (x.0, ok tt)))
        (sym reached) (broken.0, gone, broken.1, idle o' later _ actor' id gone finds)
