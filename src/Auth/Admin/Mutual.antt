-- ===== src/Auth/Admin/Mutual.antt =====
-- Two calls of DeactivateUser of ms-auth/internal/usecase/admin_service.go, both past their checks
-- before either has written.
use controlitix.Common.{
  ℕ, String, false, ◌&&◌, [], ◌∷◌, some, same, In, ◌==◌, if◌then◌else◌, if_elim, ◌≡◌, ◌≢◌, refl,
  sym, subst, ap, ◌∙◌, arith, ◌⊎◌, inl, inr, string_key,
}
use controlitix.Common.Map.{get, put, Each-get}
use controlitix.Common.Result.{Result, ok, ◌>>◌, refuse_if}
use controlitix.Auth.Types.{User, AuthError, Directory}
use controlitix.Auth.Names.{contains_role}
use controlitix.Auth.Tokens.{get_roles, roles_of}
use controlitix.Auth.Users.{with_user, changed_user}
use controlitix.Auth.Admin.{
  AuthDb, Tools, refuse_last_admin, check_roles, no_outage, ensure_can_deactivate_user,
}
use controlitix.Auth.Admin.Update.{deactivation, deactivate_checked}
use controlitix.Auth.Admin.Manned.{HasAdmin, IsId, IsKeyed}
use controlitix.Common.Map.{get-put_self}
use controlitix.Common.Map.{Map, get-put}
use controlitix.Common.Tally.{tally, tally-In}
use controlitix.Auth.Users.{count_active_admins_excluding, is_active_admin}
use controlitix.Auth.Admin.Deactivation.{deactivate_checked-directory}

get-In : {V : Type 0} (m : Map String V) (a : String) {v : V} → get m a ≡ some v → In (a, v) m
unfolding get
get-In [] a h = cc
get-In ((b, w) ∷ m) a {v} h = elim (string_key.eq? b a) [
  | yes e ↦ let q : w ≡ v = ground arith in inl (ap (λ x. (x, w)) e ∙ ap (λ x. (a, x)) q)
  | no n ↦ inr (get-In m a (ground arith))
]

-- The administrator `a` is there when `id` asks.
admin-count :
    (d : Directory) (id : String) (a : HasAdmin d)
    → a.id ≢ id
    → tally (is_active_admin d id) d.users ≢ 0
admin-count d id a other none_left =
    let most =
      tally-In (is_active_admin d id) d.users (a.id, a.user) (get-In d.users a.id a.stored)
        (let p = a.active in let q = a.admin in ground arith) in
    omega (arith, most, none_left)

get-other : (m : Map String User) (a b : String) (u : User) → a ≢ b → get (put m a u) b ≡ get m b
get-other m a b u other = let e = get-put m a b u in ground arith

-- Once both are inactive, an active administrator would be a third one.
none_left :
    (d : Directory) (a b : String) (u v : User)
    → u.is_active ≡ false
    → v.is_active ≡ false
    → ((c : HasAdmin d) → (c.id ≡ a) ⊎ (c.id ≡ b))
    → ¬ HasAdmin (with_user (with_user d a u) b v)
none_left d a b u v ua va only c = elim (string_key.eq? b c.id) [
  | yes e ↦
      let here : some v ≡ some c.user =
        sym (get-put_self (put d.users a u) b v)
        ∙ ap (λ x. get (put (put d.users a u) b v) x) e
        ∙ c.stored in
      let p = c.active in
      let same_user : v ≡ c.user = cc in absurd (let q = ap (λ x. x.is_active) same_user in cc)
  | no n ↦
      let below : get (put d.users a u) c.id ≡ some c.user =
        sym (get-other (put d.users a u) b c.id v n) ∙ c.stored in
      elim (string_key.eq? a c.id) [
        | yes e ↦
            let here : some u ≡ some c.user =
              sym (get-put_self d.users a u) ∙ ap (λ x. get (put d.users a u) x) e ∙ below in
            let p = c.active in
            let same_user : u ≡ c.user = cc in
            absurd (let q = ap (λ x. x.is_active) same_user in cc)
        | no n' ↦
            let third : HasAdmin d = record {
              id = c.id;
              user = c.user;
              stored = sym (get-other d.users a c.id u n') ∙ below;
              active = c.active;
              admin = c.admin;
            } in
            elim (only third) [ inl e ↦ n' (sym e) | inr e ↦ n (sym e) ]
      ]
]

module _ (t : Tools) where
  user_named :
      (d : Directory) (a : HasAdmin d) → IsKeyed t.trim d → (a.user.id ≡ a.id) × IsId t.trim a.id
  user_named d a k = Each-get _ d.users a.id k.keyed a.stored

  -- While another administrator is there, someone else may deactivate a user.
  pub check-passes :
      (db : AuthDb) (u : User) (actor : String) (a : HasAdmin db.directory)
      → IsId t.trim u.id
      → a.id ≢ u.id
      → u.subject ≢ actor
      → ensure_can_deactivate_user t no_outage db u actor ≡ ok tt
  unfolding ensure_can_deactivate_user check_roles refuse_last_admin get_roles
      count_active_admins_excluding
  check-passes db u actor a named other stranger =
      let roles = roles_of (get db.directory.user_roles u.id) in
      let allowed : same u.subject actor && contains_role roles "admin" ≡ false = ground arith in
      let counted : (tally (is_active_admin db.directory (t.trim u.id)) db.directory.users == 0)
          ≡ false =
        (let left = admin-count db.directory u.id a other in
          let named_left =
            subst (λ x. tally (is_active_admin db.directory x) db.directory.users ≢ 0) (sym named.0)
              left in
          ground arith) in
      let rest : (if u.is_active && contains_role roles "admin"
            then refuse_last_admin t no_outage db u.id
            else ok tt)
          ≡ ok tt =
        if_elim (λ x. x ≡ ok tt) (u.is_active && contains_role roles "admin")
          (λ _. ap (λ b. refuse_if b AuthError.last_admin) counted) (λ _. refl) in
      ap
        (λ b.
          refuse_if b AuthError.forbidden_self_demote
          >> (if u.is_active && contains_role roles "admin"
              then refuse_last_admin t no_outage db u.id
              else ok tt))
        allowed
      ∙ rest

  -- Two active administrators, each stored under its identifier, and no third one; each asks for
  -- the deactivation of the other. Both checks pass, if both are made before either call writes.
  -- When then both calls finish, without a failure, no active administrator is left.
  pub deactivate_checked-mutual :
      (now : ℕ) (db : AuthDb) (a b : HasAdmin db.directory)
      → IsKeyed t.trim db.directory
      → a.id ≢ b.id
      → a.user.subject ≢ b.user.subject
      → ((c : HasAdmin db.directory) → (c.id ≡ a.id) ⊎ (c.id ≡ b.id))
      → let first =
          deactivate_checked t no_outage now db b.user.subject a.id
            (ensure_can_deactivate_user t no_outage db a.user b.user.subject) in
        let second =
          deactivate_checked t no_outage now first.0 a.user.subject b.id
            (ensure_can_deactivate_user t no_outage db b.user a.user.subject) in
        ¬ HasAdmin second.0.directory
  deactivate_checked-mutual now db a b k differ strangers only c =
      let d = db.directory in
      let (mine_a, named_a) = user_named d a k in
      let (mine_b, named_b) = user_named d b k in
      let pass_a =
        check-passes db a.user b.user.subject b (subst (λ x. IsId t.trim x) (sym mine_a) named_a)
          (λ e. differ (sym (e ∙ mine_a))) strangers in
      let pass_b =
        check-passes db b.user a.user.subject a (subst (λ x. IsId t.trim x) (sym mine_b) named_b)
          (λ e. differ (e ∙ mine_b)) (λ e. strangers (sym e)) in
      let first : AuthDb × Result AuthError (Unit {0}) =
        deactivate_checked t no_outage now db b.user.subject a.id
          (ensure_can_deactivate_user t no_outage db a.user b.user.subject) in
      let first_is : first.0.directory
          ≡ with_user d a.id (changed_user t.trim deactivation a.user) =
        ap (λ m. (deactivate_checked t no_outage now db b.user.subject a.id m).0.directory) pass_a
        ∙ deactivate_checked-directory t no_outage now db b.user.subject a.id a.user refl
            a.stored in
      let found : get first.0.directory.users b.id ≡ some b.user =
        ap (λ x. get x.users b.id) first_is ∙ get-other d.users a.id b.id _ differ ∙ b.stored in
      let second_is =
        ap (λ m. (deactivate_checked t no_outage now first.0 a.user.subject b.id m).0.directory)
          pass_b
        ∙ deactivate_checked-directory t no_outage now first.0 a.user.subject b.id b.user refl found
        ∙ ap (λ x. with_user x b.id (changed_user t.trim deactivation b.user)) first_is in
      none_left d a.id b.id (changed_user t.trim deactivation a.user)
        (changed_user t.trim deactivation b.user) refl refl only
        (subst (λ x. HasAdmin x) second_is c)
