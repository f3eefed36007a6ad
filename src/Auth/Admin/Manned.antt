-- ===== src/Auth/Admin/Manned.antt =====
-- An active administrator is left: what the checks of ms-auth/internal/usecase/admin_service.go
-- and the count of ms-auth/internal/infrastructure/repository/user_repository.go secure.
use controlitix.Common.{
  String, Bool, true, false, ◌&&◌, List, some, ◌==◌, same, if◌then◌else◌, ◌≡◌, ◌≢◌, sym, ap, ◌∙◌,
  arith, In, ◌⊎◌, inl, inr, string_key,
}
use controlitix.Common.Map.{
  get, put, get-put, get-put_self, Each, Each-In, Each-found, Each-put, Each-mono, IsDistinct,
  put-IsDistinct,
}
use controlitix.Common.Tally.{tally, tally-found}
use controlitix.Common.Result.{Result, ok, >>=-eq-ok, >>-eq-ok, refuse_if, refuse_if-eq-ok}
use controlitix.Auth.Types.{User, AuthError, Directory}
use controlitix.Auth.Names.{contains_role}
use controlitix.Auth.Tokens.{unless_fails, get_roles, roles_of}
use controlitix.Auth.Users.{with_user, is_active_admin, count_active_admins_excluding}
use controlitix.Auth.Admin.{
  AuthDb, Tools, Outage, refuse_last_admin, check_roles, ensure_can_deactivate_user,
}

abbrev pub is_admin : Directory → String → Bool
is_admin d id = contains_role (roles_of (get d.user_roles id)) "admin"

-- An active user with the role admin.
pub record HasAdmin (d : Directory) : Type 0 where
  pub id : String
  pub user : User
  pub stored : get d.users id ≡ some user
  pub active : user.is_active ≡ true
  pub admin : is_admin d id ≡ true

-- One besides the user `id`.
abbrev pub HasOther : Directory → String → Type 0
HasOther d id = (a : HasAdmin d) × (a.id ≢ id)

-- An identifier of the database: no spaces around it, and not empty.
abbrev pub IsId : (String → String) → String → Type 0
IsId trim id = (trim id ≡ id) × (id ≢ "")

-- Every user is stored once, under its identifier.
pub record IsKeyed (trim : String → String) (d : Directory) : Type 0 where
  pub distinct : IsDistinct d.users
  pub keyed : Each (λ id u. (u.id ≡ id) × IsId trim id) d.users

-- Another administrator stays one when the user `id` is changed.
pub HasOther-with_user :
    (d : Directory) (id : String) (u : User) → HasOther d id → HasOther (with_user d id u) id
HasOther-with_user d id u (a, other) = (
  record {
    id = a.id;
    user = a.user;
    stored = ground (arith, get-put d.users id a.id u, a.stored, other);
    active = a.active;
    admin = a.admin;
  },
  other,
)

abbrev pub with_roles : Directory → String → List String → Directory
with_roles d id roles = record d { user_roles = put d.user_roles id roles }

pub HasOther-with_roles :
    (d : Directory) (id : String) (roles : List String)
    → HasOther d id
    → HasAdmin (with_roles d id roles)
HasOther-with_roles d id roles (a, other) = record {
  id = a.id;
  user = a.user;
  stored = a.stored;
  active = a.active;
  admin =
      ap (λ r. contains_role (roles_of r) "admin")
        (let e = get-put d.user_roles id a.id roles in
          let n : get (put d.user_roles id roles) a.id ≡ get d.user_roles a.id = ground arith in n)
      ∙ a.admin;
}

pub unless_fails-ok :
    {A : Type 0} (fails : Bool) (m : Result AuthError A) {a : A}
    → unless_fails fails m ≡ ok a
    → m ≡ ok a
unless_fails-ok true m h = cc
unless_fails-ok false m h = h

entry-HasOther :
    (d : Directory) (id : String) (entry : String × User)
    → IsDistinct d.users
    → id ≢ ""
    → In entry d.users
    → is_active_admin d id entry ≡ true
    → HasOther d id
entry-HasOther d id (key, u) distinct named m passes =
    let admin : is_admin d key ≡ true = ground arith in
    (
      record {
        id = key;
        user = u;
        stored =
            Each-In (λ a v. get d.users a ≡ some v) d.users (key, u) (Each-found d.users distinct)
              m;
        active = ground arith;
        admin = admin;
      },
      (λ mine. ground arith),
    )

-- If the count is not zero there is another administrator.
pub refuse_last_admin-other :
    (t : Tools) (o : Outage) (db : AuthDb) (id : String)
    → IsKeyed t.trim db.directory
    → IsId t.trim id
    → refuse_last_admin t o db id ≡ ok tt
    → HasOther db.directory id
unfolding refuse_last_admin count_active_admins_excluding
refuse_last_admin-other t o db id k named h =
    let d = db.directory in
    let (count, e, h1) = >>=-eq-ok (count_active_admins_excluding t.trim o.count_fails d id) _ h in
    let counted : tally (is_active_admin d (t.trim id)) d.users ≡ count =
      (let q = unless_fails-ok o.count_fails _ e in cc) in
    let some_left : (count == 0) ≡ false = refuse_if-eq-ok (count == 0) AuthError.last_admin h1 in
    let (entry, m, passes) =
      tally-found (is_active_admin d (t.trim id)) d.users
        (λ z. (let z' : count ≡ 0 = sym counted ∙ z in absurd (ground arith))) in
    entry-HasOther d id entry k.distinct named.1 m
      (ap (λ x. is_active_admin d x entry) (sym named.0) ∙ passes)

-- What a passed check of a user's deactivation says: it is no active administrator, or not the last.
pub ensure_can_deactivate_user-other :
    (t : Tools) (o : Outage) (db : AuthDb) (u : User) (actor : String)
    → IsKeyed t.trim db.directory
    → IsId t.trim u.id
    → ensure_can_deactivate_user t o db u actor ≡ ok tt
    → u.is_active ≡ true
    → is_admin db.directory u.id ≡ true
    → HasOther db.directory u.id
unfolding ensure_can_deactivate_user check_roles get_roles
ensure_can_deactivate_user-other t o db u actor k named h active admin =
    let (roles, e, h1) = >>=-eq-ok (get_roles o.roles_fail db.directory u.id) _ h in
    let roles_are : roles_of (get db.directory.user_roles u.id) ≡ roles =
      (let q = unless_fails-ok o.roles_fail _ e in cc) in
    let asked : contains_role roles "admin" ≡ true =
      ap (λ r. contains_role r "admin") (sym roles_are) ∙ admin in
    let (allowed, counted) =
      >>-eq-ok
        (refuse_if (same u.subject actor && contains_role roles "admin")
          AuthError.forbidden_self_demote)
        _ h1 in
    let both : u.is_active && contains_role roles "admin" ≡ true = ground arith in
    refuse_last_admin-other t o db u.id k named
      (ap (λ b. if b then refuse_last_admin t o db u.id else ok tt) (sym both) ∙ counted)

-- A change of a user keeps an administrator, if it leaves the user active or another one is there.
pub with_user-HasAdmin :
    (d : Directory) (id : String) (u u' : User)
    → HasAdmin d
    → get d.users id ≡ some u
    → (u.is_active ≡ true → is_admin d id ≡ true → (u'.is_active ≡ true) ⊎ HasOther d id)
    → HasAdmin (with_user d id u')
with_user-HasAdmin d id u u' a found spared = elim (string_key.eq? a.id id) [
  | no n ↦ (HasOther-with_user d id u' (a, n)).0
  | yes e ↦
      let same_user : a.user ≡ u = (let q = ap (λ x. get d.users x) e in let s = a.stored in cc) in
      elim (spared (ap (λ x. x.is_active) (sym same_user) ∙ a.active)
        (ap (λ x. is_admin d x) (sym e) ∙ a.admin)) [
          | inr other ↦ (HasOther-with_user d id u' other).0
          | inl active ↦ record {
            id = id;
            user = u';
            stored = get-put_self d.users id u';
            active = active;
            admin = ap (λ x. is_admin d x) (sym e) ∙ a.admin;
          }
        ]
]

-- The same for a change of roles.
pub with_roles-HasAdmin :
    (d : Directory) (id : String) (roles : List String)
    → HasAdmin d
    → ((a : HasAdmin d) → a.id ≡ id → (contains_role roles "admin" ≡ true) ⊎ HasOther d id)
    → HasAdmin (with_roles d id roles)
with_roles-HasAdmin d id roles a spared = elim (string_key.eq? a.id id) [
  | no n ↦ HasOther-with_roles d id roles (a, n)
  | yes e ↦ elim (spared a e) [
    | inr other ↦ HasOther-with_roles d id roles other
    | inl admin ↦ record {
      id = id;
      user = a.user;
      stored = ap (λ x. get d.users x) (sym e) ∙ a.stored;
      active = a.active;
      admin =
          ap (λ r. contains_role (roles_of r) "admin") (get-put_self d.user_roles id roles) ∙ admin;
    }
  ]
]

pub with_user-IsKeyed :
    (trim : String → String) (d : Directory) (id : String) (u : User)
    → IsKeyed trim d
    → u.id ≡ id
    → IsId trim id
    → IsKeyed trim (with_user d id u)
with_user-IsKeyed trim d id u k mine named = record {
  distinct = put-IsDistinct d.users id u k.distinct;
  keyed = Each-put _ d.users id u (mine, named) (Each-mono _ _ (λ b w p _. p) d.users k.keyed);
}
