-- ===== src/Auth/Admin/Written.antt =====
-- What each write of ms-auth/internal/usecase/admin_service.go leaves in the tables of users and
-- roles.
use controlitix.Common.{
  ℕ, String, Bool, true, false, not, ◌||◌, ◌&&◌, List, [], ◌∷◌, ◌++◌, Option, none, some, same,
  if_elim, Bool-cases, ◌≡◌, refl, sym, ap, ◌∙◌, arith, ◌⊎◌, inl, inr, string_key, Option-cases,
  is_some,
}
use controlitix.Common.Map.{get}
use controlitix.Common.Result.{Result, ok, >>=-eq-ok}
use controlitix.Auth.Types.{User, AuditEvent, AuthError, Directory}
use controlitix.Auth.Names.{contains_role, is_allowed_role}
use controlitix.Auth.Tokens.{unless_fails, or_error}
use controlitix.Auth.Users.{
  find_by_id, UserChange, changed_user, with_user, update_found, update, unique_role, unique_roles,
  set_roles, create_user_row, first_user, clashes,
}
use controlitix.Auth.Admin.{AuthDb, Outage, record_audit, load_user, end_sessions}
use controlitix.Auth.Admin.Manned.{with_roles, unless_fails-ok}

pub record_audit-directory :
    (fails : Bool) (db : AuthDb) (e : AuditEvent)
    → (record_audit fails db e).directory ≡ db.directory
unfolding record_audit
record_audit-directory true db e = refl
record_audit-directory false db e = refl

pub end_sessions-directory :
    (o : Outage) (now : ℕ) (db : AuthDb) (revokes : Bool) (id reason : String) (e : AuditEvent)
    → (end_sessions o now db revokes id reason e).0.directory ≡ db.directory
unfolding end_sessions
end_sessions-directory o now db revokes id reason e =
    if_elim (λ (x : AuthDb × Result AuthError (Unit {0})). x.0.directory ≡ db.directory)
      (revokes && o.revoke_fails) (λ _. refl) (λ _. record_audit-directory o.audit_fails _ e)

pub load_user-eq-ok :
    (o : Outage) (db : AuthDb) (id : String) {u : User}
    → load_user o db id ≡ ok u
    → get db.directory.users id ≡ some u
unfolding load_user find_by_id
load_user-eq-ok o db id {u} h =
    let (found, e, h1) =
      >>=-eq-ok (unless_fails o.find_fails (ok (get db.directory.users id))) _ h in
    let found_is : get db.directory.users id ≡ found =
      (let q = unless_fails-ok o.find_fails _ e in cc) in
    found_is ∙ present found h1
  where
    present : (m : Option User) → or_error AuthError.user_not_found m ≡ ok u → m ≡ some u
    present none q = cc
    present (some v) q = cc

-- An update changes nothing, or the row of the user and no other.
pub update-cases :
    (trim : String → String) (fails reload_fails : Bool) (d : Directory) (id : String)
    (c : UserChange)
    → ((update trim fails reload_fails d id c).0 ≡ d)
      ⊎ ((u : User) × (get d.users id ≡ some u)
          × ((update trim fails reload_fails d id c).0 ≡ with_user d id (changed_user trim c u)))
unfolding update update_found
update-cases trim true reload_fails d id c = inl refl
update-cases trim false reload_fails d id c = elim (Option-cases (get d.users id)) [
  | inl e ↦ inl (rw e refl)
  | inr (u, e) ↦ inr (u, e, rw e refl)
]

contains_role-append :
    (xs ys : List String) (r : String)
    → contains_role (xs ++ ys) r ≡ contains_role xs r || contains_role ys r
unfolding contains_role
contains_role-append [] ys r = refl
contains_role-append (x ∷ xs) ys r = ground (arith, contains_role-append xs ys r)

-- A role that was kept so far or is next is kept.
unique_role-keeps :
    (xs : List String) (r role : String) {kept : List String}
    → unique_role xs r ≡ ok kept
    → contains_role xs role || same r role ≡ true
    → contains_role kept role ≡ true
unfolding unique_role contains_role
unique_role-keeps xs r role {kept} h m =
    if_elim (λ (x : Result AuthError (List String)). x ≡ ok kept → contains_role kept role ≡ true)
      (not (is_allowed_role r)) (λ _ q. cc)
      (λ _.
        if_elim
          (λ (x : Result AuthError (List String)). x ≡ ok kept → contains_role kept role ≡ true)
          (contains_role xs r)
          (λ there q.
            (let same_list : xs ≡ kept = cc in
              ap (λ l. contains_role l role) (sym same_list) ∙ already there))
          (λ _ q.
            (let same_list : xs ++ r ∷ [] ≡ kept = cc in
              ap (λ l. contains_role l role) (sym same_list)
              ∙ contains_role-append xs (r ∷ []) role
              ∙ ground arith)))
      h
  where
    already : contains_role xs r ≡ true → contains_role xs role ≡ true
    already there = elim (string_key.eq? r role) [
      | yes e ↦ ap (λ x. contains_role xs x) (sym e) ∙ there
      | no n ↦ ground arith
    ]

unique_roles-keeps :
    (xs rest : List String) (role : String) {kept : List String}
    → unique_roles xs rest ≡ ok kept
    → contains_role xs role || contains_role rest role ≡ true
    → contains_role kept role ≡ true
unfolding unique_roles contains_role
unique_roles-keeps xs [] role {kept} h m =
    let same_list : xs ≡ kept = cc in ap (λ l. contains_role l role) (sym same_list) ∙ ground arith
unique_roles-keeps xs (r ∷ rest) role {kept} h m =
    let (next, e, h1) = >>=-eq-ok (unique_role xs r) _ h in
    unique_roles-keeps next rest role h1 (elim (Bool-cases (contains_role xs role || same r role)) [
      | inl there ↦ (let k = unique_role-keeps xs r role e there in ground arith)
      | inr absent ↦ (let l : contains_role rest role ≡ true = ground arith in ground arith)
    ])

-- A stored role set replaces that of the user, and keeps each role that was asked for.
pub set_roles-eq-ok :
    (fails : Bool) (d : Directory) (id : String) (roles : List String) {d' : Directory}
    → set_roles fails d id roles ≡ ok d'
    → (kept : List String) × (d' ≡ with_roles d id kept)
      × ((role : String) → contains_role roles role ≡ true → contains_role kept role ≡ true)
unfolding set_roles
set_roles-eq-ok fails d id roles {d'} h =
    let (kept, e, h1) = >>=-eq-ok (unique_roles [] roles) _ h in
    (
      kept,
      (let q = unless_fails-ok fails _ h1 in cc),
      (λ role m. unique_roles-keeps [] roles role e (ground arith)),
    )

-- A stored user is a new row under a new key.
pub create_user_row-eq-ok :
    (lower : String → String) (fails : Bool) (d : Directory) (id : String) (n : User)
    {d' : Directory} {u : User}
    → create_user_row lower fails d id n ≡ ok (d', u)
    → (get d.users id ≡ none) × (d' ≡ with_user d id u) × (u.id ≡ id)
unfolding create_user_row
create_user_row-eq-ok lower fails d id n {d'} {u} h =
    if_elim Stored (fails || is_some (get d.users id)) (λ _ q. cc)
      (λ free.
        if_elim Stored (is_some (first_user (clashes lower n) d.users)) (λ _ q. cc)
          (λ _ q. (absent (get d.users id) (ground arith), cc, sym (ap (λ x. x.id) (made q)))))
      h
  where
    Stored : Result AuthError (Directory × User) → Type 0
    Stored m = m ≡ ok (d', u) → (get d.users id ≡ none) × (d' ≡ with_user d id u) × (u.id ≡ id)

    Made : Result AuthError (Directory × User) → Type 0
    Made m = m ≡ ok (d', u)

    absent : (m : Option User) → is_some m ≡ false → m ≡ none
    absent none q = refl
    absent (some v) q = cc

    made : {x : Directory} → Made (ok (x, record n { id = id })) → record n { id = id } ≡ u
    made q = cc
