-- ===== src/Samples/Admin.antt =====
-- Two administrators, ann and bob, and their sessions.
use controlitix.Common.{
  String, true, [], ◌∷◌, none, some, ◌≡◌, ◌≢◌, refl, sym, arith, string_key, nat_key, inl, inr, ◌⊎◌,
  text_differ,
}
use controlitix.Common.Map.{get}
use controlitix.Common.Result.{ok, err}
use controlitix.Auth.Types.{User, AuthError, Directory}
use controlitix.Auth.Names.{contains_role}
use controlitix.Auth.Tokens.{roles_of}
use controlitix.Auth.Admin.{AuthDb, Tools, Outage, no_outage, load_user, ensure_can_deactivate_user}
use controlitix.Auth.Admin.Update.{deactivate_user, deactivate_checked}
use controlitix.Auth.Admin.Roles.{set_user_roles}
use controlitix.Auth.Users.{find_by_id}
use controlitix.Auth.Admin.Manned.{HasAdmin, IsKeyed, IsId}
use controlitix.Auth.Admin.Guarded.{IsManned}
use controlitix.Auth.Admin.LastAdmin.{deactivates_user, sets_roles, here, after, Steps-IsManned}
use controlitix.Auth.Admin.Deactivation.{IsInactive, deactivate_user-unrevoked}
use controlitix.Auth.Admin.Mutual.{check-passes, deactivate_checked-mutual}

abbrev pub tools : Tools
tools = record { trim = λ s. s; lower = λ s. s; hash = λ s. some s }

abbrev pub person : String → String → User
person id subject = record {
  id = id;
  subject = subject;
  source_id = 1;
  username = id;
  display_name = "";
  email = "";
  password_hash = "";
  is_active = true;
  last_login_at = none;
}

abbrev pub office : Directory
office = record {
  users = ("ann", person "ann" "local:1") ∷ ("bob", person "bob" "local:2") ∷ [];
  user_roles = ("ann", "admin" ∷ []) ∷ ("bob", "admin" ∷ []) ∷ [];
  sources = (1, record { id = 1; kind = "local"; name = "local"; is_enabled = true }) ∷ [];
}

abbrev pub office_db : AuthDb
office_db = record { directory = office; sessions = []; accounts = []; audit = [] }

abbrev Differ : String → String → Type 0
Differ s t = s ≢ t

pub ann_bob : Differ "ann" "bob"
ann_bob = text_differ "ann" "bob" refl

pub ann_stored : get office.users "ann" ≡ some (person "ann" "local:1")
unfolding get
ann_stored = ground arith

pub bob_stored : get office.users "bob" ≡ some (person "bob" "local:2")
unfolding get
bob_stored = let d = ann_bob in ground arith

ann_admin : contains_role (roles_of (get office.user_roles "ann")) "admin" ≡ true
unfolding get contains_role
ann_admin = ground arith

bob_admin : contains_role (roles_of (get office.user_roles "bob")) "admin" ≡ true
unfolding get contains_role
bob_admin = let d = ann_bob in ground arith

abbrev ann_is : HasAdmin office
ann_is = record {
  id = "ann";
  user = person "ann" "local:1";
  stored = ann_stored;
  active = refl;
  admin = ann_admin;
}

abbrev bob_is : HasAdmin office
bob_is = record {
  id = "bob";
  user = person "bob" "local:2";
  stored = bob_stored;
  active = refl;
  admin = bob_admin;
}

ann-IsId : IsId tools.trim "ann"
ann-IsId = (refl, text_differ "ann" "" refl)

bob-IsId : IsId tools.trim "bob"
bob-IsId = (refl, text_differ "bob" "" refl)

office-IsKeyed : IsKeyed tools.trim office
office-IsKeyed = record {
  distinct = ((ann_bob, tt), (tt, tt));
  keyed = ((refl, ann-IsId), ((refl, bob-IsId), tt));
}

pub office-IsManned : IsManned tools office
office-IsManned = record { keyed = office-IsKeyed; manned = ann_is }

-- Bob deactivates Ann, then wants to give up his own role.
abbrev after_bob : AuthDb
after_bob = (deactivate_user tools no_outage 5 office_db "local:2" "ann").0

Steps-IsManned_example :
    IsManned tools (set_user_roles tools no_outage after_bob "local:2" "bob" []).0.directory
Steps-IsManned_example =
    Steps-IsManned tools office_db (set_user_roles tools no_outage after_bob "local:2" "bob" []).0
      (after (after here (deactivates_user no_outage 5 "local:2" "ann"))
        (sets_roles no_outage "local:2" "bob" []))
      office-IsManned

pub ann_loaded : load_user no_outage office_db "ann" ≡ ok (person "ann" "local:1")
unfolding load_user find_by_id
ann_loaded = rw ann_stored refl

pub ann_checked :
    ensure_can_deactivate_user tools no_outage office_db (person "ann" "local:1") "local:2" ≡ ok tt
ann_checked =
    check-passes tools office_db (person "ann" "local:1") "local:2" bob_is ann-IsId
      (λ e. ann_bob (sym e)) (text_differ "local:1" "local:2" refl)

-- The revocation of the sessions fails.
abbrev no_revocation : Outage
no_revocation = record no_outage { revoke_fails = true }

deactivate_user-unrevoked_example :
    let db' = (deactivate_user tools no_revocation 5 office_db "local:2" "ann").0 in
    ((deactivate_user tools no_revocation 5 office_db "local:2" "ann").1 ≡ err AuthError.internal)
    × IsInactive db'.directory "ann"
    × (db'.sessions ≡ [])
    × (deactivate_user tools no_outage 6 db' "local:2" "ann" ≡ (db', ok tt))
unfolding load_user ensure_can_deactivate_user
deactivate_user-unrevoked_example =
    deactivate_user-unrevoked tools no_revocation no_outage 5 6 office_db "local:2" "local:2" "ann"
      (person "ann" "local:1") ann_loaded refl ann_checked (refl, refl) refl refl

only_two : (c : HasAdmin office) → (c.id ≡ "ann") ⊎ (c.id ≡ "bob")
unfolding get
only_two c = elim (string_key.eq? c.id "ann") [
  | yes e ↦ inl e
  | no n ↦ elim (string_key.eq? c.id "bob") [
    | yes e ↦ inr e
    | no m ↦ absurd (let s = c.stored in ground arith)
  ]
]

deactivate_checked-mutual_example :
    let first =
      deactivate_checked tools no_outage 5 office_db "local:2" "ann"
        (ensure_can_deactivate_user tools no_outage office_db (person "ann" "local:1") "local:2") in
    let second =
      deactivate_checked tools no_outage 5 first.0 "local:1" "bob"
        (ensure_can_deactivate_user tools no_outage office_db (person "bob" "local:2") "local:1") in
    ¬ HasAdmin second.0.directory
deactivate_checked-mutual_example =
    deactivate_checked-mutual tools 5 office_db ann_is bob_is office-IsKeyed ann_bob
      (text_differ "local:1" "local:2" refl) only_two
