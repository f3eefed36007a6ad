-- ===== src/Samples/Login.antt =====
-- Ann logs in with her password; then a client asks for a token with a wrong secret.
use controlitix.Common.{
  true, false, [], ◌∷◌, none, some, ◌≡◌, refl, string_key, nat_key, String_discrete,
}
use controlitix.Common.Map.{get, put, delete}
use controlitix.Common.Result.{ok}
use controlitix.Auth.Types.{User, IdentitySource, Directory}
use controlitix.Auth.Users.{
  find_by_source_and_username, find_by_subject, first_user, update_last_login,
}
use controlitix.Auth.Tokens.{get_roles}
use controlitix.Auth.Names.{merge_roles}
use controlitix.Auth.Login.{
  Credentials, ExternalIdentity, AuthenticatedUser, Desk, Outage, of_kind, first_enabled,
  enabled_source, resolve_source, provider_of, resolve_roles, enter, tell_entered, enter_known,
  known_user, user_of, identified, identify, authenticate, local_authenticate, check_password,
  canonical_groups,
}
use controlitix.Auth.Login.Vouched.{IsVouched}
use controlitix.Auth.Login.Entered.{IsEntered, authenticate-IsEntered}
use controlitix.Auth.Clients
use controlitix.Auth.Clients.{ServiceTokenInput, ClientDb, Wire, issue}
use controlitix.Auth.Clients.Audited.{IsAudited, issue-IsAudited}
use controlitix.Samples.Tokens.{codec, config, draw}

abbrev desk : Desk
desk = record {
  trim = λ s. s;
  lower = λ s. s;
  verify = λ password hash. some true;
  distinct = λ roles. roles;
  mappings = [];
  providers = λ kind. none;
}

abbrev all_well : Outage
all_well = record {
  sources_fail = false;
  local_fails = false;
  find_fails = false;
  create_fails = false;
  roles_fail = false;
  mapped_fails = false;
  login_fails = false;
}

abbrev ann : User
ann = record {
  id = "u1";
  subject = "local:1";
  source_id = 1;
  username = "ann";
  display_name = "Ann";
  email = "";
  password_hash = "hash";
  is_active = true;
  last_login_at = none;
}

abbrev house : Directory
house = record {
  users = ("u1", ann) ∷ [];
  user_roles = [];
  sources = (1, record { id = 1; kind = "local"; name = "local"; is_enabled = true }) ∷ [];
}

abbrev ann_entered : AuthenticatedUser
ann_entered = record {
  user = record ann { last_login_at = some 7 };
  source = record { id = 1; kind = "local"; name = "local"; is_enabled = true };
  roles = [];
}

abbrev house_later : Directory
house_later = record house { users = put house.users "u1" (record ann { last_login_at = some 7 }) }

abbrev password_of_ann : Credentials
password_of_ann = record { username = "ann"; password = "secret" }

ann_logs_in :
    authenticate desk all_well "u9" 7 house "local" password_of_ann ≡ (house_later, ok ann_entered)
unfolding authenticate identified identify resolve_source of_kind enabled_source first_enabled
    provider_of local_authenticate check_password find_by_source_and_username first_user user_of
    find_by_subject known_user enter_known tell_entered enter get_roles resolve_roles
    canonical_groups merge_roles update_last_login get put delete String_discrete
ann_logs_in = refl

authenticate-IsEntered_example :
    (source : IdentitySource) × (e : ExternalIdentity) × (u : User) × IsVouched desk all_well house
      "local" password_of_ann source e
    × (u.subject ≡ e.subject)
    × IsEntered desk all_well house_later 7 source u ann_entered
authenticate-IsEntered_example =
    authenticate-IsEntered desk all_well "u9" 7 house house_later "local" password_of_ann
      ann_entered ann_logs_in

abbrev wrong_secret : Wire
wrong_secret = record {
  codec = codec;
  has_space = λ s. false;
  fields = λ s. [];
  verify = λ secret hash. some false;
}

abbrev asks : ServiceTokenInput
asks = record {
  grant_type = "client_credentials";
  client_id = "poller";
  client_secret = "guess";
  scope = "";
  user_agent = "";
  ip = "";
}

abbrev clients : ClientDb
clients = record {
  accounts =
      (
        "s1",
        record {
          id = "s1";
          client_id = "poller";
          client_secret_hash = "hash";
          display_name = "Poller";
          scopes = "read" ∷ [];
          is_active = true;
          last_used_at = none;
        },
      )
      ∷ [];
  audit = [];
}

abbrev calm : Clients.Outage
calm = record { find_fails = false; stamp_fails = false; audit_fails = false }

issue-IsAudited_example :
    IsAudited wrong_secret config calm
      (draw "r" [])
      5
      asks
      clients
      (issue wrong_secret config calm (draw "r" []) 5 asks clients)
issue-IsAudited_example = issue-IsAudited wrong_secret config calm (draw "r" []) 5 asks clients refl
