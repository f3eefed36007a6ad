-- ===== src/Samples/Tokens.antt =====
-- A login at 100 and a rotation at 150 with the token it returned, under lifetimes of 1000.
use controlitix.Common.{
  ℕ, String, true, List, [], ◌∷◌, ◌++◌, none, some, ◌≡◌, ◌≢◌, refl, ◌∙◌, arith, string_key, nat_key,
  same, text_differ, if◌then◌else◌,
}
use controlitix.Common.Map.{get}
use controlitix.Common.Result.{ok}
use controlitix.Auth.Types.{
  User, IdentitySource, IssuedTokens, RefreshRecord, TokenMeta, TokenConfig, Directory,
}
use controlitix.Auth.Sessions.{find_by_hash, has_id, create, mark_used}
use controlitix.Auth.Tokens.{
  Codec, Chance, no_outage, Found, issue_for_user, mint, generate_refresh_token_pair, issued_pair,
  hash_opaque_refresh_token,
}
use controlitix.Auth.Rotation.{rotated, rotate, rotate_found}
use controlitix.Auth.Rotation.Outcome.{IsLive, rotate-is_found}
use controlitix.Auth.Rotation.Renewal.{IsRenewal, rotate-IsRenewal}
use controlitix.Auth.Rotation.Redeem.{
  IsMember, IsDrawn, IsBase64, minted_row, find_by_hash-appended, rotate_found-redeems,
  issue_for_user-redeems, hash-encoded,
}

-- A text of one letter for the bytes that are drawn, by their number.
abbrev letter : List ℕ → String
letter [] = ""
letter (x ∷ []) = "a"
letter (x ∷ y ∷ []) = "b"
letter (x ∷ y ∷ z ∷ raw) = "c"

abbrev pub codec : Codec
codec = record {
  trim = λ s. s;
  decode = λ s. if same s "a" then some (0 ∷ []) else none;
  encode = letter;
  digest = letter;
  sign = λ claims. some "signed";
  join = λ names. "";
}

abbrev pub config : TokenConfig
config = record {
  issuer = "ms-auth";
  audience_user = "users";
  audience_service = "services";
  access_ttl = 10;
  refresh_ttl = 1000;
}

abbrev pub laptop : TokenMeta
laptop = record { user_agent = "browser"; ip = "" }

abbrev pub draw : String → List ℕ → Chance
draw id raw = record { jti = some "j"; family = some "family"; raw_token = some raw; row_id = id }

abbrev pub ann : User
ann = record {
  id = "u1";
  subject = "local:1";
  source_id = 1;
  username = "ann";
  display_name = "Ann";
  email = "";
  password_hash = "";
  is_active = true;
  last_login_at = none;
}

abbrev local : IdentitySource
local = record { id = 1; kind = "local"; name = "local"; is_enabled = true }

abbrev pub directory : Directory
directory = record { users = ("u1", ann) ∷ []; user_roles = []; sources = (1, local) ∷ [] }

abbrev pub login : Found
login = record { user = ann; roles = []; source_type = "local" }

-- The row of the login, and the tokens it returned.
abbrev pub first_row : RefreshRecord
first_row = minted_row codec config (draw "r0" (0 ∷ [])) ann "family" none (0 ∷ []) 100 laptop

abbrev pub first_tokens : IssuedTokens
first_tokens = issued_pair codec config "signed" "a" "family"

pub issued :
    issue_for_user codec config no_outage (draw "r0" (0 ∷ [])) [] 100 laptop login
    ≡ ok (first_row ∷ [], first_tokens)
unfolding issue_for_user mint create generate_refresh_token_pair find_by_hash has_id
issued = refl

pub ann-IsMember : IsMember directory "u1" ann
unfolding get
ann-IsMember = record {
  user_is = ground arith;
  active = refl;
  source = local;
  source_is = ground arith;
}

base64 : IsBase64 codec (0 ∷ [])
base64 = record { decodes = ground arith; trimmed = refl; not_empty = λ _ e. cc }

abbrev pub Differ : String → String → Type 0
Differ s t = s ≢ t

pub unlike :
    Differ "a" "b"
    × Differ "r0" "r1"
    × Differ "b" "c"
    × Differ "a" "c"
    × Differ "r0" "r2"
    × Differ "r1" "r2"
unlike = (
  text_differ "a" "b" refl,
  text_differ "r0" "r1" refl,
  text_differ "b" "c" refl,
  text_differ "a" "c" refl,
  text_differ "r0" "r2" refl,
  text_differ "r1" "r2" refl,
)

pub second_draw : IsDrawn codec (draw "r1" (7 ∷ 7 ∷ [])) (first_row ∷ [])
unfolding find_by_hash has_id
second_draw = record {
  jti = "j";
  jti_is = refl;
  raw = 7 ∷ 7 ∷ [];
  raw_is = refl;
  signs = λ claims. ("signed", refl);
  new_hash = (let d = unlike in ground arith);
  new_id = (let d = unlike in ground arith);
}

issue_for_user-redeems_example :
    (next : IssuedTokens) × (rows' : List RefreshRecord) × (rotate codec config no_outage
        (draw "r1" (7 ∷ 7 ∷ []))
        directory
        (first_row ∷ [])
        150
        laptop
        "a"
      ≡ (rows', rotated next ann))
    × (next.family_id ≡ "family")
issue_for_user-redeems_example =
    issue_for_user-redeems codec config no_outage (draw "r0" (0 ∷ [])) (draw "r1" (7 ∷ 7 ∷ []))
      directory [] 100 150 laptop laptop login "family" (0 ∷ []) (first_row ∷ []) first_tokens refl
      refl refl issued base64 ann-IsMember second_draw (omega arith)

-- The row that the rotation adds.
abbrev pub second_row : RefreshRecord
second_row =
    minted_row codec config (draw "r1" (7 ∷ 7 ∷ [])) ann "family" (some "r0") (7 ∷ 7 ∷ []) 150
      laptop

abbrev pub first_live : IsLive first_row
first_live = record { unused = refl; unrevoked = refl }

pub hash_a : hash_opaque_refresh_token codec config "a" ≡ ok "a"
hash_a = hash-encoded codec config (0 ∷ []) base64 refl

find_first : find_by_hash (first_row ∷ []) "a" ≡ some first_row
unfolding find_by_hash
find_first = find_by_hash-appended [] first_row refl

abbrev pub rotated_rows : List RefreshRecord
rotated_rows = mark_used (first_row ∷ []) "r0" 150 ++ second_row ∷ []

pub renewal :
    (access : String) × (rotate_found codec config no_outage
        (draw "r1" (7 ∷ 7 ∷ []))
        directory
        (first_row ∷ [])
        150
        laptop
        (some first_row)
      ≡ (rotated_rows, rotated (issued_pair codec config access "b" "family") ann))
unfolding second_draw
renewal =
    rotate_found-redeems codec config (draw "r1" (7 ∷ 7 ∷ [])) directory (first_row ∷ []) 150 laptop
      first_row ann first_live (omega arith) ann-IsMember second_draw

pub redeemed :
    rotate codec config no_outage (draw "r1" (7 ∷ 7 ∷ [])) directory (first_row ∷ []) 150 laptop "a"
    ≡ (rotated_rows, rotated (issued_pair codec config renewal.0 "b" "family") ann)
redeemed =
    rotate-is_found codec config no_outage (draw "r1" (7 ∷ 7 ∷ [])) directory 150 laptop
      (first_row ∷ []) "a" "a" first_row refl hash_a find_first
    ∙ renewal.1

rotate-IsRenewal_example :
    IsRenewal codec config
      (draw "r1" (7 ∷ 7 ∷ []))
      directory
      (first_row ∷ [])
      150
      laptop
      "a"
      rotated_rows
      (issued_pair codec config renewal.0 "b" "family")
      ann
rotate-IsRenewal_example =
    rotate-IsRenewal codec config no_outage (draw "r1" (7 ∷ 7 ∷ [])) directory (first_row ∷ []) 150
      laptop "a" redeemed
