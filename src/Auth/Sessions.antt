-- ===== src/Auth/Sessions.antt =====
-- ms-auth/internal/infrastructure/repository/refresh_token_repository.go over the table
-- auth.refresh_tokens, a list of rows in the order of their creation.
-- A flag `fails` stands for a database error; the statement then changes nothing. The database
-- chooses the primary key of a new row, the argument `id`, and refuses a hash or key it has.
use controlitix.Common.{
  ℕ, String, Bool, false, not, ◌||◌, ◌&&◌, List, [], ◌∷◌, ◌++◌, map, Option, none, some, ltb,
  length, ◌-◌, same, is_some, if◌then◌else◌, string_key,
}
use controlitix.Common.Tally.{keep_where}
use controlitix.Common.Result.{Result, ok, err}
use controlitix.Auth.Types.{RefreshRecord, AuthError}

-- What Create inserts; the other columns of the row are NULL.
pub record NewRecord : Type 0 where
  pub user_id : String
  pub family_id : String
  pub token_hash : String
  pub parent_id : Option String
  pub issued_at : ℕ
  pub expires_at : ℕ
  pub user_agent : String
  pub ip : String

abbrev pub inserted : String → NewRecord → RefreshRecord
inserted id n = record {
  id = id;
  user_id = n.user_id;
  family_id = n.family_id;
  token_hash = n.token_hash;
  parent_id = n.parent_id;
  issued_at = n.issued_at;
  expires_at = n.expires_at;
  used_at = none;
  revoked_at = none;
  revoke_reason = none;
  user_agent = n.user_agent;
  ip = n.ip;
}

unfoldable pub find_by_hash : List RefreshRecord → String → Option RefreshRecord
find_by_hash [] hash = none
find_by_hash (r ∷ rows) hash =
    let rest = find_by_hash rows hash in if same r.token_hash hash then some r else rest

-- The primary key is taken.
unfoldable pub has_id : List RefreshRecord → String → Bool
has_id [] id = false
has_id (r ∷ rows) id = same r.id id || has_id rows id

unfoldable pub create :
    Bool → List RefreshRecord → String → NewRecord → Result AuthError (List RefreshRecord)
unfolding find_by_hash has_id
create fails rows id n =
    if fails || is_some (find_by_hash rows n.token_hash) || has_id rows id
    then err AuthError.internal
    else ok (rows ++ inserted id n ∷ [])

abbrev pub mark_row : String → ℕ → RefreshRecord → RefreshRecord
mark_row id at r = if same r.id id then record r { used_at = some at } else r

unfoldable pub mark_used : List RefreshRecord → String → ℕ → List RefreshRecord
mark_used rows id at = map (mark_row id at) rows

-- The SET clause of both revocations, for the rows that a WHERE clause selects.
abbrev pub revoke_row : Bool → ℕ → String → RefreshRecord → RefreshRecord
revoke_row selected at reason r =
    if selected && not (is_some r.revoked_at)
    then record r { revoked_at = some at; revoke_reason = some reason }
    else r

unfoldable pub revoke_family : List RefreshRecord → String → ℕ → String → List RefreshRecord
revoke_family rows family at reason =
    map (λ r. revoke_row (same r.family_id family) at reason r) rows

unfoldable pub revoke_all_for_user : List RefreshRecord → String → ℕ → String → List RefreshRecord
revoke_all_for_user rows user at reason =
    map (λ r. revoke_row (same r.user_id user) at reason r) rows

-- parent_id REFERENCES ... ON DELETE SET NULL (000001_auth_schema.sql): a parent that is gone.
abbrev pub kept_parent : List RefreshRecord → Option String → Option String
kept_parent kept none = none
kept_parent kept (some id) = if has_id kept id then some id else none

abbrev pub relink_row : List RefreshRecord → RefreshRecord → RefreshRecord
relink_row kept r = record r { parent_id = kept_parent kept r.parent_id }

-- The remaining rows, and how many were deleted.
unfoldable pub delete_expired : List RefreshRecord → ℕ → List RefreshRecord × ℕ
unfolding keep_where has_id
delete_expired rows now =
    let kept = keep_where (λ r. not (ltb r.expires_at now)) rows in
    (map (relink_row kept) kept, length rows - length kept)
