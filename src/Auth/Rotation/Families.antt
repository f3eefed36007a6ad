-- ===== src/Auth/Rotation/Families.antt =====
-- The families of refresh tokens under every call of ms-auth/internal/usecase/token_service.go.
use controlitix.Common.{
  ltb, ℕ, suc, ◌+◌, ◌≤◌, String, Bool, true, not, ◌&&◌, List, [], ◌∷◌, ◌++◌, is_some, same,
  if◌then◌else◌, if_elim, ◌≡◌, arith, In, string_key, All, All-map,
}
use controlitix.Common.Tally.{
  keep_where, tally, tally-append, tally-map, tally-map_less, tally-keep_where, All-keep_where,
}
use controlitix.Auth.Types.{RefreshRecord}
use controlitix.Auth.Sessions.{
  NewRecord, inserted, mark_row, mark_used, revoke_row, revoke_family, revoke_all_for_user,
  delete_expired, relink_row,
}
use controlitix.Auth.Rotation.Outcome.{IsLive}

-- A token of the family that Rotate may still honour.
abbrev pub is_live_in : String → RefreshRecord → Bool
is_live_in family r =
    same r.family_id family && not (is_some r.used_at) && not (is_some r.revoked_at)

unfoldable pub live_count : String → List RefreshRecord → ℕ
unfolding tally
live_count family rows = tally (is_live_in family) rows

mark_row-live :
    (family id : String) (at : ℕ) (r : RefreshRecord)
    → is_live_in family (mark_row id at r) ≡ true
    → is_live_in family r ≡ true
mark_row-live family id at r =
    if_elim (λ (q : RefreshRecord). is_live_in family q ≡ true → is_live_in family r ≡ true)
      (same r.id id) (λ _ h. ground arith) (λ _ h. h)

revoke_row-live :
    (family : String) (selected : Bool) (at : ℕ) (reason : String) (r : RefreshRecord)
    → is_live_in family (revoke_row selected at reason r) ≡ true
    → is_live_in family r ≡ true
revoke_row-live family selected at reason r =
    if_elim (λ (q : RefreshRecord). is_live_in family q ≡ true → is_live_in family r ≡ true)
      (selected && not (is_some r.revoked_at)) (λ _ h. ground arith) (λ _ h. h)

pub live_count-mark_used :
    (family : String) (rows : List RefreshRecord) (id : String) (at : ℕ)
    → live_count family (mark_used rows id at) ≤ live_count family rows
unfolding live_count mark_used
live_count-mark_used family rows id at =
    tally-map (is_live_in family) (mark_row id at) (mark_row-live family id at) rows

pub live_count-revoke_family :
    (family : String) (rows : List RefreshRecord) (gone : String) (at : ℕ) (reason : String)
    → live_count family (revoke_family rows gone at reason) ≤ live_count family rows
unfolding live_count revoke_family
live_count-revoke_family family rows gone at reason =
    tally-map (is_live_in family) _
      (λ r. revoke_row-live family (same r.family_id gone) at reason r) rows

pub live_count-revoke_all :
    (family : String) (rows : List RefreshRecord) (user : String) (at : ℕ) (reason : String)
    → live_count family (revoke_all_for_user rows user at reason) ≤ live_count family rows
unfolding live_count revoke_all_for_user
live_count-revoke_all family rows user at reason =
    tally-map (is_live_in family) _ (λ r. revoke_row-live family (same r.user_id user) at reason r)
      rows

pub live_count-delete_expired :
    (family : String) (rows : List RefreshRecord) (now : ℕ)
    → live_count family (delete_expired rows now).0 ≤ live_count family rows
unfolding live_count delete_expired
live_count-delete_expired family rows now =
    let kept = keep_where (λ r. not (ltb r.expires_at now)) rows in
    let relinked = tally-map (is_live_in family) (relink_row kept) (λ r h. h) kept in
    let fewer = tally-keep_where (is_live_in family) (λ r. not (ltb r.expires_at now)) rows in
    omega (arith, relinked, fewer)

-- Marking the live row that was found takes one from its family.
pub live_count-mark_found :
    (rows : List RefreshRecord) (r : RefreshRecord) (at : ℕ)
    → In r rows
    → IsLive r
    → suc (live_count r.family_id (mark_used rows r.id at)) ≤ live_count r.family_id rows
unfolding live_count mark_used
live_count-mark_found rows r at m live =
    tally-map_less (is_live_in r.family_id) (mark_row r.id at) (mark_row-live r.family_id r.id at)
      rows r m (let u = live.unused in let v = live.unrevoked in ground arith) (ground arith)

-- A new row counts for its own family only.
pub live_count-inserted :
    (family : String) (rows : List RefreshRecord) (id : String) (n : NewRecord)
    → live_count family (rows ++ inserted id n ∷ [])
      ≡ live_count family rows + (if same n.family_id family then 1 else 0)
unfolding live_count tally
live_count-inserted family rows id n =
    rw (tally-append (is_live_in family) rows (inserted id n ∷ [])) (ground arith)

-- What a call leaves of a predicate on families.
module _ (P : String → Type 0) where
  abbrev pub Within : List RefreshRecord → Type 0
  Within rows = All (λ r. P r.family_id) rows

  pub mark_used-Within :
      (rows : List RefreshRecord) (id : String) (at : ℕ)
      → Within rows
      → Within (mark_used rows id at)
  unfolding mark_used
  mark_used-Within rows id at h =
      All-map (λ r. P r.family_id) (mark_row id at)
        (λ r p. if_elim (λ (q : RefreshRecord). P q.family_id) (same r.id id) (λ _. p) (λ _. p))
        rows h

  revoke_row-Within :
      (selected : Bool) (at : ℕ) (reason : String) (r : RefreshRecord)
      → P r.family_id
      → P (revoke_row selected at reason r).family_id
  revoke_row-Within selected at reason r p =
      if_elim (λ (q : RefreshRecord). P q.family_id) (selected && not (is_some r.revoked_at))
        (λ _. p) (λ _. p)

  pub revoke_family-Within :
      (rows : List RefreshRecord) (gone : String) (at : ℕ) (reason : String)
      → Within rows
      → Within (revoke_family rows gone at reason)
  unfolding revoke_family
  revoke_family-Within rows gone at reason h =
      All-map (λ r. P r.family_id) _ (λ r. revoke_row-Within (same r.family_id gone) at reason r)
        rows h

  pub revoke_all-Within :
      (rows : List RefreshRecord) (user : String) (at : ℕ) (reason : String)
      → Within rows
      → Within (revoke_all_for_user rows user at reason)
  unfolding revoke_all_for_user
  revoke_all-Within rows user at reason h =
      All-map (λ r. P r.family_id) _ (λ r. revoke_row-Within (same r.user_id user) at reason r) rows
        h

  pub delete_expired-Within :
      (rows : List RefreshRecord) (now : ℕ) → Within rows → Within (delete_expired rows now).0
  unfolding delete_expired
  delete_expired-Within rows now h =
      All-map (λ r. P r.family_id) (relink_row _) (λ r p. p) _
        (All-keep_where (λ r. not (ltb r.expires_at now)) (λ r. P r.family_id) rows h)
