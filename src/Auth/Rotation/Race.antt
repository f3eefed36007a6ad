-- ===== src/Auth/Rotation/Race.antt =====
-- Two calls of Rotate of ms-auth/internal/usecase/token_service.go with one token, both past
-- FindByHash before either is past MarkUsed, whose UPDATE does not ask whether used_at is set.
use controlitix.Common.{
  ℕ, ◌≤◌, ◌<◌, String, false, List, [], ◌∷◌, ◌++◌, map, some, ◌≡◌, ◌≢◌, refl, sym, subst, ap, ◌∙◌,
  arith, string_key, same, In, In-append_right, In-map, inl, inr,
}
use controlitix.Common.Tally.{tally-In}
use controlitix.Auth.Types.{User, IssuedTokens, RefreshRecord, TokenMeta, TokenConfig, Directory}
use controlitix.Auth.Sessions.{has_id, mark_row, mark_used}
use controlitix.Auth.Tokens.{Codec, Chance, no_outage, issued_pair}
use controlitix.Auth.Rotation.{rotated, rotate_found}
use controlitix.Auth.Rotation.Outcome.{IsLive}
use controlitix.Auth.Rotation.Families.{live_count, live_count-inserted, is_live_in}
use controlitix.Auth.Rotation.Redeem.{IsMember, IsDrawn, minted_row, rotate_found-redeems}

has_id-other :
    (rows : List RefreshRecord) (r : RefreshRecord) (id : String)
    → In r rows
    → has_id rows id ≡ false
    → r.id ≢ id
unfolding has_id
has_id-other [] r id m h = elim m [ ]
has_id-other (q ∷ rows) r id (inl e) h =
    λ mine. (let mine' : q.id ≡ id = ap (λ s. s.id) e ∙ mine in absurd (ground arith))
has_id-other (q ∷ rows) r id (inr m) h = has_id-other rows r id m (ground arith)

-- A live row of another key stays one when `id` is marked.
live_count-spared :
    (rows : List RefreshRecord) (row : RefreshRecord) (id : String) (at : ℕ)
    → In row rows
    → id ≢ row.id
    → IsLive row
    → 1 ≤ live_count row.family_id (mark_used rows id at)
unfolding live_count mark_used
live_count-spared rows row id at m other live =
    let spared : mark_row id at row ≡ row =
      (let s : same row.id id ≡ false = ground arith in rw s refl) in
    tally-In (is_live_in row.family_id) _ row
      (subst (λ q. In q (map (mark_row id at) rows)) spared (In-map (mark_row id at) rows row m))
      (let u = live.unused in let v = live.unrevoked in ground arith)

module _ (c : Codec) (cfg : TokenConfig) where
  -- Two rotations of a live token of an active user both read its record before either marks it;
  -- then one runs to its end, and after it the other. Both return tokens, for the same user, and
  -- two rows of the family are neither used nor revoked. The database answers, and each draw is new.
  pub rotate_found-twice :
      (ch ch' : Chance) (d : Directory) (rows : List RefreshRecord) (now later : ℕ)
      (meta meta' : TokenMeta) (r : RefreshRecord) (user : User)
      → In r rows
      → IsLive r
      → (now < r.expires_at) × (later < r.expires_at)
      → IsMember d r.user_id user
      → IsDrawn c ch rows
      → let first = rotate_found c cfg no_outage ch d rows now meta (some r) in
        IsDrawn c ch' first.0
        → let second = rotate_found c cfg no_outage ch' d first.0 later meta' (some r) in
          ((one : IssuedTokens) × (first.1 ≡ rotated one user))
          × ((two : IssuedTokens) × (second.1 ≡ rotated two user))
          × (2 ≤ live_count r.family_id second.0)
  rotate_found-twice ch ch' d rows now later meta meta' r user m live early member drawn drawn' =
      let (access, one) =
        rotate_found-redeems c cfg ch d rows now meta r user live early.0 member drawn in
      let (access', two) =
        rotate_found-redeems c cfg ch' d _ later meta' r user live early.1 member drawn' in
      let row = minted_row c cfg ch user r.family_id (some r.id) drawn.raw now meta in
      let first_rows : (rotate_found c cfg no_outage ch d rows now meta (some r)).0
          ≡ mark_used rows r.id now ++ row ∷ [] =
        ap (λ x. x.0) one in
      let stored : In row (rotate_found c cfg no_outage ch d rows now meta (some r)).0 =
        subst (λ s. In row s) (sym first_rows)
          (In-append_right row (mark_used rows r.id now) (row ∷ []) (inl refl)) in
      let kept =
        live_count-spared _ row r.id later stored (has_id-other rows r ch.row_id m drawn.new_id)
          (record { unused = refl; unrevoked = refl }) in
      (
        (issued_pair c cfg access (c.encode drawn.raw) r.family_id, ap (λ x. x.1) one),
        (issued_pair c cfg access' (c.encode drawn'.raw) r.family_id, ap (λ x. x.1) two),
        rw (ap (λ x. x.0) two) (
            rw
              (live_count-inserted r.family_id
                (mark_used (rotate_found c cfg no_outage ch d rows now meta (some r)).0 r.id later)
                ch'.row_id _)
              (ground arith)),
      )
