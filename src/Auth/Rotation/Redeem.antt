-- ===== src/Auth/Rotation/Redeem.antt =====
-- When Rotate of ms-auth/internal/usecase/token_service.go succeeds, and that the token which
-- IssueForUser hands out is one that it accepts.
use controlitix.Common.{
  ℕ, ◌+◌, ◌<◌, String, true, false, List, [], ◌∷◌, ◌++◌, Option, none, some, is_some, is_empty,
  lt→ltb, ◌≡◌, ◌≢◌, refl, sym, subst, ap, ◌∙◌, arith, string_key, nat_key, same,
}
use controlitix.Common.Map.{get}
use controlitix.Common.Result.{ok}
use controlitix.Auth.Types.{
  User, IdentitySource, AccessClaims, IssuedTokens, RefreshRecord, TokenMeta, TokenConfig,
  Directory,
}
use controlitix.Auth.Sessions.{inserted, create, find_by_hash, has_id, mark_used}
use controlitix.Auth.Tokens.{
  Codec, Chance, Outage, no_outage, Found, get_by_id, get_roles, roles_of, get_source_type, look_up,
  generate_refresh_token_pair, hash_raw, hash_opaque_refresh_token, mint, issue_for_user,
  session_row, user_claims, issued_pair,
}
use controlitix.Auth.Rotation.{rotated, renew, rotate_found, rotate}
use controlitix.Auth.Rotation.Minted.{issue_for_user-IsMinted}
use controlitix.Auth.Rotation.Outcome.{IsLive, rotate-is_found}

-- The user of the identifier, active, and the source it belongs to.
pub record IsMember (d : Directory) (id : String) (user : User) : Type 0 where
  pub user_is : get d.users id ≡ some user
  pub active : user.is_active ≡ true
  pub source : IdentitySource
  pub source_is : get d.sources user.source_id ≡ some source

-- Random values and a signature are there, and hash and key are new to the table.
pub record IsDrawn (c : Codec) (ch : Chance) (rows : List RefreshRecord) : Type 0 where
  pub jti : String
  pub jti_is : ch.jti ≡ some jti
  pub raw : List ℕ
  pub raw_is : ch.raw_token ≡ some raw
  pub signs : (claims : AccessClaims) → (text : String) × (c.sign claims ≡ some text)
  pub new_hash : is_some (find_by_hash rows (c.digest raw)) ≡ false
  pub new_id : has_id rows ch.row_id ≡ false

-- base64 without padding decodes what it encoded, and no space surrounds the text.
pub record IsBase64 (c : Codec) (raw : List ℕ) : Type 0 where
  pub decodes : c.decode (c.encode raw) ≡ some raw
  pub trimmed : c.trim (c.encode raw) ≡ c.encode raw
  pub not_empty : is_empty raw ≡ false → c.encode raw ≢ ""

find_by_hash-marked :
    (rows : List RefreshRecord) (hash id : String) (at : ℕ)
    → is_some (find_by_hash (mark_used rows id at) hash) ≡ is_some (find_by_hash rows hash)
unfolding find_by_hash mark_used
find_by_hash-marked [] hash id at = refl
find_by_hash-marked (r ∷ rows) hash id at = ground (arith, find_by_hash-marked rows hash id at)

has_id-marked :
    (rows : List RefreshRecord) (key id : String) (at : ℕ)
    → has_id (mark_used rows id at) key ≡ has_id rows key
unfolding has_id mark_used
has_id-marked [] key id at = refl
has_id-marked (r ∷ rows) key id at = ground (arith, has_id-marked rows key id at)

unfoldable marked-IsDrawn :
    (c : Codec) (ch : Chance) (rows : List RefreshRecord) (id : String) (at : ℕ)
    → IsDrawn c ch rows
    → IsDrawn c ch (mark_used rows id at)
marked-IsDrawn c ch rows id at drawn = record {
  jti = drawn.jti;
  jti_is = drawn.jti_is;
  raw = drawn.raw;
  raw_is = drawn.raw_is;
  signs = drawn.signs;
  new_hash = find_by_hash-marked rows (c.digest drawn.raw) id at ∙ drawn.new_hash;
  new_id = has_id-marked rows ch.row_id id at ∙ drawn.new_id;
}

pub find_by_hash-appended :
    (rows : List RefreshRecord) (r : RefreshRecord)
    → is_some (find_by_hash rows r.token_hash) ≡ false
    → find_by_hash (rows ++ r ∷ []) r.token_hash ≡ some r
unfolding find_by_hash
find_by_hash-appended [] r h = ground arith
find_by_hash-appended (q ∷ rows) r h = ground (arith, find_by_hash-appended rows r)

look_up-member :
    (d : Directory) (id : String) (user : User) (m : IsMember d id user)
    → look_up no_outage d id
      ≡ ok (record {
        user = user;
        roles = roles_of (get d.user_roles user.id);
        source_type = m.source.kind;
      })
unfolding look_up get_by_id get_roles get_source_type
look_up-member d id user m = rw m.user_is (rw m.source_is refl)

module _ (c : Codec) (cfg : TokenConfig) where
  -- The row that `mint` adds.
  abbrev pub minted_row :
      Chance → User → String → Option String → List ℕ → ℕ → TokenMeta → RefreshRecord
  minted_row ch user family parent raw now meta =
      inserted ch.row_id (session_row c cfg user family parent (c.digest raw) now meta)

  mint-drawn :
      (ch : Chance) (rows : List RefreshRecord) (now : ℕ) (meta : TokenMeta) (f : Found)
      (family : String) (parent : Option String)
      → (drawn : IsDrawn c ch rows)
      → mint c cfg no_outage ch rows now meta f family parent
        ≡ ok (
          rows ++ minted_row ch f.user family parent drawn.raw now meta ∷ [],
          issued_pair c cfg
              (drawn.signs (user_claims c cfg f.user f.source_type f.roles now drawn.jti)).0
              (c.encode drawn.raw)
              family,
        )
  unfolding mint generate_refresh_token_pair create
  mint-drawn ch rows now meta f family parent drawn = rw drawn.jti_is (
      rw (drawn.signs (user_claims c cfg f.user f.source_type f.roles now drawn.jti)).1
        (rw drawn.raw_is (rw drawn.new_hash (rw drawn.new_id refl))))

  -- A live record of a member is redeemed.
  pub rotate_found-redeems :
      (ch : Chance) (d : Directory) (rows : List RefreshRecord) (now : ℕ) (meta : TokenMeta)
      (r : RefreshRecord) (user : User)
      → IsLive r
      → now < r.expires_at
      → IsMember d r.user_id user
      → (drawn : IsDrawn c ch rows)
      → (access : String) × (rotate_found c cfg no_outage ch d rows now meta (some r) ≡ (
        mark_used rows r.id now
            ++ minted_row ch user r.family_id (some r.id) drawn.raw now meta ∷ [],
        rotated (issued_pair c cfg access (c.encode drawn.raw) r.family_id) user,
      ))
  unfolding rotate_found renew marked-IsDrawn
  rotate_found-redeems ch d rows now meta r user live early member drawn = (
    (drawn.signs (
        user_claims c cfg user member.source.kind (roles_of (get d.user_roles user.id)) now
          drawn.jti)).0,
    rw live.unrevoked (
        rw (lt→ltb now r.expires_at early) (
          rw live.unused (
            rw (look_up-member d r.user_id user member) (
              rw member.active (
                rw
                  (mint-drawn ch (mark_used rows r.id now) now meta
                    (record {
                      user = user;
                      roles = roles_of (get d.user_roles user.id);
                      source_type = member.source.kind;
                    })
                    r.family_id (some r.id) (marked-IsDrawn c ch rows r.id now drawn))
                  refl))))),
  )

  pub hash-encoded :
      (raw : List ℕ)
      → IsBase64 c raw
      → is_empty raw ≡ false
      → hash_opaque_refresh_token c cfg (c.encode raw) ≡ ok (c.digest raw)
  unfolding hash_opaque_refresh_token hash_raw
  hash-encoded raw codec full =
      let named : same (c.encode raw) "" ≡ false =
        (let ne = codec.not_empty full in ground arith) in
      rw codec.trimmed (rw named (rw codec.decodes (rw full refl)))

  -- A login that succeeded, for a user that is stored and active: before the token expires, over a
  -- database that answers, the rotation with the token that the login returned succeeds, for the
  -- same user and within the same family. Random values and the signature are assumed to be there,
  -- the drawn hash and key to be new, and base64 to decode what it encodes.
  pub issue_for_user-redeems :
      (o : Outage) (ch ch' : Chance) (d : Directory) (rows : List RefreshRecord) (now later : ℕ)
      (meta meta' : TokenMeta) (f : Found) (family : String) (raw : List ℕ)
      (stored : List RefreshRecord) (tokens : IssuedTokens)
      → ch.family ≡ some family
      → ch.raw_token ≡ some raw
      → is_empty raw ≡ false
      → issue_for_user c cfg o ch rows now meta f ≡ ok (stored, tokens)
      → IsBase64 c raw
      → IsMember d f.user.id f.user
      → IsDrawn c ch' stored
      → later < now + cfg.refresh_ttl
      → (next : IssuedTokens) × (rows' : List RefreshRecord) × (rotate c cfg no_outage ch' d stored
            later meta' tokens.refresh_token
          ≡ (rows', rotated next f.user))
        × (next.family_id ≡ tokens.family_id)
  issue_for_user-redeems o ch ch' d rows now later meta meta' f family raw stored tokens drawn
        raw_is full done codec member chance early =
      let made = issue_for_user-IsMinted c cfg o ch rows now meta f family drawn done in
      let row = minted_row ch f.user family none made.raw now meta in
      let same_raw : made.raw ≡ raw = (let e = sym made.raw_token ∙ raw_is in cc) in
      let hashed : hash_opaque_refresh_token c cfg tokens.refresh_token ≡ ok (c.digest made.raw) =
        ap (λ t. hash_opaque_refresh_token c cfg t) made.refresh_is
        ∙ hash-encoded made.raw (subst (λ b. IsBase64 c b) (sym same_raw) codec)
            (ap (λ b. is_empty b) same_raw ∙ full) in
      let found : find_by_hash stored (c.digest made.raw) ≡ some row =
        ap (λ s. find_by_hash s (c.digest made.raw)) made.rows_are
        ∙ find_by_hash-appended rows row made.new_hash in
      let (access, redeemed) =
        rotate_found-redeems ch' d stored later meta' row f.user
          (record { unused = refl; unrevoked = refl }) early member chance in
      (
        issued_pair c cfg access (c.encode chance.raw) family,
        _,
        rotate-is_found c cfg no_outage ch' d later meta' stored tokens.refresh_token
              (c.digest made.raw) row refl hashed found
            ∙ redeemed,
        sym made.family_is,
      )
