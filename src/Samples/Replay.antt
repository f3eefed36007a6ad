-- ===== src/Samples/Replay.antt =====
-- After the login and the rotation: later calls, a second use of the first token, and a race.
use controlitix.Common.{
  [], ◌∷◌, Option, none, some, ◌≡◌, refl, sym, ap, subst, ◌∙◌, arith, string_key, nat_key, ◌≤◌, inl,
}
use controlitix.Auth.Types.{User, IssuedTokens, RefreshRecord, AuthError}
use controlitix.Auth.Sessions.{find_by_hash, has_id, mark_used, revoke_family}
use controlitix.Auth.Tokens.{no_outage}
use controlitix.Auth.Rotation.{rotated, refused, rotate, rotate_found, reuse}
use controlitix.Auth.Rotation.Outcome.{rotate-is_found, rotate_found-used}
use controlitix.Auth.Rotation.World.{
  World, empty_world, begun, with_rows, issues, rotates, Steps, here, after,
}
use controlitix.Auth.Rotation.Families.{live_count}
use controlitix.Auth.Rotation.Sound.{IsSound, Steps-IsSound}
use controlitix.Auth.Rotation.Reuse.{rotate-reused}
use controlitix.Auth.Rotation.Redeem.{IsDrawn}
use controlitix.Auth.Rotation.Race.{rotate_found-twice}
use controlitix.Samples.Tokens.{
  ann, ann-IsMember, directory, first_live, first_row, first_tokens, issued, login, redeemed,
  renewal, rotated_rows, second_draw, second_row, codec, config, draw, hash_a, laptop, unlike,
}

-- The world after the login, and the one after the rotation.
abbrev logged_in : World
logged_in = begun empty_world (first_row ∷ []) "family"

abbrev renewed_world : World
renewed_world =
    with_rows logged_in
      (rotate codec config no_outage (draw "r1" (7 ∷ 7 ∷ [])) directory (first_row ∷ []) 150 laptop
        "a").0

to_renewed : Steps codec config empty_world renewed_world
to_renewed =
    after
      (after here (
        issues no_outage (draw "r0" (0 ∷ [])) 100 laptop login "family" (first_row ∷ [])
          first_tokens refl (λ m. elim m [ ]) issued))
      (rotates no_outage (draw "r1" (7 ∷ 7 ∷ [])) directory 150 laptop "a")

Steps-IsSound_example : IsSound renewed_world
Steps-IsSound_example = Steps-IsSound codec config renewed_world to_renewed

-- The rows after the rotation, the first one used.
abbrev used_row : RefreshRecord
used_row = record first_row { used_at = some 150 }

marked_first : rotated_rows ≡ used_row ∷ second_row ∷ []
unfolding mark_used
marked_first = ground arith

find_used : find_by_hash renewed_world.rows "a" ≡ some used_row
unfolding find_by_hash
find_used =
    ap (λ x. find_by_hash x.0 "a") redeemed
    ∙ ap (λ rows. find_by_hash rows "a") marked_first
    ∙ ground arith

third_draw_here : IsDrawn codec (draw "r2" (7 ∷ 7 ∷ 7 ∷ [])) (used_row ∷ second_row ∷ [])
unfolding find_by_hash has_id
third_draw_here = record {
  jti = "j";
  jti_is = refl;
  raw = 7 ∷ 7 ∷ 7 ∷ [];
  raw_is = refl;
  signs = λ claims. ("signed", refl);
  new_hash = (let d = unlike in ground arith);
  new_id = (let d = unlike in ground arith);
}

third_draw :
    IsDrawn codec
      (draw "r2" (7 ∷ 7 ∷ 7 ∷ []))
      (rotate_found codec config no_outage
        (draw "r1" (7 ∷ 7 ∷ []))
        directory
        (first_row ∷ [])
        150
        laptop
        (some first_row)).0
third_draw =
    subst (λ rows. IsDrawn codec (draw "r2" (7 ∷ 7 ∷ 7 ∷ [])) rows)
      (sym (ap (λ x. x.0) renewal.1 ∙ marked_first)) third_draw_here

rotate_found-twice_example :
    let first =
      rotate_found codec config no_outage
        (draw "r1" (7 ∷ 7 ∷ []))
        directory
        (first_row ∷ [])
        150
        laptop
        (some first_row) in
    let second =
      rotate_found codec config no_outage
        (draw "r2" (7 ∷ 7 ∷ 7 ∷ []))
        directory
        first.0
        151
        laptop
        (some first_row) in
    ((one : IssuedTokens) × (first.1 ≡ rotated one ann))
    × ((two : IssuedTokens) × (second.1 ≡ rotated two ann))
    × (2 ≤ live_count "family" second.0)
rotate_found-twice_example =
    rotate_found-twice codec config (draw "r1" (7 ∷ 7 ∷ [])) (draw "r2" (7 ∷ 7 ∷ 7 ∷ [])) directory
      (first_row ∷ []) 150 151 laptop laptop first_row ann (inl refl) first_live
      (omega arith, omega arith) ann-IsMember second_draw third_draw

-- The first token is presented again at 160.
abbrev caught_world : World
caught_world =
    with_rows renewed_world
      (rotate codec config no_outage (draw "r2" (7 ∷ 7 ∷ 7 ∷ [])) directory renewed_world.rows 160
        laptop "a").0

abbrev revoked_row : RefreshRecord
revoked_row = record used_row { revoked_at = some 160; revoke_reason = some "reuse_detected" }

revoked_rows :
    revoke_family (used_row ∷ second_row ∷ []) "family" 160 "reuse_detected"
    ≡ revoked_row
      ∷ record second_row { revoked_at = some 160; revoke_reason = some "reuse_detected" }
      ∷ []
unfolding revoke_family
revoked_rows = ground arith

find_revoked : find_by_hash caught_world.rows "a" ≡ some revoked_row
unfolding reuse find_by_hash
find_revoked =
    let caught_is : rotate codec config no_outage (draw "r2" (7 ∷ 7 ∷ 7 ∷ [])) directory
          renewed_world.rows 160 laptop "a"
        ≡ reuse no_outage directory renewed_world.rows 160 used_row =
      rotate-is_found codec config no_outage (draw "r2" (7 ∷ 7 ∷ 7 ∷ [])) directory 160 laptop
        renewed_world.rows "a" "a" used_row refl hash_a find_used
      ∙ rotate_found-used codec config no_outage (draw "r2" (7 ∷ 7 ∷ 7 ∷ [])) directory 160 laptop
          renewed_world.rows used_row refl refl (omega arith) in
    ap (λ x. find_by_hash x.0 "a") caught_is
    ∙ ap (λ rows. find_by_hash (revoke_family rows "family" 160 "reuse_detected") "a")
        (ap (λ x. x.0) redeemed ∙ marked_first)
    ∙ ap (λ rows. find_by_hash rows "a") revoked_rows
    ∙ ground arith

rotate-reused_example :
    ((e : AuthError) × (u : Option User) × ((rotate codec config no_outage
          (draw "r2" (7 ∷ 7 ∷ 7 ∷ []))
          directory
          renewed_world.rows
          160
          laptop
          "a").1
        ≡ refused e u))
    × (rotate codec config no_outage
          (draw "r2" (7 ∷ 7 ∷ 7 ∷ []))
          directory
          caught_world.rows
          170
          laptop
          "a"
        ≡ (caught_world.rows, refused AuthError.invalid_refresh none))
rotate-reused_example =
    rotate-reused codec config no_outage (draw "r2" (7 ∷ 7 ∷ 7 ∷ [])) directory renewed_world 160
      laptop "a" "a" used_row no_outage (draw "r2" (7 ∷ 7 ∷ 7 ∷ [])) directory caught_world 170
      laptop "a" "a" revoked_row to_renewed (refl, refl) hash_a find_used refl refl (omega arith)
      here refl hash_a find_revoked refl
