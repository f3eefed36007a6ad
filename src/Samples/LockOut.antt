-- ===== src/Samples/LockOut.antt =====
-- Ann is deactivated; Bob still exchanges his refresh token.
use controlitix.Common.{
  String, true, List, ◌++◌, [], ◌∷◌, none, some, ◌≡◌, ◌≢◌, refl, sym, ap, subst, ◌∙◌, arith,
  string_key, nat_key,
}
use controlitix.Common.Map.{get, get-put}
use controlitix.Common.Result.{ok}
use controlitix.Auth.Types.{User, RefreshRecord, Directory}
use controlitix.Auth.Sessions.{find_by_hash, has_id, mark_used}
use controlitix.Auth.Tokens
use controlitix.Auth.Users.{update, update_found, with_user, changed_user}
use controlitix.Auth.Rotation.{rotated, rotate}
use controlitix.Auth.Rotation.Outcome.{rotate-is_found}
use controlitix.Auth.Rotation.Redeem.{
  IsMember, IsDrawn, minted_row, find_by_hash-appended, rotate_found-redeems,
}
use controlitix.Auth.Admin.{no_outage, end_sessions}
use controlitix.Auth.Admin.Update.{
  deactivate_user, deactivate_checked, finish_deactivation, deactivation,
}
use controlitix.Auth.Admin.Deactivation.{
  deactivate_checked-directory, reaches, deactivate_user-locks_out,
}
use controlitix.Samples.Tokens.{codec, config, draw, laptop, unlike, hash_a}
use controlitix.Samples.Admin.{
  tools, person, office, office_db, ann_bob, ann_stored, bob_stored, ann_loaded, ann_checked,
  office-IsManned,
}

abbrev bob : User
bob = person "bob" "local:2"

-- The directory after Bob has deactivated Ann.
abbrev later_office : Directory
later_office = (deactivate_user tools no_outage 5 office_db "local:2" "ann").0.directory

deactivated :
    deactivate_user tools no_outage 5 office_db "local:2" "ann"
    ≡ deactivate_checked tools no_outage 5 office_db "local:2" "ann" (ok tt)
deactivated =
    reaches tools no_outage 5 office_db "local:2" "ann" (person "ann" "local:1") ann_loaded refl
      ann_checked

later_office-is :
    later_office
    ≡ with_user office "ann" (changed_user tools.trim deactivation (person "ann" "local:1"))
later_office-is =
    ap (λ x. x.0.directory) deactivated
    ∙ deactivate_checked-directory tools no_outage 5 office_db "local:2" "ann"
        (person "ann" "local:1") refl ann_stored

succeeds : (deactivate_user tools no_outage 5 office_db "local:2" "ann").1 ≡ ok tt
unfolding deactivate_checked update update_found finish_deactivation end_sessions
succeeds = ap (λ x. x.1) deactivated ∙ rw ann_stored refl

bob-IsMember : IsMember later_office "bob" bob
unfolding get
bob-IsMember =
    subst (λ d. IsMember d "bob" bob) (sym later_office-is)
      (record {
        user_is =
            (let e =
                get-put office.users "ann" "bob"
                  (changed_user tools.trim deactivation (person "ann" "local:1")) in
              let d = ann_bob in let s = bob_stored in ground arith);
        active = refl;
        source = record { id = 1; kind = "local"; name = "local"; is_enabled = true };
        source_is = ground arith;
      })

abbrev bob_row : RefreshRecord
bob_row = minted_row codec config (draw "r0" (0 ∷ [])) bob "family" none (0 ∷ []) 100 laptop

bob_draw : IsDrawn codec (draw "r1" (7 ∷ 7 ∷ [])) (bob_row ∷ [])
unfolding find_by_hash has_id
bob_draw = record {
  jti = "j";
  jti_is = refl;
  raw = 7 ∷ 7 ∷ [];
  raw_is = refl;
  signs = λ claims. ("signed", refl);
  new_hash = (let d = unlike in ground arith);
  new_id = (let d = unlike in ground arith);
}

find_bob : find_by_hash (bob_row ∷ []) "a" ≡ some bob_row
unfolding find_by_hash
find_bob = find_by_hash-appended [] bob_row refl

abbrev bob_rows : List RefreshRecord
bob_rows =
    mark_used (bob_row ∷ []) "r0" 150
    ++ minted_row codec config (draw "r1" (7 ∷ 7 ∷ [])) bob "family" (some "r0") (7 ∷ 7 ∷ []) 150
        laptop
      ∷ []

bob_renewal :
    (access : String) × (rotate codec config Tokens.no_outage
        (draw "r1" (7 ∷ 7 ∷ []))
        later_office
        (bob_row ∷ [])
        150
        laptop
        "a"
      ≡ (bob_rows, rotated (Tokens.issued_pair codec config access "b" "family") bob))
unfolding bob_draw
bob_renewal =
    let (access, done) =
      rotate_found-redeems codec config (draw "r1" (7 ∷ 7 ∷ [])) later_office (bob_row ∷ []) 150
        laptop bob_row bob (record { unused = refl; unrevoked = refl }) (omega arith) bob-IsMember
        bob_draw in
    (
      access,
      rotate-is_found codec config Tokens.no_outage (draw "r1" (7 ∷ 7 ∷ [])) later_office 150 laptop
            (bob_row ∷ []) "a" "a" bob_row refl hash_a find_bob
          ∙ done,
    )

deactivate_user-locks_out_example : ◌≢◌ {A = String} "bob" "ann"
deactivate_user-locks_out_example =
    deactivate_user-locks_out tools no_outage 5 office_db "local:2" "ann" codec config
      Tokens.no_outage (draw "r1" (7 ∷ 7 ∷ [])) (bob_row ∷ []) 150 laptop "a" bob_rows
      (Tokens.issued_pair codec config bob_renewal.0 "b" "family") bob office-IsManned succeeds
      bob_renewal.1
