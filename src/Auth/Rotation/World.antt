-- ===== src/Auth/Rotation/World.antt =====
-- The life of the table of refresh tokens: every call of ms-auth/internal/usecase/token_service.go
-- and of the administration that writes it, one at a time.
use controlitix.Common.{ℕ, String, List, [], ◌∷◌, some, ◌≡◌, In}
use controlitix.Common.Result.{ok}
use controlitix.Auth.Types.{IssuedTokens, RefreshRecord, TokenMeta, TokenConfig, Directory}
use controlitix.Auth.Sessions.{revoke_all_for_user, delete_expired}
use controlitix.Auth.Tokens.{Codec, Chance, Outage, Found, issue_for_user}
use controlitix.Auth.Rotation.{rotate, revoke}

-- The rows, and every family that was ever begun.
pub record World : Type 0 where
  pub rows : List RefreshRecord
  pub families : List String

abbrev pub empty_world : World
empty_world = record { rows = []; families = [] }

abbrev pub begun : World → List RefreshRecord → String → World
begun w stored family = record { rows = stored; families = family ∷ w.families }

abbrev pub with_rows : World → List RefreshRecord → World
with_rows w stored = record w { rows = stored }

module _ (c : Codec) (cfg : TokenConfig) where
  -- A random family is taken to be a new one.
  pub data Step (w : World) : World → Type 0 where
    issues :
        (o : Outage) (ch : Chance) (now : ℕ) (meta : TokenMeta) (f : Found) (family : String)
        (stored : List RefreshRecord) (tokens : IssuedTokens)
        → ch.family ≡ some family
        → (¬ In family w.families)
        → issue_for_user c cfg o ch w.rows now meta f ≡ ok (stored, tokens)
        → Step w (begun w stored family)
    rotates :
        (o : Outage) (ch : Chance) (d : Directory) (now : ℕ) (meta : TokenMeta) (token : String)
        → Step w (with_rows w (rotate c cfg o ch d w.rows now meta token).0)
    revokes :
        (o : Outage) (now : ℕ) (token reason : String)
        → Step w (with_rows w (revoke c cfg o w.rows now token reason).0)
    revokes_all :
        (user : String) (at : ℕ) (reason : String)
        → Step w (with_rows w (revoke_all_for_user w.rows user at reason))
    expires : (now : ℕ) → Step w (with_rows w (delete_expired w.rows now).0)

  -- Any number of steps.
  pub data Steps (w : World) : World → Type 0 where
    here : Steps w w
    after : {v u : World} → Steps w v → Step v u → Steps w u
