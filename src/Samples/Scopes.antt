-- ===== src/Samples/Scopes.antt =====
-- A client that may read and write asks for reading.
use controlitix.Common.{String, List, [], ◌∷◌}
use controlitix.Auth.Names.{normalize_list, resolve_granted_scopes}
use controlitix.Auth.Names.Scopes.{IsGrant, resolve_granted_scopes-IsGrant}

abbrev allowed : List String
allowed = "read" ∷ "write" ∷ "read" ∷ []

resolve_granted_scopes-IsGrant_example :
    IsGrant
      (normalize_list (λ s. s) allowed)
      (normalize_list (λ s. s) ("read" ∷ []))
      (resolve_granted_scopes (λ s. s) (λ s. s ∷ []) allowed "read")
resolve_granted_scopes-IsGrant_example =
    resolve_granted_scopes-IsGrant (λ s. s) (λ s. s ∷ []) allowed "read"
