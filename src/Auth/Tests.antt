-- ===== src/Auth/Tests.antt =====
-- The theorem on pkg/auth/auth.go at a short token.
use s3search.Base.{◌≡◌, ◌↔◌, ◌⊎◌, [], ◌∷◌, ◌++◌, Bytes}
use s3search.Auth.{bearer, next_handler, middleware}
use s3search.Auth.Exactly.{middleware_lem}

-- "t"
abbrev short_token : Bytes
short_token = 116 ∷ []

middleware_lem_example :
    (middleware short_token (bearer ++ short_token) ≡ next_handler)
    ↔ ((short_token ≡ []) ⊎ (bearer ++ short_token ≡ bearer ++ short_token))
middleware_lem_example = middleware_lem short_token (bearer ++ short_token)
