-- ===== src/Auth.antt =====
-- pkg/auth/auth.go: which requests the middleware lets through to the next handler.
use s3search.Base.{
  ℕ, Bool, Bytes, List, [], ◌∷◌, ◌=?◌, bytes_eq, has_prefix, length, drop, if◌then◌else◌,
}
mod Exactly
mod Tests

-- "Bearer "
abbrev pub bearer : Bytes
bearer = 66 ∷ 101 ∷ 97 ∷ 114 ∷ 101 ∷ 114 ∷ 32 ∷ []

-- the next handler is called, or the status 401 or 403 is sent
pub data Answer : Type 0 where
  next_handler unauthorized forbidden : Answer

-- with a token that is not empty
unfoldable pub check_token : Bytes → Bytes → Answer
check_token token auth_header =
    if has_prefix bearer auth_header
    then (if drop (length bearer) auth_header =? token then next_handler else forbidden)
    else unauthorized

-- The header Authorization is empty if it is missing.
unfoldable pub middleware : Bytes → Bytes → Answer
unfolding check_token
middleware [] auth_header = next_handler
middleware (c ∷ token) auth_header = check_token (c ∷ token) auth_header
