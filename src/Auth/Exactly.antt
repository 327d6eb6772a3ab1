-- ===== src/Auth/Exactly.antt =====
-- The requests that the middleware of pkg/auth/auth.go passes on.
use s3search.Base.{
  ◌≡◌, ◌↔◌, ◌⊎◌, refl, ap, ◌∙◌, arith, true, Bytes, [], ◌∷◌, ◌++◌, length, drop, drop-append, inl,
  inr, Bool-cases,
}
use s3search.Base.{◌=?◌, bytes_eq, bytes_beq_iff, has_prefix, has_prefix-append}
use s3search.Auth.{bearer, next_handler, check_token, middleware}

has_prefix-split : (p s : Bytes) → has_prefix p s ≡ true → s ≡ p ++ drop (length p) s
unfolding has_prefix
has_prefix-split [] s h = refl
has_prefix-split (c ∷ p) [] h = cc h
has_prefix-split (c ∷ p) (b ∷ s) h = ground (arith, has_prefix-split p s)

check_token_lem :
    (token auth_header : Bytes)
    → (check_token token auth_header ≡ next_handler) ↔ (auth_header ≡ bearer ++ token)
unfolding check_token
check_token_lem token auth_header = (
  λ e. elim (Bool-cases (has_prefix bearer auth_header)) [
    | inl pre ↦ elim (Bool-cases (drop 7 auth_header =? token)) [
      | inl same ↦
          has_prefix-split bearer auth_header pre
          ∙ ap (λ t. bearer ++ t) ((bytes_beq_iff (drop 7 auth_header) token).0 same)
      | inr other ↦ absurd (cc (rw (pre, other) at e))
    ]
    | inr none_given ↦ absurd (cc (rw none_given at e))
  ],
  λ e.
      rw
        (
          e,
          has_prefix-append bearer token,
          drop-append 7 bearer token refl,
          (bytes_beq_iff token token).1 refl,
        )
        refl,
)

-- A request is passed on exactly if no token is configured or its header is "Bearer " and the token.
pub middleware_lem :
    (token auth_header : Bytes)
    → (middleware token auth_header ≡ next_handler)
      ↔ ((token ≡ []) ⊎ (auth_header ≡ bearer ++ token))
unfolding middleware
middleware_lem [] auth_header = (λ e. inl refl, λ h. refl)
middleware_lem (c ∷ token) auth_header =
    let (to, from) = check_token_lem (c ∷ token) auth_header in ground (arith, to, from)
