-- ===== src/Auth.antt =====
-- app/modules/platform/identity/auth.py. The split of the Authorization header is FastAPI's, and the
-- digest is SHA-256: both are arguments. The missing scopes are listed as they were required, where the
-- code sorts them.
pub mod Access
use ai_platform_template.Base.{
  ℕ, String, Bool, true, false, not, ◌||◌, Option, none, some, List, [], ◌∷◌, if◌then◌else◌,
}
use ai_platform_template.Base.Eq.{◌==◌, string_eq}
use ai_platform_template.Base.Result.{Result, ok, err}
use ai_platform_template.Http.Bytes.{Bytes, ascii, bytes_eq, lower}
use ai_platform_template.RateLimit.{Floats, InMemoryRateLimiter, RateLimitResult}
use ai_platform_template.RateLimit.{check as check_rate}

pub record ApiKey : Type 0 where
  pub subject : String
  pub scopes : List String
  pub digest : Bytes

pub record Principal : Type 0 where
  pub id : String
  pub scopes : List String

-- ForbiddenError, UnauthorizedError and RateLimitError, by their codes.
pub data AuthError : Type 0 where
  auth_not_configured missing_bearer_token invalid_bearer_token : AuthError
  rate_limit_exceeded : Option ℕ → AuthError
  insufficient_scope : List String → AuthError

-- The loop over the keys: the last one that matches.
unfoldable pub match_keys : Bytes → Option ApiKey → List ApiKey → Option ApiKey
match_keys presented matched [] = matched
match_keys presented matched (key ∷ keys) =
    match_keys presented (if presented == key.digest then some key else matched) keys

abbrev principal_of : Option ApiKey → Result AuthError Principal
principal_of none = err invalid_bearer_token
principal_of (some key) = ok (record { id = key.subject; scopes = key.scopes })

abbrev empty_text : Option Bytes → Bool
empty_text none = true
empty_text (some []) = true
empty_text (some (_ ∷ _)) = false

module _ (get_authorization_scheme_param : Option Bytes → Bytes × Bytes)
    (sha256 : Bytes → Bytes) where
  abbrev check_keys : Option Bytes → List ApiKey → Result AuthError Principal
  check_keys authorization keys =
      let (scheme, token) = get_authorization_scheme_param authorization in
      if empty_text authorization || not (lower scheme == ascii "bearer")
      then err missing_bearer_token
      else principal_of (match_keys (sha256 token) none keys)

  unfoldable pub authenticate_bearer_token : Option Bytes → List ApiKey → Result AuthError Principal
  unfolding match_keys
  authenticate_bearer_token authorization [] = err auth_not_configured
  authenticate_bearer_token authorization (key ∷ keys) = check_keys authorization (key ∷ keys)

-- What a check of the limiter says, and the limiter after it.
abbrev admitted :
    Principal
    → RateLimitResult × InMemoryRateLimiter
    → Result AuthError (Unit {0}) × Option InMemoryRateLimiter
admitted principal (result, limiter) = (
  if result.allowed then ok tt else err (rate_limit_exceeded result.retry_after_seconds),
  some limiter,
)

-- `_enforce_rate_limit`
unfoldable pub enforce_rate_limit :
    Floats
    → ℕ
    → Option InMemoryRateLimiter
    → Principal
    → Result AuthError (Unit {0}) × Option InMemoryRateLimiter
unfolding check_rate
enforce_rate_limit floats now none principal = (ok tt, none)
enforce_rate_limit floats now (some limiter) principal =
    admitted principal (check_rate floats principal.id now limiter)

-- The result of a request, the limiter, and `request.state.principal`.
abbrev pub Reply : Type 0
Reply = Result AuthError Principal × Option InMemoryRateLimiter × Option Principal

-- After `request.state.principal` is set.
abbrev limited : Principal → Result AuthError (Unit {0}) × Option InMemoryRateLimiter → Reply
limited principal (err e, limiter) = (err e, limiter, some principal)
limited principal (ok _, limiter) = (ok principal, limiter, some principal)

module _ (get_authorization_scheme_param : Option Bytes → Bytes × Bytes) (sha256 : Bytes → Bytes)
    (floats : Floats) where
  -- `require_principal`, where the state holds `before`
  unfoldable pub require_principal :
      ℕ → Option Principal → Option InMemoryRateLimiter → Option Bytes → List ApiKey → Reply
  unfolding authenticate_bearer_token enforce_rate_limit
  require_principal now before limiter authorization keys =
      elim (authenticate_bearer_token get_authorization_scheme_param sha256 authorization keys) [
        | err e ↦ (err e, limiter, before)
        | ok principal ↦ limited principal (enforce_rate_limit floats now limiter principal)
      ]

abbrev pub holds : String → List String → Bool
holds scope [] = false
holds scope (s ∷ scopes) = s == scope || holds scope scopes

unfoldable pub missing_scopes : List String → List String → List String
missing_scopes [] scopes = []
missing_scopes (scope ∷ required) scopes =
    let rest = missing_scopes required scopes in if holds scope scopes then rest else scope ∷ rest

abbrev checked : Principal → List String → Result AuthError Principal
checked principal [] = ok principal
checked principal (scope ∷ missing) = err (insufficient_scope (scope ∷ missing))

-- The dependency of `require_scopes`
unfoldable pub require_scopes : List String → Principal → Result AuthError Principal
unfolding missing_scopes
require_scopes required principal = checked principal (missing_scopes required principal.scopes)
