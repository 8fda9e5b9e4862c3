-- ===== src/Resilience/Errors.antt =====
-- app/core/resilience.py: what an exception carries, and the transient errors.
use ai_platform_template.Base.{ℕ, String, Bool, false, ◌||◌, Option, none, some, List, [], ◌∷◌, leb}
use ai_platform_template.Base.Eq.{Keyed, ◌==◌, nat_eq, string_eq}

-- A retry hint: what `float(hint)` makes of it. A hint that is no number raises there, and NaN
-- fails `seconds >= 0`.
pub data Hint : Type 0 where
  seconds : ℕ → Hint
  negative malformed : Hint

-- `.response` of an HTTP client's error: its integer status, and its headers with the entry of
-- `retry-after`.
pub record Response : Type 0 where
  pub status_code : Option ℕ
  pub headers : Option (Option Hint)

-- An exception, as far as this module looks at it: the attributes, the two built-in base classes,
-- and the names along `type(error).__mro__`.
pub record Error : Type 0 where
  pub status_code : Option ℕ
  pub response : Option Response
  pub retry_after : Option Hint
  pub is_timeout_or_connection : Bool
  pub mro : List String

-- `x in (…)`
unfoldable pub contains {ℓ} : {A : Type ℓ} ⦃e : Keyed A⦄ → A → List A → Bool
contains x [] = false
contains x (y ∷ ys) = x == y || contains x ys

abbrev pub transient_status_codes : List ℕ
transient_status_codes = 408 ∷ 429 ∷ []

abbrev pub transient_error_names : List String
transient_error_names =
    "APITimeoutError" ∷ "APIConnectionError" ∷ "TimeoutException" ∷ "TransportError" ∷ []

abbrev response_status : Option Response → Option ℕ
response_status none = none
response_status (some r) = r.status_code

unfoldable pub error_status_code : Error → Option ℕ
error_status_code error = elim error.status_code [
  | some status ↦ some status
  | none ↦ response_status error.response
]

abbrev header_hint : Option (Option Hint) → Option Hint
header_hint none = none
header_hint (some hint) = hint

abbrev response_hint : Option Response → Option Hint
response_hint none = none
response_hint (some r) = header_hint r.headers

abbrev read_hint : Option Hint → Option ℕ
read_hint none = none
read_hint (some (Hint.seconds n)) = some n
read_hint (some Hint.negative) = none
read_hint (some Hint.malformed) = none

unfoldable pub retry_after_seconds : Error → Option ℕ
retry_after_seconds error =
    read_hint
      (elim error.retry_after [ some hint ↦ some hint | none ↦ response_hint error.response ])

any_transient_name : List String → Bool
any_transient_name [] = false
any_transient_name (name ∷ names) = contains name transient_error_names || any_transient_name names

unfoldable pub is_transient_error : Error → Bool
unfolding error_status_code contains any_transient_name
is_transient_error error = elim (error_status_code error) [
  | some status ↦ contains status transient_status_codes || leb 500 status
  | none ↦ error.is_timeout_or_connection || any_transient_name error.mro
]
