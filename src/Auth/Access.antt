-- ===== src/Auth/Access.antt =====
-- Who gets through.
use ai_platform_template.Base.{
  ℕ, ◌≡◌, ◌⊎◌, inl, inr, refl, ap, ◌∙◌, subst, String, true, Option, none, some, List, [], ◌∷◌, All,
  arith, Option-cases, Bool-cases, if◌then◌else◌,
}
use ai_platform_template.Base.Eq.{◌==◌, ==_iff, string_eq}
use ai_platform_template.Base.Result.{Result, ok, err}
use ai_platform_template.Http.Bytes.{Bytes, bytes_eq}
use ai_platform_template.RateLimit.{Floats, InMemoryRateLimiter}
use ai_platform_template.Auth.{
  ApiKey, Principal, AuthError, match_keys, authenticate_bearer_token, enforce_rate_limit,
  require_principal, limited, holds, missing_scopes, require_scopes,
}

-- The key is one of the configured ones.
abbrev pub IsAmong : ApiKey → List ApiKey → Type 0
IsAmong key [] = ⊥
IsAmong key (k ∷ keys) = (k ≡ key) ⊎ IsAmong key keys

match_keys-found :
    (presented : Bytes) (matched : Option ApiKey) (keys : List ApiKey) (key : ApiKey)
    → match_keys presented matched keys ≡ some key
    → (matched ≡ some key) ⊎ (IsAmong key keys × (key.digest ≡ presented))
unfolding match_keys
match_keys-found presented matched [] key h = inl h
match_keys-found presented matched (k ∷ keys) key h =
    elim (match_keys-found presented (if presented == k.digest then some k else matched) keys key
      h) [
        | inl now ↦ elim (Bool-cases (presented == k.digest)) [
          | inl same ↦ inr (inl (ground arith), ground (arith, ==_iff presented k.digest))
          | inr other ↦ inl (ground arith)
        ]
        | inr later ↦ inr (inr later.0, later.1)
      ]

missing_scopes-none :
    (required scopes : List String)
    → missing_scopes required scopes ≡ []
    → All (λ scope. holds scope scopes ≡ true) required
unfolding missing_scopes
missing_scopes-none [] scopes h = tt
missing_scopes-none (scope ∷ required) scopes h = elim (Bool-cases (holds scope scopes)) [
  | inl held ↦ (held, missing_scopes-none required scopes (ground arith))
  | inr lacks ↦ absurd (ground arith)
]

limited_same :
    (r : Result AuthError (Unit {0}) × Option InMemoryRateLimiter) (q p : Principal)
    → (limited q r).0 ≡ ok p
    → q ≡ p
limited_same r q p h = ground arith

module _ (scheme_param : Option Bytes → Bytes × Bytes) (sha256 : Bytes → Bytes)
    (floats : Floats) where
  -- A principal stands for a configured key of the presented token.
  abbrev Stands : Option Bytes → List ApiKey → Principal → Type 0
  Stands authorization keys p =
      (key : ApiKey) × IsAmong key keys
      × (key.digest ≡ sha256 (scheme_param authorization).1)
      × (p.id ≡ key.subject)
      × (p.scopes ≡ key.scopes)

  principal-Stands :
      (authorization : Option Bytes) (keys : List ApiKey) (p : Principal) (key : ApiKey)
      → match_keys (sha256 (scheme_param authorization).1) none keys ≡ some key
      → p ≡ record { id = key.subject; scopes = key.scopes }
      → Stands authorization keys p
  principal-Stands authorization keys p key h e =
      elim (match_keys-found (sha256 (scheme_param authorization).1) none keys key h) [
        | inl nothing ↦ absurd (ground arith)
        | inr (among, digest) ↦ (key, among, digest, ap (λ x. x.id) e, ap (λ x. x.scopes) e)
      ]

  authenticate-Stands :
      (authorization : Option Bytes) (keys : List ApiKey) (p : Principal)
      → authenticate_bearer_token scheme_param sha256 authorization keys ≡ ok p
      → Stands authorization keys p
  unfolding authenticate_bearer_token
  authenticate-Stands authorization [] p h = absurd (ground arith)
  authenticate-Stands authorization (k ∷ keys) p h =
      elim (Option-cases (match_keys (sha256 (scheme_param authorization).1) none (k ∷ keys))) [
        | inl missing ↦ absurd (ground arith)
        | inr (key, found) ↦ principal-Stands authorization (k ∷ keys) p key found (ground arith)
      ]

  required-Stands :
      (now : ℕ) (before : Option Principal) (limiter : Option InMemoryRateLimiter)
      (authorization : Option Bytes) (keys : List ApiKey) (p : Principal)
      → (require_principal scheme_param sha256 floats now before limiter authorization keys).0
        ≡ ok p
      → Stands authorization keys p
  unfolding require_principal
  required-Stands now before limiter authorization keys p h =
      by_reply (authenticate_bearer_token scheme_param sha256 authorization keys) refl
    where
      by_reply :
          (r : Result AuthError Principal)
          → authenticate_bearer_token scheme_param sha256 authorization keys ≡ r
          → Stands authorization keys p
      by_reply (err e) k = absurd (ground arith)
      by_reply (ok q) k =
          let same : q ≡ p =
            limited_same (enforce_rate_limit floats now limiter q) q p (ground arith) in
          authenticate-Stands authorization keys p (k ∙ ap ok same)

  scoped :
      (required : List String) (p q : Principal)
      → require_scopes required p ≡ ok q
      → (p ≡ q) × All (λ scope. holds scope p.scopes ≡ true) required
  unfolding require_scopes
  scoped required p q h = by_missing (missing_scopes required p.scopes) refl
    where
      by_missing :
          (m : List String)
          → missing_scopes required p.scopes ≡ m
          → (p ≡ q) × All (λ scope. holds scope p.scopes ≡ true) required
      by_missing [] e = (ground arith, missing_scopes-none required p.scopes e)
      by_missing (s ∷ m) e = absurd (ground arith)

  -- Where a request gets through `require_principal` and the dependency of `require_scopes`, there is a
  -- configured key whose digest is that of the presented token, the principal is its subject, and the key
  -- has every required scope; and the principal stays the same.
  pub access_granted :
      (now : ℕ) (before : Option Principal) (limiter : Option InMemoryRateLimiter)
      (authorization : Option Bytes) (keys : List ApiKey) (required : List String) (p q : Principal)
      → (require_principal scheme_param sha256 floats now before limiter authorization keys).0
        ≡ ok p
      → require_scopes required p ≡ ok q
      → (p ≡ q)
        × ((key : ApiKey) × IsAmong key keys
            × (key.digest ≡ sha256 (scheme_param authorization).1)
            × (p.id ≡ key.subject)
            × All (λ scope. holds scope key.scopes ≡ true) required)
  access_granted now before limiter authorization keys required p q h k =
      let (key, among, digest, subject, scopes) =
        required-Stands now before limiter authorization keys p h in
      let (same, all) = scoped required p q k in
      (
        same,
        (
          key,
          among,
          digest,
          subject,
          subst (λ xs. All (λ scope. holds scope xs ≡ true) required) scopes all,
        ),
      )
