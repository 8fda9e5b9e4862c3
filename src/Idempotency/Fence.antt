-- ===== src/Idempotency/Fence.antt =====
-- The fence of the idempotency keys: one completion for a claim, and its replay.
use ai_platform_template.Base.{
  ℕ, ◌+◌, ◌≤◌, ◌<◌, ◌≡◌, ◌≢◌, ◌↔◌, String, Bool, true, false, ◌||◌, ◌&&◌, Option, none, some, List,
  [], ◌∷◌, arith, leb, All, Option-cases, Bool-cases, inl, inr, if◌then◌else◌,
}
use ai_platform_template.Base.Eq.{◌==◌, ==_iff, ==_refl, string_eq, pair_eq}
use ai_platform_template.Base.Json.{Json}
use ai_platform_template.Base.Result.{ok, err}
use ai_platform_template.Dict.{Dict, lookup}
use ai_platform_template.Dict.Laws.{lookup-insert}
use ai_platform_template.Idempotency.{
  IdempotencyKey, RowKey, Table, Attempt, idempotency_key_conflict, cached, claim, check_or_store,
  store_response, holds, completed_with, status_or_ok, is_stuck_in_progress, new_row,
  reset_expired_record,
}

-- The calls on the table by any requests.
pub data Event : Type 0 where
  checking : ℕ → ℕ → ℕ → Attempt → Event
  storing : ℕ → RowKey → String → ℕ → Dict String Json → Event

unfoldable pub step : Event → Table → Table
unfolding check_or_store store_response
step (checking stamp now timeout a) t = (check_or_store stamp now timeout a t).1
step (storing stamp k token code body) t = (store_response stamp k token code body t).1

-- Whether the row is in progress under the token.
abbrev pub held : RowKey → String → Table → ℕ
held k token t = elim (lookup k t) [ none ↦ 0 | some r ↦ if holds token r then 1 else 0 ]

-- The completions of the row by the holder of the token.
unfoldable pub completions : RowKey → String → List Event → Table → ℕ
unfolding step
completions k token [] t = 0
completions k token (checking stamp now timeout a ∷ es) t =
    completions k token es (step (checking stamp now timeout a) t)
completions k token (storing stamp j other code body ∷ es) t =
    (if (j == k) && (other == token) && (store_response stamp j other code body t).0 then 1 else 0)
    + completions k token es (step (storing stamp j other code body) t)

-- `uuid4` never gives the token again.
abbrev pub IsOther : String → Event → Type 0
IsOther token (checking _ _ _ a) = (a.token == token) ≡ false
IsOther token (storing _ _ _ _ _) = Unit

-- A check under another token never puts the row under this one.
held-check :
    (k : RowKey) (token : String) (stamp now timeout : ℕ) (a : Attempt) (t : Table)
    → (a.token == token) ≡ false
    → held k token (check_or_store stamp now timeout a t).1 ≤ held k token t
unfolding check_or_store
held-check k token stamp now timeout a t h = elim (Option-cases (lookup a.row t)) [
  | inl missing ↦ ground (arith, lookup-insert a.row k (new_row stamp a) t, ==_iff a.row k)
  | inr (r, q) ↦
      ground (arith, lookup-insert a.row k (reset_expired_record now a r) t, ==_iff a.row k)
]

held-store :
    (k j : RowKey) (token other : String) (stamp code : ℕ) (body : Dict String Json) (t : Table)
    → (if (j == k) && (other == token) && (store_response stamp j other code body t).0
          then 1
          else 0)
        + held k token (store_response stamp j other code body t).1
      ≤ held k token t
unfolding store_response
held-store k j token other stamp code body t = elim (Option-cases (lookup j t)) [
  | inl missing ↦ ground arith
  | inr (r, q) ↦ ground (
    arith,
    lookup-insert j k (completed_with stamp code body r) t,
    ==_iff j k,
    ==_iff other token,
  )
]

-- However calls interleave, once a token is drawn and no later check draws it again, its holder
-- completes the row at most once, and never if the row is not in progress under it: a claim that was
-- reclaimed or completed is fenced off.
pub completes_once :
    (k : RowKey) (token : String) (es : List Event) (t : Table)
    → All (IsOther token) es
    → completions k token es t ≤ held k token t
unfolding completions
completes_once k token [] t h = ground arith
completes_once k token (checking stamp now timeout a ∷ es) t h = ground (
  arith,
  held-check k token stamp now timeout a t h.0,
  completes_once k token es (step (checking stamp now timeout a) t) h.1,
)
completes_once k token (storing stamp j other code body ∷ es) t h = ground (
  arith,
  held-store k j token other stamp code body t,
  completes_once k token es (step (storing stamp j other code body) t) h.1,
)

-- After a completion by the holder of a row, until the row expires, a check of the same request
-- gives the stored response (its status, or 200 for a status of 0), one of a different request
-- raises the conflict, and neither changes the table.
pub replays_completion :
    (stamp later now timeout code : ℕ) (body : Dict String Json) (token : String)
    (r : IdempotencyKey) (a : Attempt) (t : Table)
    → lookup a.row t ≡ some r
    → (store_response stamp a.row token code body t).0 ≡ true
    → now < r.expires_at
    → let t' = (store_response stamp a.row token code body t).1 in
      check_or_store later now timeout a t' ≡ (
        if r.request_hash == a.request_hash
            then ok (cached (record { status_code = status_or_ok (some code); body = body }))
            else err idempotency_key_conflict,
        t',
      )
unfolding store_response check_or_store
replays_completion stamp later now timeout code body token r a t q h l =
    ground (arith, lookup-insert a.row a.row (completed_with stamp code body r) t, ==_refl a.row)

-- A row that a request may take over.
abbrev pub is_free : ℕ → ℕ → Option IdempotencyKey → Bool
is_free now timeout none = true
is_free now timeout (some r) = leb r.expires_at now || is_stuck_in_progress now timeout r

-- A check hands out the claim of its own token exactly when the row is missing, expired or stuck; then
-- its holder is the one that may complete the row, and otherwise nothing changes.
pub claims_free :
    (stamp now timeout : ℕ) (a : Attempt) (t : Table)
    → let (answer, t') = check_or_store stamp now timeout a t in
      ((answer ≡ ok (claim (record { token = a.token })))
        ↔ (is_free now timeout (lookup a.row t) ≡ true))
      × (held a.row a.token t'
          ≡ (if is_free now timeout (lookup a.row t) then 1 else held a.row a.token t))
unfolding check_or_store
claims_free stamp now timeout a t = elim (Option-cases (lookup a.row t)) [
  | inl missing ↦ (
    (λ _. ground arith, λ _. ground arith),
    ground (arith, lookup-insert a.row a.row (new_row stamp a) t, ==_refl a.row, ==_refl a.token),
  )
  | inr (r, q) ↦ elim (Bool-cases (is_free now timeout (some r))) [
    | inl free ↦ (
      (λ _. ground arith, λ _. ground arith),
      ground (
        arith,
        lookup-insert a.row a.row (reset_expired_record now a r) t,
        ==_refl a.row,
        ==_refl a.token,
      ),
    )
    | inr taken ↦ ((λ h. absurd (no_claim r taken q h), λ h. absurd (ground arith)), ground arith)
  ]
]
  where
    no_claim :
        (r : IdempotencyKey)
        → is_free now timeout (some r) ≡ false
        → lookup a.row t ≡ some r
        → (check_or_store stamp now timeout a t).0 ≢ ok (claim (record { token = a.token }))
    no_claim r taken q = ground arith
