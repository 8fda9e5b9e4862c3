-- ===== src/Http/Timeout/Once.antt =====
-- The responses of a call behind the timeout of app/core/middleware.py.
use ai_platform_template.Base.{
  ℕ, ◌+◌, ◌-◌, ◌≤◌, ◌≡◌, ap, Bool, true, false, Option, none, some, Bool-cases, inl, inr, List, [],
  ◌∷◌, ltb, arith, if_split,
}
use ai_platform_template.Base.Result.{Result}
use ai_platform_template.Http.Asgi.{
  State, Received, response_start, response_body, Failure, timeout_error, App, done, raises,
  receives, awaits, sends, takes, reads, writes, logs, Arrival, starts, run,
}
use ai_platform_template.Http.Timeout.{caught, timed}

abbrev pub one_if : Bool → ℕ
one_if true = 1
one_if false = 0

caught_once :
    (reply : App) (started : Bool) (e : Failure) (s : State) (i : List Arrival)
    → starts (run reply s i).sent ≤ 1
    → one_if started + starts (run (caught reply started e) s i).sent ≤ 1
unfolding run
caught_once reply started e s i h = ground arith

-- A silence brings no fewer responses than none known.
silence_starts :
    (app : App) (s : State) → starts (run app s []).sent ≤ starts (run app s ((0, none) ∷ [])).sent
unfolding run
silence_starts done s = omega arith
silence_starts (raises e) s = omega arith
silence_starts (receives k) s = omega arith
silence_starts (awaits limit k late) s = ground arith
silence_starts (sends (response_start c b) a) s = omega (arith, silence_starts a s)
silence_starts (sends (response_body b) a) s = silence_starts a s
silence_starts (takes n a) s = silence_starts a s
silence_starts (reads f) s = silence_starts (f s) s
silence_starts (writes f a) s = silence_starts a (f s)
silence_starts (logs l a) s = silence_starts a s

cancel : (a b : ℕ) → a + b - a ≡ b
cancel a b = omega arith

run-cut_off :
    (limit m : ℕ) (k : ℕ → Result Failure Received → App) (late : App) (s : State)
    (o : Option (Result Failure Received)) (j : List Arrival)
    → run (awaits limit k late) s ((limit + m, o) ∷ j) ≡ run late s ((m, o) ∷ j)
unfolding run
run-cut_off limit m k late s none j =
    ground (arith, ap (λ x. run late s ((x, none) ∷ j)) (cancel limit m))
run-cut_off limit m k late s (some r) j =
    ground (arith, ap (λ x. run late s ((x, some r) ∷ j)) (cancel limit m))

late_once :
    (started : Bool) (limit : ℕ) (k : ℕ → Result Failure Received → App) (late : App) (s : State)
    → ((i : List Arrival) → one_if started + starts (run (awaits limit k late) s i).sent ≤ 1)
    → (j : List Arrival) → one_if started + starts (run late s j).sent ≤ 1
late_once started limit k late s h [] = omega (
  arith,
  h ((limit + 0, none) ∷ []),
  ap (λ r. starts r.sent) (run-cut_off limit 0 k late s none []),
  silence_starts late s,
)
late_once started limit k late s h ((m, o) ∷ j) =
    omega
      (arith, h ((limit + m, o) ∷ j), ap (λ r. starts r.sent) (run-cut_off limit m k late s o j))

-- A wait with a limit of its own under the timeout, each of whose ends starts at most one response.
awaited_once :
    (reply : App) (left limit n : ℕ) (started : Bool) (k : ℕ → Result Failure Received → App)
    (late : App) (s : State) (r : Result Failure Received) (i : List Arrival)
    → one_if started + starts (run (timed reply (left - n) started (k n r)) s i).sent ≤ 1
    → one_if started
        + starts (run (timed reply (left - limit) started late) s ((n - limit, some r) ∷ i)).sent
      ≤ 1
    → one_if started
        + starts (run (caught reply started timeout_error) s ((n - left, some r) ∷ i)).sent
      ≤ 1
    → one_if started
        + starts (run (timed reply left started (awaits limit k late)) s ((n, some r) ∷ i)).sent
      ≤ 1
unfolding timed run
awaited_once reply left limit n started k late s r i a b c = elim (Bool-cases (ltb limit left)) [
  | inl e ↦ rw e (ground arith)
  | inr e ↦ rw e (ground arith)
]

-- An application that starts at most one response, whatever arrives, starts at most one with the
-- timeout around it.
pub timed_once :
    (reply : App) (left : ℕ) (started : Bool) (app : App) (s : State)
    → ((t : State) (j : List Arrival) → starts (run reply t j).sent ≤ 1)
    → ((i : List Arrival) → one_if started + starts (run app s i).sent ≤ 1)
    → (i : List Arrival) → one_if started + starts (run (timed reply left started app) s i).sent ≤ 1
unfolding timed run
timed_once reply left started done s q h i = h i
timed_once reply left started (raises e) s q h i = caught_once reply started e s i (q s i)
timed_once reply left started (receives k) s q h [] = h []
timed_once reply left started (receives k) s q h ((n, none) ∷ i) = ground (
  arith,
  h [],
  caught_once reply started timeout_error s ((n - left, none) ∷ i) (q s ((n - left, none) ∷ i)),
)
timed_once reply left started (receives k) s q h ((n, some r) ∷ i) = ground (
  arith,
  timed_once reply (left - n) started (k n r) s q (λ j. h ((n, some r) ∷ j)) i,
  caught_once reply started timeout_error s ((n - left, some r) ∷ i) (q s ((n - left, some r) ∷ i)),
)
timed_once reply left started (awaits limit k late) s q h [] = ground (arith, h [])
timed_once reply left started (awaits limit k late) s q h ((n, none) ∷ i) =
    elim (Bool-cases (ltb limit left)) [
      | inl e ↦ rw e (
          ground (
            arith,
            h [],
            timed_once reply (left - limit) started late s q (late_once started limit k late s h)
                ((n - limit, none) ∷ i),
          ))
      | inr e ↦ rw e (
          ground (
            arith,
            h [],
            caught_once reply started timeout_error s ((n - left, none) ∷ i)
                (q s ((n - left, none) ∷ i)),
          ))
    ]
timed_once reply left started (awaits limit k late) s q h ((n, some r) ∷ i) =
    elim (Bool-cases (ltb n limit)) [
      | inl f ↦
          awaited_once reply left limit n started k late s r i
            (timed_once reply (left - n) started (k n r) s q
              (λ j. ground (arith, h ((n, some r) ∷ j))) i)
            (timed_once reply (left - limit) started late s q (late_once started limit k late s h)
              ((n - limit, some r) ∷ i))
            (caught_once reply started timeout_error s ((n - left, some r) ∷ i)
              (q s ((n - left, some r) ∷ i)))
      | inr f ↦ elim (Bool-cases (ltb limit left)) [
        | inl e ↦ rw e (
            ground (
              arith,
              timed_once reply (left - limit) started late s q (late_once started limit k late s h)
                  ((n - limit, some r) ∷ i),
            ))
        | inr e ↦ rw e (
            ground (
              arith,
              caught_once reply started timeout_error s ((n - left, some r) ∷ i)
                  (q s ((n - left, some r) ∷ i)),
            ))
      ]
    ]
timed_once reply left true (sends (response_body b) a) s q h i =
    timed_once reply left true a s q h i
timed_once reply left false (sends (response_body b) a) s q h i =
    timed_once reply left false a s q h i
timed_once reply left true (sends (response_start c b) a) s q h i = absurd (omega (arith, h i))
timed_once reply left false (sends (response_start c b) a) s q h i =
    omega (arith, timed_once reply left true a s q (λ j. omega (arith, h j)) i)
timed_once reply left started (takes n a) s q h i =
    if_split (λ b. one_if started + starts (run b s i).sent ≤ 1) (ltb n left)
      (takes n (timed reply (left - n) started a)) (takes left (caught reply started timeout_error))
      (λ early. timed_once reply (left - n) started a s q h i)
      (λ late. caught_once reply started timeout_error s i (q s i))
timed_once reply left started (reads f) s q h i = timed_once reply left started (f s) s q h i
timed_once reply left started (writes f a) s q h i = timed_once reply left started a (f s) q h i
timed_once reply left started (logs l a) s q h i = timed_once reply left started a s q h i
