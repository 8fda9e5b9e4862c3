-- ===== src/Http/Timeout/Until.antt =====
-- A call behind the timeout of app/core/middleware.py, and a run that is cut off at a time.
use ai_platform_template.Base.{
  ℕ, ◌+◌, ◌-◌, ◌≤◌, ◌<◌, ◌≡◌, refl, ap, ◌∙◌, sym, Bool, false, not, ◌&&◌, ◌||◌, none, some,
  Bool-cases, inl, inr, List, [], ◌∷◌, ltb, if◌then◌else◌, arith, if_split,
}
use ai_platform_template.Http.Asgi.{
  State, Sent, timeout_error, App, done, raises, receives, awaits, ended, sends, takes, reads,
  writes, logs, LogEntry, Arrival, is_start, any_start, run, Run, Outcome, returned, waiting,
  raised, sending, logging, followed_by,
}
use ai_platform_template.Http.Timeout.{is_timeout, caught, timed}

-- The ticks that an application takes with its waits for the arrivals, the silence so far of one that
-- has got nothing among them.
unfoldable pub duration : App → State → List Arrival → ℕ
duration done s i = 0
duration (raises e) s i = 0
duration (receives k) s [] = 0
duration (receives k) s ((n, none) ∷ i) = n
duration (receives k) s ((n, some r) ∷ i) = n + duration (k n r) s i
duration (awaits limit k late) s [] = 0
duration (awaits limit k late) s ((n, none) ∷ i) =
    let cut_off = limit + duration late s ((n - limit, none) ∷ i) in
    if ltb n limit then n else cut_off
duration (awaits limit k late) s ((n, some r) ∷ i) =
    let got = n + duration (k n r) s i in
    let cut_off = limit + duration late s ((n - limit, some r) ∷ i) in
    if ltb n limit then got else cut_off
duration (sends m a) s i = duration a s i
duration (takes n a) s i = n + duration a s i
duration (reads f) s i = duration (f s) s i
duration (writes f a) s i = duration a (f s) i
duration (logs l a) s i = duration a s i

abbrev pub raised_timeout : Outcome → Bool
raised_timeout (raised e) = is_timeout e
raised_timeout returned = false
raised_timeout waiting = false

-- A run, with the reply of the middleware after it where it ended in a TimeoutError before the
-- response had started.
abbrev pub answered : App → Bool → Run → Run
answered reply started r =
    if raised_timeout r.outcome && not (started || any_start r.sent)
    then followed_by r (run reply r.state [])
    else r

answered-sending :
    (reply : App) (started : Bool) (m : Sent) (r : Run)
    → answered reply started (sending m r) ≡ sending m (answered reply (started || is_start m) r)
answered-sending reply started m r = ground arith

answered-logging :
    (reply : App) (started : Bool) (l : LogEntry) (r : Run)
    → answered reply started (logging l r) ≡ logging l (answered reply started r)
answered-logging reply started l r = ground arith

-- A TimeoutError, with nothing sent.
abbrev pub time_up : State → Run
time_up s = ended (raised timeout_error) s

-- The run of an application up to a time at which it is cut off, and then raises a TimeoutError.
unfoldable pub until : ℕ → App → State → List Arrival → Run
until left done s i = ended returned s
until left (raises e) s i = ended (raised e) s
until left (receives k) s [] = ended waiting s
until left (receives k) s ((n, none) ∷ i) = if ltb n left then ended waiting s else time_up s
until left (receives k) s ((n, some r) ∷ i) =
    let rest = until (left - n) (k n r) s i in if ltb n left then rest else time_up s
until left (awaits limit k late) s [] = ended waiting s
until left (awaits limit k late) s ((n, none) ∷ i) =
    let cut_off = until (left - limit) late s ((n - limit, none) ∷ i) in
    if ltb n limit
    then (if ltb n left then ended waiting s else time_up s)
    else if ltb limit left
    then cut_off
    else time_up s
until left (awaits limit k late) s ((n, some r) ∷ i) =
    let got = until (left - n) (k n r) s i in
    let cut_off = until (left - limit) late s ((n - limit, some r) ∷ i) in
    if ltb n limit
    then (if ltb n left then got else time_up s)
    else if ltb limit left
    then cut_off
    else time_up s
until left (sends m a) s i = sending m (until left a s i)
until left (takes n a) s i =
    let rest = until (left - n) a s i in if ltb n left then rest else time_up s
until left (reads f) s i = until left (f s) s i
until left (writes f a) s i = until left a (f s) i
until left (logs l a) s i = logging l (until left a s i)

-- Within the time, nothing is cut off.
pub until_early :
    (left : ℕ) (app : App) (s : State) (i : List Arrival)
    → duration app s i < left
    → until left app s i ≡ run app s i
unfolding until run duration
until_early left done s i h = refl
until_early left (raises e) s i h = refl
until_early left (receives k) s [] h = refl
until_early left (receives k) s ((n, none) ∷ i) h = ground arith
until_early left (receives k) s ((n, some r) ∷ i) h =
    ground (arith, until_early (left - n) (k n r) s i)
until_early left (awaits limit k late) s [] h = refl
until_early left (awaits limit k late) s ((n, none) ∷ i) h =
    ground (arith, until_early (left - limit) late s ((n - limit, none) ∷ i))
until_early left (awaits limit k late) s ((n, some r) ∷ i) h = ground (
  arith,
  until_early (left - n) (k n r) s i,
  until_early (left - limit) late s ((n - limit, some r) ∷ i),
)
until_early left (sends m a) s i h = ap (sending m) (until_early left a s i h)
until_early left (takes n a) s i h = ground (arith, until_early (left - n) a s i)
until_early left (reads f) s i h = until_early left (f s) s i h
until_early left (writes f a) s i h = until_early left a (f s) i h
until_early left (logs l a) s i h = ap (logging l) (until_early left a s i h)

-- Past the time, it is cut off.
pub until_late :
    (left : ℕ) (app : App) (s : State) (i : List Arrival)
    → 0 < left
    → left ≤ duration app s i
    → (until left app s i).outcome ≡ raised timeout_error
unfolding until duration
until_late left done s i p h = absurd (omega (arith, p, h))
until_late left (raises e) s i p h = absurd (omega (arith, p, h))
until_late left (receives k) s [] p h = absurd (omega (arith, p, h))
until_late left (receives k) s ((n, none) ∷ i) p h = ground arith
until_late left (receives k) s ((n, some r) ∷ i) p h =
    ground (arith, until_late (left - n) (k n r) s i)
until_late left (awaits limit k late) s [] p h = absurd (omega (arith, p, h))
until_late left (awaits limit k late) s ((n, none) ∷ i) p h =
    ground (arith, until_late (left - limit) late s ((n - limit, none) ∷ i))
until_late left (awaits limit k late) s ((n, some r) ∷ i) p h = ground (
  arith,
  until_late (left - n) (k n r) s i,
  until_late (left - limit) late s ((n - limit, some r) ∷ i),
)
until_late left (sends m a) s i p h = until_late left a s i p h
until_late left (takes n a) s i p h = ground (arith, until_late (left - n) a s i)
until_late left (reads f) s i p h = until_late left (f s) s i p h
until_late left (writes f a) s i p h = until_late left a (f s) i p h
until_late left (logs l a) s i p h = until_late left a s i p h

-- Where the time is up, or is not, the run is the one.
run_if :
    (a b : App) (n left : ℕ) (s : State) (i : List Arrival)
    → run (if ltb n left then a else b) s i ≡ (if ltb n left then run a s i else run b s i)
run_if a b n left s i =
    if_split (λ c. run c s i ≡ (if ltb n left then run a s i else run b s i)) (ltb n left) a b
      (λ e. rw e refl) (λ e. rw e refl)

module _ (reply : App) (q : (t : State) (j : List Arrival) → run reply t j ≡ run reply t []) where
  run-caught :
      (started : Bool) (s : State) (i : List Arrival)
      → run (caught reply started timeout_error) s i ≡ answered reply started (time_up s)
  unfolding run
  run-caught started s i = ground (arith, q s i)

  -- The middleware cuts the application off and answers.
  pub run-timed :
      (left : ℕ) (started : Bool) (app : App) (s : State) (i : List Arrival)
      → run (timed reply left started app) s i ≡ answered reply started (until left app s i)
  unfolding timed run until
  run-timed left started done s i = refl
  run-timed left started (raises e) s i = ground (arith, q s i)
  run-timed left started (receives k) s [] = refl
  run-timed left started (receives k) s ((n, none) ∷ i) =
      ground (arith, run-caught started s ((n - left, none) ∷ i))
  run-timed left started (receives k) s ((n, some r) ∷ i) = ground (
    arith,
    run-timed (left - n) started (k n r) s i,
    run-caught started s ((n - left, some r) ∷ i),
  )
  run-timed left started (awaits limit k late) s [] = refl
  run-timed left started (awaits limit k late) s ((n, none) ∷ i) =
      elim (Bool-cases (ltb limit left)) [
        | inl e ↦
            rw e (ground (arith, run-timed (left - limit) started late s ((n - limit, none) ∷ i)))
        | inr e ↦ rw e (ground (arith, run-caught started s ((n - left, none) ∷ i)))
      ]
  run-timed left started (awaits limit k late) s ((n, some r) ∷ i) =
      elim (Bool-cases (ltb limit left)) [
        | inl e ↦ rw e (
            ground (
              arith,
              run-timed (left - n) started (k n r) s i,
              run-timed (left - limit) started late s ((n - limit, some r) ∷ i),
            ))
        | inr e ↦ rw e (
            ground (
              arith,
              run-timed (left - n) started (k n r) s i,
              run-caught started s ((n - left, some r) ∷ i),
            ))
      ]
  run-timed left started (sends m a) s i =
      ap (sending m) (run-timed left (started || is_start m) a s i)
      ∙ sym (answered-sending reply started m (until left a s i))
  run-timed left started (takes n a) s i =
      run_if (takes n (timed reply (left - n) started a))
        (takes left (caught reply started timeout_error)) n left s i
      ∙ ground (arith, run-timed (left - n) started a s i, run-caught started s i)
  run-timed left started (reads f) s i = run-timed left started (f s) s i
  run-timed left started (writes f a) s i = run-timed left started a (f s) i
  run-timed left started (logs l a) s i =
      ap (logging l) (run-timed left started a s i)
      ∙ sym (answered-logging reply started l (until left a s i))
