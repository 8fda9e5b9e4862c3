-- ===== src/Resilience/Breaker/Laws.antt =====
-- The breaker's invariant, when it opens, what it refuses, and that it never stays shut.
use ai_platform_template.Base.{
  All, ℕ, ◌+◌, ◌≤◌, ◌<◌, ◌≡◌, ◌≢◌, refl, sym, true, false, Option, none, some, List, [], ◌∷◌, arith,
  leb, if◌then◌else◌,
}
use mathlib.Core.Path.{subst}
use ai_platform_template.Resilience.Errors.{Error, is_transient_error}
use ai_platform_template.Resilience.Breaker.{
  closed, open_state, half_open, CircuitBreaker, build, try_acquire, record_failure,
}
use ai_platform_template.Resilience.Breaker.Trace.{
  Event, acquire, release, success, failure, time, step, run,
}

abbrev LeaseLe : Option ℕ → ℕ → Type 0
LeaseLe none n = Unit
LeaseLe (some t) n = t ≤ n

-- What every reachable breaker satisfies at time `t`.
pub record IsValid (t : ℕ) (b : CircuitBreaker) : Type 0 where
  pub positive : 0 < b.failure_threshold
  pub below : b.state ≡ closed → b.failure_count < b.failure_threshold
  pub no_lease : b.state ≢ half_open → b.probe_lease_until ≡ none
  pub open_by : b.open_until ≤ t + b.cooldown_seconds
  pub lease_by : LeaseLe b.probe_lease_until (t + b.cooldown_seconds)

build-IsValid : (threshold cooldown : ℕ) → 0 < threshold → IsValid 0 (build threshold cooldown)
unfolding build
build-IsValid threshold cooldown h = ground arith

IsValid-later : (s t : ℕ) (b : CircuitBreaker) → s ≤ t → IsValid s b → IsValid t b
IsValid-later s t b h v = ground arith

-- Every call of the breaker keeps the invariant.
pub step-IsValid :
    (e : Event) (t : ℕ) (b : CircuitBreaker) → time e ≤ t → IsValid t b → IsValid t (step e b)
unfolding step
step-IsValid (acquire n) t b h v = ground arith
step-IsValid (release n) t b h v = ground arith
step-IsValid (success n) t b h v = ground arith
step-IsValid (failure n e) t b h v = ground arith

run-IsValid :
    (es : List Event) (t : ℕ) (b : CircuitBreaker)
    → All (λ e. time e ≤ t) es
    → IsValid t b
    → IsValid t (run es b)
unfolding run
run-IsValid [] t b h v = v
run-IsValid (e ∷ es) t b h v = run-IsValid es t (step e b) h.1 (step-IsValid e t b h.0 v)

-- An open or half-open breaker whose timers have passed admits the call.
admits_after :
    (t now : ℕ) (b : CircuitBreaker)
    → IsValid t b
    → t + b.cooldown_seconds ≤ now
    → (try_acquire now b).0 ≡ true
unfolding try_acquire
admits_after t now b v h = ground arith

cooldown-run :
    (es : List Event) (b : CircuitBreaker) → (run es b).cooldown_seconds ≡ b.cooldown_seconds
unfolding run step
cooldown-run [] b = refl
cooldown-run (e ∷ es) b = ground (arith, cooldown-run es (step e b))

-- From a new breaker with a positive threshold, whatever happened up to time `t`, in any order, a
-- call one cooldown later is admitted.
pub never_wedges :
    (threshold cooldown t now : ℕ) (es : List Event)
    → 0 < threshold
    → All (λ e. time e ≤ t) es
    → t + cooldown ≤ now
    → (try_acquire now (run es (build threshold cooldown))).0 ≡ true
unfolding build
never_wedges threshold cooldown t now es h a later =
    let v : IsValid t (run es (build threshold cooldown)) =
      run-IsValid es t (build threshold cooldown) a (
        IsValid-later 0 t (build threshold cooldown) (omega arith)
          (build-IsValid threshold cooldown h)) in
    let c : (run es (build threshold cooldown)).cooldown_seconds ≡ cooldown =
      cooldown-run es (build threshold cooldown) in
    admits_after t now (run es (build threshold cooldown)) v (rw c later)

-- Nothing but a success takes an open breaker out of that state before its time.
abbrev IsEarly : ℕ → Event → Type 0
IsEarly limit (success _) = ⊥
IsEarly limit e = time e < limit

stays_open :
    (e : Event) (b : CircuitBreaker)
    → b.state ≡ open_state
    → IsEarly b.open_until e
    → ((step e b).state ≡ open_state) × ((step e b).open_until ≡ b.open_until)
unfolding step
stays_open (acquire n) b o h = ground arith
stays_open (release n) b o h = ground arith
stays_open (success n) b o h = absurd h
stays_open (failure n e) b o h = ground arith

-- An open breaker refuses every call before its time, whatever was called in between, unless a
-- success was reported.
pub open_refuses :
    (es : List Event) (now : ℕ) (b : CircuitBreaker)
    → b.state ≡ open_state
    → All (IsEarly b.open_until) es
    → now < b.open_until
    → (try_acquire now (run es b)).0 ≡ false
unfolding run try_acquire
open_refuses [] now b o h l = ground arith
open_refuses (e ∷ es) now b o h l =
    let s = stays_open e b o h.0 in
    open_refuses es now (step e b) s.0 (subst (λ u. All (IsEarly u) es) (sym s.1) h.1) (rw s.1 l)

-- The failures that count.
unfoldable pub count_transient : List Error → ℕ
count_transient [] = 0
count_transient (e ∷ es) = (if is_transient_error e then 1 else 0) + count_transient es

abbrev pub failures : ℕ → List Error → List Event
failures now [] = []
failures now (e ∷ es) = failure now e ∷ failures now es

stays_tripped :
    (es : List Error) (now : ℕ) (b : CircuitBreaker)
    → b.state ≡ open_state
    → (run (failures now es) b).state ≡ open_state
unfolding run step
stays_tripped [] now b o = o
stays_tripped (e ∷ es) now b o =
    stays_tripped es now (record_failure now e b) (unfold record_failure in ground arith)

-- From a closed breaker whose count is below its threshold, a row of failures with no success
-- between trips it exactly when the transient ones bring the count to the threshold; deterministic
-- failures never count.
pub trips_at_threshold :
    (es : List Error) (now : ℕ) (b : CircuitBreaker)
    → b.state ≡ closed
    → b.failure_count < b.failure_threshold
    → (run (failures now es) b).state ≡ (
        if leb b.failure_threshold (b.failure_count + count_transient es)
        then open_state
        else closed)
unfolding run step count_transient record_failure
trips_at_threshold [] now b c h = ground arith
trips_at_threshold (e ∷ es) now b c h = ground (
  arith,
  trips_at_threshold es now (record_failure now e b),
  stays_tripped es now (record_failure now e b),
)

abbrev pub acquires : List ℕ → List Event
acquires [] = []
acquires (t ∷ ts) = acquire t ∷ acquires ts

-- While a probe's lease holds, further calls are refused and leave the breaker as it is.
lease_refuses :
    (ts : List ℕ) (now until : ℕ) (b : CircuitBreaker)
    → b.state ≡ half_open
    → b.probe_lease_until ≡ some until
    → All (λ t. t < until) ts
    → now < until
    → (try_acquire now (run (acquires ts) b)).0 ≡ false
unfolding run step try_acquire
lease_refuses [] now until b s p a h = ground arith
lease_refuses (t ∷ ts) now until b s p a h =
    lease_refuses ts now until (try_acquire t b).1 (ground arith) (ground arith) a.1 h

-- Once the cooldown has passed an open breaker admits exactly one call: that one, and no other
-- until the call is reported or one more cooldown has passed.
pub one_probe :
    (now later : ℕ) (ts : List ℕ) (b : CircuitBreaker)
    → b.state ≡ open_state
    → b.open_until ≤ now
    → All (λ t. t < now + b.cooldown_seconds) ts
    → later < now + b.cooldown_seconds
    → ((try_acquire now b).0 ≡ true)
      × ((try_acquire later (run (acquires ts) (try_acquire now b).1)).0 ≡ false)
one_probe now later ts b s h a l = (
  unfold try_acquire in ground arith,
  lease_refuses ts later (now + b.cooldown_seconds) (try_acquire now b).1
      (unfold try_acquire in ground arith) (unfold try_acquire in ground arith) a l,
)
