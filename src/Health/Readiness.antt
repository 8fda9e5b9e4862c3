-- ===== src/Health/Readiness.antt =====
-- When the service reports that it is ready.
use ai_platform_template.Base.{
  ◌≡◌, refl, String, Bool, true, false, not, ◌&&◌, ◌||◌, none, [], ◌∷◌, arith, if◌then◌else◌,
}
use ai_platform_template.Base.Eq.{◌==◌, ==_iff, string_eq}
use ai_platform_template.Dict.{Dict, lookup, insert}
use ai_platform_template.Dict.Laws.{lookup-insert}
use ai_platform_template.Dict.Unique.{IsUnique}
use ai_platform_template.Health.{
  HealthChecks, HealthService, DependencyCheck, passes, times_out, raises, run_check,
  update_outcomes, all_ok, readiness, begin_draining,
}

-- Every check passes: none times out and none raises.
abbrev pub all_pass : HealthChecks → Bool
all_pass [] = true
all_pass ((_, passes) ∷ checks) = all_pass checks
all_pass ((_, times_out) ∷ checks) = false
all_pass ((_, raises) ∷ checks) = false

all_pass-cons :
    (name : String) (check : DependencyCheck) (checks : HealthChecks)
    → all_pass ((name, check) ∷ checks) ≡ (run_check check == "ok" && all_pass checks)
unfolding run_check
all_pass-cons name passes checks = refl
all_pass-cons name times_out checks = refl
all_pass-cons name raises checks = refl

all_ok-insert :
    (name v : String) (d : Dict String String)
    → lookup name d ≡ none
    → all_ok (insert name v d) ≡ (all_ok d && v == "ok")
unfolding all_ok insert lookup
all_ok-insert name v [] h = ground arith
all_ok-insert name v ((j, w) ∷ d) h = ground (arith, all_ok-insert name v d)

-- No check has the name of an entry.
abbrev IsApart : Dict String String → HealthChecks → Type 0
IsApart d [] = Unit
IsApart d ((name, _) ∷ checks) = (lookup name d ≡ none) × IsApart d checks

insert-IsApart :
    (name v : String) (d : Dict String String) (checks : HealthChecks)
    → lookup name checks ≡ none
    → IsApart d checks
    → IsApart (insert name v d) checks
unfolding lookup
insert-IsApart name v d [] h a = tt
insert-IsApart name v d ((j, c) ∷ checks) h a = (
  ground (arith, lookup-insert name j v d, ==_iff name j, ==_iff j name, a.0),
  insert-IsApart name v d checks (ground arith) a.1,
)

all_ok-update :
    (checks : HealthChecks) (d : Dict String String)
    → IsUnique checks
    → IsApart d checks
    → all_ok (update_outcomes checks d) ≡ (all_ok d && all_pass checks)
unfolding update_outcomes
all_ok-update [] d u a = ground arith
all_ok-update ((name, c) ∷ checks) d u a = ground (
  arith,
  all_pass-cons name c checks,
  all_ok-update checks (insert name (run_check c) d) u.1
      (insert-IsApart name (run_check c) d checks u.0 a.1),
  all_ok-insert name (run_check c) d a.0,
)

IsApart-api :
    (checks : HealthChecks) → lookup "api" checks ≡ none → IsApart (("api", "ok") ∷ []) checks
unfolding lookup
IsApart-api [] h = tt
IsApart-api ((j, c) ∷ checks) h =
    (ground (arith, ==_iff "api" j, ==_iff j "api"), IsApart-api checks (ground arith))

-- A service whose checks were registered under different names, none of them "api", reports "draining"
-- from the begin of draining on, "ok" if it is not to run the checks or if every check passes, and
-- "error" if one times out or raises.
pub readiness_reports :
    (h : HealthService)
    → IsUnique h.checks
    → lookup "api" h.checks ≡ none
    → ((readiness (begin_draining h)).status ≡ "draining")
      × ((readiness h).status ≡ (
          if h.draining
          then "draining"
          else if not h.check_external_dependencies || all_pass h.checks
          then "ok"
          else "error"))
unfolding readiness begin_draining all_ok
readiness_reports h u a =
    (refl, ground (arith, all_ok-update h.checks (("api", "ok") ∷ []) u (IsApart-api h.checks a)))
