-- ===== src/Health.antt =====
-- app/core/health.py: HealthChecks and HealthService. A check is what it comes to when it runs under its
-- time limit.
pub mod Readiness
use ai_platform_template.Base.{
  String, Bool, true, false, not, ◌&&◌, Option, List, [], ◌∷◌, is_some, if◌then◌else◌,
}
use ai_platform_template.Base.Eq.{◌==◌, string_eq}
use ai_platform_template.Base.Result.{Exception, value_error, Result, ok, err}
use ai_platform_template.Dict.{Dict, lookup, insert}

pub data DependencyCheck : Type 0 where
  passes times_out raises : DependencyCheck

abbrev pub HealthChecks : Type 0
HealthChecks = Dict String DependencyCheck

-- `HealthChecks.register`
unfoldable pub register : String → DependencyCheck → HealthChecks → Result Exception HealthChecks
register name check checks =
    if is_some (lookup name checks) then err value_error else ok (insert name check checks)

pub record HealthResult : Type 0 where
  pub status : String
  pub dependencies : Dict String String

pub record HealthService : Type 0 where
  pub check_external_dependencies : Bool
  pub checks : HealthChecks
  pub draining : Bool

unfoldable pub begin_draining : HealthService → HealthService
begin_draining h = record h { draining = true }

-- `_run`
unfoldable pub run_check : DependencyCheck → String
run_check passes = "ok"
run_check times_out = "error"
run_check raises = "error"

-- `dependencies.update(zip(names, outcomes))`
unfoldable pub update_outcomes : HealthChecks → Dict String String → Dict String String
unfolding run_check insert
update_outcomes [] d = d
update_outcomes ((name, check) ∷ checks) d =
    update_outcomes checks (insert name (run_check check) d)

-- `all(v == "ok" for v in dependencies.values())`
unfoldable pub all_ok : Dict String String → Bool
all_ok [] = true
all_ok ((_, v) ∷ d) = v == "ok" && all_ok d

abbrev result_of : Dict String String → HealthResult
result_of d = record { status = if all_ok d then "ok" else "error"; dependencies = d }

unfoldable pub readiness : HealthService → HealthResult
unfolding update_outcomes all_ok
readiness h =
    if h.draining
    then record { status = "draining"; dependencies = ("api", "draining") ∷ [] }
    else if not h.check_external_dependencies
    then record { status = "ok"; dependencies = ("api", "ok") ∷ [] }
    else result_of (update_outcomes h.checks (("api", "ok") ∷ []))
