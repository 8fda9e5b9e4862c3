-- ===== src/Tests/Quota.antt =====
-- Runs of app/modules/platform/quota: one subject with a daily limit of 10.
use ai_platform_template.Base.{
  ◌+◌, ◌≡◌, refl, true, false, none, some, List, [], ◌∷◌, if◌then◌else◌,
}
use ai_platform_template.Base.Eq.{◌==◌, string_eq, pair_eq, pair_equals}
use ai_platform_template.Base.Result.{ok, is_ok}
use ai_platform_template.Dict.{lookup, insert}
use ai_platform_template.Quota.Models.{QuotaReservation, ReserveQuota}
use ai_platform_template.Quota.Memory.{
  CounterKey, MemoryQuotaStore, Counter, empty_store, reservation_key, command_key, reserve,
  finalize, refund, granted,
}
use ai_platform_template.Quota.Memory.Invariant.{IsBalanced}
use ai_platform_template.Quota.Memory.Invariant.Methods.{empty-IsBalanced}
use ai_platform_template.Quota.Memory.Requests.{
  Request, reserving, finalizing, refunding, serve, handle, serve-IsBalanced,
}
use ai_platform_template.Quota.Postgres.{empty_tables, fits_columns}
use ai_platform_template.Quota.Postgres.Refinement.{
  decisions, db_decisions, db_handle, stores_agree,
}
use ai_platform_template.Quota.Memory.Laws.{used, reserve_decides, refund_exact}

abbrev command : ReserveQuota
command = record {
  subject_id = "u1";
  resource = "tokens";
  window_key = "86400:0";
  limit = 10;
  cost = 4;
  reset_at = 86400;
  reservation_id = "r1";
  idempotency_key = some "k1";
}

abbrev again : ReserveQuota
again = record command { reservation_id = "r2"; cost = 5 }

abbrev counter : Counter
counter = record {
  subject_id = "u1";
  resource = "tokens";
  window_key = "86400:0";
  used = 0;
  limit = 10;
  reset_at = 86400;
}

abbrev reservation : QuotaReservation
reservation = granted command counter

abbrev requests : List Request
requests = reserving command ∷ []

abbrev held : MemoryQuotaStore
held = serve requests empty_store

held-IsBalanced : IsBalanced held
unfolding lookup
held-IsBalanced = serve-IsBalanced requests empty_store (refl, tt) (empty-IsBalanced false)

held_reservation : lookup "r1" held.reservations ≡ some reservation
unfolding serve handle reserve insert lookup
held_reservation = refl

serve-IsBalanced_example :
    IsBalanced (serve (reserving command ∷ refunding "r1" ∷ finalizing "r2" ∷ []) empty_store)
unfolding lookup
serve-IsBalanced_example =
    serve-IsBalanced (reserving command ∷ refunding "r1" ∷ finalizing "r2" ∷ []) empty_store
      (refl, (tt, (tt, tt))) (empty-IsBalanced false)

reserve_decides_example :
    ((reserve command empty_store).0 ≡ ok (some reservation))
    × (used (command_key command) (reserve command empty_store).1 ≡ 4)
unfolding lookup pair_equals
reserve_decides_example = reserve_decides command empty_store (command_key command) refl refl

refund_exact_example :
    (is_ok (refund "r1" held).0 ≡ true)
    × ((k : CounterKey)
        → used k (refund "r1" held).1 + (if reservation_key reservation == k then 4 else 0)
          ≡ used k held)
unfolding serve handle reserve insert lookup
refund_exact_example = refund_exact "r1" reservation held held-IsBalanced refl refl refl

-- A reservation, its replay, its end, and one reservation that does not fit.
abbrev both : List Request
both =
    reserving command
    ∷ reserving again
    ∷ finalizing "r1"
    ∷ reserving (record again { reservation_id = "r3"; cost = 7; idempotency_key = none })
    ∷ []

stores_agree_example : decisions both empty_store ≡ db_decisions both empty_tables
unfolding lookup insert handle reserve finalize pair_equals fits_columns db_handle
stores_agree_example =
    stores_agree both (tt, (tt, (tt, (tt, tt)))) (refl, (refl, (tt, (refl, tt))))
      ((refl, refl), ((refl, refl), (tt, ((refl, refl), tt))))
