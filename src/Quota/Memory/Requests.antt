-- ===== src/Quota/Memory/Requests.antt =====
-- Any sequence of calls of one quota store.
use ai_platform_template.Base.{String, ◌≡◌, none, true, List, [], ◌∷◌}
use ai_platform_template.Base.Eq.{string_eq}
use ai_platform_template.Dict.{lookup}
use ai_platform_template.Quota.Models.{ReserveQuota, QuotaUsageQuery}
use ai_platform_template.Quota.Memory.{
  MemoryQuotaStore, reserve, finalize, refund, get_usage, reset_usage, reset_resource, close,
}
use ai_platform_template.Quota.Memory.Invariant.{IsBalanced}
use ai_platform_template.Quota.Memory.Invariant.Methods.{
  reserve-IsBalanced, finalize-IsBalanced, refund-IsBalanced, get_usage-IsBalanced,
  reset_usage-IsBalanced, reset_resource-IsBalanced, empty-IsBalanced,
}

pub data Request : Type 0 where
  reserving : ReserveQuota → Request
  finalizing refunding : String → Request
  reading resetting : QuotaUsageQuery → Request
  resetting_resource : String → Request
  closing : Request

unfoldable pub handle : Request → MemoryQuotaStore → MemoryQuotaStore
unfolding reserve finalize refund get_usage reset_usage reset_resource close
handle (reserving c) s = (reserve c s).1
handle (finalizing id) s = (finalize id s).1
handle (refunding id) s = (refund id s).1
handle (reading q) s = (get_usage q s).1
handle (resetting q) s = (reset_usage q s).1
handle (resetting_resource r) s = (reset_resource r s).1
handle closing s = close s

unfoldable pub serve : List Request → MemoryQuotaStore → MemoryQuotaStore
unfolding handle
serve [] s = s
serve (q ∷ qs) s = serve qs (handle q s)

-- `uuid4` gives a reservation an id that the store does not hold.
abbrev pub IsFresh : Request → MemoryQuotaStore → Type 0
IsFresh (reserving c) s = lookup c.reservation_id s.reservations ≡ none
IsFresh _ s = Unit

abbrev pub AllFresh : List Request → MemoryQuotaStore → Type 0
AllFresh [] s = Unit
AllFresh (q ∷ qs) s = IsFresh q s × AllFresh qs (handle q s)

pub handle-IsBalanced :
    (q : Request) (s : MemoryQuotaStore) → IsFresh q s → IsBalanced s → IsBalanced (handle q s)
unfolding handle
handle-IsBalanced (reserving c) s f b = reserve-IsBalanced c s f b
handle-IsBalanced (finalizing id) s f b = finalize-IsBalanced id s b
handle-IsBalanced (refunding id) s f b = refund-IsBalanced id s b
handle-IsBalanced (reading q) s f b = get_usage-IsBalanced q s b
handle-IsBalanced (resetting q) s f b = reset_usage-IsBalanced q s b
handle-IsBalanced (resetting_resource r) s f b = reset_resource-IsBalanced r s b
handle-IsBalanced closing s f b = unfold close in empty-IsBalanced true

-- From balanced books, after any calls whose reservation ids are fresh, the books balance: every
-- counter's `used` is the sum of the costs of its reservations that are not refunded, every
-- reservation has its counter, and every remembered idempotency key finds a reservation.
pub serve-IsBalanced :
    (qs : List Request) (s : MemoryQuotaStore)
    → AllFresh qs s
    → IsBalanced s
    → IsBalanced (serve qs s)
unfolding serve
serve-IsBalanced [] s f b = b
serve-IsBalanced (q ∷ qs) s f b = serve-IsBalanced qs (handle q s) f.1 (handle-IsBalanced q s f.0 b)
