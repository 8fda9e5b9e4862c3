-- ===== src/Quota/Memory/Charges.antt =====
-- What the reservations charge to a counter, and how an update of one reservation changes it.
use ai_platform_template.Base.{
  ℕ, ◌+◌, ◌≤◌, ◌≡◌, ◌≢◌, refl, String, Bool, none, some, [], arith, Bool-cases, inl, inr,
  if◌then◌else◌,
}
use ai_platform_template.Base.Eq.{◌==◌, ==_iff, ==_refl, string_eq, pair_eq}
use ai_platform_template.Dict.{Dict, lookup, insert, keep}
use ai_platform_template.Dict.Total.{
  total, total-insert, total-insert_new, total-keep, total-keep_zero, weight-le-total,
}
use ai_platform_template.Quota.Models.{refunded, QuotaReservation}
use ai_platform_template.Quota.Memory.{CounterKey, Counter, reservation_key}

-- A reservation charges its cost to its own counter until it is refunded.
abbrev pub cost_of : QuotaReservation → ℕ
cost_of r = elim r.status [ refunded ↦ 0 | _ ↦ r.cost ]

unfoldable pub charge : CounterKey → String → QuotaReservation → ℕ
charge k _ r = if reservation_key r == k then cost_of r else 0

abbrev pub charges : CounterKey → Dict String QuotaReservation → ℕ
charges k d = total (charge k) d

abbrev pub used_at : CounterKey → Dict CounterKey Counter → ℕ
used_at k d = elim (lookup k d) [ none ↦ 0 | some c ↦ c.used ]

pub charges_nil : (k : CounterKey) → 0 ≡ charges k []
unfolding total
charges_nil k = refl

module _ (id : String) (d : Dict String QuotaReservation) where
  pub charges-insert_new :
      (k : CounterKey) (r : QuotaReservation)
      → lookup id d ≡ none
      → charges k (insert id r d) ≡ charges k d + (if reservation_key r == k then cost_of r else 0)
  unfolding charge
  charges-insert_new k r h = total-insert_new (charge k) id r d h

  pub charges-insert :
      (k : CounterKey) (old r : QuotaReservation)
      → lookup id d ≡ some old
      → reservation_key old ≡ reservation_key r
      → charges k (insert id r d) + (if reservation_key r == k then cost_of old else 0)
        ≡ charges k d + (if reservation_key r == k then cost_of r else 0)
  unfolding charge
  charges-insert k old r h q =
      rw (← q) (ground (arith, total-insert (charge k) id r {old = old} d h, q))

  pub cost_of-le-charges :
      (r : QuotaReservation) → lookup id d ≡ some r → cost_of r ≤ charges (reservation_key r) d
  unfolding charge
  cost_of-le-charges r h = rw ==_refl at (weight-le-total (charge (reservation_key r)) id d h)

charge-zero :
    (stays : String → String → Bool) (k : CounterKey) (i : String) (r : QuotaReservation)
    → stays r.subject_id r.resource ≢ stays k.0 k.1.0
    → charge k i r ≡ 0
unfolding charge
charge-zero stays k i r h = ground (arith, ==_iff (reservation_key r) k)

-- A restriction by subject and resource keeps the charges of the counters that stay, and leaves
-- none for the others.
pub charges-keep :
    (stays : String → String → Bool) (k : CounterKey) (d : Dict String QuotaReservation)
    → charges k (keep (λ _ r. stays r.subject_id r.resource) d)
      ≡ (if stays k.0 k.1.0 then charges k d else 0)
charges-keep stays k d = elim (Bool-cases (stays k.0 k.1.0)) [
  | inl yes_stays ↦ rw yes_stays (
      total-keep (charge k) (λ _ r. stays r.subject_id r.resource) d
        (λ i r h. charge-zero stays k i r (ground arith)))
  | inr no_stays ↦ rw no_stays (
      total-keep_zero (charge k) (λ _ r. stays r.subject_id r.resource) d
        (λ i r h. charge-zero stays k i r (ground arith)))
]
