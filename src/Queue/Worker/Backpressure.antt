-- ===== src/Queue/Worker/Backpressure.antt =====
-- The worker never holds more messages than its backpressure allows.
use ai_platform_template.Base.{
  ℕ, ◌+◌, ◌*◌, ◌-◌, ◌≤◌, ◌<◌, ◌≡◌, String, List, [], ◌∷◌, arith, max, length, length-append,
  Option-cases, inl, inr, Bool-cases,
}
use ai_platform_template.Base.Eq.{string_eq}
use ai_platform_template.Queue.Gateway.{QueueMessage, InMemoryQueueGateway, receive}
use ai_platform_template.Queue.Gateway.Places.{receive_fifo}
use ai_platform_template.Queue.Worker.{Worker, Outcome, tick, finish, find, discard}

pub data Event : Type 0 where
  ticking : Event
  finishing : String → Outcome → Event

unfoldable pub step : Event → Worker → Worker
unfolding tick finish
step ticking w = tick w
step (finishing id outcome) w = finish id outcome w

unfoldable pub run : List Event → Worker → Worker
run [] w = w
run (e ∷ es) w = run es (step e w)

-- The most messages that are dispatched and not finished.
abbrev pub bound : Worker → ℕ
bound w = w.max_concurrent * 2 + max w.receive_batch_size 1 - 1

length-discard : (id : String) (ms : List QueueMessage) → length (discard id ms) ≤ length ms
unfolding discard
length-discard id [] = omega arith
length-discard id (m ∷ ms) = ground (arith, length-discard id ms)

length-receive : (n : ℕ) (g : InMemoryQueueGateway) → length (receive n g).0 ≤ max n 1
length-receive n g = elim (Bool-cases g.closed) [
  | inl shut ↦ unfold receive in ground arith
  | inr o ↦ (receive_fifo n g o).1
]

step-bound :
    (e : Event) (w : Worker)
    → 0 < w.max_concurrent
    → length w.active ≤ bound w
    → (length (step e w).active ≤ bound w)
      × ((step e w).max_concurrent ≡ w.max_concurrent)
      × ((step e w).receive_batch_size ≡ w.receive_batch_size)
unfolding step
step-bound ticking w p h = ground (
  arith,
  length-append w.active (receive w.receive_batch_size w.gateway).0,
  length-receive w.receive_batch_size w.gateway,
)
step-bound (finishing id outcome) w p h = elim (Option-cases (find id w.active)) [
  | inl missing ↦ ground arith
  | inr (m, q) ↦ ground (arith, length-discard m.id w.active)
]

-- A worker of positive concurrency that is within its bound stays so, however ticks and ends of
-- messages interleave: no more messages are dispatched and unfinished than twice the concurrency
-- and one batch (of one at least), less one.
pub active-bound :
    (es : List Event) (w : Worker)
    → 0 < w.max_concurrent
    → length w.active ≤ bound w
    → length (run es w).active ≤ bound w
unfolding run
active-bound [] w p h = h
active-bound (e ∷ es) w p h =
    let (le, c, b) = step-bound e w p h in
    ground (arith, c, b, active-bound es (step e w) (ground (arith, c)) (ground (arith, le, c, b)))
