-- ===== src/Queue/Worker.antt =====
-- app/modules/messaging/queue/worker.py: AsyncPollingWorker over the in-memory gateway. A handler is
-- what it makes of a message: success, or an exception, which is a NonRetryableMessageError or not.
-- `_tick` and the end of a dispatched message are steps; the event loop may interleave them anyhow.
pub mod Delivery
pub mod Backpressure
use ai_platform_template.Base.{
  ℕ, zero, suc, ◌+◌, ◌*◌, String, Bool, true, false, not, ◌&&◌, Option, none, some, List, [], ◌∷◌,
  ◌++◌, leb, ltb, length, if◌then◌else◌,
}
use ai_platform_template.Base.Eq.{◌==◌, string_eq}
use ai_platform_template.Base.Result.{Exception, value_error, Result, ok, err}
use ai_platform_template.Queue.Gateway.{QueueMessage, InMemoryQueueGateway, receive, ack, nack}

pub data Outcome : Type 0 where
  handled non_retryable retryable : Outcome

unfoldable pub requeues : ℕ → QueueMessage → Outcome → Bool
requeues max_attempts message outcome = elim outcome [
  | retryable ↦ ltb message.receive_count max_attempts
  | _ ↦ false
]

-- `_dispatch`, once the handler has ended.
unfoldable pub dispatch : ℕ → QueueMessage → Outcome → InMemoryQueueGateway → InMemoryQueueGateway
unfolding requeues
dispatch max_attempts message outcome g = elim outcome [
  | handled ↦ ack message g
  | failure ↦ nack message (requeues max_attempts message failure) g
]

pub record Worker : Type 0 where
  pub max_concurrent : ℕ
  pub max_attempts : ℕ
  pub receive_batch_size : ℕ
  pub gateway : InMemoryQueueGateway
  pub active : List QueueMessage

-- The checks of `__init__`, for a poll interval that is no negative number.
unfoldable pub check_worker : Worker → Result Exception Worker
check_worker w =
    if leb w.max_concurrent 0
    then err value_error
    else if leb w.max_attempts 0
    then err value_error
    else ok w

abbrev received : List QueueMessage × InMemoryQueueGateway → Worker → Worker
received (messages, g) w = record w { gateway = g; active = w.active ++ messages }

-- `_tick`; the sleeps are not modelled.
unfoldable pub tick : Worker → Worker
tick w =
    if leb (w.max_concurrent * 2) (length w.active)
    then w
    else received (receive w.receive_batch_size w.gateway) w

-- Takes the first message of the id out of the list.
unfoldable pub discard : String → List QueueMessage → List QueueMessage
discard id [] = []
discard id (m ∷ ms) = if m.id == id then ms else m ∷ discard id ms

unfoldable pub find : String → List QueueMessage → Option QueueMessage
find id [] = none
find id (m ∷ ms) = if m.id == id then some m else find id ms

abbrev finished : Option QueueMessage → Outcome → Worker → Worker
finished none outcome w = w
finished (some m) outcome w = record w {
  gateway = dispatch w.max_attempts m outcome w.gateway;
  active = discard m.id w.active;
}

-- The end of the dispatch of an active message, with its done callback.
unfoldable pub finish : String → Outcome → Worker → Worker
unfolding dispatch discard find
finish id outcome w = finished (find id w.active) outcome w
