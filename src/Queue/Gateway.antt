-- ===== src/Queue/Gateway.antt =====
-- app/modules/messaging/queue/gateway.py and adapters/memory.py: InMemoryQueueGateway. The id that
-- `uuid4` gives a new message is an argument of `send`.
pub mod Places
use ai_platform_template.Base.{
  ℕ, suc, zero, ◌+◌, ◌-◌, String, Bool, true, false, Option, none, some, List, [], ◌∷◌, ◌++◌,
  length, if◌then◌else◌,
}
use ai_platform_template.Base.Eq.{string_eq}
use ai_platform_template.Base.Json.{Json}
use ai_platform_template.Base.Result.{Exception, runtime_error, Result, ok, err}
use ai_platform_template.Dict.{Dict, lookup, insert, erase}

pub record QueueMessage : Type 0 where
  pub id : String
  pub body : Dict String Json
  pub receive_count : ℕ

pub record InMemoryQueueGateway : Type 0 where
  pub queue : List QueueMessage
  pub inflight : Dict String QueueMessage
  pub dead_letter : List QueueMessage
  pub closed : Bool

abbrev pub empty_gateway : InMemoryQueueGateway
empty_gateway = record { queue = []; inflight = []; dead_letter = []; closed = false }

abbrev new_message : String → Dict String Json → QueueMessage
new_message id payload = record { id = id; body = payload; receive_count = 1 }

unfoldable pub send :
    String
    → Dict String Json
    → InMemoryQueueGateway
    → Result Exception String × InMemoryQueueGateway
send id payload g =
    if g.closed
    then (err runtime_error, g)
    else (ok id, record g { queue = g.queue ++ new_message id payload ∷ [] })

-- The `get_nowait` calls: up to `n` messages from the head of the queue, and the rest.
unfoldable pub get_nowait : ℕ → List QueueMessage → List QueueMessage × List QueueMessage
get_nowait zero q = ([], q)
get_nowait (suc n) [] = ([], [])
get_nowait (suc n) (m ∷ q) = let (taken, rest) = get_nowait n q in (m ∷ taken, rest)

unfoldable pub put_inflight :
    List QueueMessage → Dict String QueueMessage → Dict String QueueMessage
unfolding insert
put_inflight [] d = d
put_inflight (m ∷ ms) d = put_inflight ms (insert m.id m d)

abbrev received :
    List QueueMessage × List QueueMessage
    → InMemoryQueueGateway
    → List QueueMessage × InMemoryQueueGateway
received (messages, rest) g =
    (messages, record g { queue = rest; inflight = put_inflight messages g.inflight })

-- Called with a positive `wait_seconds`: the first `get` takes the head whatever `max_messages` is, and
-- gives up at its timeout where the queue stays empty (with none, it would wait on); the others follow
-- while there are fewer than `max_messages`.
unfoldable pub receive : ℕ → InMemoryQueueGateway → List QueueMessage × InMemoryQueueGateway
unfolding get_nowait put_inflight
receive max_messages g = if g.closed then ([], g) else elim g.queue [
  | [] ↦ ([], g)
  | first ∷ rest ↦
      (let (more, left) = get_nowait (max_messages - 1) rest in received (first ∷ more, left) g)
]

unfoldable pub ack : QueueMessage → InMemoryQueueGateway → InMemoryQueueGateway
unfolding erase
ack message g = record g { inflight = erase message.id g.inflight }

abbrev redelivered : QueueMessage → QueueMessage
redelivered stored = record stored { receive_count = stored.receive_count + 1 }

abbrev nack_stored :
    Option QueueMessage → String → Bool → InMemoryQueueGateway → InMemoryQueueGateway
nack_stored none id requeue g = g
nack_stored (some stored) id requeue g =
    let popped = erase id g.inflight in
    if requeue
    then record g { inflight = popped; queue = g.queue ++ redelivered stored ∷ [] }
    else record g { inflight = popped; dead_letter = g.dead_letter ++ stored ∷ [] }

unfoldable pub nack : QueueMessage → Bool → InMemoryQueueGateway → InMemoryQueueGateway
unfolding erase
nack message requeue g = nack_stored (lookup message.id g.inflight) message.id requeue g

unfoldable pub close : InMemoryQueueGateway → InMemoryQueueGateway
close g = record g { closed = true }

abbrev pub pending_count : InMemoryQueueGateway → ℕ
pending_count g = length g.queue

abbrev pub inflight_count : InMemoryQueueGateway → ℕ
inflight_count g = length g.inflight

abbrev pub dead_letter_count : InMemoryQueueGateway → ℕ
dead_letter_count g = length g.dead_letter
