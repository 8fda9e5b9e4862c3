-- ===== src/Queue/Gateway/Places/Runs.antt =====
-- Any sequence of calls of one gateway: no message is doubled, and none is lost.
use ai_platform_template.Base.{
  ℕ, ◌+◌, ◌≡◌, refl, ◌∙◌, String, Bool, false, List, [], ◌∷◌, arith, All, if◌then◌else◌,
}
use ai_platform_template.Base.Eq.{◌==◌, ==_iff, string_eq}
use ai_platform_template.Base.Json.{Json}
use ai_platform_template.Dict.{Dict}
use ai_platform_template.Dict.Laws.{lookup-erase}
use ai_platform_template.Queue.Gateway.{
  QueueMessage, InMemoryQueueGateway, new_message, send, receive, ack, nack, close,
}
use ai_platform_template.Queue.Gateway.Places.{
  count_id, copies, IsSingle, count_id-append, receive-copies, receive-own_id, ack-copies,
  nack-copies, nack-own_id,
}

-- The calls of one gateway by senders and workers.
pub data Event : Type 0 where
  sending : String → Dict String Json → Event
  receiving : ℕ → Event
  acking : QueueMessage → Event
  nacking : QueueMessage → Bool → Event
  closing : Event

unfoldable pub step : Event → InMemoryQueueGateway → InMemoryQueueGateway
unfolding send receive ack nack close
step (sending id payload) g = (send id payload g).1
step (receiving n) g = (receive n g).1
step (acking m) g = ack m g
step (nacking m requeue) g = nack m requeue g
step closing g = close g

unfoldable pub run : List Event → InMemoryQueueGateway → InMemoryQueueGateway
run [] g = g
run (e ∷ es) g = run es (step e g)

-- `uuid4` gives a new message an id that no message has.
abbrev pub IsFresh : Event → InMemoryQueueGateway → Type 0
IsFresh (sending id _) g = copies id g ≡ 0
IsFresh _ g = Unit

abbrev pub AllFresh : List Event → InMemoryQueueGateway → Type 0
AllFresh [] g = Unit
AllFresh (e ∷ es) g = IsFresh e g × AllFresh es (step e g)

send-copies :
    (x id : String) (payload : Dict String Json) (g : InMemoryQueueGateway)
    → copies x (send id payload g).1
      ≡ copies x g + (if g.closed then 0 else (if id == x then 1 else 0))
unfolding send count_id
send-copies x id payload g = ground (arith, count_id-append x g.queue (new_message id payload ∷ []))

step-IsSingle :
    (e : Event) (g : InMemoryQueueGateway) → IsFresh e g → IsSingle g → IsSingle (step e g)
unfolding step
step-IsSingle (sending id payload) g f s = record {
  once = λ x. ground (arith, send-copies x id payload g, ==_iff id x, s.once x);
  own_id = λ x m q. s.own_id x m (ground arith);
}
step-IsSingle (receiving n) g f s = record {
  once = λ x. ground (arith, receive-copies x n g s, s.once x);
  own_id = λ x m q. receive-own_id n g x m s q;
}
step-IsSingle (acking m) g f s = record {
  once = λ x. ground (arith, ack-copies x m g, s.once x);
  own_id = λ x k q. s.own_id x k (ground (arith, lookup-erase m.id x g.inflight));
}
step-IsSingle (nacking m requeue) g f s = record {
  once = λ x. ground (arith, nack-copies x m requeue g s, s.once x);
  own_id = λ x k q. nack-own_id m requeue g x k s q;
}
step-IsSingle closing g f s = record { once = s.once; own_id = s.own_id }

-- From a gateway where no message is in two places, whatever is called, with fresh ids for new
-- messages: no message is ever in two places, or twice in one.
pub run-IsSingle :
    (es : List Event) (g : InMemoryQueueGateway) → AllFresh es g → IsSingle g → IsSingle (run es g)
unfolding run
run-IsSingle [] g f s = s
run-IsSingle (e ∷ es) g f s = run-IsSingle es (step e g) f.1 (step-IsSingle e g f.0 s)

-- Neither sends nor acknowledges a message of the id.
abbrev pub IsSilent : String → Event → Type 0
IsSilent x (sending id _) = (id == x) ≡ false
IsSilent x (acking m) = (m.id == x) ≡ false
IsSilent x _ = Unit

step-copies :
    (x : String) (e : Event) (g : InMemoryQueueGateway)
    → IsSilent x e
    → IsSingle g
    → copies x (step e g) ≡ copies x g
unfolding step
step-copies x (sending id payload) g q s = ground (arith, send-copies x id payload g)
step-copies x (receiving n) g q s = receive-copies x n g s
step-copies x (acking m) g q s = ground (arith, ack-copies x m g)
step-copies x (nacking m requeue) g q s = nack-copies x m requeue g s
step-copies x closing g q s = refl

-- From a gateway where no message is in two places, whatever is called with fresh ids for new
-- messages, closing the gateway included: as long as no call sends or acknowledges the id, the
-- copies of its message among queue, messages in flight and dead letters stay as many.
pub no_loss :
    (x : String) (es : List Event) (g : InMemoryQueueGateway)
    → All (IsSilent x) es
    → AllFresh es g
    → IsSingle g
    → copies x (run es g) ≡ copies x g
unfolding run
no_loss x [] g q f s = refl
no_loss x (e ∷ es) g q f s =
    no_loss x es (step e g) q.1 f.1 (step-IsSingle e g f.0 s) ∙ step-copies x e g q.0 s
