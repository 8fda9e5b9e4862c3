-- ===== src/Queue/Worker/Delivery.antt =====
-- A message that keeps failing is delivered a bounded number of times.
use ai_platform_template.Base.{
  ℕ, zero, suc, ◌+◌, ◌≤◌, ◌<◌, ◌≡◌, refl, false, none, List, [], ◌∷◌, ◌++◌, arith, Bool-cases, ltb,
  if◌then◌else◌, inl, inr, ◌⊎◌, ◌∙◌,
}
use ai_platform_template.Base.Eq.{==_refl, string_eq}
use ai_platform_template.Dict.{lookup}
use ai_platform_template.Dict.Laws.{lookup-insert, erase-insert_new}
use ai_platform_template.Queue.Gateway.{
  QueueMessage, InMemoryQueueGateway, receive, ack, nack, get_nowait, put_inflight,
}
use ai_platform_template.Queue.Worker.{Outcome, handled, non_retryable, retryable, dispatch}

-- One round of a worker that takes one message at a time: receive, handle, settle.
abbrev settle_first :
    ℕ → (QueueMessage → Outcome) → List QueueMessage × InMemoryQueueGateway → InMemoryQueueGateway
settle_first max_attempts handler ([], g) = g
settle_first max_attempts handler (m ∷ _, g) = dispatch max_attempts m (handler m) g

unfoldable pub round : ℕ → (QueueMessage → Outcome) → InMemoryQueueGateway → InMemoryQueueGateway
unfolding receive dispatch ack nack
round max_attempts handler g = settle_first max_attempts handler (receive 1 g)

unfoldable pub rounds :
    ℕ → ℕ → (QueueMessage → Outcome) → InMemoryQueueGateway → InMemoryQueueGateway
rounds zero max_attempts handler g = g
rounds (suc n) max_attempts handler g = rounds n max_attempts handler (round max_attempts handler g)

module _ (max_attempts : ℕ) (handler : QueueMessage → Outcome) (m : QueueMessage)
    (g : InMemoryQueueGateway) (o : g.closed ≡ false) (only : g.queue ≡ m ∷ [])
    (landed : lookup m.id g.inflight ≡ none) where
  round-requeues :
      handler m ≡ retryable
      → m.receive_count < max_attempts
      → round max_attempts handler g
        ≡ record g { queue = record m { receive_count = m.receive_count + 1 } ∷ [] }
  unfolding round get_nowait put_inflight
  round-requeues h l = ground (
    arith,
    erase-insert_new m.id m g.inflight landed,
    lookup-insert m.id m.id m g.inflight,
    ==_refl m.id,
  )

  round-dead_letters :
      (handler m ≡ retryable) × (max_attempts ≤ m.receive_count) ⊎ (handler m ≡ non_retryable)
      → round max_attempts handler g
        ≡ record g { queue = []; dead_letter = g.dead_letter ++ m ∷ [] }
  unfolding round get_nowait put_inflight
  round-dead_letters h = ground (
    arith,
    erase-insert_new m.id m g.inflight landed,
    lookup-insert m.id m.id m g.inflight,
    ==_refl m.id,
  )

  round-acks : handler m ≡ handled → round max_attempts handler g ≡ record g { queue = [] }
  unfolding round get_nowait put_inflight
  round-acks h = ground (arith, erase-insert_new m.id m g.inflight landed)

-- In an open gateway whose queue holds one message, which is not in flight, a message whose
-- handler always fails retryably is delivered until its receive count reaches `max_attempts`, and
-- then lies in the dead letters with that count, once, and in no other place.
pub poison_dead_letters :
    (k max_attempts : ℕ) (handler : QueueMessage → Outcome) (m : QueueMessage)
    (g : InMemoryQueueGateway)
    → g.closed ≡ false
    → g.queue ≡ m ∷ []
    → lookup m.id g.inflight ≡ none
    → ((x : QueueMessage) → handler x ≡ retryable)
    → m.receive_count + k ≡ max_attempts
    → rounds (suc k) max_attempts handler g ≡ record g {
      queue = [];
      dead_letter = g.dead_letter ++ record m { receive_count = max_attempts } ∷ [];
    }
unfolding rounds
poison_dead_letters zero max_attempts handler m g o only landed h c =
    round-dead_letters max_attempts handler m g o only landed (inl (h m, omega arith))
    ∙ ground arith
poison_dead_letters (suc k) max_attempts handler m g o only landed h c =
    rw (round-requeues max_attempts handler m g o only landed (h m) (omega arith)) (
      poison_dead_letters k max_attempts handler (record m { receive_count = m.receive_count + 1 })
        (record g { queue = record m { receive_count = m.receive_count + 1 } ∷ [] }) o refl landed h
        (omega arith))

-- Where a delivered message belongs after its outcome, with nothing else in the queue.
abbrev pub placed : ℕ → Outcome → QueueMessage → InMemoryQueueGateway → InMemoryQueueGateway
placed max_attempts handled m g = record g { queue = [] }
placed max_attempts non_retryable m g = record g {
  queue = [];
  dead_letter = g.dead_letter ++ m ∷ [];
}
placed max_attempts retryable m g =
    if ltb m.receive_count max_attempts
    then record g { queue = record m { receive_count = m.receive_count + 1 } ∷ [] }
    else record g { queue = []; dead_letter = g.dead_letter ++ m ∷ [] }

-- One round of an open gateway whose queue holds one message, which is not in flight: success removes
-- the message; a non-retryable failure, or a retryable one at the last attempt, moves it to the dead
-- letters; any other failure puts it back with its count raised by one.
pub round_outcome :
    (max_attempts : ℕ) (handler : QueueMessage → Outcome) (m : QueueMessage)
    (g : InMemoryQueueGateway)
    → g.closed ≡ false
    → g.queue ≡ m ∷ []
    → lookup m.id g.inflight ≡ none
    → round max_attempts handler g ≡ placed max_attempts (handler m) m g
round_outcome max_attempts handler m g o only landed = by_outcome (handler m) refl
  where
    by_outcome :
        (outcome : Outcome)
        → handler m ≡ outcome
        → round max_attempts handler g ≡ placed max_attempts outcome m g
    by_outcome handled q = round-acks max_attempts handler m g o only landed q
    by_outcome non_retryable q = round-dead_letters max_attempts handler m g o only landed (inr q)
    by_outcome retryable q = elim (Bool-cases (ltb m.receive_count max_attempts)) [
      | inl more ↦
          ground (arith, round-requeues max_attempts handler m g o only landed q (ground arith))
      | inr last ↦
          ground (
            arith,
            round-dead_letters max_attempts handler m g o only landed (inl (q, ground arith)),
          )
    ]
