-- ===== src/Tests/Queue.antt =====
-- Runs of app/modules/messaging/queue: one gateway, and a worker of one message at a time.
use ai_platform_template.Base.{◌≤◌, ◌≡◌, refl, true, [], ◌∷◌, arith, length}
use ai_platform_template.Base.Eq.{string_eq}
use ai_platform_template.Dict.{lookup}
use ai_platform_template.Queue.Gateway.{QueueMessage, InMemoryQueueGateway, empty_gateway}
use ai_platform_template.Queue.Gateway.Places.{IsSingle, copies, count_id}
use ai_platform_template.Queue.Gateway.Places.Runs.{
  sending, receiving, nacking, closing, run, run-IsSingle, no_loss,
}
use ai_platform_template.Queue.Worker.{Worker, handled, retryable}
use ai_platform_template.Queue.Worker.Backpressure.{ticking, finishing, active-bound}
use ai_platform_template.Queue.Worker.Backpressure.{run as run_worker}
use ai_platform_template.Queue.Worker.Delivery.{rounds, poison_dead_letters}

abbrev message : QueueMessage
message = record { id = "m1"; body = []; receive_count = 1 }

abbrev gateway : InMemoryQueueGateway
gateway = record empty_gateway { queue = message ∷ [] }

empty-IsSingle : IsSingle empty_gateway
unfolding count_id lookup
empty-IsSingle = record { once = λ x. omega arith; own_id = λ x m q. ground arith }

run-IsSingle_example :
    IsSingle (run (sending "m1" [] ∷ receiving 1 ∷ nacking message true ∷ []) empty_gateway)
unfolding count_id lookup
run-IsSingle_example =
    run-IsSingle (sending "m1" [] ∷ receiving 1 ∷ nacking message true ∷ []) empty_gateway
      (refl, (tt, (tt, tt))) empty-IsSingle

no_loss_example :
    copies "m1" (
      run
        (receiving 2 ∷ nacking message true ∷ closing ∷ [])
        (run (sending "m1" [] ∷ []) empty_gateway))
    ≡ copies "m1" (run (sending "m1" [] ∷ []) empty_gateway)
unfolding count_id lookup
no_loss_example =
    no_loss "m1" (receiving 2 ∷ nacking message true ∷ closing ∷ [])
      (run (sending "m1" [] ∷ []) empty_gateway) (tt, (tt, (tt, tt))) (tt, (tt, (tt, tt)))
      (run-IsSingle (sending "m1" [] ∷ []) empty_gateway (refl, tt) empty-IsSingle)

poison_dead_letters_example :
    rounds 3 3 (λ _. retryable) gateway
    ≡ record empty_gateway { dead_letter = record message { receive_count = 3 } ∷ [] }
unfolding lookup
poison_dead_letters_example =
    poison_dead_letters 2 3 (λ _. retryable) message gateway refl refl refl (λ _. refl)
      (omega arith)

abbrev worker : Worker
worker = record {
  max_concurrent = 1;
  max_attempts = 3;
  receive_batch_size = 2;
  gateway = gateway;
  active = [];
}

active-bound_example :
    length (run_worker (ticking ∷ ticking ∷ finishing "m1" handled ∷ []) worker).active ≤ 3
active-bound_example =
    active-bound (ticking ∷ ticking ∷ finishing "m1" handled ∷ []) worker (omega arith)
      (omega arith)
