-- ===== src/Queue/Gateway/Places.antt =====
-- Where the messages are: every message is in one place, and only an acknowledgement removes one.
pub mod Runs
use ai_platform_template.Base.{
  ℕ, zero, suc, ◌+◌, ◌-◌, ◌≤◌, ◌≡◌, refl, ap, ◌∙◌, String, Bool, false, some, List, [], ◌∷◌, ◌++◌,
  arith, min, max, length, All, is_some, Bool-cases, Option-cases, List-cases, inl, inr,
  if◌then◌else◌,
}
use ai_platform_template.Base.Eq.{◌==◌, ==_iff, string_eq}
use ai_platform_template.Base.Json.{Json}
use ai_platform_template.Dict.{Dict, lookup, insert}
use ai_platform_template.Dict.Laws.{lookup-insert, lookup-erase}
use ai_platform_template.Queue.Gateway.{
  QueueMessage, InMemoryQueueGateway, new_message, redelivered, send, get_nowait, put_inflight,
  receive, ack, nack, close,
}

-- How many messages of a list have the id.
unfoldable pub count_id : String → List QueueMessage → ℕ
count_id x [] = 0
count_id x (m ∷ ms) = (if m.id == x then 1 else 0) + count_id x ms

abbrev pub flying : String → Dict String QueueMessage → ℕ
flying x d = if is_some (lookup x d) then 1 else 0

-- The copies of a message in the three places.
abbrev pub copies : String → InMemoryQueueGateway → ℕ
copies x g = count_id x g.queue + flying x g.inflight + count_id x g.dead_letter

-- An entry in flight stands under its own id, and no id occurs twice.
pub record IsSingle (g : InMemoryQueueGateway) : Type 0 where
  pub once : (x : String) → copies x g ≤ 1
  pub own_id : (x : String) (m : QueueMessage) → lookup x g.inflight ≡ some m → m.id ≡ x

count_id-append :
    (x : String) (ms ns : List QueueMessage) → count_id x (ms ++ ns) ≡ count_id x ms + count_id x ns
unfolding count_id
count_id-append x [] ns = omega arith
count_id-append x (m ∷ ms) ns = omega (arith, count_id-append x ms ns)

-- The messages taken are the head of the queue, in order, and at most as many as asked for.
pub get_nowait-append :
    (n : ℕ) (q : List QueueMessage)
    → ((get_nowait n q).0 ++ (get_nowait n q).1 ≡ q) × (length (get_nowait n q).0 ≤ n)
unfolding get_nowait
get_nowait-append zero q = (refl, omega arith)
get_nowait-append (suc n) [] = (refl, omega arith)
get_nowait-append (suc n) (m ∷ q) =
    (ap (λ r. m ∷ r) (get_nowait-append n q).0, omega (arith, (get_nowait-append n q).1))

count-get_nowait :
    (x : String) (n : ℕ) (q : List QueueMessage)
    → count_id x (get_nowait n q).0 + count_id x (get_nowait n q).1 ≡ count_id x q
unfolding get_nowait count_id
count-get_nowait x zero q = omega arith
count-get_nowait x (suc n) [] = omega arith
count-get_nowait x (suc n) (m ∷ q) = omega (arith, count-get_nowait x n q)

flying-put_inflight :
    (x : String) (ms : List QueueMessage) (d : Dict String QueueMessage)
    → flying x (put_inflight ms d) ≡ min 1 (count_id x ms + flying x d)
unfolding put_inflight count_id
flying-put_inflight x [] d = ground arith
flying-put_inflight x (m ∷ ms) d =
    ground (arith, flying-put_inflight x ms (insert m.id m d), lookup-insert m.id x m d)

own_id-put_inflight :
    (x : String) (ms : List QueueMessage) (d : Dict String QueueMessage)
    → ((y : String) (m : QueueMessage) → lookup y d ≡ some m → m.id ≡ y)
    → (m : QueueMessage) → lookup x (put_inflight ms d) ≡ some m
    → m.id ≡ x
unfolding put_inflight
own_id-put_inflight x [] d own m q = own x m q
own_id-put_inflight x (n ∷ ms) d own m q =
    own_id-put_inflight x ms (insert n.id n d)
      (λ y k h. ground (arith, lookup-insert n.id y n d, ==_iff n.id y, own y k)) m q

-- What is received from an open gateway comes off the head of the queue in order; it is at most
-- `max_messages`, but one message is taken even where that is 0.
pub receive_fifo :
    (n : ℕ) (g : InMemoryQueueGateway)
    → g.closed ≡ false
    → let (messages, g') = receive n g in
      (messages ++ g'.queue ≡ g.queue) × (length messages ≤ max n 1)
unfolding receive
receive_fifo n g o = elim (List-cases g.queue) [
  | inl empty ↦ ground arith
  | inr (m, rest, q) ↦ ground (arith, get_nowait-append (n - 1) rest)
]

-- Receiving moves messages and loses none.
receive-copies :
    (x : String) (n : ℕ) (g : InMemoryQueueGateway)
    → IsSingle g
    → copies x (receive n g).1 ≡ copies x g
unfolding receive count_id
receive-copies x n g s = elim (List-cases g.queue) [
  | inl empty ↦ ground arith
  | inr (m, rest, q) ↦ ground (
    arith,
    s.once x,
    count-get_nowait x (n - 1) rest,
    flying-put_inflight x (m ∷ (get_nowait (n - 1) rest).0) g.inflight,
  )
]

receive-own_id :
    (n : ℕ) (g : InMemoryQueueGateway) (x : String) (m : QueueMessage)
    → IsSingle g
    → lookup x (receive n g).1.inflight ≡ some m
    → m.id ≡ x
unfolding receive
receive-own_id n g x m s h = elim (Bool-cases g.closed) [
  | inl shut ↦ s.own_id x m (ground arith)
  | inr o ↦ elim (List-cases g.queue) [
    | inl empty ↦ s.own_id x m (ground arith)
    | inr (k, rest, q) ↦
        own_id-put_inflight x (k ∷ (get_nowait (n - 1) rest).0) g.inflight s.own_id m (ground arith)
  ]
]

ack-copies :
    (x : String) (m : QueueMessage) (g : InMemoryQueueGateway)
    → copies x (ack m g) + (if m.id == x then flying x g.inflight else 0) ≡ copies x g
unfolding ack
ack-copies x m g = ground (arith, lookup-erase m.id x g.inflight)

nack-copies :
    (x : String) (m : QueueMessage) (requeue : Bool) (g : InMemoryQueueGateway)
    → IsSingle g
    → copies x (nack m requeue g) ≡ copies x g
unfolding nack count_id
nack-copies x m requeue g s = elim (Option-cases (lookup m.id g.inflight)) [
  | inl missing ↦ ground arith
  | inr (stored, q) ↦ ground (
    arith,
    lookup-erase m.id x g.inflight,
    s.own_id m.id stored q,
    ==_iff m.id x,
    count_id-append x g.queue (redelivered stored ∷ []),
    count_id-append x g.dead_letter (stored ∷ []),
  )
]

nack-own_id :
    (m : QueueMessage) (requeue : Bool) (g : InMemoryQueueGateway) (x : String) (k : QueueMessage)
    → IsSingle g
    → lookup x (nack m requeue g).inflight ≡ some k
    → k.id ≡ x
unfolding nack
nack-own_id m requeue g x k s h = elim (Option-cases (lookup m.id g.inflight)) [
  | inl missing ↦ s.own_id x k (ground arith)
  | inr (stored, q) ↦ s.own_id x k (ground (arith, lookup-erase m.id x g.inflight))
]
