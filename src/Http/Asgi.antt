-- ===== src/Http/Asgi.antt =====
-- The interface that app/core/middleware.py wraps: an ASGI application as the tree of what it does,
-- and its run against the messages that arrive. A `send` here does not fail.
use ai_platform_template.Base.{
  ℕ, ◌+◌, String, Bool, true, false, ◌-◌, ◌||◌, Option, none, some, ltb, if◌then◌else◌, List, [],
  ◌∷◌, ◌++◌,
}
use ai_platform_template.Base.Result.{Result}
use ai_platform_template.Http.Bytes.{Bytes}

abbrev pub Headers : Type 0
Headers = List (Bytes × Bytes)

-- `scope["state"]`, which an application and its middlewares share.
pub record State : Type 0 where
  pub request_id : Option Bytes
  pub principal : Option String

-- The entries of the scope that do not change; `is_http` is `scope["type"] == "http"`.
pub record Scope : Type 0 where
  pub is_http : Bool
  pub path : Bytes
  pub headers : Headers
  pub client : Option Bytes

pub data Received : Type 0 where
  http_request : Bytes → Bool → Received
  disconnect : Received

pub data Sent : Type 0 where
  response_start : ℕ → Headers → Sent
  response_body : Bytes → Sent

-- An exception: RequestBodyTooLarge, TimeoutError, UnicodeDecodeError, or one of the application.
pub data Failure : Type 0 where
  body_too_large timeout_error unicode_error : Failure
  failed : String → Failure

-- A line of the access log.
pub record LogEntry : Type 0 where
  pub status : ℕ
  pub request_id : Bytes
  pub principal : Option String

-- A message, or the exception that `receive` raises, after some ticks of waiting; or, with `none`, the
-- ticks for which nothing has arrived so far, and the end of what is known.
abbrev pub Arrival : Type 0
Arrival = ℕ × Option (Result Failure Received)

-- `receives` goes on with what `receive` gives or raises, and knows the ticks that it took; `awaits`
-- does so if that takes less than its limit, and else is cut off there and goes on with its last argument.
pub data App : Type 0 where
  done : App
  raises : Failure → App
  receives : (ℕ → Result Failure Received → App) → App
  awaits : ℕ → (ℕ → Result Failure Received → App) → App → App
  sends : Sent → App → App
  takes : ℕ → App → App
  reads : (State → App) → App
  writes : (State → State) → App → App
  logs : LogEntry → App → App

pub data Outcome : Type 0 where
  returned waiting : Outcome
  raised : Failure → Outcome

pub record Run : Type 0 where
  pub sent : List Sent
  pub logged : List LogEntry
  pub state : State
  pub outcome : Outcome

abbrev pub ended : Outcome → State → Run
ended o s = record { sent = []; logged = []; state = s; outcome = o }

abbrev pub sending : Sent → Run → Run
sending m r = record r { sent = m ∷ r.sent }

abbrev pub logging : LogEntry → Run → Run
logging l r = record r { logged = l ∷ r.logged }

-- One run and then another.
abbrev pub followed_by : Run → Run → Run
followed_by r q = record q { sent = r.sent ++ q.sent; logged = r.logged ++ q.logged }

unfoldable pub run : App → State → List Arrival → Run
run done s i = ended returned s
run (raises e) s i = ended (raised e) s
run (receives k) s [] = ended waiting s
run (receives k) s ((n, none) ∷ i) = ended waiting s
run (receives k) s ((n, some r) ∷ i) = run (k n r) s i
run (awaits limit k late) s [] = ended waiting s
run (awaits limit k late) s ((n, none) ∷ i) =
    let cut_off = run late s ((n - limit, none) ∷ i) in
    if ltb n limit then ended waiting s else cut_off
run (awaits limit k late) s ((n, some r) ∷ i) =
    let got = run (k n r) s i in
    let cut_off = run late s ((n - limit, some r) ∷ i) in if ltb n limit then got else cut_off
run (sends m a) s i = sending m (run a s i)
run (takes n a) s i = run a s i
run (reads f) s i = run (f s) s i
run (writes f a) s i = run a (f s) i
run (logs l a) s i = logging l (run a s i)

-- `message["type"] == "http.response.start"`
abbrev pub is_start : Sent → Bool
is_start (response_start _ _) = true
is_start (response_body _) = false

abbrev pub starts : List Sent → ℕ
starts [] = 0
starts (response_start _ _ ∷ ms) = 1 + starts ms
starts (response_body _ ∷ ms) = starts ms

abbrev pub any_start : List Sent → Bool
any_start [] = false
any_start (m ∷ ms) = is_start m || any_start ms

abbrev pub is_over : Outcome → Bool
is_over waiting = false
is_over returned = true
is_over (raised e) = true
