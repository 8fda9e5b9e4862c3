-- ===== src/Http/RequestId.antt =====
-- app/core/middleware.py: the helpers `_request_id_from_scope` and `_content_length`, and the error
-- replies that the middlewares share. The text of a reply's JSON is an argument, `dumps`, of the code,
-- the message and the request id.
use ai_platform_template.Base.{
  ℕ, ◌≤◌, ◌≡◌, refl, ap, sym, subst, true, arith, String, Option, none, some, List, [], ◌∷◌, ◌++◌,
  length, if_intro, if◌then◌else◌,
}
use ai_platform_template.Base.Eq.{◌==◌}
use ai_platform_template.Http.Bytes.{Bytes, ascii, bytes_eq, lower, decimal, parse_int, is_utf8}
use ai_platform_template.Http.Asgi.{
  Headers, State, Scope, Sent, response_start, response_body, unicode_error, App, done, raises,
  sends, reads, writes, run, Run, Arrival, sending, ended, raised, returned, is_over, starts,
}

-- `json.dumps(payload).encode("utf-8")`, of the code, the message and the request id
abbrev pub Dumps : Type 0
Dumps = String → String → Bytes → Bytes

-- The first header of a name, whose case does not count.
unfoldable pub header : Bytes → Headers → Option Bytes
header name [] = none
header name ((k, v) ∷ hs) = if lower k == name then some v else header name hs

-- `if state.get("request_id")`: an empty one does not count.
abbrev pub present : Option Bytes → Option Bytes
present none = none
present (some []) = none
present (some (b ∷ bs)) = some (b ∷ bs)

abbrev set_request_id : Bytes → State → State
set_request_id id s = record s { request_id = some id }

abbrev from_header : Bytes → (Bytes → App) → Option Bytes → App
from_header fresh k none = writes (set_request_id fresh) (k fresh)
from_header fresh k (some value) =
    if is_utf8 value then writes (set_request_id value) (k value) else raises unicode_error

abbrev unless_present : App → (Bytes → App) → Option Bytes → App
unless_present otherwise k none = otherwise
unless_present otherwise k (some id) = k id

-- `_request_id_from_scope`, and what goes on with the id; `uuid` is the text of `uuid4().hex`.
unfoldable pub with_request_id : Scope → Bytes → (Bytes → App) → App
unfolding header
with_request_id scope uuid k = reads (λ state.
    unless_present
      (from_header (ascii "req_" ++ uuid) k (header (ascii "x-request-id") scope.headers)) k
      (present state.request_id))

-- `_content_length`: of the first such header; `none` where there is none or it is no number.
unfoldable pub content_length : Scope → Option ℕ
unfolding header parse_int
content_length scope = elim (header (ascii "content-length") scope.headers) [
  | none ↦ none
  | some value ↦ parse_int value
]

abbrev error_headers : Bytes → Bytes → Headers → Headers
error_headers body id more =
    (ascii "content-type", ascii "application/json")
    ∷ (ascii "content-length", decimal (length body))
    ∷ (ascii "x-request-id", id)
    ∷ more

-- The two messages of `_send_too_large`, `_send_timeout` and `_send_rate_limited`.
abbrev pub error_messages : Dumps → ℕ → String → String → Headers → Bytes → List Sent
error_messages dumps status code message more id =
    response_start status (error_headers (dumps code message id) id more)
    ∷ response_body (dumps code message id)
    ∷ []

abbrev send_all : List Sent → App
send_all [] = done
send_all (m ∷ ms) = sends m (send_all ms)

unfoldable pub send_error : Dumps → ℕ → String → String → Headers → Scope → Bytes → App
unfolding with_request_id
send_error dumps status code message more scope uuid =
    with_request_id scope uuid (λ id. send_all (error_messages dumps status code message more id))

send_all-quiet :
    (ms : List Sent) (s : State) (i j : List Arrival)
    → run (send_all ms) s i ≡ run (send_all ms) s j
unfolding run
send_all-quiet [] s i j = refl
send_all-quiet (m ∷ ms) s i j = ap (sending m) (send_all-quiet ms s i j)

abbrev pub reply_run : List Sent → State → Run
reply_run ms s = record { sent = ms; logged = []; state = s; outcome = returned }

run-send_all :
    (ms : List Sent) (s : State) (i : List Arrival) → run (send_all ms) s i ≡ reply_run ms s
unfolding run
run-send_all [] s i = refl
run-send_all (m ∷ ms) s i = ap (sending m) (run-send_all ms s i)

-- A reply depends on nothing that arrives.
module _ (dumps : Dumps) (status : ℕ) (code message : String) (more : Headers) (scope : Scope)
    (uuid : Bytes) where
  pub send_error-quiet :
      (s : State) (i j : List Arrival)
      → run (send_error dumps status code message more scope uuid) s i
        ≡ run (send_error dumps status code message more scope uuid) s j
  unfolding run send_error with_request_id
  send_error-quiet s i j = by_state (present s.request_id)
    where
      messages : Bytes → App
      messages id = send_all (error_messages dumps status code message more id)

      by_header :
          (o : Option Bytes)
          → run (from_header (ascii "req_" ++ uuid) messages o) s i
            ≡ run (from_header (ascii "req_" ++ uuid) messages o) s j
      by_header none =
          send_all-quiet (error_messages dumps status code message more (ascii "req_" ++ uuid))
            (set_request_id (ascii "req_" ++ uuid) s) i j
      by_header (some v) =
          if_intro (λ (a : App). run a s i ≡ run a s j) (is_utf8 v)
            (writes (set_request_id v) (messages v)) (raises unicode_error)
            (send_all-quiet (error_messages dumps status code message more v) (set_request_id v s) i
              j)
            refl

      by_state :
          (o : Option Bytes)
          → run
              (unless_present
                (from_header
                  (ascii "req_" ++ uuid)
                  messages
                  (header (ascii "x-request-id") scope.headers))
                messages
                o)
              s
              i
            ≡ run
                (unless_present
                  (from_header
                    (ascii "req_" ++ uuid)
                    messages
                    (header (ascii "x-request-id") scope.headers))
                  messages
                  o)
                s
                j
      by_state none = by_header (header (ascii "x-request-id") scope.headers)
      by_state (some id) = send_all-quiet (error_messages dumps status code message more id) s i j

  -- A reply is its two messages for some request id, unless the request's own id is no UTF-8.
  pub send_error-cases {ℓ} :
      (P : Run → Type ℓ) (s : State) (i : List Arrival)
      → ((id : Bytes) (t : State)
          → P (reply_run (error_messages dumps status code message more id) t))
      → P (ended (raised unicode_error) s)
      → P (run (send_error dumps status code message more scope uuid) s i)
  unfolding run send_error with_request_id
  send_error-cases P s i replies fails = by_state (present s.request_id)
    where
      sent_for :
          (id : Bytes) (t : State)
          → P (run (send_all (error_messages dumps status code message more id)) t i)
      sent_for id t =
          subst P (sym (run-send_all (error_messages dumps status code message more id) t i))
            (replies id t)

      messages : Bytes → App
      messages id = send_all (error_messages dumps status code message more id)

      by_header : (o : Option Bytes) → P (run (from_header (ascii "req_" ++ uuid) messages o) s i)
      by_header none = sent_for (ascii "req_" ++ uuid) (set_request_id (ascii "req_" ++ uuid) s)
      by_header (some v) =
          if_intro (λ (a : App). P (run a s i)) (is_utf8 v) (writes (set_request_id v) (messages v))
            (raises unicode_error) (sent_for v (set_request_id v s)) fails

      by_state :
          (o : Option Bytes)
          → P (
              run
                (unless_present
                  (from_header
                    (ascii "req_" ++ uuid)
                    messages
                    (header (ascii "x-request-id") scope.headers))
                  messages
                  o)
                s
                i)
      by_state none = by_header (header (ascii "x-request-id") scope.headers)
      by_state (some id) = sent_for id s

  pub send_error-over :
      (s : State) (i : List Arrival)
      → is_over (run (send_error dumps status code message more scope uuid) s i).outcome ≡ true
  send_error-over s i = send_error-cases (λ r. is_over r.outcome ≡ true) s i (λ id t. refl) refl

  pub send_error-once :
      (s : State) (i : List Arrival)
      → starts (run (send_error dumps status code message more scope uuid) s i).sent ≤ 1
  send_error-once s i =
      send_error-cases (λ r. starts r.sent ≤ 1) s i (λ id t. omega arith) (omega arith)
