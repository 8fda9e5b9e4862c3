-- ===== src/Http/SecurityHeaders.antt =====
-- app/core/middleware.py: SecurityHeadersMiddleware. Starlette's `MutableHeaders.setdefault` is an
-- argument: it adds a header that is not there and leaves one that is.
use ai_platform_template.Base.{
  ℕ, ◌-◌, ◌≡◌, refl, ap, ◌∙◌, ◌&&◌, Bool, true, false, Option, none, some, List, [], ◌∷◌, ◌++◌, map,
  or_else, arith, if◌then◌else◌,
}
use ai_platform_template.Base.Eq.{◌==◌, ==_iff}
use ai_platform_template.Dict.{lookup}
use ai_platform_template.Http.Bytes.{Bytes, ascii, bytes_eq, decimal}
use ai_platform_template.Http.Asgi.{
  Headers, State, Scope, Sent, response_start, response_body, App, done, raises, receives, awaits,
  sends, takes, reads, writes, logs, Arrival, run, sending, logging,
}

abbrev pub Setdefault : Type 0
Setdefault = Bytes → Bytes → Headers → Headers

-- What the first header of each name is after `setdefault`.
abbrev pub IsSetdefault : Setdefault → Type 0
IsSetdefault setdefault =
    (name key value : Bytes) (headers : Headers)
    → lookup name (setdefault key value headers)
      ≡ (if key == name then some (or_else (lookup key headers) value) else lookup name headers)

abbrev hsts : Bool → ℕ → Headers
hsts false seconds = []
hsts true seconds =
    (
      ascii "strict-transport-security",
      ascii "max-age=" ++ (decimal seconds ++ ascii "; includeSubDomains"),
    )
    ∷ []

-- The headers that the middleware sets, in its order.
abbrev pub defaults : Bool → ℕ → Headers
defaults hsts_enabled seconds =
    (ascii "x-content-type-options", ascii "nosniff")
    ∷ (ascii "x-frame-options", ascii "DENY")
    ∷ (ascii "referrer-policy", ascii "no-referrer")
    ∷ (ascii "permissions-policy", ascii "camera=(), microphone=(), geolocation=()")
    ∷ hsts hsts_enabled seconds

abbrev pub set_all : Setdefault → Headers → Headers → Headers
set_all setdefault [] headers = headers
set_all setdefault ((k, v) ∷ d) headers = set_all setdefault d (setdefault k v headers)

-- `send_with_headers`
abbrev pub with_headers : Setdefault → Headers → Sent → Sent
with_headers setdefault d (response_start status headers) =
    response_start status (set_all setdefault d headers)
with_headers setdefault d (response_body body) = response_body body

unfoldable pub resend : (Sent → Sent) → App → App
resend f done = done
resend f (raises e) = raises e
resend f (receives k) = receives (λ n r. resend f (k n r))
resend f (awaits limit k late) = awaits limit (λ n r. resend f (k n r)) (resend f late)
resend f (sends m a) = sends (f m) (resend f a)
resend f (takes n a) = takes n (resend f a)
resend f (reads g) = reads (λ s. resend f (g s))
resend f (writes g a) = writes g (resend f a)
resend f (logs l a) = logs l (resend f a)

-- `__call__`
unfoldable pub secure : Setdefault → Bool → ℕ → Scope → App → App
unfolding resend
secure setdefault hsts_enabled seconds scope app =
    if scope.is_http
    then resend (with_headers setdefault (defaults hsts_enabled seconds)) app
    else app

run-resend :
    (f : Sent → Sent) (app : App) (s : State) (i : List Arrival)
    → run (resend f app) s i ≡ record (run app s i) { sent = map f (run app s i).sent }
unfolding resend run
run-resend f done s i = refl
run-resend f (raises e) s i = refl
run-resend f (receives k) s [] = refl
run-resend f (receives k) s ((n, none) ∷ i) = refl
run-resend f (receives k) s ((n, some r) ∷ i) = run-resend f (k n r) s i
run-resend f (awaits limit k late) s [] = refl
run-resend f (awaits limit k late) s ((n, none) ∷ i) =
    ground (arith, run-resend f late s ((n - limit, none) ∷ i))
run-resend f (awaits limit k late) s ((n, some r) ∷ i) =
    ground (arith, run-resend f (k n r) s i, run-resend f late s ((n - limit, some r) ∷ i))
run-resend f (sends m a) s i = ap (sending (f m)) (run-resend f a s i)
run-resend f (takes n a) s i = run-resend f a s i
run-resend f (reads g) s i = run-resend f (g s) s i
run-resend f (writes g a) s i = run-resend f a (g s) i
run-resend f (logs l a) s i = ap (logging l) (run-resend f a s i)

abbrev pub first_of : Option Bytes → Option Bytes → Option Bytes
first_of none o = o
first_of (some v) o = some v

set_all-lookup :
    (setdefault : Setdefault) (name : Bytes) (d headers : Headers)
    → IsSetdefault setdefault
    → lookup name (set_all setdefault d headers) ≡ first_of (lookup name headers) (lookup name d)
unfolding lookup
set_all-lookup setdefault name [] headers h = ground arith
set_all-lookup setdefault name ((k, v) ∷ d) headers h = ground (
  arith,
  set_all-lookup setdefault name d (setdefault k v headers) h,
  h name k v headers,
  ==_iff k name,
)

-- What the middleware promises under a name.
abbrev pub promised : Bool → ℕ → Bytes → Option Bytes
promised hsts_enabled seconds name =
    if ascii "x-content-type-options" == name
    then some (ascii "nosniff")
    else if ascii "x-frame-options" == name
    then some (ascii "DENY")
    else if ascii "referrer-policy" == name
    then some (ascii "no-referrer")
    else if ascii "permissions-policy" == name
    then some (ascii "camera=(), microphone=(), geolocation=()")
    else if hsts_enabled && ascii "strict-transport-security" == name
    then some (ascii "max-age=" ++ (decimal seconds ++ ascii "; includeSubDomains"))
    else none

-- The same responses one for one, with each header of one name that was sent or else is promised.
abbrev pub IsSecured : Bytes → Option Bytes → List Sent → List Sent → Type 0
IsSecured name policy [] [] = Unit
IsSecured name policy [] (_ ∷ _) = false ≡ true
IsSecured name policy (_ ∷ _) [] = false ≡ true
IsSecured name policy (response_start status headers ∷ ms) (response_start status' headers' ∷ ms') =
    (status' ≡ status)
    × (lookup name headers' ≡ first_of (lookup name headers) policy)
    × IsSecured name policy ms ms'
IsSecured name policy (response_body body ∷ ms) (response_body body' ∷ ms') =
    (body' ≡ body) × IsSecured name policy ms ms'
IsSecured name policy (response_start _ _ ∷ ms) (response_body _ ∷ ms') = false ≡ true
IsSecured name policy (response_body _ ∷ ms) (response_start _ _ ∷ ms') = false ≡ true

lookup-defaults :
    (hsts_enabled : Bool) (seconds : ℕ) (name : Bytes)
    → lookup name (defaults hsts_enabled seconds) ≡ promised hsts_enabled seconds name
unfolding lookup
lookup-defaults true seconds name = ground arith
lookup-defaults false seconds name = ground arith

with_headers-IsSecured :
    (setdefault : Setdefault) (hsts_enabled : Bool) (seconds : ℕ) (name : Bytes) (ms : List Sent)
    → IsSetdefault setdefault
    → IsSecured name
        (promised hsts_enabled seconds name)
        ms
        (map (with_headers setdefault (defaults hsts_enabled seconds)) ms)
with_headers-IsSecured setdefault hsts_enabled seconds name [] h = tt
with_headers-IsSecured setdefault hsts_enabled seconds name (response_start status headers ∷ ms) h =
    (
      refl,
      set_all-lookup setdefault name (defaults hsts_enabled seconds) headers h
          ∙ ap (first_of (lookup name headers)) (lookup-defaults hsts_enabled seconds name),
      with_headers-IsSecured setdefault hsts_enabled seconds name ms h,
    )
with_headers-IsSecured setdefault hsts_enabled seconds name (response_body body ∷ ms) h =
    (refl, with_headers-IsSecured setdefault hsts_enabled seconds name ms h)

-- For an HTTP request, and a `setdefault` that adds what is missing: the run of the application stays
-- as it is, but for the headers of its responses; and each response that it starts has under each name the
-- application's own header if it set one, else the one that the middleware promises: nosniff, DENY,
-- no-referrer and the closed permissions, and the HSTS line with its seconds if it is enabled.
pub secure_sets :
    (setdefault : Setdefault) (hsts_enabled : Bool) (seconds : ℕ) (scope : Scope) (app : App)
    (s : State) (i : List Arrival) (name : Bytes)
    → IsSetdefault setdefault
    → scope.is_http ≡ true
    → let r = run app s i in
      let r' = run (secure setdefault hsts_enabled seconds scope app) s i in
      (r' ≡ record r { sent = r'.sent })
      × IsSecured name (promised hsts_enabled seconds name) r.sent r'.sent
unfolding secure
secure_sets setdefault hsts_enabled seconds scope app s i name h http =
    let e = run-resend (with_headers setdefault (defaults hsts_enabled seconds)) app s i in
    rw (http, e)
      (refl, with_headers-IsSecured setdefault hsts_enabled seconds name (run app s i).sent h)
