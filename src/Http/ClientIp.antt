-- ===== src/Http/ClientIp.antt =====
-- app/core/middleware.py: IPRateLimitMiddleware.
use ai_platform_template.Base.{
  ℕ, ◌+◌, ◌-◌, ◌≤◌, ◌<◌, ◌≡◌, refl, ap, ◌∙◌, sym, not, ◌||◌, Option, none, some, List, [], ◌∷◌,
  ◌++◌, nat_beq, ltb, length, length-append, or_else, arith, if◌then◌else◌, if_split,
}
use mathlib.Core.List.{append_assoc}
use ai_platform_template.Base.Eq.{◌==◌}
use ai_platform_template.RateLimit.{RateLimitResult}
use ai_platform_template.Http.Bytes.{Bytes, ascii, bytes_eq, split, strip, decimal}
use ai_platform_template.Http.Asgi.{Headers, Scope, App}
use ai_platform_template.Http.RequestId.{Dumps, send_error}
use ai_platform_template.Http.Timeout.{is_excluded}

-- `hop.strip() … if hop.strip()`
abbrev pub stripped : List Bytes → List Bytes
stripped [] = []
stripped (part ∷ parts) = elim (strip part) [
  | [] ↦ stripped parts
  | b ∷ bs ↦ (b ∷ bs) ∷ stripped parts
]

-- The hops of every X-Forwarded-For header, in order.
unfoldable pub forwarded_hops : Headers → List Bytes
unfolding split strip
forwarded_hops [] = []
forwarded_hops ((name, value) ∷ headers) =
    let rest = forwarded_hops headers in
    if name == ascii "x-forwarded-for" then stripped (split 44 value) ++ rest else rest

abbrev pub element : ℕ → List Bytes → Option Bytes
element n [] = none
element n (x ∷ xs) = let rest = element (n - 1) xs in if nat_beq n 0 then some x else rest

-- `hops[-count]`; the chain is long enough.
abbrev pub from_right : ℕ → List Bytes → Option Bytes
from_right count hops = element (length hops - count) hops

-- `_extract_client_ip`
unfoldable pub extract_client_ip : ℕ → Option Bytes → Headers → Bytes
unfolding forwarded_hops
extract_client_ip trusted_proxy_count client headers =
    let peer = or_else client (ascii "unknown") in
    let hops = forwarded_hops headers in
    if nat_beq trusted_proxy_count 0
    then peer
    else if ltb (length hops) trusted_proxy_count
    then peer
    else or_else (from_right trusted_proxy_count hops) peer

abbrev retry_header : Option ℕ → Headers
retry_header none = []
retry_header (some seconds) = (ascii "retry-after", decimal seconds) ∷ []

-- `_send_rate_limited`
abbrev pub send_rate_limited : Dumps → Option ℕ → Scope → Bytes → App
send_rate_limited dumps retry_after_seconds =
    send_error dumps 429 "rate_limit_exceeded" "Too many requests from this client"
      (retry_header retry_after_seconds)

abbrev check_first : Dumps → (Bytes → RateLimitResult) → ℕ → Scope → Bytes → App → App
check_first dumps check trusted_proxy_count scope uuid app =
    let result = check (extract_client_ip trusted_proxy_count scope.client scope.headers) in
    if result.allowed then app else send_rate_limited dumps result.retry_after_seconds scope uuid

-- `__call__`, with the limiter that the application holds, if it holds one
unfoldable pub limit_ip :
    Dumps → Option (Bytes → RateLimitResult) → List Bytes → ℕ → Scope → Bytes → App → App
unfolding is_excluded extract_client_ip send_error
limit_ip dumps limiter exclude_patterns trusted_proxy_count scope uuid app =
    if not scope.is_http || is_excluded exclude_patterns scope.path then app else elim limiter [
      | none ↦ app
      | some check ↦ check_first dumps check trusted_proxy_count scope uuid app
    ]

forwarded_hops-append :
    (hs ks : Headers) → forwarded_hops (hs ++ ks) ≡ forwarded_hops hs ++ forwarded_hops ks
unfolding forwarded_hops
forwarded_hops-append [] ks = refl
forwarded_hops-append ((name, value) ∷ hs) ks =
    let rest = forwarded_hops-append hs ks in
    if_split
      (λ (d : List Bytes).
        (if name == ascii "x-forwarded-for"
          then stripped (split 44 value) ++ forwarded_hops (hs ++ ks)
          else forwarded_hops (hs ++ ks))
        ≡ d ++ forwarded_hops ks)
      (name == ascii "x-forwarded-for") (stripped (split 44 value) ++ forwarded_hops hs)
      (forwarded_hops hs)
      (λ e. rw e (
        ap (λ d. stripped (split 44 value) ++ d) rest
        ∙ sym (append_assoc (stripped (split 44 value)) (forwarded_hops hs) (forwarded_hops ks))))
      (λ e. rw e rest)

element-append : (n : ℕ) (xs ys : List Bytes) → element (length xs + n) (xs ++ ys) ≡ element n ys
element-append n [] ys = ground arith
element-append n (x ∷ xs) ys = ground (arith, element-append n xs ys)

from_right-append :
    (count : ℕ) (xs ys : List Bytes)
    → count ≤ length ys
    → from_right count (xs ++ ys) ≡ from_right count ys
from_right-append count xs ys h =
    ap (λ n. element n (xs ++ ys)) (omega (arith, length-append xs ys))
    ∙ element-append (length ys - count) xs ys

element-found : (n : ℕ) (xs : List Bytes) → n < length xs → (x : Bytes) × (element n xs ≡ some x)
element-found n [] h = absurd (omega arith)
element-found n (x ∷ xs) h =
    if_split (λ (o : Option Bytes). (y : Bytes) × (o ≡ some y)) (nat_beq n 0) (some x)
      (element (n - 1) xs) (λ e. (x, refl)) (λ e. element-found (n - 1) xs (ground arith))

-- With at least one trusted proxy, where the headers that the trusted proxies wrote, `own`, stand after
-- the client's, and hold at least as many hops as there are trusted proxies: the address is a hop of
-- `own`, that many from the right, whatever the client sent before.
pub extract_client_ip-trusted :
    (count : ℕ) (client : Option Bytes) (sent own : Headers)
    → 0 < count
    → count ≤ length (forwarded_hops own)
    → some (extract_client_ip count client (sent ++ own)) ≡ from_right count (forwarded_hops own)
unfolding extract_client_ip
extract_client_ip-trusted count client sent own p h =
    let f = forwarded_hops-append sent own in
    let g = from_right-append count (forwarded_hops sent) (forwarded_hops own) h in
    let l = length-append (forwarded_hops sent) (forwarded_hops own) in
    let k =
      element-found (length (forwarded_hops own) - count) (forwarded_hops own) (omega arith) in
    rw f (ground (arith, g, l, k.1))
