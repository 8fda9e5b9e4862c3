-- ===== src/Webhooks.antt =====
-- app/modules/messaging/webhooks/signing.py and dispatcher.py. HMAC with SHA-256 is an argument, of the
-- secret and the bytes; so is what the HTTP client comes to. Times are whole seconds since the epoch.
use ai_platform_template.Base.{
  ℕ, ◌+◌, ◌-◌, ◌≤◌, ◌≡◌, ◌↔◌, ap, String, Bool, true, false, ◌&&◌, ◌||◌, Option, none, some, [],
  ◌∷◌, ◌++◌, leb, ltb, arith, if◌then◌else◌,
}
use ai_platform_template.Base.Eq.{◌==◌, ==_iff}
use ai_platform_template.Base.Result.{Exception, value_error, Result, ok, err}
use ai_platform_template.Http.Bytes.{Bytes, ascii, bytes_eq, decimal}

pub record WebhookSigner : Type 0 where
  pub secret : Bytes
  pub tolerance_seconds : ℕ

abbrev is_empty : Bytes → Bool
is_empty [] = true
is_empty (_ ∷ _) = false

-- `WebhookSigner.__init__`
unfoldable pub build : Bytes → ℕ → Result Exception WebhookSigner
build secret tolerance_seconds =
    if is_empty secret || leb tolerance_seconds 0
    then err value_error
    else ok (record { secret = secret; tolerance_seconds = tolerance_seconds })

-- `_signed_payload`
abbrev pub signed_payload : Bytes → ℕ → Bytes
signed_payload payload timestamp = decimal timestamp ++ (ascii "." ++ payload)

pub record WebhookDeliveryResult : Type 0 where
  pub status_code : Option ℕ
  pub error : Option String

-- `succeeded`
abbrev pub succeeded : WebhookDeliveryResult → Bool
succeeded r = elim r.status_code [ none ↦ false | some code ↦ leb 200 code && ltb code 300 ]

-- What `client.post` under the timeout comes to.
pub data Posted : Type 0 where
  responded : ℕ → Posted
  timed_out : Posted
  post_failed : String → Posted

-- A request to the receiver: the two webhook headers and the body.
pub record Delivery : Type 0 where
  pub timestamp : ℕ
  pub signature : Bytes
  pub body : Bytes

abbrev result_of : Posted → WebhookDeliveryResult
result_of (responded code) = record { status_code = some code; error = none }
result_of timed_out = record { status_code = none; error = some "Webhook dispatch timed out" }
result_of (post_failed text) = record { status_code = none; error = some text }

module _ (hmac_sha256 : Bytes → Bytes → Bytes) where
  unfoldable pub sign : WebhookSigner → Bytes → ℕ → Bytes
  sign s payload timestamp = ascii "v1=" ++ hmac_sha256 s.secret (signed_payload payload timestamp)

  unfoldable pub verify : WebhookSigner → Bytes → Bytes → ℕ → ℕ → Bool
  unfolding sign
  verify s payload signature timestamp now =
      if ltb s.tolerance_seconds ((now - timestamp) + (timestamp - now))
      then false
      else sign s payload timestamp == signature

  abbrev delivery : WebhookSigner → Bytes → ℕ → Delivery
  delivery s body now = record { timestamp = now; signature = sign s body now; body = body }

  -- `dispatch` at the time `now`: what is sent, and the result.
  unfoldable pub dispatch :
      WebhookSigner → Bytes → ℕ → (Delivery → Posted) → Delivery × WebhookDeliveryResult
  unfolding sign
  dispatch s body now post = (delivery s body now, result_of (post (delivery s body now)))

  -- A signature is accepted exactly when its time is within the tolerance of the receiver's clock, before
  -- or after, and it is the signature of that payload at that time.
  verify_iff :
      (s : WebhookSigner) (payload signature : Bytes) (timestamp now : ℕ)
      → (verify s payload signature timestamp now ≡ true) ↔ (
          (timestamp ≤ now + s.tolerance_seconds)
          × (now ≤ timestamp + s.tolerance_seconds)
          × (sign s payload timestamp ≡ signature))
  unfolding verify
  verify_iff s payload signature timestamp now = (
    λ h. (ground arith, ground arith, ground (arith, ==_iff (sign s payload timestamp) signature)),
    λ h. ground (arith, ==_iff (sign s payload timestamp) signature),
  )

  -- What `dispatch` sends is accepted by a receiver with the same secret whose clock is within its
  -- tolerance of the sender's, whatever tolerance the sender has and however the delivery ends.
  pub dispatch-verify :
      (s receiver : WebhookSigner) (body : Bytes) (now later : ℕ) (post : Delivery → Posted)
      → receiver.secret ≡ s.secret
      → now ≤ later + receiver.tolerance_seconds
      → later ≤ now + receiver.tolerance_seconds
      → let sent = (dispatch s body now post).0 in
        verify receiver sent.body sent.signature sent.timestamp later ≡ true
  unfolding dispatch sign
  dispatch-verify s receiver body now later post same early late =
      (verify_iff receiver body (sign s body now) now later).1
        (early, late, ap (λ key. ascii "v1=" ++ hmac_sha256 key (signed_payload body now)) same)
