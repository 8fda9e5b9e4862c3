-- ===== src/Tests/Auth.antt =====
-- Runs of app/modules/platform/identity/auth.py and of the webhook signer.
use ai_platform_template.Base.{◌≡◌, refl, true, some, none, Option, All, List, [], ◌∷◌, ◌++◌, arith}
use ai_platform_template.Http.Bytes.{Bytes, ascii, lower, bytes_equals}
use ai_platform_template.Auth.{
  ApiKey, Principal, require_principal, authenticate_bearer_token, enforce_rate_limit, match_keys,
  require_scopes, missing_scopes, holds,
}
use ai_platform_template.Auth.Access.{IsAmong, access_granted}
use ai_platform_template.Tests.RateLimit.{fractions}
use ai_platform_template.Webhooks.{WebhookSigner, responded, dispatch, verify, dispatch-verify}

abbrev bearer : Option Bytes → Bytes × Bytes
bearer none = ([], [])
bearer (some text) = (ascii "Bearer", text)

-- A digest that stands in for SHA-256.
abbrev digest : Bytes → Bytes
digest token = 7 ∷ token

abbrev keys : List ApiKey
keys =
    record { subject = "svc"; scopes = "tasks:read" ∷ "tasks:write" ∷ []; digest = 7 ∷ ascii "s3" }
    ∷ []

abbrev svc : Principal
svc = record { id = "svc"; scopes = "tasks:read" ∷ "tasks:write" ∷ [] }

access_granted_example :
    (svc ≡ svc)
    × ((key : ApiKey) × IsAmong key keys
        × (key.digest ≡ digest (bearer (some (ascii "s3"))).1)
        × (svc.id ≡ key.subject)
        × All (λ scope. holds scope key.scopes ≡ true) ("tasks:write" ∷ []))
unfolding require_principal authenticate_bearer_token match_keys lower bytes_equals
    enforce_rate_limit require_scopes missing_scopes
access_granted_example =
    access_granted bearer digest fractions 5 none none (some (ascii "s3")) keys ("tasks:write" ∷ [])
      svc svc refl refl

abbrev signer : WebhookSigner
signer = record { secret = ascii "k"; tolerance_seconds = 300 }

abbrev mac : Bytes → Bytes → Bytes
mac secret text = secret ++ text

dispatch-verify_example :
    let sent = (dispatch mac signer (ascii "{}") 1000 (λ _. responded 204)).0 in
    verify mac signer sent.body sent.signature sent.timestamp 1200 ≡ true
dispatch-verify_example =
    dispatch-verify mac signer signer (ascii "{}") 1000 1200 (λ _. responded 204) refl (omega arith)
      (omega arith)
