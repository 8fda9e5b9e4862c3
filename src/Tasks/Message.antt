-- ===== src/Tasks/Message.antt =====
-- app/modules/messaging/tasks/message.py: TaskMessage, the body that dispatchers send and the worker
-- parses. `model_validate` is spelled out from the fields' declarations: strict texts of length 1 or
-- more, no other keys.
use ai_platform_template.Base.{
  ◌≡◌, String, Bool, true, ◌&&◌, ◌||◌, not, Option, none, some, [], ◌∷◌, arith, if◌then◌else◌,
}
use ai_platform_template.Base.Eq.{◌==◌, string_eq}
use ai_platform_template.Base.Json.{Json, text, null}
use ai_platform_template.Dict.{Dict, lookup}

pub record TaskMessage : Type 0 where
  pub task_id : String
  pub type : String
  pub request_id : Option String

-- `model_dump(exclude_none=True)`
unfoldable pub to_body : TaskMessage → Dict String Json
to_body m =
    ("task_id", text m.task_id)
    ∷ ("type", text m.type)
    ∷ (elim m.request_id [ none ↦ [] | some id ↦ ("request_id", text id) ∷ [] ])

-- `extra="forbid"`
unfoldable pub only_fields : Dict String Json → Bool
only_fields [] = true
only_fields ((k, _) ∷ d) = (k == "task_id" || (k == "type" || k == "request_id")) && only_fields d

abbrev filled : String → Option String
filled s = if s == "" then none else some s

abbrev text_field : Option Json → Option String
text_field (some (text s)) = filled s
text_field _ = none

abbrev optional_field : Option Json → Option (Option String)
optional_field none = some none
optional_field (some null) = some none
optional_field (some (text s)) = if s == "" then none else some (some s)
optional_field _ = none

abbrev message_of : Option String → Option String → Option (Option String) → Option TaskMessage
message_of (some id) (some type) (some request) =
    some (record { task_id = id; type = type; request_id = request })
message_of _ _ _ = none

-- `from_body`; `none` is the NonRetryableMessageError.
unfoldable pub from_body : Dict String Json → Option TaskMessage
unfolding only_fields
from_body body =
    if only_fields body
    then message_of (text_field (lookup "task_id" body)) (text_field (lookup "type" body))
        (optional_field (lookup "request_id" body))
    else none

abbrev pub is_filled : Option String → Bool
is_filled none = true
is_filled (some s) = not (s == "")

-- The constraints on the fields.
abbrev pub is_valid : TaskMessage → Bool
is_valid m = not (m.task_id == "") && (not (m.type == "") && is_filled m.request_id)

-- The worker reads back exactly the messages that a dispatcher can send: parsing the body of a message
-- gives the message, if its fields satisfy the constraints, and is refused otherwise.
pub from_body-to_body :
    (m : TaskMessage) → from_body (to_body m) ≡ (if is_valid m then some m else none)
unfolding from_body to_body only_fields lookup
from_body-to_body m = by_request m.request_id
  where
    by_request :
        (r : Option String)
        → from_body (to_body (record m { request_id = r })) ≡ (
            if is_valid (record m { request_id = r })
            then some (record m { request_id = r })
            else none)
    by_request none = ground arith
    by_request (some id) = ground arith
