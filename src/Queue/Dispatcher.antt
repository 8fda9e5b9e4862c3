-- ===== src/Queue/Dispatcher.antt =====
-- app/modules/messaging/queue/worker.py: TypedMessageDispatcher. A handler is what it makes of a
-- message; a ValueError of the dispatcher itself is a retryable failure for the worker.
use ai_platform_template.Base.{String, Option, none, some, [], ◌∷◌}
use ai_platform_template.Base.Eq.{string_eq}
use ai_platform_template.Base.Json.{Json, text, null, array, object}
use ai_platform_template.Base.Result.{Exception, value_error, Result, ok, err}
use ai_platform_template.Dict.{Dict, lookup}
use ai_platform_template.Queue.Gateway.{QueueMessage}
use ai_platform_template.Queue.Worker.{Outcome, retryable}

abbrev pub Handler : Type 0
Handler = QueueMessage → Outcome

pub record TypedMessageDispatcher : Type 0 where
  pub handlers : Dict String Handler
  pub type_field : String
  pub unknown_type : Option Handler

-- `__init__`
unfoldable pub build :
    Dict String Handler → String → Option Handler → Result Exception TypedMessageDispatcher
build [] type_field unknown_type = err value_error
build (h ∷ hs) type_field unknown_type =
    ok (record { handlers = h ∷ hs; type_field = type_field; unknown_type = unknown_type })

-- The handlers' keys are texts, so a number or a Boolean finds none.
abbrev handler_of : Json → Dict String Handler → Option Handler
handler_of (text s) d = lookup s d
handler_of _ d = none

abbrev route : Option Handler → Option Handler → QueueMessage → Outcome
route (some handler) unknown message = handler message
route none (some unknown) message = unknown message
route none none message = retryable

-- No type, a null one, or one that is no key of a dict (a list or an object) raises.
abbrev dispatch_typed : Option Json → TypedMessageDispatcher → QueueMessage → Outcome
dispatch_typed none d message = retryable
dispatch_typed (some null) d message = retryable
dispatch_typed (some (array _)) d message = retryable
dispatch_typed (some (object _)) d message = retryable
dispatch_typed (some type) d message = route (handler_of type d.handlers) d.unknown_type message

-- `__call__`
unfoldable pub call : TypedMessageDispatcher → QueueMessage → Outcome
call d message = dispatch_typed (lookup d.type_field message.body) d message
