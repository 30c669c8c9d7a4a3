-- ===== src/Core/Errors.antt =====
-- core/errors.py, and the rendering of a raised exception by api/exception_handlers.py.
pub mod Codes
use banking_ai_platform.Prelude.{
  ◌≡◌, ◌≢◌, ℕ, String, Option, none, some, [], ◌∷◌, is_empty, if◌then◌else◌, ◌<>◌, Items, array,
  Dict,
}

-- The classes of the hierarchy.
pub data ErrorClass : Type 0 where
  app_error validation_app_error authentication_error authorization_error not_found_error :
      ErrorClass
  conflict_error rate_limit_error workflow_state_error llm_provider_error : ErrorClass
  model_router_error agent_error : ErrorClass

unfoldable pub code : ErrorClass → String
code app_error = "app_error"
code validation_app_error = "validation_error"
code authentication_error = "authentication_error"
code authorization_error = "authorization_error"
code not_found_error = "not_found"
code conflict_error = "conflict"
code rate_limit_error = "rate_limited"
code workflow_state_error = "invalid_workflow_state"
code llm_provider_error = "llm_provider_error"
code model_router_error = "model_router_error"
code agent_error = "agent_error"

-- `WorkflowStateError` inherits the status of `ConflictError`.
unfoldable pub status_code : ErrorClass → ℕ
status_code app_error = 500
status_code validation_app_error = 422
status_code authentication_error = 401
status_code authorization_error = 403
status_code not_found_error = 404
status_code conflict_error = 409
status_code rate_limit_error = 429
status_code workflow_state_error = 409
status_code llm_provider_error = 502
status_code model_router_error = 503
status_code agent_error = 500

unfoldable pub default_message : ErrorClass → String
default_message app_error = "An unexpected error occurred."
default_message validation_app_error = "Request validation failed."
default_message authentication_error = "Authentication required or failed."
default_message authorization_error = "You do not have permission to perform this action."
default_message not_found_error = "Resource not found."
default_message conflict_error = "The request conflicts with the current state."
default_message rate_limit_error = "Too many requests."
default_message workflow_state_error = "The workflow is not in a state that allows this transition."
default_message llm_provider_error = "An LLM provider call failed."
default_message model_router_error = "No LLM provider was able to serve the request."
default_message agent_error = "An agent failed to complete its task."

-- `type(exc).__name__`
unfoldable pub class_name : ErrorClass → String
class_name app_error = "AppError"
class_name validation_app_error = "ValidationAppError"
class_name authentication_error = "AuthenticationError"
class_name authorization_error = "AuthorizationError"
class_name not_found_error = "NotFoundError"
class_name conflict_error = "ConflictError"
class_name rate_limit_error = "RateLimitError"
class_name workflow_state_error = "WorkflowStateError"
class_name llm_provider_error = "LLMProviderError"
class_name model_router_error = "ModelRouterError"
class_name agent_error = "AgentError"

pub record AppError : Type 0 where
  pub class : ErrorClass
  pub message : String
  pub details : Dict

abbrev pub or_default : Option String → String → String
or_default none other = other
or_default (some m) other = if is_empty m then other else m

-- `AppError.__init__`: an absent or empty message is the class's own.
unfoldable pub make_error : ErrorClass → Option String → Dict → AppError
make_error class message details = record {
  class = class;
  message = or_default message (default_message class);
  details = details;
}

-- What is raised: an `AppError`, or any other exception by its type's name and its text.
pub data Exn : Type 0 where
  app : AppError → Exn
  other : String → String → Exn

abbrev pub raise_app : ErrorClass → String → Dict → Exn
raise_app class message details = app (make_error class (some message) details)

-- `f"{type(exc).__name__}: {exc}"`
unfoldable pub describe : Exn → String
describe (app e) = class_name e.class <> ": " <> e.message
describe (other name text) = name <> ": " <> text

pub data Result {ℓ} (A : Type ℓ) : Type ℓ where
  ok : A → Result A
  err : Exn → Result A

pub err_ok : {A : Type 0} {e : Exn} {a : A} → err e ≢ ok a
err_ok h = cc

pub ok_inj : {A : Type 0} {a b : A} → ok a ≡ ok b → a ≡ b
ok_inj h = cc

-- The body `{"error": {"code", "message", "details"}}`.
pub record Envelope : Type 0 where
  pub code : String
  pub message : String
  pub details : Dict

unfoldable pub to_envelope : AppError → Envelope
to_envelope e = record { code = code e.class; message = e.message; details = e.details }

pub record JsonResponse : Type 0 where
  pub status : ℕ
  pub content : Envelope

-- What reaches the handlers: a raised exception, a rejected request body with the errors that
-- `_safe_errors` lists, or Starlette's `HTTPException` with its status and detail.
pub data Failure : Type 0 where
  raised : Exn → Failure
  request_validation : Items → Failure
  http_exception : ℕ → String → Failure

unfoldable pub app_error_handler : AppError → JsonResponse
unfolding to_envelope status_code
app_error_handler e = record { status = status_code e.class; content = to_envelope e }

unfoldable pub validation_handler : Items → JsonResponse
validation_handler errors = record {
  status = 422;
  content = record {
    code = "validation_error";
    message = "Request validation failed.";
    details = ("errors", array errors) ∷ [];
  };
}

unfoldable pub http_exception_handler : ℕ → String → JsonResponse
http_exception_handler status detail = record {
  status = status;
  content = record { code = "http_error"; message = detail; details = [] };
}

unfoldable pub unhandled_handler : JsonResponse
unhandled_handler = record {
  status = 500;
  content = record {
    code = "internal_error";
    message = "An unexpected error occurred.";
    details = [];
  };
}

-- The handlers as `register_exception_handlers` puts them on the application.
unfoldable pub handle_failure : Failure → JsonResponse
unfolding app_error_handler validation_handler http_exception_handler unhandled_handler
handle_failure (raised (app e)) = app_error_handler e
handle_failure (raised (other _ _)) = unhandled_handler
handle_failure (request_validation errors) = validation_handler errors
handle_failure (http_exception status detail) = http_exception_handler status detail
