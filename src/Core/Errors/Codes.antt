-- ===== src/Core/Errors/Codes.antt =====
-- What a client learns from the code of an error response.
use banking_ai_platform.Prelude.{ℕ, String, ◌≡◌, ◌≢◌, refl, sym, ap, ◌∙◌, ◌is◌, if◌then◌else◌}
use banking_ai_platform.Core.Errors.{
  ErrorClass, app_error, validation_app_error, authentication_error, authorization_error,
  not_found_error, conflict_error, rate_limit_error, workflow_state_error, llm_provider_error,
  model_router_error, agent_error, code, status_code, Failure, app, other, raised,
  request_validation, http_exception, handle_failure,
}

-- A client's table: the status that a code stands for.
abbrev status_of_code : String → ℕ
status_of_code c =
    if c is "validation_error"
    then 422
    else if c is "authentication_error"
    then 401
    else if c is "authorization_error"
    then 403
    else if c is "not_found"
    then 404
    else if c is "conflict"
    then 409
    else if c is "rate_limited"
    then 429
    else if c is "invalid_workflow_state"
    then 409
    else if c is "llm_provider_error"
    then 502
    else if c is "model_router_error"
    then 503
    else 500

status_of_code-code : (k : ErrorClass) → status_of_code (code k) ≡ status_code k
unfolding code status_code
status_of_code-code app_error = refl
status_of_code-code validation_app_error = refl
status_of_code-code authentication_error = refl
status_of_code-code authorization_error = refl
status_of_code-code not_found_error = refl
status_of_code-code conflict_error = refl
status_of_code-code rate_limit_error = refl
status_of_code-code workflow_state_error = refl
status_of_code-code llm_provider_error = refl
status_of_code-code model_router_error = refl
status_of_code-code agent_error = refl

status-of-response :
    (f : Failure)
    → (handle_failure f).content.code ≢ "http_error"
    → status_of_code (handle_failure f).content.code ≡ (handle_failure f).status
unfolding handle_failure
status-of-response (raised (app e)) h = status_of_code-code e.class
status-of-response (raised (other name message)) h = refl
status-of-response (request_validation errors) h = refl
status-of-response (http_exception status detail) h = absurd (h refl)

-- Two failures whose responses carry one code have one status too, unless the code is that of a
-- framework error, `http_error`.
pub code-determines-status :
    (f g : Failure)
    → (handle_failure f).content.code ≡ (handle_failure g).content.code
    → (handle_failure f).content.code ≢ "http_error"
    → (handle_failure f).status ≡ (handle_failure g).status
code-determines-status f g e h =
    sym (status-of-response f h) ∙ ap status_of_code e ∙ status-of-response g (λ k. h (e ∙ k))
