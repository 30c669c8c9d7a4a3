-- ===== src/Ai/Router.antt =====
-- ai/router.py. The router tries its providers in order, and gives its observer one record for
-- each attempt. Logging is left out.
pub mod Turns
pub mod Traced
pub mod Delivered
use banking_ai_platform.Prelude.{
  ℕ, suc, String, ◌<>◌, Bool, true, false, Option, none, some, List, [], ◌∷◌, ◌++◌, if◌then◌else◌,
  ltb, str, array, texts, Dict,
}
use banking_ai_platform.Core.Errors.{
  ErrorClass, llm_provider_error, model_router_error, AppError, Exn, app, other, raise_app, Result,
  ok, err,
}
use banking_ai_platform.Db.Session.{Action}
use banking_ai_platform.Ai.Types.{CompletionRequest, CompletionResult, estimated_prompt_tokens}
use banking_ai_platform.Ai.Cost.{Floats, estimate_cost_usd}
use banking_ai_platform.Ai.Provider.{LlmProvider}

pub record ModelCallRecord (F : Type 0) : Type 0 where
  pub provider : String
  pub model : String
  pub routing_policy : String
  pub used_fallback : Bool
  pub fallback_reason : Option String
  pub prompt_tokens : ℕ
  pub completion_tokens : ℕ
  pub latency_ms : ℕ
  pub success : Bool
  pub error : Option String
  pub prompt_version : Option String
  pub estimated_cost_usd : F
  pub agent_run_id : Option ℕ

-- `RouterObserver`: `record` may raise, and changes the observer's own state.
pub record RouterObserver (F : Type 0) : Type 1 where
  pub Observed : Type 0
  pub observe : ModelCallRecord F → Action Observed Unit

abbrev pub null_observer : (F : Type 0) → RouterObserver F
null_observer F = record { Observed = Unit; observe = λ r s. (ok tt, s) }

abbrev pub in_memory_observer : (F : Type 0) → RouterObserver F
in_memory_observer F = record {
  Observed = List (ModelCallRecord F);
  observe = λ r log. (ok tt, log ++ (r ∷ []));
}

-- What the providers change, and the observer's state.
pub record Routing (V O : Type 0) : Type 0 where
  pub world : V
  pub observed : O

-- How the attempt on one provider ends.
pub data Attempt : Type 0 where
  answered : CompletionResult → Attempt
  failed : String → String → Attempt
  escaped : Exn → Attempt

abbrev pub success_result : Bool → Option String → CompletionResult → CompletionResult
success_result used_fallback previous_error r = record r {
  used_fallback = used_fallback;
  fallback_reason = if used_fallback then previous_error else none;
}

abbrev pub success_record :
    (fl : Floats)
    → String
    → CompletionResult
    → CompletionRequest
    → Option ℕ
    → ModelCallRecord fl.Float
success_record fl policy r q agent_run_id = record {
  provider = r.provider;
  model = r.model;
  routing_policy = policy;
  used_fallback = r.used_fallback;
  fallback_reason = r.fallback_reason;
  prompt_tokens = r.prompt_tokens;
  completion_tokens = r.completion_tokens;
  latency_ms = r.latency_ms;
  success = true;
  error = none;
  prompt_version = q.prompt_version;
  estimated_cost_usd = estimate_cost_usd fl r.provider r.model r.prompt_tokens r.completion_tokens;
  agent_run_id = agent_run_id;
}

abbrev pub failure_record :
    {V : Type 0} (fl : Floats)
    → String
    → LlmProvider V
    → CompletionRequest
    → Bool
    → String
    → Option ℕ
    → ModelCallRecord fl.Float
failure_record fl policy p q used_fallback error agent_run_id = record {
  provider = p.name;
  model = p.model;
  routing_policy = policy;
  used_fallback = used_fallback;
  fallback_reason = none;
  prompt_tokens = estimated_prompt_tokens q;
  completion_tokens = 0;
  latency_ms = 0;
  success = false;
  error = some error;
  prompt_version = q.prompt_version;
  estimated_cost_usd = fl.literal "0.0";
  agent_run_id = agent_run_id;
}

-- What the two `try` blocks round `is_available` and `complete` make of their results.
abbrev pub is_up : Result Bool → Bool
is_up (ok available) = available
is_up (err exn) = false

abbrev pub attempt_of_exn : String → Exn → Attempt
attempt_of_exn name (app e) = elim e.class [
  | llm_provider_error ↦ failed e.message (name <> ": " <> e.message)
  | _ ↦ escaped (app e)
]
attempt_of_exn name (other type message) = escaped (other type message)

abbrev pub attempt_of : String → Result CompletionResult → Attempt
attempt_of name (ok r) = answered r
attempt_of name (err exn) = attempt_of_exn name exn

abbrev pub exhausted : String → List String → Exn
exhausted policy attempts =
    raise_app model_router_error "All configured LLM providers failed."
      (("policy", str policy) ∷ ("attempts", array (texts attempts)) ∷ [])

-- The attempt on one provider, up to its record.
abbrev pub try_provider : {V : Type 0} → LlmProvider V → CompletionRequest → V → Attempt × V
try_provider p q v =
    let (up, v') = p.is_available v in
    let (result, v'') = p.complete q v' in
    let reason = p.name <> " reported unavailable" in
    if is_up up then (attempt_of p.name result, v'') else (failed reason reason, v')

module _ {V : Type 0} (fl : Floats) (observer : RouterObserver fl.Float) where
  open observer use {Observed, observe}

  -- `_safe_record`: an observer that raises is not heard.
  abbrev pub safe_record : ModelCallRecord fl.Float → Routing V Observed → Routing V Observed
  safe_record r s = record s { observed = (observe r s.observed).1 }

module _ {V : Type 0} (fl : Floats) (observer : RouterObserver fl.Float) (policy : String) where
  -- The `for` loop of `complete` from a provider on: its index, and what the loop collects.
  unfoldable pub try_all :
      List (LlmProvider V)
      → ℕ
      → Option String
      → List String
      → CompletionRequest
      → Option ℕ
      → Routing V observer.Observed
      → Result CompletionResult × Routing V observer.Observed
  try_all [] index previous_error attempts q run s = (err (exhausted policy attempts), s)
  try_all (p ∷ ps) index previous_error attempts q run s =
      let used_fallback = ltb 0 index in
      let (attempt, world) = try_provider p q s.world in
      let s' = record s { world = world } in
      elim attempt [
        | answered r ↦
            (let r' = success_result used_fallback previous_error r in
              (ok r', safe_record fl observer (success_record fl policy r' q run) s'))
        | escaped exn ↦ (err exn, s')
        | failed error entry ↦
            try_all ps (suc index) (some error) (attempts ++ (entry ∷ [])) q run
              (safe_record fl observer (failure_record fl policy p q used_fallback error run) s')
      ]

  -- `complete`
  unfoldable pub complete :
      List (LlmProvider V)
      → CompletionRequest
      → Option ℕ
      → Routing V observer.Observed
      → Result CompletionResult × Routing V observer.Observed
  unfolding try_all
  complete providers q run s = try_all providers 0 none [] q run s

-- `ModelRouter.__init__`
unfoldable pub make_router : {V : Type 0} → List (LlmProvider V) → Result (List (LlmProvider V))
make_router [] = err (other "ValueError" "ModelRouter requires at least one provider.")
make_router (p ∷ ps) = ok (p ∷ ps)
