-- ===== src/Agents/Summarization.antt =====
-- agents/summarization.py, and the requests to the model router that agents make. An agent
-- without a router raises where it asks for it. The prompt is read from a file.
use banking_ai_platform.Prelude.{
  ℕ, String, ◌<>◌, show, strip, false, Bool, Option, none, some, List, [], ◌∷◌,
}
use banking_ai_platform.Core.Errors.{raise_app, agent_error}
use banking_ai_platform.Db.Session.{Action, raise, pure, ◌>>=◌}
use banking_ai_platform.Ai.Types.{system, user, ChatMessage, CompletionRequest, CompletionResult}

abbrev pub chat : String → String → List ChatMessage
chat prompt said =
    record { role = system; content = prompt } ∷ record { role = user; content = said } ∷ []

abbrev pub Ask : Type 0 → Type 0
Ask S = CompletionRequest → Action S CompletionResult

-- `BaseAgent.router` where an agent calls it.
abbrev pub ask_router : {S : Type 0} → String → Option (Ask S) → Ask S
ask_router name (some ask) = ask
ask_router name none = λ q. raise (
    raise_app agent_error ("Agent '" <> name <> "' requires a model router but none was provided.")
      [])

pub record SummarizationInput : Type 0 where
  pub content : String
  pub max_sentences : ℕ

pub record SummarizationOutput : Type 0 where
  pub summary : String
  pub model_used : String
  pub used_fallback : Bool

module _ (prompt : String) where
  unfoldable pub summary_request : SummarizationInput → CompletionRequest
  unfolding show
  summary_request payload = record {
    messages = chat prompt (
        "Summarize the following in at most "
        <> show payload.max_sentences
        <> " sentences:\n\n"
        <> payload.content);
    max_tokens = 512;
    temperature = "0.1";
    json_mode = false;
    prompt_version = some "summarize.v1";
  }

  -- `SummarizationAgent.run`
  unfoldable pub summarize :
      {S : Type 0} → Option (Ask S) → SummarizationInput → Action S SummarizationOutput
  unfolding summary_request strip
  summarize router payload = do
    r ← ask_router "summarization_agent" router (summary_request payload)
    pure (record {
      summary = strip r.text;
      model_used = r.provider <> ":" <> r.model;
      used_fallback = r.used_fallback;
    })
