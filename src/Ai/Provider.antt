-- ===== src/Ai/Provider.antt =====
-- ai/providers/base.py and ai/providers/echo.py. A provider may change the world `V` and raise.
use banking_ai_platform.Prelude.{
  ℕ, ◌/◌, max, String, ◌<>◌, show, prefix, size, Bool, true, false, none, List, [], ◌∷◌, length,
  if◌then◌else◌, Fields, end, field, str,
}
use banking_ai_platform.Core.Errors.{ok}
use banking_ai_platform.Db.Session.{Action}
use banking_ai_platform.Ai.Types.{
  user, ChatMessage, CompletionRequest, CompletionResult, estimated_prompt_tokens,
}

pub record LlmProvider (V : Type 0) : Type 0 where
  pub name : String
  pub model : String
  pub requires_network : Bool
  pub is_available : Action V Bool
  pub complete : CompletionRequest → Action V CompletionResult

abbrev is_user : ChatMessage → Bool
is_user m = elim m.role [ user ↦ true | _ ↦ false ]

-- `next((... for m in reversed(request.messages) if ...), "")`: the last message of the user.
unfoldable pub last_user : List ChatMessage → String → String
last_user [] found = found
last_user (m ∷ ms) found = last_user ms (if is_user m then m.content else found)

-- `json.dumps`, the library's, is a parameter, and so is the time that passes.
module _ (dumps : Fields → String) where
  unfoldable pub echo_text : CompletionRequest → String
  unfolding last_user prefix show
  echo_text q =
      let said = last_user q.messages "" in
      if q.json_mode
      then dumps (
          field "note" (str "echo provider (no live model configured)")
            (field "echo" (str (prefix 500 said)) end))
      else "[echo provider - no live model configured] Received "
        <> show (length q.messages)
        <> " message(s). Last user message: "
        <> prefix 300 said

module _ {V : Type 0} (dumps : Fields → String) (elapsed : ℕ) where
  unfoldable pub echo_provider : LlmProvider V
  echo_provider = record {
    name = "echo";
    model = "echo-stub-1";
    requires_network = false;
    is_available = λ s. (ok true, s);
    complete = λ q s. (
      ok (record {
        text = echo_text dumps q;
        provider = "echo";
        model = "echo-stub-1";
        used_fallback = false;
        fallback_reason = none;
        prompt_tokens = estimated_prompt_tokens q;
        completion_tokens = max 1 (size (echo_text dumps q) / 4);
        latency_ms = elapsed;
      }),
      s,
    );
  }
