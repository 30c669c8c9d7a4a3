-- ===== src/Agents/Compliance.antt =====
-- agents/compliance.py: an answer over the chunks that the retrieval agent finds, with a citation
-- for each. A run changes the state `S` through the router alone.
pub mod Citations
use banking_ai_platform.Prelude.{
  ℕ, suc, ◌+◌, String, ◌<>◌, show, strip, prefix, join, Bool, true, false, Option, none, some, List,
  [], ◌∷◌, map,
}
use banking_ai_platform.Core.Errors.{Result, ok, err}
use banking_ai_platform.Db.Session.{Action, pure, ◌>>=◌}
use banking_ai_platform.Ai.Types.{CompletionRequest, CompletionResult}
use banking_ai_platform.Ai.VectorStore.{Reals, Records}
use banking_ai_platform.Agents.Retrieval.{SearchHit, RetrievalOutput}
use banking_ai_platform.Agents.Retrieval
use banking_ai_platform.Agents.Summarization.{Ask, chat}

pub record Citation : Type 0 where
  pub marker : ℕ
  pub document_id : String
  pub chunk_id : String
  pub filename : Option String
  pub text : String

pub record ComplianceInput : Type 0 where
  pub question : String
  pub top_k : ℕ

pub record ComplianceOutput : Type 0 where
  pub question : String
  pub answer : String
  pub citations : List Citation
  pub grounded : Bool
  pub model_used : Option String

module _ {F : Type 0} where
  abbrev pub cite : ℕ → SearchHit F → Citation
  cite i hit = record {
    marker = i + 1;
    document_id = show hit.document_id;
    chunk_id = show hit.chunk_id;
    filename = hit.filename;
    text = hit.text;
  }

  -- `enumerate(retrieval.hits)`, from an index on
  unfoldable pub cite_all : ℕ → List (SearchHit F) → List Citation
  unfolding show
  cite_all i [] = []
  cite_all i (hit ∷ hits) = cite i hit ∷ cite_all (i + 1) hits

abbrev pub excerpt : Citation → String
excerpt c = "[" <> show c.marker <> "] " <> c.text

module _ (prompt : String) where
  unfoldable pub synthesis_request : ComplianceInput → List Citation → CompletionRequest
  unfolding show join
  synthesis_request payload citations = record {
    messages = chat prompt (
        "Question: "
        <> payload.question
        <> "\n\nPolicy excerpts:\n"
        <> join "\n" (map excerpt citations));
    max_tokens = 512;
    temperature = "0.0";
    json_mode = false;
    prompt_version = some "compliance.v1";
  }

  abbrev pub answer_with :
      ComplianceInput → List Citation → String → Bool → Option String → ComplianceOutput
  answer_with payload citations answer grounded model = record {
    question = payload.question;
    answer = answer;
    citations = citations;
    grounded = grounded;
    model_used = model;
  }

  -- What follows the retrieval, by its three ends.
  unfoldable pub respond :
      {S : Type 0} → Option (Ask S) → ComplianceInput → List Citation → Action S ComplianceOutput
  unfolding synthesis_request strip prefix show join
  respond router payload [] =
      pure (answer_with payload [] "No relevant policy was found for this question." false none)
  respond none payload (c ∷ cs) = pure (
      answer_with payload (c ∷ cs)
        ("Based on the retrieved policy excerpts: "
          <> prefix 1500 (join " " (map excerpt (c ∷ cs))))
        true none)
  respond (some ask) payload (c ∷ cs) = do
    r ← ask (synthesis_request payload (c ∷ cs))
    pure (answer_with payload (c ∷ cs) (strip r.text) true (some (r.provider <> ":" <> r.model)))

module _ (re : Reals) (uuid : String → Result ℕ) (embed : String → List re.Float)
    (prompt : String) where
  abbrev pub respond_to :
      {S : Type 0}
      → Option (Ask S)
      → ComplianceInput
      → Result (RetrievalOutput re.Float)
      → Action S ComplianceOutput
  respond_to router payload (err e) s = (err e, s)
  respond_to router payload (ok retrieval) s =
      respond prompt router payload (cite_all 0 retrieval.hits) s

  -- `ComplianceAgent.run`
  unfoldable pub run :
      {S : Type 0} → Option (Ask S) → Records re.Float → ComplianceInput → Action S ComplianceOutput
  unfolding respond cite_all Retrieval.run
  run router store payload = respond_to router payload (
      Retrieval.run re uuid embed (record { query = payload.question; top_k = payload.top_k })
        store)
