-- ===== src/Api/Search.antt =====
-- api/v1/search.py, behind its permission.
use banking_ai_platform.Prelude.{ℕ, String, none, some, List, []}
use banking_ai_platform.Core.Errors.{Result, ok, err, raise_app, agent_error, or_default}
use banking_ai_platform.Ai.VectorStore.{Reals, Records}
use banking_ai_platform.Agents.Base.{AgentOutcome, execute}
use banking_ai_platform.Agents.Retrieval
use banking_ai_platform.Agents.Retrieval.{SearchHit, RetrievalOutput}

pub record SearchResponse (F : Type 0) : Type 0 where
  pub query : String
  pub hits : List (SearchHit F)

abbrev pub answer_of :
    {F : Type 0} → String → AgentOutcome (RetrievalOutput F) → Result (SearchResponse F)
answer_of q outcome = elim outcome.output [
  | none ↦ err (raise_app agent_error (or_default outcome.error "Search failed.") [])
  | some output ↦ ok (record { query = q; hits = output.hits })
]

module _ (re : Reals) (uuid : String → Result ℕ) (embed : String → List re.Float) where
  -- The retrieval takes `elapsed` milliseconds.
  unfoldable pub search :
      (elapsed : ℕ)
      → (q : String) → (top_k : ℕ) → Records re.Float
      → Result (SearchResponse re.Float)
  unfolding execute Retrieval.run
  search elapsed q top_k store = answer_of q (
      execute "retrieval_agent" none elapsed
        (Retrieval.run re uuid embed (record { query = q; top_k = top_k }) store))
