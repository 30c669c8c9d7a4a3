-- ===== src/Agents/Retrieval.antt =====
-- agents/retrieval.py. The reading of a UUID, which may raise, is a parameter.
use banking_ai_platform.Prelude.{ℕ, String, Option, List, [], ◌∷◌}
use banking_ai_platform.Core.Errors.{Result, ok, err}
use banking_ai_platform.Ai.VectorStore.{Reals, Records, ScoredRecord, query}

pub record SearchHit (F : Type 0) : Type 0 where
  pub document_id : ℕ
  pub chunk_id : ℕ
  pub score : F
  pub text : String
  pub filename : Option String

pub record RetrievalInput : Type 0 where
  pub query : String
  pub top_k : ℕ

pub record RetrievalOutput (F : Type 0) : Type 0 where
  pub query : String
  pub hits : List (SearchHit F)

infixl 5 ◌>>=◌
abbrev pub ◌>>=◌ : {A B : Type 0} → Result A → (A → Result B) → Result B
ok a >>= f = f a
err e >>= f = err e

module _ (re : Reals) (uuid : String → Result ℕ) where
  abbrev pub hit_of : ScoredRecord re.Float → Result (SearchHit re.Float)
  hit_of s = do
    document_id ← uuid s.scored.document_id
    chunk_id ← uuid s.scored.chunk_id
    ok (record {
      document_id = document_id;
      chunk_id = chunk_id;
      score = re.round s.score 6;
      text = s.scored.text;
      filename = s.scored.filename;
    })

  abbrev pub hits_of : List (ScoredRecord re.Float) → Result (List (SearchHit re.Float))
  hits_of [] = ok []
  hits_of (s ∷ rest) = do hit ← hit_of s; hits ← hits_of rest; ok (hit ∷ hits)

module _ (re : Reals) (uuid : String → Result ℕ) (embed : String → List re.Float) where
  -- `RetrievalAgent.run`
  unfoldable pub run : RetrievalInput → Records re.Float → Result (RetrievalOutput re.Float)
  unfolding query
  run payload store = do
    hits ← hits_of re uuid (query re (embed payload.query) payload.top_k store)
    ok (record { query = payload.query; hits = hits })
