-- ===== src/Ai/Router/Delivered.antt =====
-- When the router gives a result, and when it gives up.
use banking_ai_platform.Prelude.{
  ℕ, suc, ◌+◌, String, Bool, Option, none, some, List, [], ◌∷◌, ◌++◌, ◌≡◌, ◌≢◌, inl, inr, refl, ◌⊎◌,
  ◌<>◌, ltb, length, All, arith,
}
use banking_ai_platform.Core.Errors.{Exn, ok}
use banking_ai_platform.Ai.Types.{CompletionRequest, CompletionResult}
use banking_ai_platform.Ai.Cost.{Floats}
use banking_ai_platform.Ai.Provider.{LlmProvider}
use banking_ai_platform.Ai.Router.{
  Attempt, RouterObserver, Routing, answered, failed, escaped, success_result, try_provider,
  try_all, complete,
}
use banking_ai_platform.Ai.Router.Turns.{Attempt-cases, try_all-answered, try_all-failed}

-- In whatever world it is asked, the provider is unavailable or raises an `LLMProviderError`.
abbrev pub IsDown : {V : Type 0} → CompletionRequest → LlmProvider V → Type 0
IsDown {V} q p =
    (v : V) → (reason : String) × (entry : String) × ((try_provider p q v).0 ≡ failed reason entry)

-- In whatever world it is asked, it is available and answers.
abbrev pub IsUp : {V : Type 0} → CompletionRequest → LlmProvider V → Type 0
IsUp {V} q p = (v : V) → (r : CompletionResult) × ((try_provider p q v).0 ≡ answered r)

-- An entry of the attempts that names the provider: it was unavailable, or its error had a message.
abbrev pub Names : {V : Type 0} → LlmProvider V → String → Type 0
Names p entry =
    (entry ≡ p.name <> " reported unavailable")
    ⊎ ((message : String) × (entry ≡ p.name <> ": " <> message))

-- One entry for each of the providers, in their order.
abbrev pub Named : {V : Type 0} → List (LlmProvider V) → List String → Type 0
Named [] [] = Unit
Named (p ∷ ps) (entry ∷ entries) = Names p entry × Named ps entries
Named [] (entry ∷ entries) = ⊥
Named (p ∷ ps) [] = ⊥

abbrev NamesIn : {V : Type 0} → LlmProvider V → Attempt → Type 0
NamesIn p (answered r) = Unit
NamesIn p (escaped exn) = Unit
NamesIn p (failed reason entry) = Names p entry

module _ {V : Type 0} (fl : Floats) (observer : RouterObserver fl.Float) (policy : String)
    (q : CompletionRequest) (run : Option ℕ) where
  abbrev Answers :
      List (LlmProvider V)
      → ℕ
      → Option String
      → List String
      → Routing V observer.Observed
      → Bool
      → Type 0
  Answers ps i previous attempts s fallback =
      (r : CompletionResult) × ((try_all fl observer policy ps i previous attempts q run s).0
        ≡ ok r)
      × (r.used_fallback ≡ fallback)

  Answers-past :
      (front : List (LlmProvider V)) (p : LlmProvider V) (back : List (LlmProvider V)) (i : ℕ)
      (previous : Option String) (attempts : List String) (s : Routing V observer.Observed)
      → All (IsDown q) front
      → IsUp q p
      → Answers (front ++ (p ∷ back)) i previous attempts s (ltb 0 (i + length front))
  Answers-past [] p back i previous attempts s down up =
      let (r, e) = up s.world in
      rw (try_all-answered fl observer policy p back i previous attempts q run s r e)
        (success_result (ltb 0 i) previous r, refl, ground arith)
  Answers-past (d ∷ front) p back i previous attempts s down up =
      let (reason, entry, e) = down.0 s.world in
      let (r, result, fallback) =
        Answers-past front p back (suc i) (some reason) (attempts ++ (entry ∷ [])) _ down.1 up in
      rw
        (try_all-failed fl observer policy d (front ++ (p ∷ back)) i previous attempts q run s
          reason entry e)
        (r, result, ground (arith, fallback))

  -- If every provider before one is down, whatever the observer does, and that one is up, then
  -- `complete` returns a result. It is a fallback exactly when a provider stood before.
  pub complete-up :
      (front : List (LlmProvider V)) (p : LlmProvider V) (back : List (LlmProvider V))
      (s : Routing V observer.Observed)
      → All (IsDown q) front
      → IsUp q p
      → (r : CompletionResult) × ((complete fl observer policy (front ++ (p ∷ back)) q run s).0
          ≡ ok r)
        × (r.used_fallback ≡ ltb 0 (length front))
  unfolding complete
  complete-up front p back s down up =
      let (r, result, fallback) = Answers-past front p back 0 none [] s down up in
      (r, result, ground (arith, fallback))

-- In whatever world it is asked, it raises nothing but an `LLMProviderError` from `complete`: the
-- contract of `LLMProvider`.
abbrev pub IsSafe : {V : Type 0} → CompletionRequest → LlmProvider V → Type 0
IsSafe {V} q p = (v : V) (exn : Exn) → (try_provider p q v).0 ≢ escaped exn

module _ {V : Type 0} (fl : Floats) (observer : RouterObserver fl.Float) (policy : String)
    (q : CompletionRequest) (run : Option ℕ) where
  safe_past :
      (front : List (LlmProvider V)) (p : LlmProvider V) (back : List (LlmProvider V)) (i : ℕ)
      (previous : Option String) (attempts : List String) (s : Routing V observer.Observed)
      → All (IsSafe q) front
      → IsUp q p
      → (r : CompletionResult) × ((try_all fl observer policy
            (front ++ (p ∷ back))
            i
            previous
            attempts
            q
            run
            s).0
          ≡ ok r)
  safe_past [] p back i previous attempts s safe up =
      let (r, e) = up s.world in
      rw (try_all-answered fl observer policy p back i previous attempts q run s r e)
        (success_result (ltb 0 i) previous r, refl)
  safe_past (d ∷ front) p back i previous attempts s safe up =
      let rest = front ++ (p ∷ back) in
      elim (Attempt-cases (try_provider d q s.world).0) [
        | inl (r, e) ↦
            rw (try_all-answered fl observer policy d rest i previous attempts q run s r e)
              (success_result (ltb 0 i) previous r, refl)
        | inr (inl (reason, entry, e)) ↦
            rw (try_all-failed fl observer policy d rest i previous attempts q run s reason entry e)
              (safe_past front p back (suc i) (some reason) (attempts ++ (entry ∷ [])) _ safe.1 up)
        | inr (inr (exn, e)) ↦ absurd (safe.0 s.world exn e)
      ]

  -- If every provider before one keeps to the contract of `LLMProvider`, that `complete` raises
  -- nothing but an `LLMProviderError`, and that one is up, then `complete` returns a result.
  pub complete-safe :
      (front : List (LlmProvider V)) (p : LlmProvider V) (back : List (LlmProvider V))
      (s : Routing V observer.Observed)
      → All (IsSafe q) front
      → IsUp q p
      → (r : CompletionResult) × ((complete fl observer policy (front ++ (p ∷ back)) q run s).0
          ≡ ok r)
  unfolding complete
  complete-safe front p back s safe up = safe_past front p back 0 none [] s safe up
