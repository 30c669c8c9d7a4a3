-- ===== src/Ai/Router/Turns.antt =====
-- One turn of the router's loop, by how the attempt on its first provider ends.
use banking_ai_platform.Prelude.{
  ℕ, suc, String, Option, some, List, [], ◌∷◌, ◌++◌, ◌≡◌, refl, ◌⊎◌, inl, inr, ltb,
}
use banking_ai_platform.Core.Errors.{Exn, ok, err}
use banking_ai_platform.Ai.Types.{CompletionRequest, CompletionResult}
use banking_ai_platform.Ai.Cost.{Floats}
use banking_ai_platform.Ai.Provider.{LlmProvider}
use banking_ai_platform.Ai.Router.{
  RouterObserver, Routing, Attempt, answered, failed, escaped, success_result, success_record,
  failure_record, try_provider, safe_record, try_all,
}

pub Attempt-cases :
    (a : Attempt)
    → ((r : CompletionResult) × (a ≡ answered r))
      ⊎ (((reason : String) × (entry : String) × (a ≡ failed reason entry))
          ⊎ ((exn : Exn) × (a ≡ escaped exn)))
Attempt-cases (answered r) = inl (r, refl)
Attempt-cases (failed reason entry) = inr (inl (reason, entry, refl))
Attempt-cases (escaped exn) = inr (inr (exn, refl))

module _ {V : Type 0} (fl : Floats) (observer : RouterObserver fl.Float) (policy : String)
    (p : LlmProvider V) (ps : List (LlmProvider V)) (i : ℕ) (previous : Option String)
    (attempts : List String) (q : CompletionRequest) (run : Option ℕ)
    (s : Routing V observer.Observed) where
  -- The state after the attempt, before its record.
  abbrev pub tried : Routing V observer.Observed
  tried = record s { world = (try_provider p q s.world).1 }

  pub try_all-answered :
      (r : CompletionResult)
      → (try_provider p q s.world).0 ≡ answered r
      → try_all fl observer policy (p ∷ ps) i previous attempts q run s ≡ (
        ok (success_result (ltb 0 i) previous r),
        safe_record fl observer
            (success_record fl policy (success_result (ltb 0 i) previous r) q run)
            tried,
      )
  unfolding try_all
  try_all-answered r e = rw (e, try_all)

  pub try_all-failed :
      (reason entry : String)
      → (try_provider p q s.world).0 ≡ failed reason entry
      → try_all fl observer policy (p ∷ ps) i previous attempts q run s
        ≡ try_all fl observer policy ps
            (suc i)
            (some reason)
            (attempts ++ (entry ∷ []))
            q
            run
            (safe_record fl observer (failure_record fl policy p q (ltb 0 i) reason run) tried)
  unfolding try_all
  try_all-failed reason entry e = rw (e, try_all)

  pub try_all-escaped :
      (exn : Exn)
      → (try_provider p q s.world).0 ≡ escaped exn
      → try_all fl observer policy (p ∷ ps) i previous attempts q run s ≡ (err exn, tried)
  unfolding try_all
  try_all-escaped exn e = rw (e, try_all)
