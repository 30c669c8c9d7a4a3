-- ===== src/Ai/Router/Traced.antt =====
-- What the router leaves with an observer that collects its records in memory.
use banking_ai_platform.Prelude.{
  ℕ, suc, ◌+◌, String, true, false, Option, none, some, List, [], ◌∷◌, ◌++◌, ◌≡◌, refl, sym, ap,
  subst, ◌∙◌, inl, inr, append_one, ltb, if◌then◌else◌, length, arith,
}
use banking_ai_platform.Core.Errors.{Result, ok, err, ok_inj}
use banking_ai_platform.Ai.Types.{CompletionRequest, CompletionResult}
use banking_ai_platform.Ai.Cost.{Floats, estimate_cost_usd}
use banking_ai_platform.Ai.Provider.{LlmProvider}
use banking_ai_platform.Ai.Router.{
  ModelCallRecord, in_memory_observer, Routing, success_result, success_record, try_provider,
  try_all, complete,
}
use banking_ai_platform.Ai.Router.Turns.{
  Attempt-cases, try_all-answered, try_all-failed, try_all-escaped,
}

-- The error of the last of the records, or an earlier one.
abbrev pub last_error : {F : Type 0} → Option String → List (ModelCallRecord F) → Option String
last_error previous [] = previous
last_error previous (r ∷ rs) = last_error r.error rs

module _ (fl : Floats) (policy : String) (q : CompletionRequest) (run : Option ℕ) where
  -- The record of the call that gave the result.
  abbrev pub IsSuccessOf : CompletionResult → ModelCallRecord fl.Float → Type 0
  IsSuccessOf r f = f ≡ record {
    provider = r.provider;
    model = r.model;
    routing_policy = policy;
    used_fallback = r.used_fallback;
    fallback_reason = r.fallback_reason;
    prompt_tokens = r.prompt_tokens;
    completion_tokens = r.completion_tokens;
    latency_ms = r.latency_ms;
    success = true;
    error = none;
    prompt_version = q.prompt_version;
    estimated_cost_usd =
        estimate_cost_usd fl r.provider r.model r.prompt_tokens r.completion_tokens;
    agent_run_id = run;
  }

module _ {V : Type 0} (fl : Floats) (policy : String) (q : CompletionRequest) (run : Option ℕ) where
  -- A record of a failed attempt on the provider.
  abbrev pub IsFailureOf : LlmProvider V → ModelCallRecord fl.Float → Type 0
  IsFailureOf p f =
      (f.provider ≡ p.name)
      × (f.model ≡ p.model)
      × (f.routing_policy ≡ policy)
      × (f.success ≡ false)
      × (f.completion_tokens ≡ 0)
      × (f.agent_run_id ≡ run)

  -- One failure for each of the providers, in their order.
  abbrev pub OneEach : List (LlmProvider V) → List (ModelCallRecord fl.Float) → Type 0
  OneEach [] [] = Unit
  OneEach (p ∷ ps) (f ∷ fs) = IsFailureOf p f × OneEach ps fs
  OneEach [] (f ∷ fs) = ⊥
  OneEach (p ∷ ps) [] = ⊥

  -- What a result says of the providers and of the records written before and with it, from the
  -- index `i` on.
  pub record Tells (providers : List (LlmProvider V)) (i : ℕ) (previous : Option String)
      (r : CompletionResult) (before after : List (ModelCallRecord fl.Float)) : Type 0 where
    pub front : List (LlmProvider V)
    pub answering : LlmProvider V
    pub back : List (LlmProvider V)
    pub tried : providers ≡ front ++ (answering ∷ back)
    pub failures : List (ModelCallRecord fl.Float)
    pub one_each : OneEach front failures
    pub last : ModelCallRecord fl.Float
    pub success : IsSuccessOf fl policy q run r last
    pub records : after ≡ before ++ (failures ++ (last ∷ []))
    pub fallback : r.used_fallback ≡ ltb 0 (i + length front)
    pub reason :
        r.fallback_reason
        ≡ (if ltb 0 (i + length front) then last_error previous failures else none)

  Tells-failed :
      (p : LlmProvider V) (ps : List (LlmProvider V)) (i : ℕ) (previous : Option String)
      (r : CompletionResult) (before after : List (ModelCallRecord fl.Float))
      (f : ModelCallRecord fl.Float)
      → IsFailureOf p f
      → Tells ps (suc i) f.error r (before ++ (f ∷ [])) after
      → Tells (p ∷ ps) i previous r before after
  Tells-failed p ps i previous r before after f h t = record {
    front = p ∷ t.front;
    answering = t.answering;
    back = t.back;
    tried = ap (λ rest. p ∷ rest) t.tried;
    failures = f ∷ t.failures;
    one_each = (h, t.one_each);
    last = t.last;
    success = t.success;
    records = t.records ∙ append_one before f _;
    fallback = ground (arith, t.fallback);
    reason = ground (arith, t.reason);
  }

  Tells-none :
      (p : LlmProvider V) (ps : List (LlmProvider V)) (i : ℕ) (previous : Option String)
      (a r : CompletionResult) (before : List (ModelCallRecord fl.Float))
      → ok (success_result (ltb 0 i) previous a) ≡ ok r
      → Tells
          (p ∷ ps)
          i
          previous
          r
          before
          (before ++ (success_record fl policy (success_result (ltb 0 i) previous a) q run ∷ []))
  Tells-none p ps i previous a r before h =
      let first = success_record fl policy (success_result (ltb 0 i) previous a) q run in
      subst (λ x. Tells (p ∷ ps) i previous x before (before ++ (first ∷ []))) (ok_inj h)
        (record {
          front = [];
          answering = p;
          back = ps;
          tried = refl;
          failures = [];
          one_each = tt;
          last = first;
          success = refl;
          records = refl;
          fallback = ground arith;
          reason = ground arith;
        })

module _ {V : Type 0} (fl : Floats) (policy : String) (q : CompletionRequest) (run : Option ℕ) where
  abbrev Loop :
      List (LlmProvider V)
      → ℕ
      → Option String
      → List String
      → Routing V (List (ModelCallRecord fl.Float))
      → Result CompletionResult × Routing V (List (ModelCallRecord fl.Float))
  Loop ps i previous attempts s =
      try_all fl (in_memory_observer fl.Float) policy ps i previous attempts q run s

  Tells-try_all :
      (ps : List (LlmProvider V)) (i : ℕ) (previous : Option String) (attempts : List String)
      (s : Routing V (List (ModelCallRecord fl.Float))) (r : CompletionResult)
      → (Loop ps i previous attempts s).0 ≡ ok r
      → Tells fl policy q run ps i previous r s.observed (Loop ps i previous attempts s).1.observed
  unfolding try_all
  Tells-try_all [] i previous attempts s r h = cc
  Tells-try_all (p ∷ ps) i previous attempts s r h =
      elim (Attempt-cases (try_provider p q s.world).0) [
        | inl (a, e) ↦
            (let turn =
                try_all-answered fl (in_memory_observer fl.Float) policy p ps i previous attempts q
                  run s a e in
              rw turn (Tells-none fl policy q run p ps i previous a r s.observed (rw turn at h)))
        | inr (inl (reason, entry, e)) ↦
            (let turn =
                try_all-failed fl (in_memory_observer fl.Float) policy p ps i previous attempts q
                  run s reason entry e in
              rw turn (
                Tells-failed fl policy q run p ps i previous r s.observed _ _
                  (refl, refl, refl, refl, refl, refl)
                  (Tells-try_all ps (suc i) (some reason) (attempts ++ (entry ∷ [])) _ r
                    (rw turn at h))))
        | inr (inr (exn, e)) ↦
            (let turn =
                try_all-escaped fl (in_memory_observer fl.Float) policy p ps i previous attempts q
                  run s exn e in
              let no : err exn ≡ ok r = sym (ap (λ x. x.0) turn) ∙ h in cc)
      ]

  -- With an observer in memory, whatever the providers do: if `complete` returns a result, the
  -- records that it added are one failure for each of the providers before some provider of the
  -- list, in order and under their names and models, and then one success, which has the result's
  -- provider, model, tokens and cost. The result is marked as a fallback exactly when there was a
  -- failure, and its reason is then the last one's error.
  pub complete-Tells :
      (providers : List (LlmProvider V)) (s : Routing V (List (ModelCallRecord fl.Float)))
      (r : CompletionResult)
      → (complete fl (in_memory_observer fl.Float) policy providers q run s).0 ≡ ok r
      → Tells fl policy q run providers 0 none r s.observed
          (complete fl (in_memory_observer fl.Float) policy providers q run s).1.observed
  unfolding complete
  complete-Tells providers s r h = Tells-try_all providers 0 none [] s r h
