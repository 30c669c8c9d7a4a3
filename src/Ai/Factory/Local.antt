-- ===== src/Ai/Factory/Local.antt =====
-- A router in local development whose network gives no answer.
use banking_ai_platform.Prelude.{
  ℕ, suc, String, ◌is◌, true, false, Option, none, some, List, [], ◌∷◌, ◌++◌, contains, ltb, max,
  size, ◌/◌, Fields, Dict, Value, ◌≡◌, ◌≢◌, refl, subst, sym, ap, inl, inr, Bool-cases, All,
}
use banking_ai_platform.Core.Errors.{err_ok, ok_inj, Result, ok, err, make_error}
use banking_ai_platform.Core.Config.{is_local, Settings}
use banking_ai_platform.Ai.Types.{CompletionRequest, CompletionResult, estimated_prompt_tokens}
use banking_ai_platform.Ai.Cost.{Floats}
use banking_ai_platform.Ai.Provider.{LlmProvider, echo_text, echo_provider}
use banking_ai_platform.Ai.OpenaiCompatible.{
  Reply, body, http_status, unreachable, broken, Http, Endpoint, is_available, read_reply,
  openai_provider, groq_endpoint, local_gemma_endpoint,
}
use banking_ai_platform.Ai.Router.{
  RouterObserver, Routing, failed, attempt_of, success_result, try_all, complete, make_router,
}
use banking_ai_platform.Ai.Router.Turns.{try_all-answered, try_all-failed}
use banking_ai_platform.Ai.Router.Delivered.{IsDown}
use banking_ai_platform.Ai.Factory.{
  chain_names, build_provider, cons_built, build_all, router_of, build_router,
}
use banking_ai_platform.Ai.Factory.Chain.{chain_names-echo}

-- No call of the client comes to the body of an answer: it ends with an HTTP status, a transport
-- error or another exception.
abbrev pub IsSilent : {V : Type 0} → Http V → Type 0
IsSilent {V} http =
    (address : String) (attempts : ℕ) (key : Option String) (payload : Dict) (v : V)
    (answer : Value)
    → (http.post address attempts key payload v).0.0 ≢ body answer

router_of-ok :
    {V : Type 0} (r : Result (List (LlmProvider V))) (ps : List (LlmProvider V))
    → router_of r ≡ ok ps
    → r ≡ ok ps
unfolding make_router
router_of-ok (err e) ps h = h
router_of-ok (ok []) ps h = absurd (err_ok h)
router_of-ok (ok (p ∷ qs)) ps h = h

module _ {V : Type 0} (http : Http V) (q : CompletionRequest) where
  read_reply-failed :
      (e : Endpoint) (elapsed : ℕ) (r : Reply)
      → ((answer : Value) → r ≢ body answer)
      → (reason : String) × (entry : String) × (attempt_of e.name (read_reply http e q elapsed r)
          ≡ failed reason entry)
  unfolding make_error
  read_reply-failed e elapsed (body answer) silent = absurd (silent answer refl)
  read_reply-failed e elapsed (http_status status) silent = (_, _, refl)
  read_reply-failed e elapsed (unreachable type) silent = (_, _, refl)
  read_reply-failed e elapsed (broken type) silent = (_, _, refl)

  openai_provider-IsDown : IsSilent http → (e : Endpoint) → IsDown q (openai_provider http e)
  unfolding openai_provider
  openai_provider-IsDown silent e v = elim (Bool-cases (is_available e)) [
    | inl up ↦ rw up (read_reply-failed e _ _ (silent _ _ _ _ v))
    | inr down ↦ rw down (_, _, refl)
  ]

module _ {V : Type 0} (http : Http V) (dumps : Fields → String) (elapsed : ℕ) (s : Settings)
    (q : CompletionRequest) where
  abbrev echo : LlmProvider V
  echo = echo_provider dumps elapsed

  abbrev echoed : CompletionResult
  echoed = record {
    text = echo_text dumps q;
    provider = "echo";
    model = "echo-stub-1";
    used_fallback = false;
    fallback_reason = none;
    prompt_tokens = estimated_prompt_tokens q;
    completion_tokens = max 1 (size (echo_text dumps q) / 4);
    latency_ms = elapsed;
  }

  -- The echo provider stands in the list behind providers that are down.
  record HasEcho (ps : List (LlmProvider V)) : Type 0 where
    pub front : List (LlmProvider V)
    pub back : List (LlmProvider V)
    pub split : ps ≡ front ++ (echo ∷ back)
    pub down : All (IsDown q) front

  HasEcho-cons :
      (p : LlmProvider V) (ps : List (LlmProvider V)) → IsDown q p → HasEcho ps → HasEcho (p ∷ ps)
  HasEcho-cons p ps down h = record {
    front = p ∷ h.front;
    back = h.back;
    split = ap (λ xs. p ∷ xs) h.split;
    down = (down, h.down);
  }

  build_provider-IsDown :
      IsSilent http
      → (name : String) (p : LlmProvider V) → name is "echo" ≡ false
      → build_provider http dumps elapsed name s ≡ ok p
      → IsDown q p
  unfolding build_provider
  build_provider-IsDown silent name p e h = elim (Bool-cases (name is "groq")) [
    | inl g ↦
        subst (IsDown q) (ok_inj (rw (e, g) at h))
          (openai_provider-IsDown http q silent (groq_endpoint s))
    | inr g ↦ elim (Bool-cases (name is "local_gemma")) [
      | inl l ↦
          subst (IsDown q) (ok_inj (rw (e, g, l) at h))
            (openai_provider-IsDown http q silent (local_gemma_endpoint s))
      | inr l ↦ absurd (err_ok (rw (e, g, l) at h))
    ]
  ]

  cons_built-HasEcho :
      (a : Result (LlmProvider V)) (b : Result (List (LlmProvider V))) (ps : List (LlmProvider V))
      → cons_built a b ≡ ok ps
      → ((p : LlmProvider V) → a ≡ ok p → IsDown q p)
      → ((qs : List (LlmProvider V)) → b ≡ ok qs → HasEcho qs)
      → HasEcho ps
  cons_built-HasEcho (err e) b ps h down rest = absurd (err_ok h)
  cons_built-HasEcho (ok p) (err e) ps h down rest = absurd (err_ok h)
  cons_built-HasEcho (ok p) (ok qs) ps h down rest =
      subst HasEcho (ok_inj h) (HasEcho-cons p qs (down p refl) (rest qs refl))

  cons_built-echo :
      (b : Result (List (LlmProvider V))) (ps : List (LlmProvider V))
      → cons_built (ok echo) b ≡ ok ps
      → HasEcho ps
  cons_built-echo (err e) ps h = absurd (err_ok h)
  cons_built-echo (ok qs) ps h =
      subst HasEcho (ok_inj h) (record { front = []; back = qs; split = refl; down = tt })

  build_provider-echo :
      (name : String) → name is "echo" ≡ true → build_provider http dumps elapsed name s ≡ ok echo
  unfolding build_provider
  build_provider-echo name e = rw e refl

  build_all-HasEcho :
      IsSilent http
      → (names : List String) (ps : List (LlmProvider V)) → contains names "echo" ≡ true
      → build_all http dumps elapsed names s ≡ ok ps
      → HasEcho ps
  build_all-HasEcho silent [] ps c h = cc
  build_all-HasEcho silent (name ∷ names) ps c h = elim (Bool-cases (name is "echo")) [
    | inl e ↦
        cons_built-echo (build_all http dumps elapsed names s) ps
          (rw (build_provider-echo name e) at h)
    | inr e ↦
        cons_built-HasEcho (build_provider http dumps elapsed name s)
          (build_all http dumps elapsed names s) ps h (λ p. build_provider-IsDown silent name p e)
          (λ qs. build_all-HasEcho silent names qs (rw e at c))
  ]

  module _ (fl : Floats) (observer : RouterObserver fl.Float) (policy : String)
      (run : Option ℕ) where
    -- An answer of the echo provider: it says so, and repeats the last message of the user.
    abbrev pub IsEcho : Result CompletionResult → Type 0
    IsEcho result =
        (r : CompletionResult) × (result ≡ ok r)
        × (r.provider ≡ "echo")
        × (r.text ≡ echo_text dumps q)

    IsEcho-past :
        (front back : List (LlmProvider V)) (i : ℕ) (previous : Option String)
        (attempts : List String) (t : Routing V observer.Observed)
        → All (IsDown q) front
        → IsEcho (try_all fl observer policy (front ++ (echo ∷ back)) i previous attempts q run t).0
    unfolding echo_provider
    IsEcho-past [] back i previous attempts t down =
        rw (try_all-answered fl observer policy echo back i previous attempts q run t echoed refl)
          (success_result (ltb 0 i) previous echoed, refl, refl, refl)
    IsEcho-past (d ∷ front) back i previous attempts t down =
        let (reason, entry, e) = down.0 t.world in
        rw
          (try_all-failed fl observer policy d (front ++ (echo ∷ back)) i previous attempts q run t
            reason entry e)
          (IsEcho-past front back (suc i) (some reason) (attempts ++ (entry ∷ [])) _ down.1)

    -- In local development, where no HTTP call comes to an answer: whatever chain the settings
    -- name, the router that is built from them, if it is built, answers with the echo provider.
    pub local-complete :
        (state : Routing V observer.Observed) (ps : List (LlmProvider V))
        → is_local s.app_env ≡ true
        → IsSilent http
        → build_router http dumps elapsed s ≡ ok ps
        → IsEcho (complete fl observer policy ps q run state).0
    unfolding build_router complete
    local-complete state ps here silent built =
        let names = chain_names s in
        let h =
          build_all-HasEcho silent names ps ((chain_names-echo s).1 (inl here))
            (router_of-ok (build_all http dumps elapsed names s) ps built) in
        subst (λ xs. IsEcho (try_all fl observer policy xs 0 none [] q run state).0) (sym h.split)
          (IsEcho-past h.front h.back 0 none [] state h.down)
