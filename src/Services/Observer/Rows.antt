-- ===== src/Services/Observer/Rows.antt =====
-- What the observer's tables say of one another.
use banking_ai_platform.Prelude.{
  ℕ, ◌+◌, ◌<◌, Bool, true, ◌&&◌, Option, some, List, [], ◌∷◌, ◌++◌, ◌≡◌, refl, All, All-append,
  first, ◌==◌, arith, Bool-cases, inl, inr,
}
use banking_ai_platform.Ai.Router.{ModelCallRecord}
use banking_ai_platform.Services.Observer.{
  ModelCall, CostTracking, Telemetry, call_of, cost_of, record_call,
}

abbrev pub find_call : ℕ → List ModelCall → Option ModelCall
find_call key calls = first (λ c. c.id == key) calls

-- A cost row names a stored call, which succeeded, for the same provider and model, and counts
-- its tokens.
pub record Billed {F : Type 0} (calls : List ModelCall) (c : CostTracking F) : Type 0 where
  pub call : ModelCall
  pub key : ℕ
  pub named : c.model_call_id ≡ some key
  pub stored : find_call key calls ≡ some call
  pub succeeded : call.success ≡ true
  pub same_provider : call.provider ≡ c.provider
  pub same_model : call.model ≡ c.model
  pub tokens : c.total_tokens ≡ call.prompt_tokens + call.completion_tokens

abbrev pub IsConsistent : {F : Type 0} → Telemetry F → Type 0
IsConsistent t =
    All (λ c. c.id < t.next_id) t.model_calls × All (Billed t.model_calls) t.cost_tracking

find-append :
    (key : ℕ) (calls : List ModelCall) (c x : ModelCall)
    → find_call key calls ≡ some x
    → find_call key (calls ++ (c ∷ [])) ≡ some x
find-append key [] c x h = cc
find-append key (d ∷ calls) c x h = ground (arith, h, find-append key calls c x)

find-append_new :
    (key : ℕ) (calls : List ModelCall) (c : ModelCall)
    → All (λ d. d.id < key) calls
    → c.id ≡ key
    → find_call key (calls ++ (c ∷ [])) ≡ some c
find-append_new key [] c h e = ground (arith, e)
find-append_new key (d ∷ calls) c h e = ground (arith, h.0, find-append_new key calls c h.1 e)

Billed-append :
    {F : Type 0} (calls : List ModelCall) (c : ModelCall) (rows : List (CostTracking F))
    → All (Billed calls) rows
    → All (Billed (calls ++ (c ∷ []))) rows
Billed-append calls c [] h = tt
Billed-append calls c (row ∷ rows) h = (
  record {
    call = h.0.call;
    key = h.0.key;
    named = h.0.named;
    stored = find-append h.0.key calls c h.0.call h.0.stored;
    succeeded = h.0.succeeded;
    same_provider = h.0.same_provider;
    same_model = h.0.same_model;
    tokens = h.0.tokens;
  },
  Billed-append calls c rows h.1,
)

below :
    (n m : ℕ) (calls : List ModelCall)
    → n < m
    → All (λ c. c.id < n) calls
    → All (λ c. c.id < m) calls
below n m [] h k = tt
below n m (c ∷ calls) h k = (omega (arith, h, k.0), below n m calls h k.1)

module _ {F : Type 0} (is_positive : F → Bool) (fails : ModelCallRecord F → Telemetry F → Bool)
    (r : ModelCallRecord F) (t : Telemetry F) where
  keys_fresh :
      (m : ℕ)
      → t.next_id < m
      → All (λ c. c.id < t.next_id) t.model_calls
      → All (λ c. c.id < m) (t.model_calls ++ (call_of t.next_id r ∷ []))
  keys_fresh m h k =
      All-append (λ c. c.id < m) t.model_calls (call_of t.next_id r ∷ [])
        (below t.next_id m t.model_calls h k) (h, tt)

  -- The observer's tables stay consistent: with each record, whether the database raises or not,
  -- every row of `cost_tracking` names a stored call, which succeeded, of the same provider and
  -- model, and counts its tokens.
  pub record_call-IsConsistent : IsConsistent t → IsConsistent (record_call is_positive fails r t).1
  unfolding record_call
  record_call-IsConsistent h = elim (Bool-cases (fails r t)) [
    | inl down ↦ rw down h
    | inr up ↦ elim (Bool-cases (r.success && is_positive r.estimated_cost_usd)) [
      | inr free ↦
          rw (up, free)
            (
              keys_fresh (t.next_id + 1) (omega arith) h.0,
              Billed-append t.model_calls (call_of t.next_id r) t.cost_tracking h.1,
            )
      | inl priced ↦
          rw (up, priced)
            (
              keys_fresh (t.next_id + 2) (omega arith) h.0,
              All-append (Billed (t.model_calls ++ (call_of t.next_id r ∷ []))) t.cost_tracking
                  (cost_of (t.next_id + 1) t.next_id r ∷ [])
                  (Billed-append t.model_calls (call_of t.next_id r) t.cost_tracking h.1)
                  (
                    record {
                      call = call_of t.next_id r;
                      key = t.next_id;
                      named = refl;
                      stored =
                          find-append_new t.next_id t.model_calls (call_of t.next_id r) h.0 refl;
                      succeeded = ground (arith, priced);
                      same_provider = refl;
                      same_model = refl;
                      tokens = refl;
                    },
                    tt,
                  ),
            )
    ]
  ]
