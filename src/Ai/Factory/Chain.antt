-- ===== src/Ai/Factory/Chain.antt =====
-- The providers that the settings give, and where the echo provider is among them.
use banking_ai_platform.Prelude.{true, [], ◌∷◌, contains, contains-append, ◌≡◌, ◌↔◌, ◌⊎◌, arith}
use banking_ai_platform.Core.Config.{is_local, Settings}
use banking_ai_platform.Ai.Factory.{policy_chain, chain_names}

-- The chain holds the echo provider exactly when the environment is local or the policy's own
-- chain names it: outside local development it is there only if it is configured.
pub chain_names-echo :
    (s : Settings)
    → (contains (chain_names s) "echo" ≡ true) ↔ (
        (is_local s.app_env ≡ true)
        ⊎ (contains
              (policy_chain s.llm_router_policy s.llm_primary_provider s.llm_fallback_provider)
              "echo"
            ≡ true))
unfolding chain_names
chain_names-echo s =
    let names = policy_chain s.llm_router_policy s.llm_primary_provider s.llm_fallback_provider in
    (
      λ h. ground (arith, h, contains-append names ("echo" ∷ []) "echo"),
      λ h. ground (arith, h, contains-append names ("echo" ∷ []) "echo"),
    )
