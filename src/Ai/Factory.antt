-- ===== src/Ai/Factory.antt =====
-- ai/factory.py: the providers of a router, in order, from the settings. What the providers stand
-- on is a parameter: the HTTP client, `json.dumps`, and the time that the echo provider takes.
pub mod Chain
pub mod Local
use banking_ai_platform.Prelude.{
  ℕ, Fields, String, ◌<>◌, ◌is◌, Bool, true, false, List, [], ◌∷◌, ◌++◌, contains, if◌then◌else◌,
  array, texts,
}
use banking_ai_platform.Core.Errors.{Result, ok, err, raise_app, model_router_error}
use banking_ai_platform.Core.Config.{
  AppEnv, is_local, RouterPolicy, prefer_online, offline_only, online_only, Settings,
}
use banking_ai_platform.Ai.Provider.{LlmProvider, echo_provider}
use banking_ai_platform.Ai.OpenaiCompatible.{
  Http, openai_provider, groq_endpoint, local_gemma_endpoint,
}
use banking_ai_platform.Ai.Router.{make_router}

abbrev pub unknown_provider : {V : Type 0} → String → Result (LlmProvider V)
unknown_provider name = err (
    raise_app model_router_error ("Unknown LLM provider '" <> name <> "'.")
      (("known", array (texts ("echo" ∷ "groq" ∷ "local_gemma" ∷ []))) ∷ []))

abbrev pub policy_chain : RouterPolicy → String → String → List String
policy_chain online_only primary fallback = primary ∷ []
policy_chain offline_only primary fallback = fallback ∷ []
policy_chain prefer_online primary fallback = primary ∷ fallback ∷ []

-- `_chain_names`
unfoldable pub chain_names : Settings → List String
chain_names settings =
    let names =
      policy_chain settings.llm_router_policy settings.llm_primary_provider
        settings.llm_fallback_provider in
    if is_local settings.app_env
    then (if contains names "echo" then names else names ++ ("echo" ∷ []))
    else names

module _ {V : Type 0} where
  abbrev pub cons_built :
      Result (LlmProvider V) → Result (List (LlmProvider V)) → Result (List (LlmProvider V))
  cons_built (err e) rest = err e
  cons_built (ok p) (err e) = err e
  cons_built (ok p) (ok ps) = ok (p ∷ ps)

  abbrev pub router_of : Result (List (LlmProvider V)) → Result (List (LlmProvider V))
  router_of (err e) = err e
  router_of (ok ps) = make_router ps

module _ {V : Type 0} (http : Http V) (dumps : Fields → String) (elapsed : ℕ) where
  -- `build_provider`, with `_BUILDERS`.
  unfoldable pub build_provider : String → Settings → Result (LlmProvider V)
  unfolding openai_provider groq_endpoint local_gemma_endpoint echo_provider
  build_provider name settings =
      if name is "echo"
      then ok (echo_provider dumps elapsed)
      else if name is "groq"
      then ok (openai_provider http (groq_endpoint settings))
      else if name is "local_gemma"
      then ok (openai_provider http (local_gemma_endpoint settings))
      else unknown_provider name

  -- `[build_provider(name, settings) for name in names]`
  abbrev pub build_all : List String → Settings → Result (List (LlmProvider V))
  build_all [] settings = ok []
  build_all (name ∷ names) settings =
      cons_built (build_provider name settings) (build_all names settings)

  -- `build_router`: the providers of the router that it makes.
  unfoldable pub build_router : Settings → Result (List (LlmProvider V))
  unfolding chain_names build_provider make_router
  build_router settings = router_of (build_all (chain_names settings) settings)
