-- ===== src/Ai/Cost.antt =====
-- ai/cost.py. The arithmetic of floats is a parameter, a record of the operations used.
pub mod Lookup
use banking_ai_platform.Prelude.{
  ℕ, ◌≤◌, String, ◌is◌, size, starts_with, Bool, true, false, ◌&&◌, Option, none, some, List, [],
  ◌∷◌, ◌≡◌, if◌then◌else◌, ltb, All,
}

pub record Floats : Type 1 where
  pub Float : Type 0
  pub literal : String → Float
  pub of_int : ℕ → Float
  pub add : Float → Float → Float
  pub mul : Float → Float → Float
  pub div : Float → Float → Float
  pub round : Float → ℕ → Float

-- An entry of `_PRICES`: prices per 1K tokens by their literals.
pub record Price : Type 0 where
  pub provider : String
  pub model_prefix : String
  pub input_per_1k : String
  pub output_per_1k : String

abbrev price : String → String → String → String → Price
price p m i o = record { provider = p; model_prefix = m; input_per_1k = i; output_per_1k = o }

unfoldable pub prices : List Price
prices =
    price "groq" "llama-3.1-8b" "0.00005" "0.00008"
    ∷ price "groq" "llama-3.1-70b" "0.00059" "0.00079"
    ∷ price "groq" "mixtral" "0.00024" "0.00024"
    ∷ price "local_gemma" "" "0.0" "0.0"
    ∷ price "echo" "" "0.0" "0.0"
    ∷ []

-- `_DEFAULT`, under no name.
unfoldable pub default_price : Price
default_price = price "" "" "0.0005" "0.0015"

abbrev pub applies : String → String → Price → Bool
applies provider model e = (e.provider is provider) && starts_with e.model_prefix model

-- `len(prefix) > best_len`, which starts at -1
abbrev pub longer : Price → Option Price → Bool
longer e none = true
longer e (some best) = ltb (size best.model_prefix) (size e.model_prefix)

-- The loop of `_lookup`.
unfoldable pub best_of : String → String → List Price → Option Price → Option Price
best_of provider model [] best = best
best_of provider model (e ∷ rest) best =
    best_of provider model rest (if applies provider model e && longer e best then some e else best)

-- `best or _DEFAULT`
abbrev pub or_default_price : Option Price → Price
or_default_price none = default_price
or_default_price (some e) = e

-- `_lookup`
unfoldable pub lookup_price : String → String → Price
lookup_price provider model = or_default_price (best_of provider model prices none)

module _ (fl : Floats) where
  open fl use {Float, literal, of_int, add, mul, div, round}

  abbrev pub per_1k : ℕ → String → Float
  per_1k tokens rate = mul (div (of_int tokens) (literal "1000.0")) (literal rate)

  abbrev pub estimate_cost_usd : String → String → ℕ → ℕ → Float
  estimate_cost_usd provider model prompt_tokens completion_tokens =
      let e = lookup_price provider model in
      round (add (per_1k prompt_tokens e.input_per_1k) (per_1k completion_tokens e.output_per_1k)) 6
