-- ===== src/Services/Audit/Redaction.antt =====
-- What the redaction of a context keeps and hides.
use banking_ai_platform.Prelude.{
  String, ◌≡◌, refl, ap, Bool, Option, none, some, [], ◌∷◌, contains, lower, if◌then◌else◌, Value,
  Dict, keys, lookup, ◌is◌, eq_iff, Bool-cases, inl, inr,
}
use banking_ai_platform.Services.Audit.{sensitive_keys, redacted_value, redact}

abbrev pub is_sensitive : String → Bool
is_sensitive key = contains sensitive_keys (lower key)

keys-redact : (context : Dict) → keys (redact context) ≡ keys context
unfolding redact
keys-redact [] = refl
keys-redact ((key, value) ∷ context) = ap (λ ks. key ∷ ks) (keys-redact context)

abbrev pub hide : Bool → Option Value → Option Value
hide sensitive none = none
hide sensitive (some value) = some (if sensitive then redacted_value else value)

lookup-redact :
    (key : String) (context : Dict)
    → lookup key (redact context) ≡ hide (is_sensitive key) (lookup key context)
unfolding redact lookup
lookup-redact key [] = refl
lookup-redact key ((k, value) ∷ context) = elim (Bool-cases (k is key)) [
  | inl same ↦
      rw same
        (ap (λ j. some (if is_sensitive j then redacted_value else value)) ((eq_iff k key).0 same))
  | inr other ↦ rw other (lookup-redact key context)
]

-- Redaction keeps every key, in order, and reads back as before but at the keys that are
-- sensitive in any letter case, where it reads the mark.
pub redact_lem :
    (context : Dict)
    → (keys (redact context) ≡ keys context)
      × ((key : String)
          → lookup key (redact context) ≡ hide (is_sensitive key) (lookup key context))
redact_lem context = (keys-redact context, λ key. lookup-redact key context)
