-- ===== src/Services/Audit/Logged.antt =====
-- What the redaction of the logs hides, beside that of the audit trail.
use banking_ai_platform.Prelude.{
  String, lower, starts_with, contains, some_of, true, List, [], ◌∷◌, Dict, if◌then◌else◌, ◌≡◌,
  refl, arith, eq_iff, lookup, some, ap, ◌∙◌, ◌is◌, Bool-cases, inl, inr,
}
use banking_ai_platform.Core.Logging.{occurs, is_scrubbed, logged_sensitive_keys, redact_processor}
use banking_ai_platform.Services.Audit.{sensitive_keys, redacted_value}
use banking_ai_platform.Services.Audit.Redaction.{is_sensitive, hide}

starts_with_self : (s : String) → starts_with s s ≡ true
starts_with_self String.[] = refl
starts_with_self (String.◌∷◌ c s) = ground (arith, starts_with_self s)

occurs_self : (s : String) → occurs s s ≡ true
unfolding occurs
occurs_self String.[] = refl
occurs_self (String.◌∷◌ c s) = ground (arith, starts_with_self (String.◌∷◌ c s))

some_of-contains :
    (names : List String) (s : String)
    → contains names s ≡ true
    → some_of (λ name. occurs name s) names ≡ true
some_of-contains [] s h = ground (arith, h)
some_of-contains (name ∷ names) s h =
    let here = λ (same : name ≡ s). ap (λ n. occurs n s) same ∙ occurs_self s in
    ground (arith, h, here, eq_iff name s, some_of-contains names s)

contains-logged :
    (s : String) → contains sensitive_keys s ≡ true → contains logged_sensitive_keys s ≡ true
unfolding logged_sensitive_keys
contains-logged s h = ground (arith, h)

scrubbed-sensitive : (key : String) → is_sensitive key ≡ true → is_scrubbed key ≡ true
unfolding is_scrubbed
scrubbed-sensitive key h =
    some_of-contains logged_sensitive_keys (lower key) (contains-logged (lower key) h)

lookup-redact_processor :
    (key : String) (event : Dict)
    → lookup key (redact_processor event) ≡ hide (is_scrubbed key) (lookup key event)
unfolding redact_processor lookup
lookup-redact_processor key [] = refl
lookup-redact_processor key ((k, value) ∷ event) = elim (Bool-cases (k is key)) [
  | inl same ↦
      rw same
        (ap (λ j. some (if is_scrubbed j then redacted_value else value)) ((eq_iff k key).0 same))
  | inr other ↦ rw other (lookup-redact_processor key event)
]

-- A logged event reads back as before but at the keys that hold a sensitive word, in any letter
-- case, where it reads the mark. Every key that the audit trail hides the logs hide too.
pub redact_processor_lem :
    (key : String) (event : Dict)
    → (lookup key (redact_processor event) ≡ hide (is_scrubbed key) (lookup key event))
      × (is_sensitive key ≡ true → is_scrubbed key ≡ true)
redact_processor_lem key event = (lookup-redact_processor key event, scrubbed-sensitive key)
