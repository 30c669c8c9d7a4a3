-- ===== src/Agents/Document.antt =====
-- agents/document.py and the review of schemas/document.py.
pub mod Lines
pub mod Reviews
use banking_ai_platform.Prelude.{
  ℕ, String, ◌<>◌, ◌is◌, show, split, contains, join, Bool, true, false, not, ◌&&◌, ◌||◌, Option,
  none, some, List, [], ◌∷◌, ◌++◌, map, keep, from_keys, lookup, length, is_nil, if◌then◌else◌,
}
use banking_ai_platform.Agents.Document.Lines.{parse_fields}

pub record ExtractedField : Type 0 where
  pub name : String
  pub value : Option String
  pub present : Bool

pub record DocumentReview : Type 0 where
  pub document_id : ℕ
  pub summary : String
  pub extracted_fields : List ExtractedField
  pub missing_fields : List String
  pub review_notes : List String
  pub requires_human_review : Bool

pub record DocumentAgentInput : Type 0 where
  pub document_id : ℕ
  pub kind : String
  pub text : String
  pub extra_expected_fields : List String

-- `EXPECTED_FIELDS`
unfoldable pub expected_fields : List (String × List String)
expected_fields =
    ("identity", "full_name" ∷ "date_of_birth" ∷ "document_number" ∷ "expiry_date" ∷ [])
    ∷ ("proof_of_address", "full_name" ∷ "address" ∷ "issue_date" ∷ [])
    ∷ ("bank_statement", "account_number" ∷ "statement_period" ∷ "closing_balance" ∷ [])
    ∷ ("generic", [])
    ∷ []

abbrev pub list_or_nil : Option (List String) → List String
list_or_nil none = []
list_or_nil (some xs) = xs

unfoldable pub expected_of : DocumentAgentInput → List String
unfolding from_keys lookup expected_fields
expected_of payload =
    from_keys (list_or_nil (lookup payload.kind expected_fields) ++ payload.extra_expected_fields)

abbrev pub is_some : Option String → Bool
is_some none = false
is_some (some s) = true

unfoldable pub has_field : List (String × String) → String → Bool
unfolding lookup
has_field parsed name = is_some (lookup name parsed)

abbrev pub expected_field : List (String × String) → String → ExtractedField
expected_field parsed name = record {
  name = name;
  value = lookup name parsed;
  present = has_field parsed name;
}

-- The fields found that were not expected.
unfoldable pub surfaced : List String → List (String × String) → List ExtractedField
surfaced expected [] = []
surfaced expected ((name, value) ∷ parsed) =
    let rest = surfaced expected parsed in
    if contains expected name
    then rest
    else record { name = name; value = some value; present = true } ∷ rest

unfoldable pub missing_of : List (String × String) → List String → List String
unfolding has_field
missing_of parsed expected = keep (λ name. not (has_field parsed name)) expected

-- `if test: notes.append(...)`
abbrev pub note : Bool → String → List String
note test message = if test then message ∷ [] else []

abbrev pub review_of :
    DocumentAgentInput → List (String × String) → List String → List String → DocumentReview
review_of payload parsed expected missing = record {
  document_id = payload.document_id;
  summary =
      "Document "
      <> show payload.document_id
      <> " ("
      <> payload.kind
      <> "): parsed "
      <> show (length parsed)
      <> " field(s) from ~"
      <> show (length (split payload.text))
      <> " words; "
      <> show (length missing)
      <> " expected field(s) missing.";
  extracted_fields = map (expected_field parsed) expected ++ surfaced expected parsed;
  missing_fields = missing;
  review_notes =
      note (is_nil parsed) "No structured fields could be parsed from the document text."
      ++ (note (not (is_nil missing)) ("Missing expected field(s): " <> join ", " missing <> ".")
          ++ note ((payload.kind is "generic") && is_nil expected)
              "No expected-field schema for 'generic'; extracted values only.");
  requires_human_review = not (is_nil missing) || is_nil parsed;
}

-- `DocumentAgent.run`
unfoldable pub run : DocumentAgentInput → DocumentReview
unfolding parse_fields expected_of missing_of surfaced has_field lookup show split join
run payload =
    let parsed = parse_fields payload.text in
    let expected = expected_of payload in
    review_of payload parsed expected (missing_of parsed expected)
