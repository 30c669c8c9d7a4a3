-- ===== src/Agents/Document/Reviews.antt =====
-- What the review of a document says of its fields.
use banking_ai_platform.Prelude.{
  String, ◌is◌, eq_iff, is_empty, contains, contains-from_keys, Bool, true, false, ◌||◌, Option,
  none, some, List, [], ◌∷◌, ◌++◌, map, first, lookup, lookup-insert, is_nil, if◌then◌else◌, ◌≡◌,
  refl, sym, ◌∙◌, ◌↔◌, inl, inr, arith, Option-cases, splitlines,
}
use banking_ai_platform.Agents.Document.Lines.{
  read_lines, store_field, field_line, normalise_key, parse_fields,
}
use banking_ai_platform.Agents.Document.{
  ExtractedField, DocumentAgentInput, expected_fields, expected_of, list_or_nil, has_field,
  expected_field, surfaced, missing_of, run,
}

-- A key that reads a value reads one that is not empty.
abbrev Filled : List (String × String) → Type 0
Filled fields = (key v : String) → lookup key fields ≡ some v → is_empty v ≡ false

Filled-store :
    (found : Option (String × String)) (fields : List (String × String))
    → Filled fields
    → Filled (store_field found fields)
Filled-store none fields filled key v h = filled key v h
Filled-store (some (label, value)) fields filled key v h =
    ground (arith, h, filled key v, lookup-insert (normalise_key label) key value fields)

Filled-lines :
    (lines : List String) (fields : List (String × String))
    → Filled fields
    → Filled (read_lines lines fields)
unfolding read_lines
Filled-lines [] fields filled = filled
Filled-lines (line ∷ lines) fields filled =
    Filled-lines lines (store_field (field_line line) fields)
      (Filled-store (field_line line) fields filled)

Filled-parse : (text : String) → Filled (parse_fields text)
unfolding parse_fields lookup
Filled-parse text = Filled-lines (splitlines text) [] (λ key v h. ground (arith, h))

-- The names that the kind of a document or the caller asks for.
abbrev pub asks : DocumentAgentInput → String → Bool
asks payload name =
    contains (list_or_nil (lookup payload.kind expected_fields) ++ payload.extra_expected_fields)
      name

asks-expected :
    (payload : DocumentAgentInput) (name : String)
    → contains (expected_of payload) name ≡ asks payload name
unfolding expected_of
asks-expected payload name =
    contains-from_keys
      (list_or_nil (lookup payload.kind expected_fields) ++ payload.extra_expected_fields) name

missing-none :
    (parsed : List (String × String)) (expected : List String)
    → is_nil (missing_of parsed expected) ≡ true
    → (name : String) → contains expected name ≡ true
    → has_field parsed name ≡ true
unfolding missing_of
missing-none parsed [] h name m = ground (arith, m)
missing-none parsed (e ∷ expected) h name m =
    let rest =
      λ (h' : is_nil (missing_of parsed expected) ≡ true). missing-none parsed expected h' name in
    ground (arith, h, m, eq_iff e name, rest)

none-missing :
    (parsed : List (String × String)) (expected : List String)
    → ((name : String) → contains expected name ≡ true → has_field parsed name ≡ true)
    → is_nil (missing_of parsed expected) ≡ true
unfolding missing_of
none-missing parsed [] all = refl
none-missing parsed (e ∷ expected) all =
    let here = all e in
    let rest = none-missing parsed expected (λ name m. ground (arith, m, all name)) in
    ground (arith, rest, here, eq_iff e e)

abbrev pub IsRead : List (String × String) → String → Type 0
IsRead parsed name = (v : String) × (lookup name parsed ≡ some v) × (is_empty v ≡ false)

IsRead-has_field :
    (text name : String)
    → (has_field (parse_fields text) name ≡ true) ↔ IsRead (parse_fields text) name
unfolding has_field
IsRead-has_field text name = elim (Option-cases (lookup name (parse_fields text))) [
  | inl e ↦ (λ h. ground (arith, h, e), λ (v, e', _). ground (arith, e, e'))
  | inr (v, e) ↦ (λ h. (v, e, Filled-parse text name v e), λ h. ground (arith, e))
]

-- The fields of a text that the review of a document counts on.
abbrev pub IsComplete : DocumentAgentInput → Type 0
IsComplete payload =
    (is_nil (parse_fields payload.text) ≡ false)
    × ((name : String) → asks payload name ≡ true → IsRead (parse_fields payload.text) name)

-- A document passes without human review exactly when some field was read off its text and every
-- field that is asked for, by its kind or by the caller, reads a value that is not empty.
pub run-IsComplete :
    (payload : DocumentAgentInput)
    → ((run payload).requires_human_review ≡ false) ↔ IsComplete payload
unfolding run
run-IsComplete payload =
    let parsed = parse_fields payload.text in
    let expected = expected_of payload in
    (
      λ h.
          let none_left : is_nil (missing_of parsed expected) ≡ true = ground (arith, h) in
          (
            ground (arith, h),
            λ name m.
                (IsRead-has_field payload.text name).0
                  (missing-none parsed expected none_left name (asks-expected payload name ∙ m)),
          ),
      λ (some_field, all).
          let none_left = none-missing parsed expected (λ name m.
            (IsRead-has_field payload.text name).1
              (all name (sym (asks-expected payload name) ∙ m))) in
          ground (arith, some_field, none_left),
    )

-- The first of the extracted fields with a name.
abbrev pub extracted : String → List ExtractedField → Option ExtractedField
extracted name fields = first (λ f. f.name is name) fields

extracted-expected :
    (parsed : List (String × String)) (names : List String) (others : List ExtractedField)
    (name : String)
    → extracted name (map (expected_field parsed) names ++ others)
      ≡ (if contains names name then some (expected_field parsed name) else extracted name others)
extracted-expected parsed [] others name = refl
extracted-expected parsed (n ∷ names) others name =
    ground (arith, eq_iff n name, extracted-expected parsed names others name)

extracted-surfaced :
    (expected : List String) (parsed : List (String × String)) (name : String)
    → contains expected name ≡ false
    → extracted name (surfaced expected parsed)
      ≡ (if has_field parsed name then some (expected_field parsed name) else none)
unfolding surfaced has_field lookup
extracted-surfaced expected [] name h = refl
extracted-surfaced expected ((n, v) ∷ parsed) name h =
    ground (arith, h, eq_iff n name, extracted-surfaced expected parsed name h)

-- The review has a field under a name exactly when the name is asked for or the text has it. The
-- field then holds what the text has under the name, and says whether it has anything.
pub run-extracted :
    (payload : DocumentAgentInput) (name : String)
    → extracted name (run payload).extracted_fields ≡ (
        if asks payload name || has_field (parse_fields payload.text) name
        then some (expected_field (parse_fields payload.text) name)
        else none)
unfolding run
run-extracted payload name =
    let parsed = parse_fields payload.text in
    let expected = expected_of payload in
    ground (
      arith,
      asks-expected payload name,
      extracted-expected parsed expected (surfaced expected parsed) name,
      extracted-surfaced expected parsed name,
    )
