-- ===== src/Agents/Kyc.antt =====
-- agents/kyc.py. Python's `repr` of a text is a parameter.
pub mod Dates
pub mod Birthdays
pub mod Reviews
use banking_ai_platform.Prelude.{
  ℕ, String, ◌<>◌, ◌is◌, strip, lower, upper, squeeze, is_space, is_empty, contains, join, Bool,
  true, false, ◌&&◌, ◌||◌, not, Option, none, some, List, [], ◌∷◌, ◌++◌, lookup, insert, is_nil,
  if◌then◌else◌, ltb, leb, ℤ, pos, negsuc, show_ℤ,
}
use banking_ai_platform.Db.Enums.{RiskLevel}
use banking_ai_platform.Agents.Kyc.Dates.{Date, parse_date, age_on}

abbrev pub Texts : Type 0
Texts = List (String × String)

pub record KycInput : Type 0 where
  pub profile : Texts
  pub document_fields : Texts
  pub today : Option Date

pub record KycResult : Type 0 where
  pub complete : Bool
  pub missing_fields : List String
  pub inconsistencies : List String
  pub risk_level : RiskLevel
  pub requires_human_review : Bool
  pub rationale : List String

unfoldable pub required_profile_fields : List String
required_profile_fields = "full_name" ∷ "date_of_birth" ∷ "country" ∷ "document_number" ∷ []

unfoldable pub high_risk_countries : List String
high_risk_countries = "XX" ∷ "ZZ" ∷ []

-- `{k.lower(): v for k, v in fields.items()}`
unfoldable pub lower_keys : Texts → Texts → Texts
unfolding lower insert
lower_keys [] built = built
lower_keys ((k, v) ∷ fields) built = lower_keys fields (insert (lower k) v built)

abbrev pub text_or_blank : Option String → String
text_or_blank none = ""
text_or_blank (some s) = s

-- `fields.get(key)`, where an absent field and an empty one count alike.
unfoldable pub field_of : String → Texts → String
unfolding lookup
field_of key fields = text_or_blank (lookup key fields)

unfoldable pub missing_of : List String → Texts → List String
unfolding field_of
missing_of [] profile = []
missing_of (f ∷ fs) profile =
    let rest = missing_of fs profile in if is_empty (field_of f profile) then f ∷ rest else rest

-- `_norm_name`
unfoldable pub norm_name : String → String
unfolding squeeze strip lower
norm_name value = squeeze is_space " " (lower (strip value))

-- `_escalate`, by the places in `_RISK_ORDER`
abbrev pub risk_rank : RiskLevel → ℕ
risk_rank RiskLevel.low = 0
risk_rank RiskLevel.medium = 1
risk_rank RiskLevel.high = 2
risk_rank RiskLevel.critical = 3

unfoldable pub escalate : RiskLevel → RiskLevel → RiskLevel
escalate current floor = if leb (risk_rank floor) (risk_rank current) then current else floor

-- `if test: messages.append(...)`
abbrev pub say : Bool → String → List String
say test message = if test then message ∷ [] else []

-- Do two given texts differ?
abbrev pub differ : String → String → Bool
differ a b = not (is_empty a) && not (is_empty b)

unfoldable pub name_differs : Texts → Texts → Bool
unfolding field_of norm_name
name_differs profile doc =
    let a = field_of "full_name" profile in
    let b = field_of "full_name" doc in differ a b && not (norm_name a is norm_name b)

unfoldable pub number_differs : Texts → Texts → Bool
unfolding field_of strip
number_differs profile doc =
    let a = field_of "document_number" profile in
    let b = field_of "document_number" doc in differ a b && not (strip a is strip b)

-- What the date of birth shows: nothing if it is not given, or its message and age.
pub data Birth : Type 0 where
  not_given : Birth
  unparseable : Birth
  aged : ℤ → Birth

unfoldable pub birth_of : Date → String → Birth
unfolding parse_date age_on
birth_of today raw =
    if is_empty raw
    then not_given
    else elim (parse_date raw) [ none ↦ unparseable | some dob ↦ aged (age_on today dob) ]

abbrev pub is_minor : ℤ → Bool
is_minor (pos n) = ltb n 18
is_minor (negsuc n) = true

abbrev pub is_implausible : ℤ → Bool
is_implausible (pos n) = ltb 120 n
is_implausible (negsuc n) = false

module _ (repr : String → String) where
  unfoldable pub birth_issues : String → Birth → List String
  birth_issues raw not_given = []
  birth_issues raw unparseable = ("Unparseable date_of_birth: " <> repr raw <> ".") ∷ []
  birth_issues raw (aged age) =
      if is_minor age
      then "Applicant is under 18." ∷ []
      else say (is_implausible age) "Implausible age (>120); check date_of_birth."

unfoldable pub birth_notes : Birth → List String
unfolding show_ℤ
birth_notes (aged age) = ("Derived age: " <> show_ℤ age <> ".") ∷ []
birth_notes _ = []

abbrev pub birth_risk : Birth → RiskLevel
birth_risk (aged age) = if is_minor age then RiskLevel.high else RiskLevel.low
birth_risk _ = RiskLevel.low

-- `risk in (RiskLevel.HIGH, RiskLevel.CRITICAL)`
abbrev pub is_high : RiskLevel → Bool
is_high RiskLevel.high = true
is_high RiskLevel.critical = true
is_high _ = false

-- The end of `run`, from what its checks found.
abbrev pub conclude : List String → List String → RiskLevel → String → List String → KycResult
conclude missing inconsistencies birth country notes =
    let listed = contains high_risk_countries country in
    let jurisdiction = if listed then escalate birth RiskLevel.high else birth in
    let risk =
      if is_nil inconsistencies then jurisdiction else escalate jurisdiction RiskLevel.medium in
    let review = not (is_nil missing) || not (is_nil inconsistencies) || is_high risk in
    record {
      complete = is_nil missing;
      missing_fields = missing;
      inconsistencies = inconsistencies;
      risk_level = risk;
      requires_human_review = review;
      rationale =
          notes
          ++ (say listed ("Country " <> country <> " is on the higher-risk list.")
              ++ (say (not (is_nil missing))
                    ("Profile incomplete; missing " <> join ", " missing <> ".")
                  ++ ((if review
                        then "Routed to human review (HITL)."
                        else "Automated KYC checks passed; no human review required.")
                      ∷ [])));
    }

-- `payload.today or date.today()`
abbrev pub today_of : Date → Option Date → Date
today_of date_today none = date_today
today_of date_today (some day) = day

module _ (repr : String → String) where
  -- The checks of `run` over the two sets of fields, their keys lowered.
  unfoldable pub check : Texts → Texts → Date → KycResult
  unfolding missing_of name_differs number_differs birth_of birth_issues birth_notes escalate
      high_risk_countries upper join field_of required_profile_fields
  check profile doc today =
      let raw = field_of "date_of_birth" profile in
      let birth = birth_of today raw in
      conclude (missing_of required_profile_fields profile)
        (say (name_differs profile doc) "Name on document does not match application profile."
          ++ (say (number_differs profile doc)
                "Document number mismatch between profile and document."
              ++ birth_issues repr raw birth))
        (birth_risk birth) (upper (field_of "country" profile)) (birth_notes birth)

  -- `KycAgent.run`, on the day `date_today`
  unfoldable pub run : Date → KycInput → KycResult
  unfolding check lower_keys
  run date_today payload =
      check (lower_keys payload.profile []) (lower_keys payload.document_fields [])
        (today_of date_today payload.today)
