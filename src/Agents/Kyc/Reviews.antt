-- ===== src/Agents/Kyc/Reviews.antt =====
-- When the KYC agent asks for no human review.
use banking_ai_platform.Prelude.{
  ◌≡◌, refl, ◌↔◌, ◌⊎◌, inl, inr, String, eq_iff, is_empty, strip, upper, contains, Bool, true,
  false, some, List, [], ◌∷◌, ◌++◌, is_nil, All, arith, Option-cases, Bool-cases,
}
use banking_ai_platform.Db.Enums.{RiskLevel}
use banking_ai_platform.Agents.Kyc.Dates.{Date, parse_date}
use banking_ai_platform.Agents.Kyc.{
  Texts, KycInput, required_profile_fields, high_risk_countries, field_of, missing_of, norm_name,
  name_differs, number_differs, Birth, birth_of, birth_issues, birth_risk, birth_notes, check,
  escalate, say, conclude, run, lower_keys, today_of,
}
use banking_ai_platform.Agents.Kyc.Birthdays.{
  birthday, not_after, is_minor-age_on, is_implausible-age_on,
}

is_nil-missing :
    (fs : List String) (profile : Texts)
    → (is_nil (missing_of fs profile) ≡ true) ↔ All (λ f. is_empty (field_of f profile) ≡ false) fs
unfolding missing_of
is_nil-missing [] profile = (λ _. tt, λ _. refl)
is_nil-missing (f ∷ fs) profile = (
  λ h. ground (arith, h, is_nil-missing fs profile),
  λ h. ground (arith, h, is_nil-missing fs profile),
)

is_nil-say :
    (b c : Bool) (m n : String) (rest : List String)
    → (is_nil (say b m ++ (say c n ++ rest)) ≡ true)
      ↔ ((b ≡ false) × (c ≡ false) × (is_nil rest ≡ true))
is_nil-say b c m n rest = (λ h. ground (arith, h), λ h. ground (arith, h))

-- Born on a day that `parse_date` reads, and at `today` 18 years old or more and not 121.
abbrev pub IsOfAge : Date → String → Type 0
IsOfAge today raw =
    (dob : Date) × (parse_date raw ≡ some dob)
    × (not_after (birthday dob 18) today ≡ true)
    × (not_after (birthday dob 121) today ≡ false)

module _ (repr : String → String) where
  birth_risk-low :
      (raw : String) (birth : Birth)
      → is_nil (birth_issues repr raw birth) ≡ true
      → birth_risk birth ≡ RiskLevel.low
  unfolding birth_issues
  birth_risk-low raw birth h = ground (arith, h)

  is_nil-issues :
      (today : Date) (raw : String)
      → is_empty raw ≡ false
      → (is_nil (birth_issues repr raw (birth_of today raw)) ≡ true) ↔ IsOfAge today raw
  unfolding birth_issues birth_of
  is_nil-issues today raw given = elim (Option-cases (parse_date raw)) [
    | inl e ↦ (λ h. ground (arith, h, given, e), λ (dob, e', _, _). ground (arith, e, e'))
    | inr (dob, e) ↦ (
      λ h. (
        dob,
        e,
        ground (arith, h, given, e, is_minor-age_on today dob),
        ground (arith, h, given, e, is_implausible-age_on today dob),
      ),
      λ (dob', e', old, young). ground (
        arith,
        given,
        e',
        old,
        young,
        is_minor-age_on today dob',
        is_implausible-age_on today dob',
      ),
    )
  ]

-- A field that the document gives agrees with the profile's, in the form in which they are compared.
abbrev pub Agrees : (String → String) → String → Texts → Texts → Type 0
Agrees form key profile doc =
    (is_empty (field_of key doc) ≡ true) ⊎ (form (field_of key profile) ≡ form (field_of key doc))

pub record IsClear (today : Date) (profile doc : Texts) : Type 0 where
  pub given : All (λ f. is_empty (field_of f profile) ≡ false) required_profile_fields
  pub name : Agrees norm_name "full_name" profile doc
  pub number : Agrees strip "document_number" profile doc
  pub of_age : IsOfAge today (field_of "date_of_birth" profile)
  pub unlisted : contains high_risk_countries (upper (field_of "country" profile)) ≡ false

name_differs-false :
    (profile doc : Texts)
    → is_empty (field_of "full_name" profile) ≡ false
    → (name_differs profile doc ≡ false) ↔ Agrees norm_name "full_name" profile doc
unfolding name_differs
name_differs-false profile doc given =
    let same =
      eq_iff (norm_name (field_of "full_name" profile)) (norm_name (field_of "full_name" doc)) in
    (λ h. ground (arith, h, given, same), λ h. ground (arith, h, given, same))

number_differs-false :
    (profile doc : Texts)
    → is_empty (field_of "document_number" profile) ≡ false
    → (number_differs profile doc ≡ false) ↔ Agrees strip "document_number" profile doc
unfolding number_differs
number_differs-false profile doc given =
    let same =
      eq_iff (strip (field_of "document_number" profile))
        (strip (field_of "document_number" doc)) in
    (λ h. ground (arith, h, given, same), λ h. ground (arith, h, given, same))

-- What the end of a run makes of what the checks found.
conclude-review :
    (missing inconsistencies : List String) (birth : RiskLevel) (country : String)
    (notes : List String)
    → (is_nil inconsistencies ≡ true → birth ≡ RiskLevel.low)
    → ((conclude missing inconsistencies birth country notes).requires_human_review ≡ false) ↔ (
        (is_nil missing ≡ true)
        × (is_nil inconsistencies ≡ true)
        × (contains high_risk_countries country ≡ false))
unfolding escalate
conclude-review missing inconsistencies birth country notes low =
    elim (Bool-cases (is_nil inconsistencies)) [
      | inl e ↦ rw (e, low e) (λ h. ground (arith, h), λ h. ground (arith, h))
      | inr e ↦ rw e (λ h. ground (arith, h), λ h. ground (arith, h))
    ]

module _ (repr : String → String) where
  check-IsClear :
      (profile doc : Texts) (today : Date)
      → ((check repr profile doc today).requires_human_review ≡ false) ↔ IsClear today profile doc
  unfolding check
  check-IsClear profile doc today =
      let raw = field_of "date_of_birth" profile in
      let birth = birth_of today raw in
      let missing = missing_of required_profile_fields profile in
      let issues = birth_issues repr raw birth in
      let found =
        is_nil-say (name_differs profile doc) (number_differs profile doc)
          "Name on document does not match application profile."
          "Document number mismatch between profile and document." issues in
      let given = is_nil-missing required_profile_fields profile in
      let iff =
        conclude-review missing _ (birth_risk birth) (upper (field_of "country" profile))
          (birth_notes birth) (λ h. birth_risk-low repr raw birth (found.0 h).2) in
      (
        λ h.
            let (complete, consistent, unlisted) = iff.0 h in
            let all = given.0 complete in
            let (a, b, c) = found.0 consistent in
            record {
              given = all;
              name = (name_differs-false profile doc all.0).0 a;
              number = (number_differs-false profile doc all.1.1.1.0).0 b;
              of_age = (is_nil-issues repr today raw all.1.0).0 c;
              unlisted = unlisted;
            },
        λ clear.
            let all = clear.given in
            iff.1 (
              given.1 all,
              found.1 (
                (name_differs-false profile doc all.0).1 clear.name,
                (number_differs-false profile doc all.1.1.1.0).1 clear.number,
                (is_nil-issues repr today raw all.1.0).1 clear.of_age,
              ),
              clear.unlisted,
            ),
      )

  -- The KYC agent asks for no human review exactly when the four required fields of the profile are
  -- given, the name and the document number agree with the document's where it gives them, the date
  -- of birth can be read and belongs to somebody of 18 to 120 years, to the day, and the country is
  -- not on the list. The keys of the profile and of the document count in lower case.
  pub run-IsClear :
      (date_today : Date) (payload : KycInput)
      → ((run repr date_today payload).requires_human_review ≡ false)
        ↔ IsClear
            (today_of date_today payload.today)
            (lower_keys payload.profile [])
            (lower_keys payload.document_fields [])
  unfolding run
  run-IsClear date_today payload =
      check-IsClear (lower_keys payload.profile []) (lower_keys payload.document_fields [])
        (today_of date_today payload.today)
