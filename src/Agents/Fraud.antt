-- ===== src/Agents/Fraud.antt =====
-- agents/fraud.py. The floats of a transaction, with their comparisons and formats, are a
-- parameter.
use banking_ai_platform.Prelude.{
  ℕ, ◌+◌, min, String, ◌<>◌, show, upper, contains, Bool, true, false, ◌&&◌, Option, none, some,
  List, [], ◌∷◌, ◌++◌, if◌then◌else◌, ltb, leb,
}
use banking_ai_platform.Db.Enums.{RiskLevel}
pub mod Scores

pub record Amounts : Type 1 where
  pub Amount : Type 0
  pub literal : String → Amount
  pub geb : Amount → Amount → Bool
  pub gtb : Amount → Amount → Bool
  pub mul : Amount → Amount → Amount
  pub fixed_2 : Amount → String
  pub fixed_0 : Amount → String

pub record Transaction (A : Type 0) : Type 0 where
  pub amount : A
  pub currency : String
  pub country : Option String
  pub account_age_days : ℕ
  pub is_new_beneficiary : Bool
  pub beneficiary_country : Option String
  pub channel : String
  pub hour_of_day : ℕ
  pub recent_failed_logins : ℕ

pub record FraudInput (A : Type 0) : Type 0 where
  pub transaction : Transaction A
  pub customer_avg_amount : A

pub record FraudSignal : Type 0 where
  pub rule : String
  pub weight : ℕ
  pub reason : String

pub record FraudResult : Type 0 where
  pub score : ℕ
  pub risk_level : RiskLevel
  pub signals : List FraudSignal
  pub requires_human_review : Bool
  pub recommendation : String

unfoldable pub high_risk_countries : List String
high_risk_countries = "XX" ∷ "ZZ" ∷ []

-- A rule's test, and the signal that it appends where the test holds.
abbrev pub rule : Bool → String → ℕ → String → Bool × FraudSignal
rule test name weight reason = (test, record { rule = name; weight = weight; reason = reason })

abbrev pub fired : List (Bool × FraudSignal) → List FraudSignal
fired [] = []
fired ((test, found) ∷ rules) = let rest = fired rules in if test then found ∷ rest else rest

abbrev pub or_blank : Option String → String
or_blank none = ""
or_blank (some s) = s

module _ (am : Amounts) (payload : FraudInput am.Amount) where
  open am use {literal, geb, gtb, mul, fixed_2, fixed_0}

  abbrev pub txn : Transaction am.Amount
  txn = payload.transaction

  abbrev pub large : Bool
  large = geb txn.amount (literal "10000.0")

  abbrev pub anomalous : Bool
  anomalous =
      gtb payload.customer_avg_amount (literal "0")
      && gtb txn.amount (mul (literal "5.0") payload.customer_avg_amount)

  abbrev pub over_1000 : Bool
  over_1000 = geb txn.amount (literal "1000")

  abbrev pub destination : String
  destination = upper (or_blank txn.beneficiary_country)

  unfoldable pub rules : List (Bool × FraudSignal)
  unfolding high_risk_countries upper show
  rules =
      rule large "large_absolute_amount" 30 (
        "Amount "
        <> fixed_2 txn.amount
        <> " "
        <> txn.currency
        <> " exceeds "
        <> fixed_0 (literal "10000.0")
        <> ".")
      ∷ rule anomalous "amount_anomaly" 25 (
          "Amount is >"
          <> fixed_0 (literal "5.0")
          <> "x the customer average ("
          <> fixed_2 payload.customer_avg_amount
          <> ").")
      ∷ rule (ltb txn.account_age_days 30) "new_account" 15
          ("Account is only " <> show txn.account_age_days <> " day(s) old.")
      ∷ rule (txn.is_new_beneficiary && over_1000) "new_beneficiary_large" 15
          "Large transfer to a newly added beneficiary."
      ∷ rule (contains high_risk_countries destination) "high_risk_destination" 20
          ("Beneficiary country " <> destination <> " is on the higher-risk list.")
      ∷ rule (leb 3 txn.recent_failed_logins) "failed_login_burst" 20
          (show txn.recent_failed_logins <> " recent failed logins before transaction.")
      ∷ rule (leb 1 txn.hour_of_day && ltb txn.hour_of_day 5 && over_1000) "odd_hour_large" 10
          "Large transaction during unusual hours (01:00-04:59)."
      ∷ []

-- `sum(s.weight for s in signals)`
abbrev pub total_weight : List FraudSignal → ℕ
total_weight [] = 0
total_weight (s ∷ rest) = s.weight + total_weight rest

-- `_score_to_risk`
abbrev pub score_to_risk : ℕ → RiskLevel
score_to_risk score =
    if leb 70 score
    then RiskLevel.critical
    else if leb 45 score
    then RiskLevel.high
    else if leb 20 score
    then RiskLevel.medium
    else RiskLevel.low

-- `_recommendation`
unfoldable pub recommendation_for : RiskLevel → String
recommendation_for RiskLevel.low = "Auto-approve; no action required."
recommendation_for RiskLevel.medium = "Allow with monitoring; no human review required."
recommendation_for RiskLevel.high = "Hold and route to a human reviewer before settlement."
recommendation_for RiskLevel.critical = "Block pending mandatory human investigation."

-- `risk in (RiskLevel.HIGH, RiskLevel.CRITICAL)`
abbrev pub is_high : RiskLevel → Bool
is_high RiskLevel.high = true
is_high RiskLevel.critical = true
is_high _ = false

abbrev pub assess : List FraudSignal → FraudResult
assess signals =
    let score = min 100 (total_weight signals) in
    let risk = score_to_risk score in
    record {
      score = score;
      risk_level = risk;
      signals = signals;
      requires_human_review = is_high risk;
      recommendation = recommendation_for risk;
    }

-- `FraudAgent.run`
unfoldable pub run : (am : Amounts) → FraudInput am.Amount → FraudResult
unfolding rules recommendation_for
run am payload = assess (fired (rules am payload))
