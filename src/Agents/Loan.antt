-- ===== src/Agents/Loan.antt =====
-- agents/loan.py. The floats, with their comparisons and formats, are a parameter; a division of
-- theirs raises where it divides by zero.
use banking_ai_platform.Prelude.{ℕ, String, ◌<>◌, Bool, true, ◌||◌, List, [], ◌∷◌, if◌then◌else◌}
use banking_ai_platform.Core.Errors.{Result, ok, err}
use banking_ai_platform.Db.Enums.{RiskLevel}

pub record Floats : Type 1 where
  pub Float : Type 0
  pub literal : String → Float
  pub of_int : ℕ → Float
  pub add : Float → Float → Float
  pub sub : Float → Float → Float
  pub mul : Float → Float → Float
  pub div : Float → Float → Result Float
  pub pow : Float → ℕ → Float
  pub eqb : Float → Float → Bool
  pub geb : Float → Float → Bool
  pub ltb : Float → Float → Bool
  pub round : Float → ℕ → Float
  pub fixed_2 : Float → String
  pub percent_2 : Float → String
  pub percent_0 : Float → String

pub record LoanInput (F : Type 0) : Type 0 where
  pub monthly_income : F
  pub monthly_debt : F
  pub monthly_expenses : F
  pub loan_amount : F
  pub term_months : ℕ
  pub annual_interest_rate : F

pub record LoanResult (F : Type 0) : Type 0 where
  pub estimated_monthly_payment : F
  pub dti_ratio : F
  pub disposable_after_payment : F
  pub risk_level : RiskLevel
  pub recommendation : String
  pub requires_human_review : Bool
  pub rationale : List String

abbrev bind : {A B : Type 0} → Result A → (A → Result B) → Result B
bind (ok a) f = f a
bind (err e) f = err e

infixl 5 ◌>>=◌
abbrev pub ◌>>=◌ : {A B : Type 0} → Result A → (A → Result B) → Result B
r >>= f = bind r f

module _ (fl : Floats) where
  abbrev pub dti_warn : fl.Float
  dti_warn = fl.literal "0.36"

  abbrev pub dti_max : fl.Float
  dti_max = fl.literal "0.43"

  -- `_monthly_payment`
  unfoldable pub monthly_payment : fl.Float → fl.Float → ℕ → Result fl.Float
  monthly_payment principal annual_rate term_months =
      if fl.eqb annual_rate (fl.literal "0")
      then fl.div principal (fl.of_int term_months)
      else fl.div annual_rate (fl.literal "12.0") >>= λ r.
          let factor = fl.pow (fl.add (fl.literal "1") r) term_months in
          fl.div (fl.mul principal (fl.mul r factor)) (fl.sub factor (fl.literal "1"))

  abbrev pub assess : fl.Float → fl.Float → RiskLevel × String
  assess dti disposable =
      if fl.geb dti dti_max || fl.ltb disposable (fl.literal "0")
      then (RiskLevel.high, "Decline or restructure: affordability thresholds exceeded.")
      else if fl.geb dti dti_warn
      then (RiskLevel.medium, "Refer for manual underwriting: elevated DTI.")
      else (RiskLevel.low, "Within affordability policy: recommend approval subject to sign-off.")

  abbrev pub result_of : fl.Float → fl.Float → fl.Float → LoanResult fl.Float
  result_of payment dti disposable =
      let (risk, recommendation) = assess dti disposable in
      record {
        estimated_monthly_payment = fl.round payment 2;
        dti_ratio = fl.round dti 4;
        disposable_after_payment = fl.round disposable 2;
        risk_level = risk;
        recommendation = recommendation;
        requires_human_review = true;
        rationale =
            ("Estimated monthly payment: " <> fl.fixed_2 payment <> ".")
            ∷ ("DTI ratio: "
                <> fl.percent_2 dti
                <> " (warn ≥ "
                <> fl.percent_0 dti_warn
                <> ", max ≥ "
                <> fl.percent_0 dti_max
                <> ").")
            ∷ ("Disposable income after payment: " <> fl.fixed_2 disposable <> ".")
            ∷ [];
      }

  -- `LoanAgent.run`
  unfoldable pub run : LoanInput fl.Float → Result (LoanResult fl.Float)
  unfolding monthly_payment
  run payload =
      monthly_payment payload.loan_amount payload.annual_interest_rate payload.term_months
      >>= λ payment.
          let total_debt = fl.add payload.monthly_debt payment in
          fl.div total_debt payload.monthly_income >>= λ dti. ok (
            result_of payment dti
              (fl.sub (fl.sub payload.monthly_income payload.monthly_expenses) total_debt))
