-- ===== src/Agents/Fraud/Scores.antt =====
-- What the score of a transaction says of the rules that it meets.
use banking_ai_platform.Prelude.{
  ℕ, ◌*◌, ◌≤◌, min, Bool, true, false, List, [], ◌∷◌, ◌≡◌, ◌↔◌, length, All, arith,
}
use banking_ai_platform.Agents.Fraud.{
  Amounts, FraudInput, FraudSignal, fired, total_weight, score_to_risk, is_high, rules, run,
}

is_high-score : (n : ℕ) → (is_high (score_to_risk (min 100 n)) ≡ true) ↔ (45 ≤ n)
is_high-score n = ground arith

abbrev Light : FraudSignal → Type 0
Light s = s.weight ≤ 30

Light-fired :
    (rules : List (Bool × FraudSignal)) → All (λ r. Light r.1) rules → All Light (fired rules)
Light-fired [] h = tt
Light-fired ((true, found) ∷ rules) h = (h.0, Light-fired rules h.1)
Light-fired ((false, found) ∷ rules) h = Light-fired rules h.1

total_weight-le :
    (signals : List FraudSignal) → All Light signals → total_weight signals ≤ 30 * length signals
total_weight-le [] h = omega arith
total_weight-le (s ∷ rest) h = omega (arith, h.0, total_weight-le rest h.1)

Light-rules :
    (am : Amounts) (payload : FraudInput am.Amount) → All (λ r. Light r.1) (rules am payload)
unfolding rules
Light-rules am payload = ground arith

-- A transaction goes to human review exactly when the weights of the rules that it meets sum up
-- to 45 or more. It then meets two rules at least, since none weighs more than 30, and its score
-- never exceeds 100.
pub run-review :
    (am : Amounts) (payload : FraudInput am.Amount)
    → (((run am payload).requires_human_review ≡ true)
        ↔ (45 ≤ total_weight (run am payload).signals))
      × ((run am payload).requires_human_review ≡ true → 2 ≤ length (run am payload).signals)
      × ((run am payload).score ≤ 100)
unfolding run
run-review am payload =
    let signals = fired (rules am payload) in
    let review = is_high-score (total_weight signals) in
    (
      review,
      λ h. omega (
        arith,
        review.0 h,
        total_weight-le signals (Light-fired (rules am payload) (Light-rules am payload)),
      ),
      omega arith,
    )
