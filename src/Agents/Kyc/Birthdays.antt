-- ===== src/Agents/Kyc/Birthdays.antt =====
-- The age at a date, by birthdays.
use banking_ai_platform.Prelude.{
  ℕ, ◌+◌, ◌≡◌, ◌↔◌, ◌-◌, inl, inr, Bool, true, false, ◌&&◌, ◌||◌, ltb, leb, ◌==◌, pos, arith,
  if◌then◌else◌, not, ap, Bool-cases,
}
use banking_ai_platform.Agents.Kyc.Dates.{Date, age_on, is_before_birthday, sub_ℕ}
use banking_ai_platform.Agents.Kyc.{is_minor, is_implausible}

-- The day on which somebody turns `n`, the 29th of February in common years included.
abbrev pub birthday : Date → ℕ → Date
birthday dob n = record dob { year = dob.year + n }

-- In the order of the calendar.
abbrev pub not_after : Date → Date → Bool
not_after a b =
    ltb a.year b.year
    || ((a.year == b.year) && (ltb a.month b.month || ((a.month == b.month) && leb a.day b.day)))

-- The age, as a difference of years, the year of birth counted from the birthday on.
sub_ℕ-pos : (a b n : ℕ) → (sub_ℕ a b ≡ pos n) ↔ (b + n ≡ a)
sub_ℕ-pos a b n = elim (Bool-cases (leb b a)) [
  | inl e ↦ (λ h. ground (arith, h, e), λ h. let h' : a - b ≡ n = omega arith in rw e (ap pos h'))
  | inr e ↦ (λ h. ground (arith, h, e), λ h. ground (arith, h, e))
]

-- Somebody is `n` years old, by the date and the day of birth, exactly when the `n`-th birthday is
-- not after the date, and the one after it is.
pub age_on-birthdays :
    (reference dob : Date) (n : ℕ)
    → (age_on reference dob ≡ pos n) ↔ (
        (not_after (birthday dob n) reference ≡ true)
        × (not_after (birthday dob (n + 1)) reference ≡ false))
unfolding age_on
age_on-birthdays reference dob n = (
  λ h. ground (
    arith,
    h,
    (sub_ℕ-pos reference.year (dob.year + (if is_before_birthday reference dob then 1 else 0)) n).0
        h,
  ),
  λ h.
      (sub_ℕ-pos reference.year (dob.year + (if is_before_birthday reference dob then 1 else 0))
          n).1
        (ground (arith, h)),
)

pub is_minor-age_on :
    (today dob : Date) → is_minor (age_on today dob) ≡ not (not_after (birthday dob 18) today)
unfolding age_on
is_minor-age_on today dob = ground arith

pub is_implausible-age_on :
    (today dob : Date) → is_implausible (age_on today dob) ≡ not_after (birthday dob 121) today
unfolding age_on
is_implausible-age_on today dob = ground arith
