-- ===== src/Agents/Kyc/Dates.antt =====
-- The dates of agents/kyc.py: `datetime.strptime` for the three formats, as the regular
-- expressions of Python's library read them, and `_age_on`.
use Prim.Native.Char.{code}
use banking_ai_platform.Prelude.{
  ℕ, zero, suc, ◌+◌, ◌-◌, ◌*◌, ◌%◌, String, strip, is_empty, Bool, ◌&&◌, ◌||◌, not, Option, none,
  some, List, [], ◌∷◌, ◌++◌, if◌then◌else◌, ltb, leb, ◌==◌, ℤ, pos, negsuc,
}

pub record Date : Type 0 where
  pub year : ℕ
  pub month : ℕ
  pub day : ℕ

-- The 29th of February, counted in leap years.
abbrev pub extra_day : ℕ → ℕ
extra_day y = if (y % 400 == 0) || ((y % 4 == 0) && not (y % 100 == 0)) then 1 else 0

abbrev pub month_lengths : ℕ → List ℕ
month_lengths y = 31 ∷ (28 + extra_day y) ∷ 31 ∷ 30 ∷ 31 ∷ 30 ∷ 31 ∷ 31 ∷ 30 ∷ 31 ∷ 30 ∷ 31 ∷ []

-- The length of the month that comes after `passed` others.
unfoldable pub length_after : (passed : ℕ) → List ℕ → ℕ
length_after passed [] = 0
length_after zero (days ∷ later) = days
length_after (suc passed) (days ∷ later) = length_after passed later

-- The years that `date` takes are 1 to 9999; a month read is 1 to 12, and a day 1 to 31.
abbrev pub is_date : ℕ → ℕ → ℕ → Bool
is_date y m d = leb 1 y && leb d (length_after (m - 1) (month_lengths y))

-- What a part of an expression can match, in the order in which it is tried: its value and the
-- rest of the text.
abbrev pub Matches : Type 0
Matches = List (ℕ × String)

-- A digit from `lo` to `hi`, added to `n`.
abbrev pub digit : ℕ → ℕ → ℕ → String → Matches
digit lo hi n String.[] = []
digit lo hi n (String.◌∷◌ c s) =
    let v = code c - b'0' in
    if leb (b'0' + lo) (code c) && leb (code c) (b'0' + hi) then (n + v, s) ∷ [] else []

-- The character, and what follows it.
abbrev pub literal : ℕ → (String → Matches) → String → Matches
literal c next String.[] = []
literal c next (String.◌∷◌ d s) = if code d == c then next s else []

-- `%m`: `1[0-2]|0[1-9]|[1-9]`
unfoldable pub month : String → Matches
month s = literal b'1' (digit 0 2 10) s ++ (literal b'0' (digit 1 9 0) s ++ digit 1 9 0 s)

-- `%d`: `3[0-1]|[1-2]\d|0[1-9]|[1-9]| [1-9]`
unfoldable pub day : String → Matches
day s =
    literal b'3' (digit 0 1 30) s
    ++ (literal b'1' (digit 0 9 10) s
        ++ (literal b'2' (digit 0 9 20) s
            ++ (literal b'0' (digit 1 9 0) s ++ (digit 1 9 0 s ++ literal b' ' (digit 1 9 0) s))))

-- One part after another, with backtracking.
abbrev pub then_digit : Matches → Matches
then_digit [] = []
then_digit ((n, s) ∷ rest) = digit 0 9 (10 * n) s ++ then_digit rest

-- `%Y`: `\d\d\d\d`
unfoldable pub year : String → Matches
year s = then_digit (then_digit (then_digit (digit 0 9 0 s)))

-- The first match of three parts round a separator, where nothing may be left over.
abbrev pub Parts : Type 0
Parts = List ((ℕ × ℕ × ℕ) × String)

abbrev pub third : (String → Matches) → ℕ → ℕ → ℕ → Matches → Parts
third part sep a b [] = []
third part sep a b ((c, s) ∷ rest) = ((a, b, c), s) ∷ third part sep a b rest

abbrev pub second : (String → Matches) → ℕ → ℕ → Matches → Parts
second part sep a [] = []
second part sep a ((b, s) ∷ rest) =
    third part sep a b (literal sep part s) ++ second part sep a rest

abbrev pub first_part : (String → Matches) → (String → Matches) → ℕ → Matches → Parts
first_part part part' sep [] = []
first_part part part' sep ((a, s) ∷ rest) =
    second part' sep a (literal sep part s) ++ first_part part part' sep rest

abbrev pub full_match : Parts → Option (ℕ × ℕ × ℕ)
full_match [] = none
full_match ((parts, s) ∷ rest) = if is_empty s then some parts else none

abbrev pub date_of : ℕ → ℕ → ℕ → Option Date
date_of y m d = if is_date y m d then some (record { year = y; month = m; day = d }) else none

-- The three of `_DATE_FORMATS`.
unfoldable pub iso_date : String → Option Date
unfolding year month day length_after
iso_date s = elim (full_match (first_part month day b'-' (year s))) [
  | none ↦ none
  | some (y, m, d) ↦ date_of y m d
]

unfoldable pub day_first_date : String → Option Date
unfolding year month day length_after
day_first_date s = elim (full_match (first_part month year b'/' (day s))) [
  | none ↦ none
  | some (d, m, y) ↦ date_of y m d
]

unfoldable pub month_first_date : String → Option Date
unfolding year month day length_after
month_first_date s = elim (full_match (first_part day year b'/' (month s))) [
  | none ↦ none
  | some (m, d, y) ↦ date_of y m d
]

abbrev pub or_else : {A : Type 0} → Option A → Option A → Option A
or_else none other = other
or_else (some a) other = some a

-- `_parse_date`
unfoldable pub parse_date : String → Option Date
unfolding iso_date day_first_date month_first_date strip
parse_date value =
    let s = strip value in or_else (iso_date s) (or_else (day_first_date s) (month_first_date s))

-- `(reference.month, reference.day) < (dob.month, dob.day)`
abbrev pub is_before_birthday : Date → Date → Bool
is_before_birthday reference dob =
    ltb reference.month dob.month || ((reference.month == dob.month) && ltb reference.day dob.day)

-- `a - b`
abbrev pub sub_ℕ : ℕ → ℕ → ℤ
sub_ℕ a b = if leb b a then pos (a - b) else negsuc (b - a - 1)

-- `_age_on`; a date of birth that is to come gives a negative age.
unfoldable pub age_on : Date → Date → ℤ
age_on reference dob =
    sub_ℕ reference.year (dob.year + (if is_before_birthday reference dob then 1 else 0))
