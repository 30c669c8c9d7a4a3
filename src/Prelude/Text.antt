-- ===== src/Prelude/Text.antt =====
-- Python's `str` as the native `String`, a sequence of characters: `+`, `in`, `join`, `upper`,
-- `lower`, `strip`, `split`, slices, and the decimal form of a number.
-- `upper` and `lower` change the ASCII letters, and white space is ASCII's.
use Prim.Native.Nat.{ℕ, zero, suc, ◌+◌, ◌/◌, ◌%◌}
use Prim.Native.Char.{Char, code}
use Prim.Native.String.{String, [], ◌∷◌, ◌++◌}
use mathlib.Core.Bool.{Bool, true, false, ◌&&◌, ◌||◌}
use mathlib.Core.Path.{◌≡◌, refl}
use mathlib.Core.List
use mathlib.Core.List.{List}
use native.Mathlib.Omega.{arith}
use text.Mathlib.Text.{◌==◌ as same_text}
use banking_ai_platform.Prelude.Tests.{leb, ltb, ◌==◌, if◌then◌else◌}

infixl 66 ◌<>◌
abbrev pub ◌<>◌ : String → String → String
s <> t = s ++ t

abbrev pub is_empty : String → Bool
is_empty [] = true
is_empty (c ∷ s) = false

-- `len(s)`
abbrev pub size : String → ℕ
size [] = 0
size (c ∷ s) = suc (size s)

-- `s.startswith(head)`
abbrev pub starts_with : (head : String) → String → Bool
starts_with [] s = true
starts_with (c ∷ head) [] = false
starts_with (c ∷ head) (d ∷ s) = (code c == code d) && starts_with head s

-- `s in texts`
abbrev pub contains : List String → String → Bool
contains List.[] s = false
contains (List.◌∷◌ t ts) s = same_text t s || contains ts s

pub contains-append :
    (xs ys : List String) (s : String)
    → contains (List.◌++◌ xs ys) s ≡ (contains xs s || contains ys s)
contains-append List.[] ys s = refl
contains-append (List.◌∷◌ x xs) ys s = ground (arith, contains-append xs ys s)

-- `sep.join(texts)`
unfoldable pub join : String → List String → String
join sep List.[] = ""
join sep (List.◌∷◌ s ts) = elim ts [ List.[] ↦ s | List.◌∷◌ _ _ ↦ s <> sep <> join sep ts ]

translate : String → String → Char → Char
translate (a ∷ from) (b ∷ to) c = if code c == code a then b else translate from to c
translate _ _ c = c

abbrev capitals : String
capitals = "ABCDEFGHIJKLMNOPQRSTUVWXYZ"

abbrev letters : String
letters = "abcdefghijklmnopqrstuvwxyz"

unfoldable pub upper : String → String
unfolding translate
upper [] = ""
upper (c ∷ s) = translate letters capitals c ∷ upper s

unfoldable pub lower : String → String
unfolding translate
lower [] = ""
lower (c ∷ s) = translate capitals letters c ∷ lower s

-- Tab to carriage return, the four separators 28 to 31, and the space.
abbrev pub is_space : Char → Bool
is_space c = let n = code c in (leb 9 n && leb n 13) || (leb 28 n && leb n 32)

strip_left : String → String
strip_left [] = ""
strip_left (c ∷ s) = let rest = strip_left s in if is_space c then rest else c ∷ s

strip_right : String → String
strip_right [] = ""
strip_right (c ∷ s) =
    let rest = strip_right s in if is_empty rest && is_space c then "" else c ∷ rest

unfoldable pub strip : String → String
unfolding strip_left strip_right
strip s = strip_left (strip_right s)

abbrev pub glue : Bool → Char → List String → List String
glue true c (List.◌∷◌ w ws) = List.◌∷◌ (c ∷ w) ws
glue _ c ws = List.◌∷◌ (c ∷ "") ws

-- `s.rstrip("/")`
unfoldable pub rstrip_slash : String → String
rstrip_slash [] = ""
rstrip_slash (c ∷ s) =
    let rest = rstrip_slash s in if is_empty rest && (code c == 47) then "" else c ∷ rest

abbrev pub begins : (Char → Bool) → String → Bool
begins p [] = false
begins p (c ∷ s) = p c

-- The maximal runs of characters that pass a test.
unfoldable pub runs : (Char → Bool) → String → List String
runs p [] = List.[]
runs p (c ∷ s) = let rest = runs p s in if p c then glue (begins p s) c rest else rest

abbrev pub is_word_char : Char → Bool
is_word_char c = if is_space c then false else true

-- `s.split()`
unfoldable pub split : String → List String
unfolding runs
split s = runs is_word_char s

abbrev pub is_lower_or_digit : Char → Bool
is_lower_or_digit c = let n = code c in (leb b'a' n && leb n b'z') || (leb b'0' n && leb n b'9')

-- `re.sub` of the runs of characters that pass a test.
unfoldable pub squeeze : (Char → Bool) → String → String → String
squeeze p by [] = ""
squeeze p by (c ∷ s) =
    let rest = squeeze p by s in if p c then (if begins p s then rest else by <> rest) else c ∷ rest

-- `s[:n]`
unfoldable pub prefix : ℕ → String → String
prefix zero s = ""
prefix (suc n) [] = ""
prefix (suc n) (c ∷ s) = c ∷ prefix n s

-- `s[n:]`
unfoldable pub drop_text : ℕ → String → String
drop_text zero s = s
drop_text (suc n) [] = ""
drop_text (suc n) (c ∷ s) = drop_text n s

unfoldable pub nth_char : String → ℕ → String
nth_char [] i = ""
nth_char (c ∷ s) zero = c ∷ ""
nth_char (c ∷ s) (suc i) = nth_char s i

-- The digits of `n` before `tail`; each round but the first divides a positive number by ten.
unfoldable pub decimal : ℕ → ℕ → String → String
decimal zero n tail = tail
decimal (suc fuel) n tail =
    let out = nth_char "0123456789" (n % 10) <> tail in
    let rest = decimal fuel (n / 10) out in if ltb n 10 then out else rest

-- `str(n)`
unfoldable pub show : ℕ → String
unfolding decimal nth_char
show n = decimal (n + 1) n ""

-- A line feed or a carriage return, the characters 11, 12, 28 to 30 and 133, and the line and
-- paragraph separators.
abbrev pub is_line_break : Char → Bool
is_line_break c =
    let n = code c in
    (leb 10 n && leb n 13) || (leb 28 n && leb n 30) || (n == 133) || (n == 8232) || (n == 8233)

abbrev is_line_feed : Char → Bool
is_line_feed c = code c == 10

-- `s.splitlines()`; a carriage return and a line feed after it are one break.
unfoldable pub splitlines : String → List String
splitlines [] = List.[]
splitlines (c ∷ s) =
    let rest = splitlines s in
    if is_line_break c
    then (if (code c == 13) && begins is_line_feed s then rest else List.◌∷◌ "" rest)
    else glue true c rest
