-- ===== src/Agents/Document/Lines.antt =====
-- The fields that agents/document.py reads off the lines of a text.
use Prim.Native.Char.{Char, code}
use banking_ai_platform.Prelude.{
  ℕ, zero, suc, String, strip, lower, squeeze, splitlines, is_space, is_empty, Bool, true, false,
  ◌&&◌, ◌||◌, Option, none, some, List, [], ◌∷◌, insert, if◌then◌else◌, leb, ◌==◌,
}

-- `[A-Za-z]`
abbrev pub is_letter : Char → Bool
is_letter c = let n = code c in (leb b'A' n && leb n b'Z') || (leb b'a' n && leb n b'z')

-- `[A-Za-z0-9 _/-]`
abbrev pub is_label_char : Char → Bool
is_label_char c =
    let n = code c in
    is_letter c
    || (leb b'0' n && leb n b'9')
    || (n == b' ')
    || (n == b'_')
    || (n == b'/')
    || (n == b'-')

abbrev pub is_separator : Char → Bool
is_separator c = (code c == b':') || (code c == b'=')

-- `\s*[:=]\s*(.+?)\s*$`: white space, a separator, and one character or more. Without the white
-- space round it, what follows the separator is the group stripped.
unfoldable pub value_part : String → Option String
unfolding strip
value_part String.[] = none
value_part (String.◌∷◌ c s) =
    let later = value_part s in
    if is_space c
    then later
    else if is_separator c && (if is_empty s then false else true)
    then some (strip s)
    else none

abbrev pub put_first : Char → Option (String × String) → Option (String × String)
put_first c none = none
put_first c (some (label, value)) = some (String.◌∷◌ c label, value)

abbrev pub shortest : Char → Option String → Option (String × String) → Option (String × String)
shortest c none longer = longer
shortest c (some value) longer = some (String.◌∷◌ c "", value)

-- `[A-Za-z0-9 _/-]{1,n}?` and what follows it: as few characters as the rest of the line allows.
unfoldable pub label_end : (n : ℕ) → String → Option (String × String)
unfolding value_part
label_end zero s = none
label_end (suc n) String.[] = none
label_end (suc n) (String.◌∷◌ c s) =
    let longer = put_first c (label_end n s) in
    if is_label_char c then shortest c (value_part s) longer else none

-- `_FIELD_LINE.match`: the label, and the value stripped.
unfoldable pub field_line : String → Option (String × String)
unfolding label_end
field_line String.[] = none
field_line (String.◌∷◌ c s) =
    let later = field_line s in
    if is_space c then later else if is_letter c then put_first c (label_end 48 s) else none

-- `[\s/-]`
abbrev pub is_key_break : Char → Bool
is_key_break c = is_space c || (code c == b'/') || (code c == b'-')

-- `_normalise_key`
unfoldable pub normalise_key : String → String
unfolding squeeze strip lower
normalise_key raw = squeeze is_key_break "_" (lower (strip raw))

abbrev pub store_field : Option (String × String) → List (String × String) → List (String × String)
store_field none fields = fields
store_field (some (label, value)) fields =
    if is_empty value then fields else insert (normalise_key label) value fields

-- The loop over the lines.
unfoldable pub read_lines : List String → List (String × String) → List (String × String)
unfolding field_line normalise_key insert
read_lines [] fields = fields
read_lines (line ∷ lines) fields = read_lines lines (store_field (field_line line) fields)

-- `parse_fields`
unfoldable pub parse_fields : String → List (String × String)
unfolding splitlines read_lines
parse_fields text = read_lines (splitlines text) []
