-- ===== src/Agents/Audit.antt =====
-- agents/audit.py: the evidence, written by `json.dumps` with sorted keys, and its digest. The
-- digest of a text is a parameter, in hexadecimal.
pub mod Canonical
use Prim.Native.Char.{Char, code}
use Prim.Native.String
use banking_ai_platform.Prelude.{
  ℕ, ◌-◌, ◌/◌, ◌%◌, ◌+◌, String, ◌<>◌, show, join, map, Bool, true, false, ◌||◌, ◌&&◌, nth_char,
  List, [], ◌∷◌, length, if◌then◌else◌, ltb, leb, ◌==◌, Value, null, bool, int, float, str, array,
  dict, object, Items, nil, item, Fields, end, field, Dict,
}

pub record AuditInput : Type 0 where
  pub workflow_id : String
  pub evidence : Dict

pub record AuditBundle : Type 0 where
  pub workflow_id : String
  pub canonical_json : String
  pub sha256 : String
  pub item_count : ℕ

-- Is the first text before the second, or the same? By the codes of their characters.
unfoldable pub text_leb : String → String → Bool
text_leb String.[] t = true
text_leb (String.◌∷◌ c s) String.[] = false
text_leb (String.◌∷◌ c s) (String.◌∷◌ d t) =
    let rest = text_leb s t in
    if ltb (code c) (code d) then true else if code c == code d then rest else false

abbrev pub Entries : Type 0
Entries = List (String × String)

unfoldable pub insert_key : String × String → Entries → Entries
unfolding text_leb
insert_key e [] = e ∷ []
insert_key e (f ∷ entries) =
    let rest = insert_key e entries in if text_leb e.0 f.0 then e ∷ f ∷ entries else f ∷ rest

-- `sorted` by the key
unfoldable pub sort_keys : Entries → Entries
unfolding insert_key
sort_keys [] = []
sort_keys (e ∷ entries) = insert_key e (sort_keys entries)

unfoldable pub hex_digit : ℕ → String
unfolding nth_char
hex_digit n = nth_char "0123456789abcdef" (n % 16)

-- `\u` and four hexadecimal digits
unfoldable pub unicode_escape : ℕ → String
unfolding hex_digit
unicode_escape n =
    "\\u" <> hex_digit (n / 4096) <> hex_digit (n / 256) <> hex_digit (n / 16) <> hex_digit n

-- A character as JSON in ASCII; one past 65535 takes two surrogates.
unfoldable pub escape : Char → String
unfolding unicode_escape
escape c =
    let n = code c in
    if n == 34
    then "\\\""
    else if n == 92
    then "\\\\"
    else if n == 10
    then "\\n"
    else if n == 13
    then "\\r"
    else if n == 9
    then "\\t"
    else if n == 12
    then "\\f"
    else if n == 8
    then "\\b"
    else if leb 32 n && leb n 126
    then String.◌∷◌ c ""
    else if ltb n 65536
    then unicode_escape n
    else unicode_escape (55296 + (n - 65536) / 1024) <> unicode_escape (56320 + (n - 65536) % 1024)

unfoldable pub escaped : String → String
unfolding escape
escaped String.[] = ""
escaped (String.◌∷◌ c s) = escape c <> escaped s

unfoldable pub quoted : String → String
unfolding escaped
quoted s = "\"" <> escaped s <> "\""

abbrev pub colon : String × String → String
colon (key, text) = quoted key <> ":" <> text

-- An object, from its members written, in the order of their keys.
unfoldable pub braces : Entries → String
unfolding sort_keys join quoted
braces entries = "{" <> join "," (map colon (sort_keys entries)) <> "}"

abbrev pub json_bool : Bool → String
json_bool true = "true"
json_bool false = "false"

-- `json.dumps(value, sort_keys=True, separators=(",", ":"), default=str)`
unfoldable mutual
  unfolding quoted braces show join

  pub dumps : Value → String
  dumps null = "null"
  dumps (bool b) = json_bool b
  dumps (int n) = show n
  dumps (float printed) = printed
  dumps (str s) = quoted s
  dumps (object printed) = quoted printed
  dumps (array items) = "[" <> join "," (dump_items items) <> "]"
  dumps (dict fields) = braces (dump_fields fields)

  pub dump_items : Items → List String
  dump_items nil = []
  dump_items (item v items) = dumps v ∷ dump_items items

  pub dump_fields : Fields → Entries
  dump_fields end = []
  dump_fields (field key v fields) = (key, dumps v) ∷ dump_fields fields

unfoldable pub dump_entries : Dict → Entries
unfolding dumps
dump_entries [] = []
dump_entries ((key, v) ∷ evidence) = (key, dumps v) ∷ dump_entries evidence

-- `AuditAgent.run`, with the digest of a text
unfoldable pub run : (sha256 : String → String) → AuditInput → AuditBundle
unfolding braces dump_entries
run sha256 payload =
    let canonical = braces (dump_entries payload.evidence) in
    record {
      workflow_id = payload.workflow_id;
      canonical_json = canonical;
      sha256 = sha256 canonical;
      item_count = length payload.evidence;
    }
