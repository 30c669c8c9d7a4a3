-- ===== src/Agents/Audit/Canonical.antt =====
-- The bundle of the audit agent does not depend on the order in which its evidence was collected.
use text.Mathlib.TextEquality.{Char-path}
use banking_ai_platform.Prelude.{
  suc, String, ◌≡◌, refl, ap, ◌∙◌, ◌≢◌, true, false, [], ◌∷◌, length, Value, Dict, arith,
}
use banking_ai_platform.Agents.Audit.{
  Entries, text_leb, insert_key, sort_keys, dumps, dump_entries, braces, run,
}

-- Two dictionaries with the same entries: one is reached from the other by exchanges of
-- neighbours, which have two keys.
pub data SameEntries : Dict → Dict → Type 0 where
  same : {d : Dict} → SameEntries d d
  exchange :
      {key key' : String} {v v' : Value} {d : Dict}
      → key ≢ key'
      → SameEntries ((key, v) ∷ (key', v') ∷ d) ((key', v') ∷ (key, v) ∷ d)
  after_first : {e : String × Value} {d d' : Dict} → SameEntries d d' → SameEntries (e ∷ d) (e ∷ d')
  and_then : {d d' d'' : Dict} → SameEntries d d' → SameEntries d' d'' → SameEntries d d''

text_leb-total : (s t : String) → text_leb s t ≡ false → text_leb t s ≡ true
unfolding text_leb
text_leb-total String.[] t h = ground arith
text_leb-total (String.◌∷◌ c s) String.[] h = refl
text_leb-total (String.◌∷◌ c s) (String.◌∷◌ d t) h = ground (arith, h, text_leb-total s t)

text_leb_trans : (s t u : String) → text_leb s t ≡ true → text_leb t u ≡ true → text_leb s u ≡ true
unfolding text_leb
text_leb_trans String.[] t u h h' = refl
text_leb_trans (String.◌∷◌ c s) String.[] u h h' = ground arith
text_leb_trans (String.◌∷◌ c s) (String.◌∷◌ d t) String.[] h h' = ground arith
text_leb_trans (String.◌∷◌ c s) (String.◌∷◌ d t) (String.◌∷◌ e u) h h' =
    ground (arith, h, h', text_leb_trans s t u)

text_leb-antisym : (s t : String) → text_leb s t ≡ true → text_leb t s ≡ true → s ≡ t
unfolding text_leb
text_leb-antisym String.[] String.[] h h' = refl
text_leb-antisym String.[] (String.◌∷◌ d t) h h' = ground arith
text_leb-antisym (String.◌∷◌ c s) String.[] h h' = ground arith
text_leb-antisym (String.◌∷◌ c s) (String.◌∷◌ d t) h h' =
    let rest = text_leb-antisym s t in
    let tail : s ≡ t = rest (ground (arith, h, h')) (ground (arith, h, h')) in
    let head : c ≡ d = Char-path c d (ground (arith, h, h')) in rw (head, tail)

insert_key-exchange :
    (e f : String × String) (entries : Entries)
    → e.0 ≢ f.0
    → insert_key e (insert_key f entries) ≡ insert_key f (insert_key e entries)
unfolding insert_key
insert_key-exchange e f [] distinct =
    ground (arith, text_leb-total e.0 f.0, text_leb-antisym e.0 f.0, distinct)
insert_key-exchange e f (g ∷ entries) distinct = ground (
  arith,
  text_leb-total e.0 f.0,
  text_leb-antisym e.0 f.0,
  text_leb_trans e.0 f.0 g.0,
  text_leb_trans f.0 e.0 g.0,
  distinct,
  insert_key-exchange e f entries distinct,
)

dump_entries-same :
    {d d' : Dict}
    → SameEntries d d'
    → (sort_keys (dump_entries d) ≡ sort_keys (dump_entries d')) × (length d ≡ length d')
unfolding sort_keys dump_entries
dump_entries-same same = (refl, refl)
dump_entries-same (exchange {key} {key'} {v} {v'} {d} distinct) = (
  insert_key-exchange (key, dumps v) (key', dumps v') (sort_keys (dump_entries d)) distinct,
  refl,
)
dump_entries-same (after_first {e} r) =
    let (sorted, len) = dump_entries-same r in (ap (insert_key (e.0, dumps e.1)) sorted, ap suc len)
dump_entries-same (and_then r r') =
    let (sorted, len) = dump_entries-same r in
    let (sorted', len') = dump_entries-same r' in (sorted ∙ sorted', len ∙ len')

-- The bundle of the audit agent, with its canonical text and its digest, is the same for the same
-- evidence, whatever the order in which its keys were written.
pub run-same :
    (sha256 : String → String) (workflow_id : String) {d d' : Dict}
    → SameEntries d d'
    → run sha256 (record { workflow_id = workflow_id; evidence = d })
      ≡ run sha256 (record { workflow_id = workflow_id; evidence = d' })
unfolding run braces
run-same sha256 workflow_id r = let (sorted, len) = dump_entries-same r in rw (sorted, len)
