-- ===== src/Services/Storage/Paths.antt =====
-- Where the keys of the storage lead, and what is found there.
use Prim.Native.Char.{Char}
use Prim.Native.String.append
use banking_ai_platform.Prelude.{
  String, ◌<>◌, ◌is◌, runs, IsRun, IsRun-runs, runs-run, runs-append, starts_with, append_nil,
  is_empty, true, false, not, List, [], ◌∷◌, ◌++◌, keep, insert, lookup-insert, if◌then◌else◌, ◌≡◌,
  refl, sym, ap, ◌∙◌, arith, All, Bool-cases, inl, inr, eq_iff,
}
use mathlib.Core.List.{append_assoc}
use text.Mathlib.TextLemmas.{append_assoc as text_assoc}
use banking_ai_platform.Core.Errors.{other, err_ok, Result, ok, err}
use banking_ai_platform.Services.Storage.{
  Bytes, Files, is_name_char, parts, safe_name, content_key, parent, enter, walk, begins_with,
  resolve, path_of, render, write_file, put, get, last_or,
}

-- A plain part of a path: a name that is no dot.
abbrev IsPlain : String → Type 0
IsPlain s = IsRun is_name_char s × ((s is ".") ≡ false)

last_or-Plain :
    (default : String) (ps : List String)
    → IsPlain default
    → All IsPlain ps
    → IsPlain (last_or default ps)
last_or-Plain default [] h all = h
last_or-Plain default (p ∷ ps) h all = last_or-Plain p ps all.0 all.1

parts-Plain : (path : String) → All IsPlain (parts path)
unfolding parts
parts-Plain path = kept (runs is_name_char path) (IsRun-runs is_name_char path)
  where
    kept :
        (rs : List String)
        → All (IsRun is_name_char) rs
        → All IsPlain (keep (λ r. not (r is ".")) rs)
    kept [] all = tt
    kept (r ∷ rs) all = elim (Bool-cases (r is ".")) [
      | inl h ↦ rw h (kept rs all.1)
      | inr h ↦ rw h ((all.0, h), kept rs all.1)
    ]

file-Plain : IsPlain "file"
file-Plain = ((refl, (refl, (refl, (refl, (refl, tt))))), refl)

last-Plain :
    (ps : List String)
    → All IsPlain ps
    → IsPlain (if is_empty (last_or "" ps) then "file" else last_or "" ps)
last-Plain [] all = file-Plain
last-Plain (p ∷ ps) all = let plain = last_or-Plain p ps all.0 all.1 in rw plain.0.0 plain

safe_name-Plain : (filename : String) → IsPlain (safe_name filename)
unfolding safe_name
safe_name-Plain filename = last-Plain (parts filename) (parts-Plain filename)

abbrev slash : Char
slash = "/"

slash-append : (s t : String) → s <> "/" <> t ≡ s <> String.◌∷◌ slash t
slash-append s t =
    text_assoc s "/" t
    ∙ ap (λ u. s <> u) (append.cons slash "" t ∙ ap (String.◌∷◌ slash) (append.nil t))

parts-key :
    (digest name : String)
    → IsPlain digest
    → IsPlain name
    → parts (digest <> String.◌∷◌ slash name) ≡ digest ∷ name ∷ []
unfolding parts
parts-key digest name d n =
    ap (λ rs. keep (λ part. not (part is ".")) rs)
      (runs-append is_name_char digest slash name d.0 refl
        ∙ ap (λ rs. digest ∷ rs) (runs-run is_name_char name n.0))
    ∙ rw (d.1, n.1)

is_relative : (s t : String) → IsPlain s → starts_with "/" (s <> t) ≡ false
is_relative String.[] t h = ground (arith, h)
is_relative (String.◌∷◌ c s) t h =
    ap (starts_with "/") (append.cons c s t) ∙ ground (arith, h.0.1.0)

begins_with-append : (xs ys : List String) → begins_with xs (xs ++ ys) ≡ true
begins_with-append [] ys = refl
begins_with-append (x ∷ xs) ys = ground (arith, eq_iff x x, begins_with-append xs ys)

parent-append : (xs : List String) (x : String) → parent (xs ++ (x ∷ [])) ≡ xs
parent-append [] x = refl
parent-append (y ∷ []) x = refl
parent-append (y ∷ (z ∷ xs)) x = ap (λ rest. y ∷ rest) (parent-append (z ∷ xs) x)

walk-key :
    (root : List String) (digest name : String)
    → (digest is "..") ≡ false
    → walk root (digest ∷ name ∷ []) ≡ (if name is ".." then root else root ++ (digest ∷ name ∷ []))
unfolding walk
walk-key root digest name h =
    ap (λ b. enter (if b then parent root else root ++ (digest ∷ [])) name) h
    ∙ elim (Bool-cases (name is "..")) [
      | inl e ↦ rw e (parent-append root digest)
      | inr e ↦ rw e (append_assoc root (digest ∷ []) (name ∷ []))
    ]

-- Where the key of a file leads to: the file's own name in the directory of the digest, or, for
-- the name `..`, the root.
abbrev pub home : List String → String → String → List String
home root digest filename =
    if safe_name filename is ".." then root else root ++ (digest ∷ safe_name filename ∷ [])

begins_with-home :
    (root : List String) (digest filename : String)
    → begins_with root (home root digest filename) ≡ true
begins_with-home root digest filename = elim (Bool-cases (safe_name filename is "..")) [
  | inl e ↦ rw e (ap (begins_with root) (sym (append_nil root)) ∙ begins_with-append root [])
  | inr e ↦ rw e (begins_with-append root (digest ∷ safe_name filename ∷ []))
]

-- A digest as a part of a path: it has a character, none is a slash, and it is no dots.
abbrev pub IsDigest : String → Type 0
IsDigest digest = IsPlain digest × ((digest is "..") ≡ false)

resolve-content_key :
    (root : List String) (digest filename : String)
    → IsDigest digest
    → resolve root (content_key digest filename) ≡ home root digest filename
unfolding resolve content_key
resolve-content_key root digest filename h =
    let name = safe_name filename in
    let key = digest <> String.◌∷◌ slash name in
    ap (λ k. walk (if starts_with "/" k then [] else root) (parts k)) (slash-append digest name)
    ∙ ap (λ b. walk (if b then [] else root) (parts key))
        (is_relative digest (String.◌∷◌ slash name) h.0)
    ∙ ap (walk root) (parts-key digest name h.0 (safe_name-Plain filename))
    ∙ walk-key root digest name h.1

-- The key that the storage computes for an upload never leaves its root, whatever the file is
-- called: it leads to the file's last name in the directory of the digest, or, if that name is
-- `..`, to the root itself.
pub path_of-content_key :
    (root : List String) (digest filename : String)
    → IsDigest digest
    → path_of root (content_key digest filename) ≡ ok (home root digest filename)
unfolding path_of
path_of-content_key root digest filename h =
    ap
      (λ path.
        if begins_with root path then ok path else err (other "ValueError" "Illegal storage key."))
      (resolve-content_key root digest filename h)
    ∙ rw (begins_with-home root digest filename)

module _ (os_text : String → String → String) (root : List String) where
  written :
      (path : List String) (bytes : Bytes) (files files' : Files)
      → write_file os_text root path bytes files ≡ ok files'
      → insert (render path) bytes files ≡ files'
  unfolding write_file
  written path bytes files files' h = ground (arith, h)

  -- What is put under a key is what the key gets afterwards.
  pub get-put :
      (key : String) (bytes : Bytes) (files files' : Files)
      → put os_text root key bytes files ≡ ok files'
      → get os_text root key files' ≡ ok bytes
  unfolding put get
  get-put key bytes files files' h = elim_path (path_of root key) refl
    where
      elim_path :
          (r : Result (List String)) → path_of root key ≡ r → get os_text root key files' ≡ ok bytes
      elim_path (err e) same = absurd (err_ok (rw same at h))
      elim_path (ok path) same =
          let stored = written path bytes files files' (rw same at h) in
          let found = lookup-insert (render path) (render path) bytes files in
          rw same (ground (arith, found, stored, eq_iff (render path) (render path)))
