-- ===== src/Services/Documents.antt =====
-- services/document_service.py: the word windows of `chunk_text`.
use banking_ai_platform.Prelude.{
  ℕ, zero, suc, ◌+◌, ◌-◌, max, String, split, join, List, [], ◌∷◌, map, take, drop, length, is_nil,
  if◌then◌else◌, ltb, leb,
}
pub mod Windows
pub mod Ingest

-- The loop over `range(0, len(words), step)` from `start` on, `fuel` starts at most. A start is
-- within the words, so its window has one.
unfoldable pub windows : (fuel : ℕ) → ℕ → ℕ → ℕ → List String → List (List String)
windows zero step size start words = []
windows (suc fuel) step size start words =
    let window = take size (drop start words) in
    let rest = windows fuel step size (start + step) words in
    let more = if leb (length words) (start + size) then [] else rest in
    if ltb start (length words) then (if is_nil window then more else window ∷ more) else []

abbrev pub step_of : ℕ → ℕ → ℕ
step_of size overlap = max 1 (size - overlap)

-- The steps are of one word or more, so there are no more starts than words.
unfoldable pub chunk_windows : ℕ → ℕ → List String → List (List String)
unfolding windows
chunk_windows size overlap words = windows (length words) (step_of size overlap) size 0 words

unfoldable pub chunk_text : String → ℕ → ℕ → List String
unfolding chunk_windows split join
chunk_text text size overlap = map (join " ") (chunk_windows size overlap (split text))
