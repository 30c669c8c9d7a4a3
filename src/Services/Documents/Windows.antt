-- ===== src/Services/Documents/Windows.antt =====
-- The words of a text, read back from its chunks.
use banking_ai_platform.Prelude.{
  ℕ, zero, suc, ◌+◌, ◌≤◌, ◌<◌, String, List, [], ◌∷◌, ◌++◌, map, join, split, take, drop, length,
  is_nil, false, ◌≡◌, refl, sym, ap, ◌∙◌, leb, All, arith, length-take, length-drop, take_all,
  drop-take, drop-drop, append_nil, window-append, Bool-cases, inl, inr,
}
use banking_ai_platform.Services.Documents.{windows, step_of, chunk_windows, chunk_text}

nothing : (xs : List String) → 0 ≡ length xs → xs ≡ []
nothing [] l = refl
nothing (x ∷ xs) l = ground arith

-- The windows one after the other, without the first `overlap` words of each.
abbrev pub fresh_words : ℕ → List (List String) → List String
fresh_words overlap [] = []
fresh_words overlap (w ∷ ws) = drop overlap w ++ fresh_words overlap ws

-- The first window whole.
abbrev pub reassemble : ℕ → List (List String) → List String
reassemble overlap [] = []
reassemble overlap (w ∷ ws) = w ++ fresh_words overlap ws

module _ (size overlap : ℕ) (words : List String) where
  short_windows :
      (fuel step start : ℕ) → All (λ w. length w ≤ size) (windows fuel step size start words)
  unfolding windows
  short_windows zero step start = tt
  short_windows (suc fuel) step start =
      ground (arith, length-take size (drop start words), short_windows fuel step (start + step))

  not_nil :
      (size start : ℕ)
      → 1 ≤ size
      → start < length words
      → is_nil (take size (drop start words)) ≡ false
  not_nil size start h k =
      filled (take size (drop start words))
        (omega (arith, length-take size (drop start words), length-drop start words))
    where
      filled : (xs : List String) → 1 ≤ length xs → is_nil xs ≡ false
      filled [] h = ground arith
      filled (x ∷ xs) h = refl

  windows_last :
      (fuel step start : ℕ)
      → 1 ≤ size
      → start < length words
      → length words ≤ start + size
      → windows (suc fuel) step size start words ≡ take size (drop start words) ∷ []
  unfolding windows
  windows_last fuel step start h k e = ground (arith, not_nil size start h k)

  windows_next :
      (fuel step start : ℕ)
      → 1 ≤ size
      → start + size < length words
      → windows (suc fuel) step size start words
        ≡ take size (drop start words) ∷ windows fuel step size (start + step) words
  unfolding windows
  windows_next fuel step start h k = ground (arith, not_nil size start h (omega (arith, k)))

  last_window :
      (start : ℕ) → length words ≤ start + size → take size (drop start words) ≡ drop start words
  last_window start e = take_all size (drop start words) (omega (arith, e, length-drop start words))

  fresh-windows :
      (fuel step start : ℕ)
      → size ≡ overlap + step
      → 1 ≤ step
      → start < length words
      → length words ≤ start + fuel
      → fresh_words overlap (windows fuel step size start words) ≡ drop (start + overlap) words
  fresh-windows zero step start e h k l = ground arith
  fresh-windows (suc fuel) step start e h k l =
      elim (Bool-cases (leb (length words) (start + size))) [
        | inl last ↦
            rw (windows_last fuel step start (omega (arith, e, h)) k (ground (arith, last))) (
              append_nil _
              ∙ ap (drop overlap) (last_window start (ground (arith, last)))
              ∙ drop-drop start overlap (start + overlap) words refl)
        | inr more ↦
            rw
              (
                windows_next fuel step start (omega (arith, e, h)) (ground (arith, more)),
                drop-take overlap step size (drop start words) e,
                drop-drop start overlap (start + overlap) words refl,
                fresh-windows fuel step (start + step) e h (ground (arith, more, e))
                    (omega (arith, l, h)),
              )
              (window-append (start + overlap) step (start + step + overlap) words (omega arith))
      ]

  whole :
      (step n : ℕ)
      → size ≡ overlap + step
      → 1 ≤ step
      → n ≡ length words
      → reassemble overlap (windows n step size 0 words) ≡ words
  unfolding windows
  whole step zero e h l = sym (nothing words l)
  whole step (suc n) e h l = elim (Bool-cases (leb (length words) size)) [
    | inl last ↦
        rw (windows_last n step 0 (omega (arith, e, h)) (omega (arith, l)) (ground (arith, last)))
          (append_nil _ ∙ take_all size words (ground (arith, last)))
    | inr more ↦
        rw
          (
            windows_next n step 0 (omega (arith, e, h)) (ground (arith, more)),
            fresh-windows n step (0 + step) e h (ground (arith, more, e)) (omega (arith, l, h)),
          )
          (window-append 0 size (0 + step + overlap) words (omega (arith, e)))
  ]

-- If the overlap is less than the size: the chunks of a text are the windows of its words, joined
-- by spaces. No window is longer than the size, and the windows one after the other, all but the
-- first without as many words as the overlap, are the words of the text: none is lost, added or
-- moved.
pub chunk_text-whole :
    (text : String) (size overlap : ℕ)
    → overlap < size
    → (ws : List (List String)) × (chunk_text text size overlap ≡ map (join " ") ws)
      × (reassemble overlap ws ≡ split text)
      × All (λ w. length w ≤ size) ws
unfolding chunk_text
chunk_text-whole text size overlap h =
    let words = split text in
    (
      chunk_windows size overlap words,
      refl,
      whole size overlap words (step_of size overlap) (length words) (omega (arith, h))
          (omega arith) refl,
      short_windows size overlap words (length words) (step_of size overlap) 0,
    )
