-- ===== src/Ai/VectorStore/Dimensions.antt =====
-- The length of an embedding.
use native.Mathlib.Nat.{mod-lt}
use banking_ai_platform.Prelude.{
  ℕ, zero, suc, ◌<◌, ◌%◌, String, List, [], ◌∷◌, map, length, length-map, ◌≡◌, refl, ap, ◌∙◌,
  Bool-cases, inl, inr, arith, if◌then◌else◌,
}
use banking_ai_platform.Core.Errors.{ok}
use banking_ai_platform.Ai.VectorStore.{
  Reals, Digest, tokens, zeros, add_at, hash_tokens, l2_normalise, sum_from, embed,
}

module _ (re : Reals) where
  length-zeros : (n : ℕ) → length (zeros re n) ≡ n
  length-zeros zero = refl
  length-zeros (suc n) = ap suc (length-zeros n)

  -- Within the vector there is no error, and the vector keeps its length.
  add_at-ok :
      (i : ℕ) (x : re.Float) (vec : List re.Float)
      → i < length vec
      → (vec' : List re.Float) × (add_at re i x vec ≡ ok vec') × (length vec' ≡ length vec)
  unfolding add_at
  add_at-ok i x [] h = absurd (let no : ⊥ = omega (arith, h) in no)
  add_at-ok zero x (v ∷ vec) h = (re.add v x ∷ vec, refl, refl)
  add_at-ok (suc i) x (v ∷ vec) h =
      let (vec', e, same) = add_at-ok i x vec (omega (arith, h)) in
      (v ∷ vec', rw e refl, ap suc same)

  length-l2_normalise : (vec : List re.Float) → length (l2_normalise re vec) ≡ length vec
  unfolding l2_normalise
  length-l2_normalise vec =
      let norm = re.sqrt (sum_from re (re.of_int 0) (map (λ v. re.mul v v) vec)) in
      elim (Bool-cases (re.is_zero norm)) [
        | inl h ↦ rw h refl
        | inr h ↦ rw h (length-map vec (λ v. re.div v norm))
      ]

module _ (re : Reals) (digest : Digest) (dimensions : ℕ) where
  hash_tokens-ok :
      (ts : List String) (vec : List re.Float)
      → 0 < dimensions
      → length vec ≡ dimensions
      → (vec' : List re.Float) × (hash_tokens re digest dimensions ts vec ≡ ok vec')
        × (length vec' ≡ dimensions)
  unfolding hash_tokens
  hash_tokens-ok [] vec h same = (vec, refl, same)
  hash_tokens-ok (t ∷ ts) vec h same =
      let index = digest.first_four t % dimensions in
      let one = re.of_int 1 in
      let within = mod-lt (digest.first_four t) {m = dimensions} h in
      let (vec', e, kept) =
        add_at-ok re index (if digest.fifth_is_odd t then one else re.neg one) vec
          (omega (arith, within, same)) in
      let (out, e', done) = hash_tokens-ok ts vec' h (kept ∙ same) in
      (out, rw (hash_tokens, e) e', done)

  -- With a positive number of dimensions no text raises an `IndexError`, and the embedding of any
  -- text, an empty one too, has as many numbers as there are dimensions.
  pub embed-Dimensions :
      (s : String)
      → 0 < dimensions
      → (vec : List re.Float) × (embed re digest dimensions s ≡ ok vec) × (length vec ≡ dimensions)
  unfolding embed
  embed-Dimensions s h =
      let (vec, e, same) =
        hash_tokens-ok (tokens s) (zeros re dimensions) h (length-zeros re dimensions) in
      (l2_normalise re vec, rw e refl, length-l2_normalise re vec ∙ same)
