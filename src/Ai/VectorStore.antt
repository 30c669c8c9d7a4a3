-- ===== src/Ai/VectorStore.antt =====
-- ai/vector_store.py: the hashing embedder and the store in memory. The arithmetic and the order
-- of floats, and SHA-256, are parameters.
pub mod Ranking
pub mod Upserts
pub mod Dimensions
use banking_ai_platform.Prelude.{
  ℕ, zero, suc, ◌%◌, String, lower, runs, is_lower_or_digit, Bool, Option, List, [], ◌∷◌, map, take,
  length, insert, if◌then◌else◌,
}
use banking_ai_platform.Core.Errors.{other, Result, ok, err}

pub record Reals : Type 1 where
  pub Float : Type 0
  pub of_int : ℕ → Float
  pub neg : Float → Float
  pub add : Float → Float → Float
  pub mul : Float → Float → Float
  pub div : Float → Float → Float
  pub sqrt : Float → Float
  pub is_zero : Float → Bool
  pub leb : Float → Float → Bool
  pub round : Float → ℕ → Float

-- Of the digest of a token: its first four bytes as a number, and whether the fifth is odd.
pub record Digest : Type 0 where
  pub first_four : String → ℕ
  pub fifth_is_odd : String → Bool

-- `_TOKEN.findall(text.lower())`
unfoldable pub tokens : String → List String
unfolding runs lower
tokens s = runs is_lower_or_digit (lower s)

module _ (re : Reals) where
  open re use {Float, of_int, neg, add, mul, div, sqrt, is_zero}

  abbrev pub zeros : ℕ → List Float
  zeros zero = []
  zeros (suc n) = of_int 0 ∷ zeros n

  abbrev behind : Float → Result (List Float) → Result (List Float)
  behind v (ok vec) = ok (v ∷ vec)
  behind v (err e) = err e

  -- `vec[index] += sign`
  unfoldable pub add_at : ℕ → Float → List Float → Result (List Float)
  add_at i x [] = err (other "IndexError" "list index out of range")
  add_at zero x (v ∷ vec) = ok (add v x ∷ vec)
  add_at (suc i) x (v ∷ vec) = behind v (add_at i x vec)

  -- `sum(...)`, from the left
  abbrev pub sum_from : Float → List Float → Float
  sum_from total [] = total
  sum_from total (x ∷ xs) = sum_from (add total x) xs

  -- `_l2_normalise`
  unfoldable pub l2_normalise : List Float → List Float
  l2_normalise vec =
      let norm = sqrt (sum_from (of_int 0) (map (λ v. mul v v) vec)) in
      if is_zero norm then vec else map (λ v. div v norm) vec

  abbrev pub products : List Float → List Float → List Float
  products (x ∷ xs) (y ∷ ys) = mul x y ∷ products xs ys
  products _ _ = []

  -- `cosine_similarity`; `zip` stops with the shorter list.
  unfoldable pub cosine_similarity : List Float → List Float → Float
  cosine_similarity a b = sum_from (of_int 0) (products a b)

module _ (re : Reals) (digest : Digest) (dimensions : ℕ) where
  -- The loop of `HashingEmbedder.embed`; the number of dimensions is positive.
  unfoldable pub hash_tokens : List String → List re.Float → Result (List re.Float)
  unfolding add_at
  hash_tokens [] vec = ok vec
  hash_tokens (t ∷ ts) vec =
      let one = re.of_int 1 in
      let place = add_at re (digest.first_four t % dimensions) in
      elim (place (if digest.fifth_is_odd t then one else re.neg one) vec) [
        | ok vec' ↦ hash_tokens ts vec'
        | err e ↦ err e
      ]

  abbrev normalised : Result (List re.Float) → Result (List re.Float)
  normalised (ok vec) = ok (l2_normalise re vec)
  normalised (err e) = err e

  unfoldable pub embed : String → Result (List re.Float)
  unfolding tokens hash_tokens l2_normalise
  embed s = normalised (hash_tokens (tokens s) (zeros re dimensions))

pub record VectorRecord (F : Type 0) : Type 0 where
  pub chunk_id : String
  pub document_id : String
  pub text : String
  pub embedding : List F
  pub filename : Option String

pub record ScoredRecord (F : Type 0) : Type 0 where
  pub scored : VectorRecord F
  pub score : F

-- `InMemoryVectorStore._records`, by chunk id in the order of their first writing.
abbrev pub Records : Type 0 → Type 0
Records F = List (String × VectorRecord F)

unfoldable pub upsert : {F : Type 0} → List (VectorRecord F) → Records F → Records F
unfolding insert
upsert [] store = store
upsert (r ∷ rs) store = upsert rs (insert r.chunk_id r store)

unfoldable pub count : {F : Type 0} → Records F → ℕ
count store = length store

module _ (re : Reals) where
  -- The library's sort is stable, also in reverse: of equal scores the earlier stays first.
  abbrev pub place :
      ScoredRecord re.Float → List (ScoredRecord re.Float) → List (ScoredRecord re.Float)
  place x [] = x ∷ []
  place x (y ∷ ys) =
      let later = place x ys in if re.leb y.score x.score then x ∷ y ∷ ys else y ∷ later

  abbrev pub sort_by_score : List (ScoredRecord re.Float) → List (ScoredRecord re.Float)
  sort_by_score [] = []
  sort_by_score (x ∷ xs) = place x (sort_by_score xs)

  abbrev pub score_all : List re.Float → Records re.Float → List (ScoredRecord re.Float)
  score_all query [] = []
  score_all query ((key, r) ∷ store) =
      record { scored = r; score = cosine_similarity re query r.embedding } ∷ score_all query store

  unfoldable pub query : List re.Float → ℕ → Records re.Float → List (ScoredRecord re.Float)
  unfolding cosine_similarity
  query embedding top_k store = take top_k (sort_by_score (score_all embedding store))
