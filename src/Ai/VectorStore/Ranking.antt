-- ===== src/Ai/VectorStore/Ranking.antt =====
-- What a query of the store returns.
use mathlib.Core.List.{Perm}
use mathlib.Core.List.Perm
use banking_ai_platform.Prelude.{
  ℕ, suc, min, true, false, List, [], ◌∷◌, ◌++◌, take, drop, length, length-take, take-append-drop,
  All, Any, All-take, ◌≡◌, refl, sym, subst, arith, Bool-cases, inl, inr,
}
use banking_ai_platform.Ai.VectorStore.{
  Reals, Records, VectorRecord, ScoredRecord, place, sort_by_score, score_all, query,
}

-- The order of scores is total and transitive, as that of floats other than NaN is.
pub record IsOrdered (re : Reals) : Type 0 where
  pub total : (a b : re.Float) → re.leb a b ≡ false → re.leb b a ≡ true
  pub trans : (a b c : re.Float) → re.leb a b ≡ true → re.leb b c ≡ true → re.leb a c ≡ true

module _ (re : Reals) where
  abbrev pub IsAtMost : re.Float → ScoredRecord re.Float → Type 0
  IsAtMost bound x = re.leb x.score bound ≡ true

  -- Every score is at most those before it.
  abbrev pub IsDescending : List (ScoredRecord re.Float) → Type 0
  IsDescending [] = Unit
  IsDescending (x ∷ xs) = All (IsAtMost x.score) xs × IsDescending xs

  All-place {κ} :
      (P : ScoredRecord re.Float → Type κ) (x : ScoredRecord re.Float)
      (xs : List (ScoredRecord re.Float))
      → P x
      → All P xs
      → All P (place re x xs)
  All-place P x [] h all = (h, tt)
  All-place P x (y ∷ ys) h all = elim (Bool-cases (re.leb y.score x.score)) [
    | inl first ↦ rw first (h, (all.0, all.1))
    | inr later ↦ rw later (all.0, All-place P x ys h all.1)
  ]

  All-sort {κ} :
      (P : ScoredRecord re.Float → Type κ) (xs : List (ScoredRecord re.Float))
      → All P xs
      → All P (sort_by_score re xs)
  All-sort P [] all = tt
  All-sort P (x ∷ xs) all = All-place P x (sort_by_score re xs) all.0 (All-sort P xs all.1)

  score_all-stored :
      (embedding : List re.Float) (store all : Records re.Float)
      → ((r : VectorRecord re.Float) → Any (λ e. e.1 ≡ r) store → Any (λ e. e.1 ≡ r) all)
      → All (λ x. Any (λ e. e.1 ≡ x.scored) all) (score_all re embedding store)
  score_all-stored embedding [] all widen = tt
  score_all-stored embedding ((key, r) ∷ store) all widen =
      (widen r (inl refl), score_all-stored embedding store all (λ x m. widen x (inr m)))

  -- What a query returns is stored.
  pub query-stored :
      (embedding : List re.Float) (top_k : ℕ) (store : Records re.Float)
      → All (λ x. Any (λ e. e.1 ≡ x.scored) store) (query re embedding top_k store)
  unfolding query
  query-stored embedding top_k store =
      All-take _ top_k (sort_by_score re (score_all re embedding store)) (
        All-sort _ (score_all re embedding store)
          (score_all-stored embedding store store (λ x m. m)))

  place-perm :
      (x : ScoredRecord re.Float) (xs : List (ScoredRecord re.Float))
      → Perm (place re x xs) (x ∷ xs)
  place-perm x [] = Perm.rfl
  place-perm x (y ∷ ys) = elim (Bool-cases (re.leb y.score x.score)) [
    | inl first ↦ rw first Perm.rfl
    | inr later ↦ rw later (Perm.trans (Perm.cons y (place-perm x ys)) (Perm.swap x y ys))
  ]

  sort-perm : (xs : List (ScoredRecord re.Float)) → Perm (sort_by_score re xs) xs
  sort-perm [] = Perm.rfl
  sort-perm (x ∷ xs) = Perm.trans (place-perm x (sort_by_score re xs)) (Perm.cons x (sort-perm xs))

  length-place :
      (x : ScoredRecord re.Float) (xs : List (ScoredRecord re.Float))
      → length (place re x xs) ≡ suc (length xs)
  length-place x [] = refl
  length-place x (y ∷ ys) = ground (arith, length-place x ys)

  length-sort : (xs : List (ScoredRecord re.Float)) → length (sort_by_score re xs) ≡ length xs
  length-sort [] = refl
  length-sort (x ∷ xs) = omega (arith, length-place x (sort_by_score re xs), length-sort xs)

  length-score_all :
      (embedding : List re.Float) (store : Records re.Float)
      → length (score_all re embedding store) ≡ length store
  length-score_all embedding [] = refl
  length-score_all embedding (e ∷ store) = omega (arith, length-score_all embedding store)

  pub length-query :
      (embedding : List re.Float) (top_k : ℕ) (store : Records re.Float)
      → length (query re embedding top_k store) ≡ min top_k (length store)
  unfolding query
  length-query embedding top_k store =
      let scored = score_all re embedding store in
      omega (
        arith,
        length-take top_k (sort_by_score re scored),
        length-sort scored,
        length-score_all embedding store,
      )

module _ (re : Reals) (order : IsOrdered re) where
  IsAtMost-trans :
      (a b : re.Float) (xs : List (ScoredRecord re.Float))
      → re.leb a b ≡ true
      → All (IsAtMost re a) xs
      → All (IsAtMost re b) xs
  IsAtMost-trans a b [] h all = tt
  IsAtMost-trans a b (x ∷ xs) h all =
      (order.trans x.score a b all.0 h, IsAtMost-trans a b xs h all.1)

  IsDescending-place :
      (x : ScoredRecord re.Float) (xs : List (ScoredRecord re.Float))
      → IsDescending re xs
      → IsDescending re (place re x xs)
  IsDescending-place x [] h = (tt, tt)
  IsDescending-place x (y ∷ ys) h = elim (Bool-cases (re.leb y.score x.score)) [
    | inl first ↦ rw first ((first, IsAtMost-trans y.score x.score ys first h.0), h)
    | inr later ↦ rw later (
      All-place re (IsAtMost re y.score) x ys (order.total y.score x.score later) h.0,
      IsDescending-place x ys h.1,
    )
  ]

  IsDescending-sort : (xs : List (ScoredRecord re.Float)) → IsDescending re (sort_by_score re xs)
  IsDescending-sort [] = tt
  IsDescending-sort (x ∷ xs) = IsDescending-place x (sort_by_score re xs) (IsDescending-sort xs)

  -- A prefix of a list in order is in order, and nothing behind it exceeds any of it.
  abbrev pub AreBest : List (ScoredRecord re.Float) → List (ScoredRecord re.Float) → Type 0
  AreBest hits rest = All (λ h. All (IsAtMost re h.score) rest) hits

  split_order :
      (hits rest : List (ScoredRecord re.Float))
      → IsDescending re (hits ++ rest)
      → IsDescending re hits × AreBest hits rest
  split_order [] rest h = (tt, tt)
  split_order (x ∷ hits) rest h =
      let (front, back) = split_all x.score hits rest h.0 in
      let (ordered, best) = split_order hits rest h.1 in ((front, ordered), (back, best))
    where
      split_all :
          (bound : re.Float) (hits rest : List (ScoredRecord re.Float))
          → All (IsAtMost re bound) (hits ++ rest)
          → All (IsAtMost re bound) hits × All (IsAtMost re bound) rest
      split_all bound [] rest all = (tt, all)
      split_all bound (y ∷ hits) rest all =
          let (front, back) = split_all bound hits rest all.1 in ((all.0, front), back)

  -- A query returns as many records as it is asked for, or all if there are fewer, best first. With
  -- the records that it leaves out they are the stored ones, each scored against the query, and no
  -- record that it leaves out has a higher score than one that it returns.
  pub query-best :
      (embedding : List re.Float) (top_k : ℕ) (store : Records re.Float)
      → (rest : List (ScoredRecord re.Float)) × Perm
          (query re embedding top_k store ++ rest)
          (score_all re embedding store)
        × (length (query re embedding top_k store) ≡ min top_k (length store))
        × IsDescending re (query re embedding top_k store)
        × AreBest (query re embedding top_k store) rest
  unfolding query
  query-best embedding top_k store =
      let scored = sort_by_score re (score_all re embedding store) in
      let whole = take-append-drop top_k scored in
      let (ordered, best) =
        split_order (take top_k scored) (drop top_k scored) (
          subst (IsDescending re) (sym whole) (IsDescending-sort (score_all re embedding store))) in
      (
        drop top_k scored,
        subst (λ xs. Perm xs (score_all re embedding store)) (sym whole)
            (sort-perm re (score_all re embedding store)),
        length-query re embedding top_k store,
        ordered,
        best,
      )
