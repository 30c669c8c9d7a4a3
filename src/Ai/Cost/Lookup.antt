-- ===== src/Ai/Cost/Lookup.antt =====
-- The price that a provider and a model get from the table.
use banking_ai_platform.Prelude.{
  ◌≤◌, String, size, true, false, ◌&&◌, Option, none, some, List, [], ◌∷◌, ◌≡◌, refl, ◌⊎◌, inl, inr,
  All, Any, arith, Bool-cases,
}
use banking_ai_platform.Ai.Cost.{
  Price, prices, default_price, applies, longer, best_of, or_default_price, lookup_price,
}

module _ (provider model : String) where
  abbrev pub NoneApplies : List Price → Type 0
  NoneApplies table = All (λ e. applies provider model e ≡ false) table

  -- No entry that applies has a longer prefix.
  abbrev pub IsLongest : List Price → Price → Type 0
  IsLongest table best =
      All (λ e. applies provider model e ≡ true → size e.model_prefix ≤ size best.model_prefix)
        table

  -- It stands in the table.
  abbrev pub IsEntry : List Price → Price → Type 0
  IsEntry table e = Any (λ x. x ≡ e) table

  Best : List Price → Price → Type 0
  Best table from =
      (e : Price) × (best_of provider model table (some from) ≡ some e)
      × (applies provider model e ≡ true)
      × (size from.model_prefix ≤ size e.model_prefix)
      × IsLongest table e
      × ((from ≡ e) ⊎ IsEntry table e)

  past_one :
      (from e : Price) (table : List Price) (x : Price)
      → (from ≡ e) ⊎ IsEntry table e
      → (from ≡ e) ⊎ IsEntry (x ∷ table) e
  past_one from e table x (inl same) = inl same
  past_one from e table x (inr stands) = inr (inr stands)

  Best-from :
      (table : List Price) (from : Price) → applies provider model from ≡ true → Best table from
  unfolding best_of Best
  Best-from [] from h = (from, refl, h, omega arith, tt, inl refl)
  Best-from (x ∷ rest) from h =
      elim (Bool-cases (applies provider model x && longer x (some from))) [
        | inl better ↦
            (let (e, found, fits, bound, longest, stands) =
                Best-from rest x (ground (arith, better)) in
              (
                e,
                rw (better) found,
                fits,
                ground (arith, better, bound),
                (λ k. bound, longest),
                inr stands,
              ))
        | inr kept ↦
            (let (e, found, fits, bound, longest, stands) = Best-from rest from h in
              (
                e,
                rw (kept) found,
                fits,
                bound,
                (λ k. ground (arith, kept, k, bound), longest),
                past_one from e rest x stands,
              ))
      ]

  Found : List Price → Option Price → Type 0
  Found table none = NoneApplies table
  Found table (some e) = (applies provider model e ≡ true) × IsLongest table e × IsEntry table e

  Found-extend :
      (x : Price) (rest : List Price) (o : Option Price)
      → applies provider model x ≡ false
      → Found rest o
      → Found (x ∷ rest) o
  unfolding Found
  Found-extend x rest none misses h = (misses, h)
  Found-extend x rest (some e) misses h = (h.0, (λ k. ground (arith, k, misses), h.1), inr h.2)

  best_of-Found : (table : List Price) → Found table (best_of provider model table none)
  unfolding best_of Found Best
  best_of-Found [] = tt
  best_of-Found (x ∷ rest) = elim (Bool-cases (applies provider model x)) [
    | inl fits ↦
        (let (e, found, good, bound, longest, stands) = Best-from rest x fits in
          rw (fits, found) (good, (λ k. bound, longest), stands))
    | inr misses ↦ rw (misses) (Found-extend x rest _ misses (best_of-Found rest))
  ]

  Priced-Found :
      (table : List Price) (o : Option Price)
      → Found table o
      → (NoneApplies table × (or_default_price o ≡ default_price))
        ⊎ ((applies provider model (or_default_price o) ≡ true)
            × IsLongest table (or_default_price o)
            × IsEntry table (or_default_price o))
  unfolding Found
  Priced-Found table none h = inl (h, refl)
  Priced-Found table (some e) h = inr h

  -- The price of a model is an entry of the table: one of its provider whose prefix it has, and no
  -- such entry has a longer prefix. Where there is none, it is the default price.
  pub lookup_price-IsLongest :
      (NoneApplies prices × (lookup_price provider model ≡ default_price))
      ⊎ ((applies provider model (lookup_price provider model) ≡ true)
          × IsLongest prices (lookup_price provider model)
          × IsEntry prices (lookup_price provider model))
  unfolding lookup_price
  lookup_price-IsLongest =
      Priced-Found prices (best_of provider model prices none) (best_of-Found prices)
