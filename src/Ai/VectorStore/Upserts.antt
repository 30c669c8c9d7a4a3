-- ===== src/Ai/VectorStore/Upserts.antt =====
-- What the store holds after records are written.
use banking_ai_platform.Prelude.{
  String, ◌is◌, false, some, List, [], ◌∷◌, lookup, insert, lookup-insert, insert_same, All, ◌≡◌,
  refl, ◌∙◌, arith, eq_iff,
}
use banking_ai_platform.Ai.VectorStore.{VectorRecord, Records, upsert}

-- No record has the key.
abbrev pub IsNew : {F : Type 0} → String → List (VectorRecord F) → Type 0
IsNew key rs = All (λ r. r.chunk_id is key ≡ false) rs

-- The chunk ids are distinct.
abbrev pub AreDistinct : {F : Type 0} → List (VectorRecord F) → Type 0
AreDistinct [] = Unit
AreDistinct (r ∷ rs) = IsNew r.chunk_id rs × AreDistinct rs

abbrev pub AreStored : {F : Type 0} → List (VectorRecord F) → Records F → Type 0
AreStored rs store = All (λ r. lookup r.chunk_id store ≡ some r) rs

lookup-upsert_new :
    {F : Type 0} (key : String) (rs : List (VectorRecord F)) (store : Records F)
    → IsNew key rs
    → lookup key (upsert rs store) ≡ lookup key store
unfolding upsert
lookup-upsert_new key [] store h = refl
lookup-upsert_new key (r ∷ rs) store h =
    lookup-upsert_new key rs (insert r.chunk_id r store) h.1
    ∙ ground (arith, h.0, lookup-insert r.chunk_id key r store)

upsert-stored :
    {F : Type 0} (rs : List (VectorRecord F)) (store : Records F)
    → AreDistinct rs
    → AreStored rs (upsert rs store)
unfolding upsert
upsert-stored [] store h = tt
upsert-stored (r ∷ rs) store h = (
  lookup-upsert_new r.chunk_id rs (insert r.chunk_id r store) h.0
      ∙ ground (arith, eq_iff r.chunk_id r.chunk_id, lookup-insert r.chunk_id r.chunk_id r store),
  upsert-stored rs (insert r.chunk_id r store) h.1,
)

upsert_same :
    {F : Type 0} (rs : List (VectorRecord F)) (store : Records F)
    → AreStored rs store
    → upsert rs store ≡ store
unfolding upsert
upsert_same [] store h = refl
upsert_same (r ∷ rs) store h = rw (insert_same r.chunk_id r store h.0) (upsert_same rs store h.1)

-- Records with distinct chunk ids, once written, are each found under their id, every other id
-- reads as before, and to write them again changes nothing.
pub upsert_lem :
    {F : Type 0} (rs : List (VectorRecord F)) (store : Records F)
    → AreDistinct rs
    → AreStored rs (upsert rs store)
      × ((key : String) → IsNew key rs → lookup key (upsert rs store) ≡ lookup key store)
      × (upsert rs (upsert rs store) ≡ upsert rs store)
upsert_lem rs store h = (
  upsert-stored rs store h,
  λ key new. lookup-upsert_new key rs store new,
  upsert_same rs (upsert rs store) (upsert-stored rs store h),
)
