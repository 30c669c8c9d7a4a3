-- ===== src/Services/Documents/Ingest/Loop.antt =====
-- The loop over the chunks of a document: its rows, its records, and what it leaves alone.
use banking_ai_platform.Prelude.{
  ℕ, max, size, ◌/◌, some, ◌+◌, ◌<◌, String, show, show_inj, eq_iff, List, [], ◌∷◌, ◌++◌, map,
  is_nil, append_nil, ◌≡◌, refl, sym, ap, ◌∙◌, arith, if◌then◌else◌,
}
use mathlib.Core.List.{append_assoc}
use banking_ai_platform.Core.Errors.{Result, ok, err, err_ok, ok_inj}
use banking_ai_platform.Db.Documents.{Document, DocumentChunk}
use banking_ai_platform.Ai.VectorStore.{VectorRecord, Records, upsert}
use banking_ai_platform.Ai.VectorStore.Upserts.{IsNew, AreDistinct, AreStored, upsert_lem}
use banking_ai_platform.Services.Documents.Ingest.{
  Library, Pipeline, chunk_row, vector_record, add_chunk, index_chunks, row_flushed, add_embedding,
}

module _ {F : Type 0} (pl : Pipeline F) where
  -- What the vector store is to hold of a chunk.
  abbrev pub record_of : String → DocumentChunk → VectorRecord F
  record_of filename chunk = record {
    chunk_id = show chunk.id;
    document_id = show chunk.document_id;
    text = chunk.content;
    embedding = pl.embed chunk.content;
    filename = some filename;
  }

  -- The rows of chunks, numbered in order; every other key is that of an embedding's row.
  abbrev pub rows_of : (document_id next_id index : ℕ) → List String → List DocumentChunk
  rows_of document_id n i [] = []
  rows_of document_id n i (content ∷ chunks) =
      record {
        id = n;
        document_id = document_id;
        chunk_index = i;
        content = content;
        token_count = max 1 (size content / 4);
      }
      ∷ rows_of document_id (n + 1 + 1) (i + 1) chunks

  pub content-rows_of :
      (id n i : ℕ) (chunks : List String)
      → map (λ (r : DocumentChunk). r.content) (rows_of id n i chunks) ≡ chunks
  content-rows_of id n i [] = refl
  content-rows_of id n i (c ∷ chunks) =
      ap (λ rest. c ∷ rest) (content-rows_of id (n + 1 + 1) (i + 1) chunks)

  IsNew-rows_of :
      (filename : String) (id k n i : ℕ) (chunks : List String)
      → k < n
      → IsNew (show k) (map (record_of filename) (rows_of id n i chunks))
  IsNew-rows_of filename id k n i [] h = tt
  IsNew-rows_of filename id k n i (c ∷ chunks) h = (
    ground (arith, h, eq_iff (show n) (show k), show_inj n k),
    IsNew-rows_of filename id k (n + 1 + 1) (i + 1) chunks (omega (arith, h)),
  )

  pub AreDistinct-rows_of :
      (filename : String) (id n i : ℕ) (chunks : List String)
      → AreDistinct (map (record_of filename) (rows_of id n i chunks))
  AreDistinct-rows_of filename id n i [] = tt
  AreDistinct-rows_of filename id n i (c ∷ chunks) = (
    IsNew-rows_of filename id n (n + 1 + 1) (i + 1) chunks (omega arith),
    AreDistinct-rows_of filename id (n + 1 + 1) (i + 1) chunks,
  )

  row_flushed-ok :
      (v : VectorRecord F) (r : Result (Unit {0})) (written after : Library F)
      (q : Result (List (VectorRecord F))) (records : List (VectorRecord F))
      → (row_flushed pl v r written q after).0 ≡ ok records
      → (rest : List (VectorRecord F)) × (q ≡ ok rest)
        × (records ≡ v ∷ rest)
        × ((row_flushed pl v r written q after).1 ≡ after)
  row_flushed-ok v (err e) written after q records h = absurd (err_ok h)
  row_flushed-ok v (ok done) written after (err e) records h = absurd (err_ok h)
  row_flushed-ok v (ok done) written after (ok rest) records h = (rest, refl, sym (ok_inj h), refl)

  -- A loop that ends well has written the rows of its chunks, and has their records.
  pub index_chunks-ok :
      (d : Document) (i : ℕ) (chunks : List String) (lib : Library F)
      (records : List (VectorRecord F))
      → (index_chunks pl d i chunks lib).0 ≡ ok records
      → let rows = rows_of d.id lib.db.next_id i chunks in
        (records ≡ map (record_of d.filename) rows)
        × ((index_chunks pl d i chunks lib).1.document_chunks ≡ lib.document_chunks ++ rows)
  unfolding index_chunks
  index_chunks-ok d i [] lib records h = (sym (ok_inj h), sym (append_nil lib.document_chunks))
  index_chunks-ok d i (c ∷ chunks) lib records h =
      let chunk = chunk_row pl lib.db.next_id d.id i c in
      let written = add_chunk pl chunk lib in
      let next = add_embedding pl chunk written in
      let v = vector_record pl d.filename chunk in
      let later = index_chunks pl d (i + 1) chunks next in
      let (rest, e, same, state) =
        row_flushed-ok v (pl.flush written) written later.1 later.0 records h in
      let (these, rows) = index_chunks-ok d (i + 1) chunks next rest e in
      (
        same ∙ ap (λ more. v ∷ more) these,
        ap (λ (l : Library F). l.document_chunks) state
            ∙ rows
            ∙ append_assoc lib.document_chunks (chunk ∷ [])
                (rows_of d.id next.db.next_id (i + 1) chunks),
      )

  row_flushed-kept :
      (v : VectorRecord F) (r : Result (Unit {0})) (written after : Library F)
      (q : Result (List (VectorRecord F))) (lib : Library F)
      → (written.vectors ≡ lib.vectors) × (written.files ≡ lib.files)
      → (after.vectors ≡ lib.vectors) × (after.files ≡ lib.files)
      → ((row_flushed pl v r written q after).1.vectors ≡ lib.vectors)
        × ((row_flushed pl v r written q after).1.files ≡ lib.files)
  row_flushed-kept v (err e) written after q lib h k = h
  row_flushed-kept v (ok done) written after q lib h k = k

  -- However the loop ends, the vectors and the files are as before it.
  pub index_chunks-kept :
      (d : Document) (i : ℕ) (chunks : List String) (lib : Library F)
      → ((index_chunks pl d i chunks lib).1.vectors ≡ lib.vectors)
        × ((index_chunks pl d i chunks lib).1.files ≡ lib.files)
  unfolding index_chunks
  index_chunks-kept d i [] lib = (refl, refl)
  index_chunks-kept d i (c ∷ chunks) lib =
      let chunk = chunk_row pl lib.db.next_id d.id i c in
      let written = add_chunk pl chunk lib in
      let next = add_embedding pl chunk written in
      let later = index_chunks pl d (i + 1) chunks next in
      row_flushed-kept (vector_record pl d.filename chunk) (pl.flush written) written later.1
        later.0 lib (refl, refl) (index_chunks-kept d (i + 1) chunks next)

  pub AreStored-upsert :
      (rs : List (VectorRecord F)) (store : Records F)
      → AreDistinct rs
      → AreStored rs (if is_nil rs then store else upsert rs store)
  AreStored-upsert [] store h = tt
  AreStored-upsert (r ∷ rs) store h = (upsert_lem (r ∷ rs) store h).0

  pub upsert-nil :
      (rs : List (VectorRecord F)) (store : Records F)
      → (if is_nil rs then store else upsert rs store) ≡ upsert rs store
  unfolding upsert
  upsert-nil [] store = refl
  upsert-nil (r ∷ rs) store = refl
