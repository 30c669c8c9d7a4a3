-- ===== src/Services/Documents/Ingest/Indexed.antt =====
-- What an ingestion leaves: where it succeeds the document's rows, its chunks in the vector store,
-- and its file; where it fails the file and the vectors that it wrote before.
use banking_ai_platform.Prelude.{
  ◌+◌, length, ◌⊎◌, inl, inr, List, [], ◌∷◌, ◌++◌, map, is_nil, ◌≡◌, refl, sym, ap, ◌∙◌, subst,
  if◌then◌else◌,
}
use banking_ai_platform.Core.Errors.{Result, ok, err, err_ok, ok_inj}
use banking_ai_platform.Db.Enums.{DocumentStatus}
use banking_ai_platform.Db.Documents.{Document, DocumentChunk}
use banking_ai_platform.Ai.VectorStore.{VectorRecord, Records, upsert}
use banking_ai_platform.Ai.VectorStore.Upserts.{AreStored}
use banking_ai_platform.Services.Storage.{Files, put, get}
use banking_ai_platform.Services.Storage.Paths.{get-put}
use banking_ai_platform.Services.Documents.Ingest.{
  Library, Upload, Pipeline, chunks_of, key_of, index_chunks, add_document, document_flushed,
  after_put, ingest, document_of, finished, sealed,
}
use banking_ai_platform.Services.Documents.Ingest.Loop.{
  record_of, rows_of, content-rows_of, AreDistinct-rows_of, index_chunks-ok, index_chunks-kept,
  AreStored-upsert, upsert-nil,
}

module _ {F : Type 0} (pl : Pipeline F) where
  module _ (up : Upload) (lib : Library F) where
    -- The rows of the chunks that the text of the upload gives, behind the document's own key.
    abbrev pub new_rows : List DocumentChunk
    new_rows = rows_of pl lib.db.next_id (lib.db.next_id + 1) 0 (chunks_of pl.decode up)

    -- What a document that was ingested leaves.
    pub record IsIndexed (d : Document) (after : Library F) : Type 0 where
      pub id : d.id ≡ lib.db.next_id
      pub filename : d.filename ≡ up.filename
      pub size : d.size_bytes ≡ length up.bytes
      pub owner : d.uploaded_by ≡ up.uploaded_by
      pub stored : after.documents ≡ lib.documents ++ (d ∷ [])
      pub chunks : after.document_chunks ≡ lib.document_chunks ++ new_rows
      pub contents : map (λ (r : DocumentChunk). r.content) new_rows ≡ chunks_of pl.decode up
      pub searchable : AreStored (map (record_of pl up.filename) new_rows) after.vectors
      pub status : d.status ≡ (
          if is_nil (chunks_of pl.decode up)
          then DocumentStatus.needs_review
          else DocumentStatus.processed)
      pub file : get pl.os_text pl.root d.storage_key after.files ≡ ok up.bytes

    abbrev pub records_of : List (VectorRecord F)
    records_of = map (record_of pl up.filename) new_rows

    -- What is left of an upload outside the tables, however it ends: nothing, or the file; and
    -- with the file nothing in the vector store, or the records of all chunks.
    abbrev pub LeavesBehind : Library F → Type 0
    LeavesBehind after =
        ((after.files ≡ lib.files) × (after.vectors ≡ lib.vectors))
        ⊎ ((put pl.os_text pl.root (key_of pl up) up.bytes lib.files ≡ ok after.files)
            × ((after.vectors ≡ lib.vectors) ⊎ (after.vectors ≡ upsert records_of lib.vectors)))

    module _ (files : Files)
        (written : put pl.os_text pl.root (key_of pl up) up.bytes lib.files ≡ ok files) where
      abbrev added : Document
      added = document_of pl lib.db.next_id up DocumentStatus.processing

      -- The document with the status that it ends with.
      abbrev ready : Document
      ready = record added {
        status =
            if is_nil (chunks_of pl.decode up)
            then DocumentStatus.needs_review
            else DocumentStatus.processed;
      }

      abbrev begun : Library F
      begun = add_document pl added (record lib { files = files })

      abbrev indexed : Result (List (VectorRecord F)) × Library F
      indexed = index_chunks pl added 0 (chunks_of pl.decode up) begun

      abbrev complete : List (VectorRecord F) → Library F
      complete records = record indexed.1 {
        vectors = if is_nil records then indexed.1.vectors else upsert records indexed.1.vectors;
        documents = lib.documents ++ (ready ∷ []);
      }

      IsIndexed-complete :
          (records : List (VectorRecord F))
          → indexed.0 ≡ ok records
          → IsIndexed ready (complete records)
      IsIndexed-complete records e =
          let chunks = chunks_of pl.decode up in
          let (found, rows) = index_chunks-ok pl added 0 chunks begun records e in
          let (vectors, kept) = index_chunks-kept pl added 0 chunks begun in
          record {
            id = refl;
            filename = refl;
            size = refl;
            owner = refl;
            stored = refl;
            chunks = rows;
            contents = content-rows_of pl lib.db.next_id (lib.db.next_id + 1) 0 chunks;
            searchable =
                subst
                  (λ (vs : Records F).
                    AreStored records_of (if is_nil records then vs else upsert records vs))
                  (sym vectors)
                  (subst
                    (λ rs.
                      AreStored records_of
                        (if is_nil rs then begun.vectors else upsert rs begun.vectors))
                    (sym found)
                    (AreStored-upsert pl records_of begun.vectors (
                      AreDistinct-rows_of pl up.filename lib.db.next_id (lib.db.next_id + 1) 0
                        chunks)));
            status = refl;
            file =
                ap (get pl.os_text pl.root (key_of pl up)) kept
                ∙ get-put pl.os_text pl.root (key_of pl up) up.bytes lib.files files written;
          }

      IsIndexed-sealed :
          (r : Result (Unit {0})) (l : Library F) (d : Document)
          → IsIndexed ready l
          → (sealed pl ready r l).0 ≡ ok d
          → IsIndexed d (sealed pl ready r l).1
      IsIndexed-sealed (err e) l d done h = absurd (err_ok h)
      IsIndexed-sealed (ok flushed) l d done h = subst (λ d'. IsIndexed d' l) (ok_inj h) done

      IsIndexed-finished :
          (r : Result (List (VectorRecord F))) (d : Document)
          → indexed.0 ≡ r
          → (finished pl up added lib.documents r indexed.1).0 ≡ ok d
          → IsIndexed d (finished pl up added lib.documents r indexed.1).1
      IsIndexed-finished (err e) d same h = absurd (err_ok h)
      IsIndexed-finished (ok records) d same h =
          let last = complete records in
          IsIndexed-sealed (pl.flush last) last d (IsIndexed-complete records same) h

      IsIndexed-flushed :
          (r : Result (Unit {0})) (d : Document)
          → (document_flushed pl up added lib.documents r begun).0 ≡ ok d
          → IsIndexed d (document_flushed pl up added lib.documents r begun).1
      IsIndexed-flushed (err e) d h = absurd (err_ok h)
      IsIndexed-flushed (ok flushed) d h = IsIndexed-finished indexed.0 d refl h

      kept : (indexed.1.vectors ≡ lib.vectors) × (indexed.1.files ≡ files)
      kept = index_chunks-kept pl added 0 (chunks_of pl.decode up) begun

      LeavesBehind-sealed :
          (r : Result (Unit {0})) (l : Library F)
          → LeavesBehind l
          → LeavesBehind (sealed pl ready r l).1
      LeavesBehind-sealed (err e) l h = h
      LeavesBehind-sealed (ok done) l h = h

      LeavesBehind-finished :
          (r : Result (List (VectorRecord F)))
          → indexed.0 ≡ r
          → LeavesBehind (finished pl up added lib.documents r indexed.1).1
      LeavesBehind-finished (err e) same = inr (written ∙ ap ok (sym kept.1), inl kept.0)
      LeavesBehind-finished (ok records) same =
          let last = complete records in
          let chunks = chunks_of pl.decode up in
          let (found, rows) = index_chunks-ok pl added 0 chunks begun records same in
          LeavesBehind-sealed (pl.flush last) last (
            inr (
              written ∙ ap ok (sym kept.1),
              inr (
                  upsert-nil pl records indexed.1.vectors
                  ∙ ap (upsert records) kept.0
                  ∙ ap (λ rs. upsert rs lib.vectors) found),
            ))

      LeavesBehind-flushed :
          (r : Result (Unit {0}))
          → LeavesBehind (document_flushed pl up added lib.documents r begun).1
      LeavesBehind-flushed (err e) = inr (written, inl refl)
      LeavesBehind-flushed (ok done) = LeavesBehind-finished indexed.0 refl

    IsIndexed-after :
        (r : Result Files)
        → put pl.os_text pl.root (key_of pl up) up.bytes lib.files ≡ r
        → (d : Document) → (after_put pl up r lib).0 ≡ ok d
        → IsIndexed d (after_put pl up r lib).1
    IsIndexed-after (err e) written d h = absurd (err_ok h)
    IsIndexed-after (ok files) written d h =
        IsIndexed-flushed files written (pl.flush (begun files written)) d h

    -- Where an upload is ingested, the document is stored as it is returned, under the next key,
    -- with a row for each chunk of its text, in order; the vector store has each chunk under its
    -- id, with its text and its embedding; the document is processed exactly if there are chunks,
    -- and is left for review otherwise; and the storage gives its bytes back under its key.
    pub ingest-IsIndexed :
        (d : Document) → (ingest pl up lib).0 ≡ ok d → IsIndexed d (ingest pl up lib).1
    unfolding ingest
    ingest-IsIndexed d h =
        IsIndexed-after (put pl.os_text pl.root (key_of pl up) up.bytes lib.files) refl d h

    LeavesBehind-after :
        (r : Result Files)
        → put pl.os_text pl.root (key_of pl up) up.bytes lib.files ≡ r
        → LeavesBehind (after_put pl up r lib).1
    LeavesBehind-after (err e) written = inl (refl, refl)
    LeavesBehind-after (ok files) written =
        LeavesBehind-flushed files written (pl.flush (begun files written))

    -- However an ingestion ends, the files and the vectors are as before it, or the file is written
    -- and the vector store is as before it or has the records of all chunks.
    pub ingest-LeavesBehind : LeavesBehind (ingest pl up lib).1
    unfolding ingest
    ingest-LeavesBehind =
        LeavesBehind-after (put pl.os_text pl.root (key_of pl up) up.bytes lib.files) refl
