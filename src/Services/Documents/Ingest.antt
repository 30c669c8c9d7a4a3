-- ===== src/Services/Documents/Ingest.antt =====
-- services/document_service.py: `ingest`. SHA-256, the decoding of bytes, which replaces what it
-- cannot read, the embedder, and what the database answers to a flush and to a commit are
-- parameters.
pub mod Loop
pub mod Indexed
use banking_ai_platform.Prelude.{
  ℕ, ◌+◌, ◌/◌, max, String, show, size, starts_with, contains, is_empty, runs, Bool, true, false,
  ◌||◌, Option, none, some, List, [], ◌∷◌, ◌++◌, map, length, is_nil, if◌then◌else◌, Dict,
}
use banking_ai_platform.Core.Errors.{Result, ok, err}
use banking_ai_platform.Db.Enums.{DocumentStatus}
use banking_ai_platform.Db.Documents.{Document, DocumentChunk, EmbeddingMetadata}
use banking_ai_platform.Db.Session.{Database, Action}
use banking_ai_platform.Ai.VectorStore.{VectorRecord, Records, upsert}
use banking_ai_platform.Services.Documents.{chunk_text}
use banking_ai_platform.Services.Storage.{Bytes, Files, is_name_char, content_key, put}

-- The tables of documents beside the others, the files of the storage, and the vector store.
pub record Library (F : Type 0) : Type 0 where
  pub db : Database
  pub documents : List Document
  pub document_chunks : List DocumentChunk
  pub embeddings : List (EmbeddingMetadata F)
  pub files : Files
  pub vectors : Records F

-- The arguments of `ingest`.
pub record Upload : Type 0 where
  pub filename : String
  pub content_type : String
  pub bytes : Bytes
  pub text : Option String
  pub uploaded_by : Option ℕ
  pub metadata : Dict

pub record Pipeline (F : Type 0) : Type 0 where
  pub sha256 : Bytes → String
  pub decode : Bytes → String
  pub embed : String → List F
  pub dimensions : ℕ
  pub os_text : String → String → String
  pub root : List String
  -- What `session.flush` and `session.commit` come to for the rows as they stand: they may raise.
  pub flush : Library F → Result (Unit {0})
  pub commit : Library F → Result (Unit {0})

abbrev pub head_or : String → List String → String
head_or default [] = default
head_or default (x ∷ xs) = x

-- `_decode_text`
unfoldable pub decode_text : (Bytes → String) → Bytes → String → String
decode_text decode bytes content_type =
    if starts_with "text/" content_type
      || contains ("application/json" ∷ "application/xml" ∷ []) content_type
    then decode bytes
    else ""

abbrev pub extracted : (Bytes → String) → Upload → String
extracted decode up = elim up.text [
  | some text ↦ text
  | none ↦ decode_text decode up.bytes up.content_type
]

abbrev pub chunks_of : (Bytes → String) → Upload → List String
chunks_of decode up =
    let text = extracted decode up in if is_empty text then [] else chunk_text text 120 20

module _ {F : Type 0} (pl : Pipeline F) where
  -- `key.split("/", 1)[0]`; a digest has a character, so the key does not start with the slash.
  abbrev pub key_of : Upload → String
  key_of up = content_key (pl.sha256 up.bytes) up.filename

  abbrev pub document_of : ℕ → Upload → DocumentStatus → Document
  document_of id up status = record {
    id = id;
    filename = up.filename;
    content_type = up.content_type;
    size_bytes = length up.bytes;
    storage_key = key_of up;
    sha256 = some (head_or "" (runs is_name_char (key_of up)));
    status = status;
    doc_metadata = up.metadata;
    uploaded_by = up.uploaded_by;
  }

  abbrev pub chunk_row : ℕ → ℕ → ℕ → String → DocumentChunk
  chunk_row id document_id index content = record {
    id = id;
    document_id = document_id;
    chunk_index = index;
    content = content;
    token_count = max 1 (size content / 4);
  }

  abbrev pub embedding_row : ℕ → DocumentChunk → EmbeddingMetadata F
  embedding_row id chunk = record {
    id = id;
    chunk_id = chunk.id;
    model = "hashing-embedder";
    dimensions = pl.dimensions;
    vector = pl.embed chunk.content;
  }

  abbrev pub vector_record : String → DocumentChunk → VectorRecord F
  vector_record filename chunk = record {
    chunk_id = show chunk.id;
    document_id = show chunk.document_id;
    text = chunk.content;
    embedding = pl.embed chunk.content;
    filename = some filename;
  }

  abbrev pub add_chunk : DocumentChunk → Library F → Library F
  add_chunk chunk lib = record lib {
    document_chunks = lib.document_chunks ++ (chunk ∷ []);
    db = record lib.db { next_id = lib.db.next_id + 1 };
  }

  abbrev pub add_embedding : DocumentChunk → Library F → Library F
  add_embedding chunk lib = record lib {
    embeddings = lib.embeddings ++ (embedding_row lib.db.next_id chunk ∷ []);
    db = record lib.db { next_id = lib.db.next_id + 1 };
  }

  abbrev pub prefixed :
      VectorRecord F → Result (List (VectorRecord F)) → Result (List (VectorRecord F))
  prefixed v (ok records) = ok (v ∷ records)
  prefixed v (err e) = err e

  -- By what the flush of a chunk's row comes to: the loop goes on, or ends with the error.
  abbrev pub row_flushed :
      VectorRecord F
      → Result (Unit {0})
      → Library F
      → Result (List (VectorRecord F))
      → Library F
      → Result (List (VectorRecord F)) × Library F
  row_flushed v (err e) written records after = (err e, written)
  row_flushed v (ok done) written records after = (prefixed v records, after)

  -- The loop over the chunks, from an index on: its records, and what it leaves.
  unfoldable pub index_chunks :
      Document → ℕ → List String → Action (Library F) (List (VectorRecord F))
  unfolding show
  index_chunks document index [] lib = (ok [], lib)
  index_chunks document index (content ∷ chunks) lib =
      let chunk = chunk_row lib.db.next_id document.id index content in
      let written = add_chunk chunk lib in
      let (records, after) =
        index_chunks document (index + 1) chunks (add_embedding chunk written) in
      row_flushed (vector_record document.filename chunk) (pl.flush written) written records after

  abbrev pub add_document : Document → Library F → Library F
  add_document document lib = record lib {
    documents = lib.documents ++ (document ∷ []);
    db = record lib.db { next_id = lib.db.next_id + 1 };
  }

  -- The last flush, of the document's status.
  abbrev pub sealed : Document → Result (Unit {0}) → Action (Library F) Document
  sealed document (ok done) lib = (ok document, lib)
  sealed document (err e) lib = (err e, lib)

  -- The records go into the vector store, and then the status is set, in the last row of the
  -- table.
  abbrev pub finished :
      Upload
      → Document
      → List Document
      → Result (List (VectorRecord F))
      → Action (Library F) Document
  finished up added documents (err e) lib = (err e, lib)
  finished up added documents (ok records) lib =
      let status =
        if is_nil (chunks_of pl.decode up)
        then DocumentStatus.needs_review
        else DocumentStatus.processed in
      let document = record added { status = status } in
      let written = record lib {
        vectors = if is_nil records then lib.vectors else upsert records lib.vectors;
        documents = documents ++ (document ∷ []);
      } in
      sealed document (pl.flush written) written

  -- What follows the flush of the document's row.
  abbrev pub document_flushed :
      Upload → Document → List Document → Result (Unit {0}) → Action (Library F) Document
  document_flushed up added documents (err e) lib = (err e, lib)
  document_flushed up added documents (ok done) lib =
      let (records, after) = index_chunks added 0 (chunks_of pl.decode up) lib in
      finished up added documents records after

  -- What follows the writing of the file.
  abbrev pub index_document : Upload → Action (Library F) Document
  index_document up lib =
      let added = document_of lib.db.next_id up DocumentStatus.processing in
      let begun = add_document added lib in
      document_flushed up added lib.documents (pl.flush begun) begun

  abbrev pub after_put : Upload → Result Files → Action (Library F) Document
  after_put up (err e) lib = (err e, lib)
  after_put up (ok files) lib = index_document up (record lib { files = files })

  -- `DocumentService.ingest`
  unfoldable pub ingest : Upload → Action (Library F) Document
  unfolding put content_key runs chunk_text index_chunks upsert decode_text
  ingest up lib = after_put up (put pl.os_text pl.root (key_of up) up.bytes lib.files) lib
