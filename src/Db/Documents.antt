-- ===== src/Db/Documents.antt =====
-- db/models/document.py. A document's chunks are the rows with its id.
use banking_ai_platform.Prelude.{ℕ, String, Option, List, Dict}
use banking_ai_platform.Db.Enums.{DocumentStatus}

pub record Document : Type 0 where
  pub id : ℕ
  pub filename : String
  pub content_type : String
  pub size_bytes : ℕ
  pub storage_key : String
  pub sha256 : Option String
  pub status : DocumentStatus
  pub doc_metadata : Dict
  pub uploaded_by : Option ℕ

pub record DocumentChunk : Type 0 where
  pub id : ℕ
  pub document_id : ℕ
  pub chunk_index : ℕ
  pub content : String
  pub token_count : ℕ

pub record EmbeddingMetadata (F : Type 0) : Type 0 where
  pub id : ℕ
  pub chunk_id : ℕ
  pub model : String
  pub dimensions : ℕ
  pub vector : List F
