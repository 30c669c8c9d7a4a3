-- ===== src/Api/Documents.antt =====
-- api/v1/documents.py. The endpoints resolve their caller first, as those of the workflows do; a
-- request that fails rolls its tables back, but neither the files nor the vectors.
pub mod Accepted
pub mod Leftovers
pub mod Uploads
use banking_ai_platform.Prelude.{
  ℕ, ◌*◌, String, ◌<>◌, show, Option, none, some, List, [], ◌∷◌, length, first, is_empty,
  if◌then◌else◌, ltb, ◌==◌, int, str, Dict,
}
use banking_ai_platform.Core.Errors.{
  Result, ok, err, Exn, raise_app, validation_app_error, not_found_error,
}
use banking_ai_platform.Core.Config.{Settings}
use banking_ai_platform.Core.Rbac.{Permission, permission_value, document_upload, document_read}
use banking_ai_platform.Core.Security.{Jwt, Principal}
use banking_ai_platform.Db.Documents.{Document}
use banking_ai_platform.Db.Session.{Action, pure, raise, ◌>>=◌, ◌>>◌}
use banking_ai_platform.Services.Audit.{Event, record_event}
use banking_ai_platform.Services.Storage.{Bytes}
use banking_ai_platform.Services.Documents.Ingest.{Library, Upload, Pipeline, ingest}
use banking_ai_platform.Api.Deps.{Request, require_permissions}

-- 25 MiB
abbrev pub max_bytes : ℕ
max_bytes = 25 * 1024 * 1024

-- The file of a form, with the kind that stands beside it.
pub record UploadForm : Type 0 where
  pub filename : Option String
  pub content_type : Option String
  pub bytes : Bytes
  pub kind : String

abbrev pub or_else : String → Option String → String
or_else default none = default
or_else default (some s) = if is_empty s then default else s

abbrev pub upload_of : ℕ → UploadForm → Upload
upload_of user form = record {
  filename = or_else "upload.bin" form.filename;
  content_type = or_else "application/octet-stream" form.content_type;
  bytes = form.bytes;
  text = none;
  uploaded_by = some user;
  metadata = ("kind", str form.kind) ∷ [];
}

abbrev pub uploaded_event : ℕ → Principal → Request → Document → Event
uploaded_event user p r d = record {
  action = "document.uploaded";
  resource_type = "document";
  outcome = "success";
  actor_id = some user;
  actor_email = p.email;
  resource_id = some (show d.id);
  request_id = r.request_id;
  context = ("filename", str d.filename) ∷ ("size", int d.size_bytes) ∷ [];
}

module _ {F : Type 0} (pl : Pipeline F) (user_key : String → Result ℕ) where
  abbrev pub audited : Event → Action (Library F) (Unit {0})
  audited e lib =
      let written = record lib { db = record_event e lib.db } in (pl.flush written, written)

  abbrev pub keyed : Result ℕ → (ℕ → Action (Library F) Document) → Action (Library F) Document
  keyed (ok user) f = f user
  keyed (err e) f = raise e

  -- What follows the ingestion.
  abbrev pub noted : ℕ → Principal → Request → Document → Action (Library F) Document
  noted user p r document = do audited (uploaded_event user p r document); pure document

  -- `upload_document`, for a caller who may.
  unfoldable pub upload_document : UploadForm → Principal → Request → Action (Library F) Document
  unfolding ingest record_event show
  upload_document form p r =
      if ltb max_bytes (length form.bytes)
      then raise (
          raise_app validation_app_error "Uploaded file exceeds the size limit."
            (("max_bytes", int max_bytes) ∷ ("size", int (length form.bytes)) ∷ []))
      else keyed (user_key p.user_id)
          λ user. do document ← ingest pl (upload_of user form); noted user p r document

  -- `get_document`
  unfoldable pub get_document : ℕ → Action (Library F) Document
  unfolding show
  get_document id lib = elim (first (λ (d : Document). d.id == id) lib.documents) [
    | some document ↦ (ok document, lib)
    | none ↦ (err (raise_app not_found_error ("Document " <> show id <> " not found.") []), lib)
  ]

  -- A call of one of the two endpoints.
  pub data DocumentCall : Type 0 where
    upload : UploadForm → DocumentCall
    read : ℕ → DocumentCall

  abbrev pub permission_of : DocumentCall → Permission
  permission_of (upload form) = document_upload
  permission_of (read id) = document_read

  abbrev pub endpoint : DocumentCall → Principal → Request → Action (Library F) Document
  endpoint (upload form) p r = upload_document form p r
  endpoint (read id) p r = get_document id

  -- The tables as they were before.
  abbrev pub rolled_back : Library F → Library F → Library F
  rolled_back before after = record before { files = after.files; vectors = after.vectors }

  abbrev pub committed : Library F → Document → Result (Unit {0}) → Action (Library F) Document
  committed before d (ok done) after = (ok d, after)
  committed before d (err e) after = (err e, rolled_back before after)

  -- Commit, or roll back: also where the commit fails.
  abbrev pub end_request : Library F → Result Document × Library F → Result Document × Library F
  end_request before (ok d, after) = committed before d (pl.commit after) after
  end_request before (err e, after) = (err e, rolled_back before after)

  module _ (jwt : Jwt) (settings : Settings) where
    abbrev pub guarded : Result Principal → DocumentCall → Request → Action (Library F) Document
    guarded (err e) call r = raise e
    guarded (ok p) call r = endpoint call p r

    unfoldable pub serve : ℕ → DocumentCall → Request → Action (Library F) Document
    unfolding upload_document get_document permission_value
    serve now call r lib =
        let caller =
          require_permissions jwt settings now (permission_value (permission_of call) ∷ []) r in
        end_request lib (guarded caller call r lib)
