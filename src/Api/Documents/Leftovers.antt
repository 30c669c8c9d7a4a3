-- ===== src/Api/Documents/Leftovers.antt =====
-- What an upload leaves in the files and in the vector store, however it ends.
use banking_ai_platform.Prelude.{
  ℕ, ◌≤◌, String, length, ltb, false, ◌≡◌, refl, sym, subst, arith, Bool-cases, inl, inr, ◌⊎◌,
}
use banking_ai_platform.Core.Errors.{Result, ok, err}
use banking_ai_platform.Core.Security.{Principal}
use banking_ai_platform.Db.Documents.{Document}
use banking_ai_platform.Db.Session.{and_then, ◌>>=◌}
use banking_ai_platform.Services.Audit.{record_event}
use banking_ai_platform.Services.Documents.Ingest.{Library, Pipeline, ingest}
use banking_ai_platform.Services.Documents.Ingest.Indexed.{LeavesBehind, ingest-LeavesBehind}
use banking_ai_platform.Api.Deps.{Request}
use banking_ai_platform.Api.Documents.{
  max_bytes, UploadForm, upload_of, uploaded_event, noted, keyed, upload_document,
}

module _ {F : Type 0} (pl : Pipeline F) (user_key : String → Result ℕ) (form : UploadForm)
    (p : Principal) where
  -- What an upload leaves outside the tables, however it ends.
  abbrev pub Leaves : (lib after : Library F) → Type 0
  Leaves lib after =
      ((after.files ≡ lib.files) × (after.vectors ≡ lib.vectors))
      ⊎ ((user : ℕ) × (user_key p.user_id ≡ ok user)
          × (length form.bytes ≤ max_bytes)
          × LeavesBehind pl (upload_of user form) lib after)

  module _ (r : Request) (lib : Library F) where
    flushed-same :
        (q : Result (Unit {0})) (d : Document) (after : Library F)
        → (and_then q (λ done s. (ok d, s)) after).1 ≡ after
    flushed-same (err e) d after = refl
    flushed-same (ok done) d after = refl

    noted-Leaves :
        (user : ℕ) (q : Result Document) (after : Library F)
        → Leaves lib after
        → Leaves lib (and_then q (noted pl user_key user p r) after).1
    noted-Leaves user (err e) after h = h
    noted-Leaves user (ok d) after h =
        let told : Library F = record after {
          db = record_event (uploaded_event user p r d) after.db;
        } in
        subst (Leaves lib) (sym (flushed-same (pl.flush told) d told)) h

    keyed-Leaves :
        (k : Result ℕ)
        → user_key p.user_id ≡ k
        → ltb max_bytes (length form.bytes) ≡ false
        → Leaves lib
            (keyed pl user_key k
              (λ user. ingest pl (upload_of user form) >>= noted pl user_key user p r)
              lib).1
    keyed-Leaves (err e) same small = inl (refl, refl)
    keyed-Leaves (ok user) same small =
        let m = ingest pl (upload_of user form) lib in
        noted-Leaves user m.0 m.1 (
          inr (user, same, ground (arith, small), ingest-LeavesBehind pl (upload_of user form) lib))

    pub upload_document-Leaves : Leaves lib (upload_document pl user_key form p r lib).1
    unfolding upload_document
    upload_document-Leaves = elim (Bool-cases (ltb max_bytes (length form.bytes))) [
      | inl large ↦ rw large (inl (refl, refl))
      | inr small ↦ rw small (keyed-Leaves (user_key p.user_id) refl small)
    ]
