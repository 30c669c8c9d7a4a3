-- ===== src/Api/Documents/Accepted.antt =====
-- An upload that is accepted: what it stores, and what the audit trail says of it.
use banking_ai_platform.Prelude.{
  ℕ, ◌++◌, some, str, int, show, lower, ◌≤◌, String, length, ltb, false, [], ◌∷◌, ◌≡◌, refl, ap,
  ◌∙◌, arith, Bool-cases, inl, inr,
}
use banking_ai_platform.Core.Errors.{Result, ok, err, err_ok, ok_inj}
use banking_ai_platform.Core.Security.{Principal}
use banking_ai_platform.Db.Documents.{Document}
use banking_ai_platform.Db.Session.{and_then, ◌>>=◌}
use banking_ai_platform.Services.Audit.{record_event, redact}
use banking_ai_platform.Services.Documents.Ingest.{Library, Pipeline, ingest}
use banking_ai_platform.Services.Documents.Ingest.Indexed.{IsIndexed, ingest-IsIndexed}
use banking_ai_platform.Api.Deps.{Request}
use banking_ai_platform.Api.Documents.{
  max_bytes, UploadForm, upload_of, uploaded_event, noted, keyed, upload_document,
}

module _ {F : Type 0} (pl : Pipeline F) (user_key : String → Result ℕ) where
  -- What an upload that succeeds comes to: the document is ingested, and one entry of the audit
  -- trail tells of it.
  pub record IsUploaded (form : UploadForm) (p : Principal) (r : Request) (lib : Library F)
      (d : Document) (after : Library F) : Type 0 where
    pub small : length form.bytes ≤ max_bytes
    pub user : ℕ
    pub user_read : user_key p.user_id ≡ ok user
    pub indexed : IsIndexed pl (upload_of user form) lib d (ingest pl (upload_of user form) lib).1
    pub owner : d.uploaded_by ≡ some user
    pub logged :
        after.db.audit_logs
        ≡ (ingest pl (upload_of user form) lib).1.db.audit_logs
          ++ (record {
            id = (ingest pl (upload_of user form) lib).1.db.next_id;
            actor_id = some user;
            actor_email = p.email;
            action = "document.uploaded";
            resource_type = "document";
            resource_id = some (show d.id);
            outcome = "success";
            request_id = r.request_id;
            context = ("filename", str d.filename) ∷ ("size", int d.size_bytes) ∷ [];
          }
              ∷ [])
    pub recorded : after ≡ record (ingest pl (upload_of user form) lib).1 {
      db = record_event (uploaded_event user p r d) (ingest pl (upload_of user form) lib).1.db;
    }

  module _ (form : UploadForm) (p : Principal) (r : Request) (lib : Library F) where
    flushed-ok :
        (q : Result (Unit {0})) (d' d : Document) (after : Library F)
        → (and_then q (λ done s. (ok d', s)) after).0 ≡ ok d
        → (d' ≡ d) × ((and_then q (λ done s. (ok d', s)) after).1 ≡ after)
    flushed-ok (err e) d' d after h = absurd (err_ok h)
    flushed-ok (ok done) d' d after h = (ok_inj h, refl)

    noted-ok :
        (user : ℕ) (q : Result Document) (after : Library F) (d : Document)
        → (and_then q (noted pl user_key user p r) after).0 ≡ ok d
        → (q ≡ ok d)
          × ((and_then q (noted pl user_key user p r) after).1
              ≡ record after { db = record_event (uploaded_event user p r d) after.db })
    noted-ok user (err e) after d h = absurd (err_ok h)
    noted-ok user (ok d') after d h =
        let told : Document → Library F =
          λ x. record after { db = record_event (uploaded_event user p r x) after.db } in
        let (same, state) = flushed-ok (pl.flush (told d')) d' d (told d') h in
        (ap ok same, state ∙ ap told same)

    logged_lem :
        (user : ℕ) (d : Document) (before after : Library F)
        → after ≡ record before { db = record_event (uploaded_event user p r d) before.db }
        → after.db.audit_logs
          ≡ before.db.audit_logs
            ++ (record {
              id = before.db.next_id;
              actor_id = some user;
              actor_email = p.email;
              action = "document.uploaded";
              resource_type = "document";
              resource_id = some (show d.id);
              outcome = "success";
              request_id = r.request_id;
              context = ("filename", str d.filename) ∷ ("size", int d.size_bytes) ∷ [];
            }
                ∷ [])
    unfolding record_event redact lower
    logged_lem user d before after e = ap (λ (l : Library F). l.db.audit_logs) e

    IsUploaded-keyed :
        (k : Result ℕ) (d : Document)
        → ltb max_bytes (length form.bytes) ≡ false
        → user_key p.user_id ≡ k
        → let after =
            keyed pl user_key k
              (λ user. ingest pl (upload_of user form) >>= noted pl user_key user p r)
              lib in
          after.0 ≡ ok d → IsUploaded form p r lib d after.1
    IsUploaded-keyed (err e) d small same h = absurd (err_ok h)
    IsUploaded-keyed (ok user) d small same h =
        let m = ingest pl (upload_of user form) lib in
        let (ingested, recorded) = noted-ok user m.0 m.1 d h in
        record {
          small = ground (arith, small);
          user = user;
          user_read = same;
          indexed = ingest-IsIndexed pl (upload_of user form) lib d ingested;
          owner = (ingest-IsIndexed pl (upload_of user form) lib d ingested).owner;
          logged = logged_lem user d m.1 _ recorded;
          recorded = recorded;
        }

    pub upload_document-IsUploaded :
        (d : Document)
        → (upload_document pl user_key form p r lib).0 ≡ ok d
        → IsUploaded form p r lib d (upload_document pl user_key form p r lib).1
    unfolding upload_document
    upload_document-IsUploaded d h = elim (Bool-cases (ltb max_bytes (length form.bytes))) [
      | inl large ↦ absurd (err_ok (rw large at h))
      | inr small ↦ rw small (IsUploaded-keyed (user_key p.user_id) d small refl (rw small at h))
    ]
