-- ===== src/Api/Documents/Uploads.antt =====
-- Uploads that are accepted, and uploads that are refused or fail on the way.
use banking_ai_platform.Prelude.{
  ℕ, String, contains, true, [], ◌∷◌, ◌≡◌, refl, sym, ap, ◌∙◌, subst, inl, inr, ◌⊎◌,
}
use banking_ai_platform.Core.Errors.{Result, ok, err, Exn, err_ok, ok_inj}
use banking_ai_platform.Core.Config.{Settings}
use banking_ai_platform.Core.Rbac.{permission_value, document_upload}
use banking_ai_platform.Core.Security.{Jwt, Principal}
use banking_ai_platform.Db.Documents.{Document}
use banking_ai_platform.Services.Documents.Ingest.{Library, Pipeline}
use banking_ai_platform.Api.Deps.{Request, current_principal, require_permissions}
use banking_ai_platform.Api.Deps.Permitted.{require_permissions-ok}
use banking_ai_platform.Api.Documents.{
  UploadForm, upload_document, upload, guarded, committed, end_request, serve,
}
use banking_ai_platform.Api.Documents.Leftovers.{Leaves, upload_document-Leaves}
use banking_ai_platform.Api.Documents.Accepted.{IsUploaded, upload_document-IsUploaded}

module _ {F : Type 0} (pl : Pipeline F) (user_key : String → Result ℕ) where
  module _ (jwt : Jwt) (settings : Settings) (now : ℕ) (form : UploadForm) (r : Request)
      (lib : Library F) where
    abbrev caller : Result Principal
    caller = require_permissions jwt settings now (permission_value document_upload ∷ []) r

    abbrev served : Result Principal → Result Document × Library F
    served c = end_request pl user_key lib (guarded pl user_key jwt settings c (upload form) r lib)

    committed-ok :
        (q : Result (Unit {0})) (d' d : Document) (after : Library F)
        → (committed pl user_key lib d' q after).0 ≡ ok d
        → (d' ≡ d) × ((committed pl user_key lib d' q after).1 ≡ after) × (q ≡ ok tt)
    committed-ok (err e) d' d after h = absurd (err_ok h)
    committed-ok (ok done) d' d after h = (ok_inj h, refl, refl)

    end_request-ok :
        (m : Result Document × Library F) (d : Document)
        → (end_request pl user_key lib m).0 ≡ ok d
        → (m.0 ≡ ok d) × ((end_request pl user_key lib m).1 ≡ m.1) × (pl.commit m.1 ≡ ok tt)
    end_request-ok (ok d', after) d h =
        let (same, state, done) = committed-ok (pl.commit after) d' d after h in
        (ap ok same, state, done)
    end_request-ok (err e, after) d h = absurd (err_ok h)

    -- The tables are as they were before the request.
    abbrev pub HasTables : Library F → Type 0
    HasTables after =
        (after.db ≡ lib.db)
        × (after.documents ≡ lib.documents)
        × (after.document_chunks ≡ lib.document_chunks)
        × (after.embeddings ≡ lib.embeddings)

    committed-err :
        (q : Result (Unit {0})) (d : Document) (after : Library F) (e : Exn)
        → (committed pl user_key lib d q after).0 ≡ err e
        → HasTables (committed pl user_key lib d q after).1
          × ((committed pl user_key lib d q after).1.files ≡ after.files)
          × ((committed pl user_key lib d q after).1.vectors ≡ after.vectors)
    committed-err (ok done) d after e h = absurd (err_ok (sym h))
    committed-err (err e') d after e h = ((refl, refl, refl, refl), refl, refl)

    -- An end with an error restores the tables, and neither the files nor the vectors.
    end_request-err :
        (m : Result Document × Library F) (e : Exn)
        → (end_request pl user_key lib m).0 ≡ err e
        → HasTables (end_request pl user_key lib m).1
          × ((end_request pl user_key lib m).1.files ≡ m.1.files)
          × ((end_request pl user_key lib m).1.vectors ≡ m.1.vectors)
    end_request-err (ok d, after) e h = committed-err (pl.commit after) d after e h
    end_request-err (err e', after) e h = ((refl, refl, refl, refl), refl, refl)

    -- What a failed upload leaves outside the tables: nothing, or, for a caller who may upload, the
    -- file, and the records of all chunks or none of them.
    abbrev pub Remains : Library F → Type 0
    Remains after =
        ((after.files ≡ lib.files) × (after.vectors ≡ lib.vectors))
        ⊎ ((p : Principal) × (current_principal jwt settings now r ≡ ok p)
            × (contains p.permissions (permission_value document_upload) ≡ true)
            × Leaves pl user_key form p lib after)

    served-ok :
        (c : Result Principal) (d : Document)
        → (served c).0 ≡ ok d
        → (p : Principal) × (c ≡ ok p)
          × IsUploaded pl user_key form p r lib d (served c).1
          × (pl.commit (served c).1 ≡ ok tt)
    served-ok (err e) d h = absurd (err_ok h)
    served-ok (ok p) d h =
        let (done, same, commits) = end_request-ok (upload_document pl user_key form p r lib) d h in
        (
          p,
          refl,
          subst (IsUploaded pl user_key form p r lib d) (sym same)
              (upload_document-IsUploaded pl user_key form p r lib d done),
          ap pl.commit same ∙ commits,
        )

    Leaves-same :
        (p : Principal) (a b : Library F)
        → b.files ≡ a.files
        → b.vectors ≡ a.vectors
        → Leaves pl user_key form p lib a
        → Leaves pl user_key form p lib b
    Leaves-same p a b files vectors (inl (f, v)) = inl (files ∙ f, vectors ∙ v)
    Leaves-same p a b files vectors (inr (user, key, small, inl (f, v))) =
        inr (user, key, small, inl (files ∙ f, vectors ∙ v))
    Leaves-same p a b files vectors (inr (user, key, small, inr (f, inl v))) =
        inr (user, key, small, inr (f ∙ ap ok (sym files), inl (vectors ∙ v)))
    Leaves-same p a b files vectors (inr (user, key, small, inr (f, inr v))) =
        inr (user, key, small, inr (f ∙ ap ok (sym files), inr (vectors ∙ v)))

    served-err :
        (c : Result Principal) (e : Exn)
        → caller ≡ c
        → (served c).0 ≡ err e
        → HasTables (served c).1 × Remains (served c).1
    served-err (err e') e same h = ((refl, refl, refl, refl), inl (refl, refl))
    served-err (ok p) e same h =
        let done = upload_document pl user_key form p r lib in
        let (tables, files, vectors) = end_request-err done e h in
        let (known, held) =
          require_permissions-ok jwt settings now (permission_value document_upload) r p same in
        (
          tables,
          inr (
            p,
            known,
            held,
            Leaves-same p done.1 (served (ok p)).1 files vectors
                (upload_document-Leaves pl user_key form p r lib),
          ),
        )

    -- Whatever the database answers to a flush or to the commit: an upload that succeeds has a
    -- caller, from a valid access token, who holds `document:upload`, and at most 25 MiB; its
    -- document is ingested under the caller's key, one entry of the audit trail tells of it, and
    -- what it leaves is what the database committed. An upload that fails leaves the tables as
    -- they were. It leaves the files and the vectors as they were too, or else it had such a
    -- caller and such a size, its file stays written, and the vector store is as it was or keeps
    -- the records of all of its chunks.
    pub serve-uploads :
        ((d : Document)
          → (serve pl user_key jwt settings now (upload form) r lib).0 ≡ ok d
          → (p : Principal) × (current_principal jwt settings now r ≡ ok p)
            × (contains p.permissions (permission_value document_upload) ≡ true)
            × IsUploaded pl user_key form p r lib d
                (serve pl user_key jwt settings now (upload form) r lib).1
            × (pl.commit (serve pl user_key jwt settings now (upload form) r lib).1 ≡ ok tt))
        × ((e : Exn)
            → (serve pl user_key jwt settings now (upload form) r lib).0 ≡ err e
            → HasTables (serve pl user_key jwt settings now (upload form) r lib).1
              × Remains (serve pl user_key jwt settings now (upload form) r lib).1)
    unfolding serve
    serve-uploads = (
      λ d h.
          let (p, granted, done, commits) = served-ok caller d h in
          let (same, held) =
            require_permissions-ok jwt settings now (permission_value document_upload) r p
              granted in
          (p, same, held, done, commits),
      λ e h. served-err caller e refl h,
    )
