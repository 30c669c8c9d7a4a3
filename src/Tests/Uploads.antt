-- ===== src/Tests/Uploads.antt =====
-- The storage and the upload of a document, with a digest that is always the same.
use banking_ai_platform.Prelude.{
  ℕ, String, size, true, some, List, [], ◌∷◌, ◌++◌, ◌≡◌, refl, contains, length,
}
use banking_ai_platform.Core.Errors.{Exn, other, Result, ok, err}
use banking_ai_platform.Core.Rbac.{permission_value, document_upload, parse_role, role_permissions}
use banking_ai_platform.Core.Security.{Principal}
use banking_ai_platform.Db.Documents.{Document}
use banking_ai_platform.Db.Session.{empty_database}
use banking_ai_platform.Api.Deps.{current_principal, require_permissions}
use banking_ai_platform.Api.Documents.{UploadForm, upload, serve}
use banking_ai_platform.Api.Documents.Accepted.{IsUploaded}
use banking_ai_platform.Api.Documents.Uploads.{HasTables, Remains, serve-uploads}
use banking_ai_platform.Services.Storage.{Files, content_key, path_of, put, get}
use banking_ai_platform.Services.Storage.Paths.{IsDigest, home, path_of-content_key, get-put}
use banking_ai_platform.Services.Documents.Ingest.{Library, Pipeline}
use banking_ai_platform.Tests.Models.{live}
use banking_ai_platform.Tests.Requests.{one_token, from_officer}

abbrev objects : List String
objects = "tmp" ∷ "banking-ai-objects" ∷ []

abbrev no_text : String → String → String
no_text name path = ""

ab-IsDigest : IsDigest "ab"
ab-IsDigest = (((refl, (refl, (refl, tt))), refl), refl)

path_of-content_key_example :
    path_of objects (content_key "ab" "../../etc/passwd")
    ≡ ok (home objects "ab" "../../etc/passwd")
path_of-content_key_example = path_of-content_key objects "ab" "../../etc/passwd" ab-IsDigest

passwd_home : home objects "ab" "../../etc/passwd" ≡ objects ++ ("ab" ∷ "passwd" ∷ [])
unfolding content_key
passwd_home = refl

-- A file that is called `..` leads to the root itself, where no file can be written.
dots_home : home objects "ab" ".." ≡ objects
unfolding content_key
dots_home = refl

abbrev one_file : Files
one_file = ("/tmp/banking-ai-objects/ab/a.txt", 1 ∷ 2 ∷ []) ∷ []

get-put_example : get no_text objects "ab/a.txt" one_file ≡ ok (1 ∷ 2 ∷ [])
unfolding put
get-put_example = get-put no_text objects "ab/a.txt" (1 ∷ 2 ∷ []) [] one_file refl

abbrev plain : Pipeline ℕ
plain = record {
  sha256 = λ bytes. "ab";
  decode = λ bytes. "some words to keep";
  embed = λ text. size text ∷ [];
  dimensions = 1;
  os_text = no_text;
  root = objects;
  flush = λ lib. ok tt;
  commit = λ lib. ok tt;
}

-- A database that cannot commit.
abbrev closing : Pipeline ℕ
closing = record plain { commit = λ lib. err (other "InterfaceError" "connection is closed") }

abbrev empty_library : Library ℕ
empty_library = record {
  db = empty_database;
  documents = [];
  document_chunks = [];
  embeddings = [];
  files = [];
  vectors = [];
}

abbrev notes : UploadForm
notes = record {
  filename = some "notes.txt";
  content_type = some "text/plain";
  bytes = 104 ∷ 105 ∷ [];
  kind = "generic";
}

abbrev uploaded : Result Document × Library ℕ
uploaded = serve plain (λ id. ok 7) one_token live 200 (upload notes) from_officer empty_library

serve-uploads_example :
    ((d : Document)
      → uploaded.0 ≡ ok d
      → (p : Principal) × (current_principal one_token live 200 from_officer ≡ ok p)
        × (contains p.permissions (permission_value document_upload) ≡ true)
        × IsUploaded plain (λ id. ok 7) notes p from_officer empty_library d uploaded.1
        × (plain.commit uploaded.1 ≡ ok tt))
    × ((e : Exn)
        → uploaded.0 ≡ err e
        → HasTables plain
            (λ id. ok 7)
            one_token
            live
            200
            notes
            from_officer
            empty_library
            uploaded.1
          × Remains plain
              (λ id. ok 7)
              one_token
              live
              200
              notes
              from_officer
              empty_library
              uploaded.1)
serve-uploads_example =
    serve-uploads plain (λ id. ok 7) one_token live 200 notes from_officer empty_library

vectors_written : length uploaded.1.vectors ≡ 1
unfolding serve require_permissions parse_role role_permissions
vectors_written = refl

-- Where the commit fails, the file and the records stay without their rows.
orphans :
    let after =
      (serve closing (λ id. ok 7) one_token live 200 (upload notes) from_officer empty_library).1 in
    (after.documents ≡ []) × (length after.files ≡ 1) × (length after.vectors ≡ 1)
unfolding serve require_permissions parse_role role_permissions
orphans = (refl, refl, refl)
