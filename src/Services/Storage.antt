-- ===== src/Services/Storage.antt =====
-- services/storage_service.py: content keys and the store on the local file system. The file
-- system holds no symbolic links; it is the files written, by their absolute paths, and a path has
-- a directory where a file stands under it. The digest and the texts of the system's errors are
-- parameters.
pub mod Paths
use Prim.Native.Char.{Char, code}
use banking_ai_platform.Prelude.{
  ℕ, String, ◌<>◌, ◌is◌, starts_with, is_empty, runs, join, Bool, true, false, not, ◌||◌, ◌&&◌,
  Option, none, some, List, [], ◌∷◌, ◌++◌, keep, some_of, lookup, insert, if◌then◌else◌, ◌==◌,
}
use banking_ai_platform.Core.Errors.{Result, ok, err, other}

abbrev pub Bytes : Type 0
Bytes = List ℕ

abbrev pub is_name_char : Char → Bool
is_name_char c = if code c == b'/' then false else true

-- The parts of a path, without the empty ones and the dots.
unfoldable pub parts : String → List String
unfolding runs
parts path = keep (λ part. not (part is ".")) (runs is_name_char path)

abbrev pub last_or : String → List String → String
last_or default [] = default
last_or default (x ∷ xs) = last_or x xs

-- `Path(filename).name or "file"`
unfoldable pub safe_name : String → String
unfolding parts
safe_name filename =
    let name = last_or "" (parts filename) in if is_empty name then "file" else name

-- `content_key`, from the digest of the data
unfoldable pub content_key : String → String → String
unfolding safe_name
content_key digest filename = digest <> "/" <> safe_name filename

-- Without its last part.
abbrev pub parent : List String → List String
parent [] = []
parent (x ∷ xs) = elim xs [ [] ↦ [] | _ ∷ _ ↦ x ∷ parent xs ]

abbrev pub enter : List String → String → List String
enter at part = if part is ".." then parent at else at ++ (part ∷ [])

unfoldable pub walk : List String → List String → List String
walk at [] = at
walk at (part ∷ rest) = walk (enter at part) rest

abbrev pub begins_with : List String → List String → Bool
begins_with [] path = true
begins_with (x ∷ xs) [] = false
begins_with (x ∷ xs) (y ∷ ys) = (x is y) && begins_with xs ys

-- `(root / key).resolve()`; a key with a slash in front is a path of its own.
unfoldable pub resolve : List String → String → List String
unfolding walk parts
resolve root key = walk (if starts_with "/" key then [] else root) (parts key)

-- `LocalFileStorage._path`, where the root has no dots.
unfoldable pub path_of : List String → String → Result (List String)
unfolding resolve
path_of root key =
    let path = resolve root key in
    if begins_with root path then ok path else err (other "ValueError" "Illegal storage key.")

-- The absolute path as a text.
unfoldable pub render : List String → String
unfolding join
render path = "/" <> join "/" path

abbrev pub Files : Type 0
Files = List (String × Bytes)

unfoldable pub is_directory : List String → List String → Files → Bool
unfolding render
is_directory root path files =
    begins_with path root || some_of (λ file. starts_with (render path <> "/") file.0) files

abbrev pub is_file : String → Files → Bool
is_file path files = elim (lookup path files) [ none ↦ false | some _ ↦ true ]

-- Does a file stand where a directory on the way to the path has to be?
unfoldable pub is_blocked : String → Files → Bool
is_blocked path files = some_of (λ file. starts_with (file.0 <> "/") path) files

module _ (os_text : String → String → String) (root : List String) where
  -- `mkdir` of the parent and `write_bytes`
  unfoldable pub write_file : List String → Bytes → Files → Result Files
  unfolding is_directory is_blocked render insert lookup
  write_file path bytes files =
      let name = render path in
      if is_blocked name files
      then (if is_file (render (parent path)) files
          then err (other "FileExistsError" (os_text "FileExistsError" name))
          else err (other "NotADirectoryError" (os_text "NotADirectoryError" name)))
      else if is_directory root path files
      then err (other "IsADirectoryError" (os_text "IsADirectoryError" name))
      else ok (insert name bytes files)

  abbrev pub put_at : Result (List String) → Bytes → Files → Result Files
  put_at (ok path) bytes files = write_file path bytes files
  put_at (err e) bytes files = err e

  -- `LocalFileStorage.put`; it returns the key that it is given.
  unfoldable pub put : String → Bytes → Files → Result Files
  unfolding path_of write_file
  put key bytes files = put_at (path_of root key) bytes files

  abbrev pub read_file : List String → Files → Result Bytes
  read_file path files = elim (lookup (render path) files) [
    | some bytes ↦ ok bytes
    | none ↦
        if is_directory root path files
        then err (other "IsADirectoryError" (os_text "IsADirectoryError" (render path)))
        else err (other "FileNotFoundError" (os_text "FileNotFoundError" (render path)))
  ]

  abbrev pub read_at : Result (List String) → Files → Result Bytes
  read_at (ok path) files = read_file path files
  read_at (err e) files = err e

  -- `LocalFileStorage.get`
  unfoldable pub get : String → Files → Result Bytes
  unfolding path_of render is_directory lookup
  get key files = read_at (path_of root key) files

  abbrev pub exists_at : Result (List String) → Files → Result Bool
  exists_at (ok path) files = ok (is_file (render path) files || is_directory root path files)
  exists_at (err e) files = err e

  -- `LocalFileStorage.exists`
  unfoldable pub exists : String → Files → Result Bool
  unfolding path_of render is_directory lookup
  exists key files = exists_at (path_of root key) files
