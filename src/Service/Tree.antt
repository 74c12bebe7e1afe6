-- ===== src/Service/Tree.antt =====
-- service/tree.go, and service/service.go's `Parse`, `ParseFile` and `LoadDir`: declarations read
-- from a directory.
--
-- What the file system answers is data: a listing with the contents of its files. SHA-256 in
-- hexadecimal digits and the printing of a number are parameters.
pub mod Artifacts
pub mod Whole
use hostd.Base.{
  ℕ, ◌+◌, ◌*◌, Bool, true, false, not, ◌&&◌, ◌||◌, Option, none, some, List, [], ◌∷◌, ◌++◌, Text,
  codes, beq, ltb, text_le, length, keep_if, if◌then◌else◌, and_then, sort,
}
use hostd.Strings.{has_prefix, has_suffix, trim_suffix, is_empty}
use hostd.Filoconf.{Codec, decode}
use hostd.Service.{Service, empty_service, extension}
use hostd.Service.Normalize.{Result, ok, err, normalize}

abbrev pub init_file : Text
init_file = codes "init.filo"

abbrev pub inventory_file : Text
inventory_file = codes "inventory.filo"

abbrev pub artifact_suffix : Text
artifact_suffix = codes ".d"

abbrev pub max_artifact_bytes : ℕ
max_artifact_bytes = 256 * 1024

pub record Artifact : Type 0 where
  pub name : Text
  pub content : Text

pub record Declaration : Type 0 where
  pub service : Service
  pub source : Text
  pub artifacts : List Artifact

-- An entry below a service's directory; the content is none where it cannot be read.
pub record File : Type 0 where
  pub name : Text
  pub is_dir : Bool
  pub content : Option Text

-- `os.ReadDir`: there is nothing, it fails otherwise, or the entries.
pub data Listing (A : Type 0) : Type 0 where
  absent : Listing A
  denied : Listing A
  entries : List A → Listing A

-- An entry of the directory itself; a directory has a listing of its own.
pub record TreeEntry : Type 0 where
  pub name : Text
  pub is_dir : Bool
  pub content : Option Text
  pub inside : Listing File

-- What was loaded, and the names of the entries with a problem.
pub record Loaded (A : Type 0) : Type 0 where
  pub loaded : List A
  pub problems : List Text

abbrev pub nothing_loaded : {A : Type 0} → Loaded A
nothing_loaded = record { loaded = []; problems = [] }

-- One more, or one more problem.
abbrev pub and_loaded : {A : Type 0} → Text → Option A → Loaded A → Loaded A
and_loaded name none l = record l { problems = name ∷ l.problems }
and_loaded name (some a) l = record l { loaded = a ∷ l.loaded }

abbrev pub artifact_le : Artifact → Artifact → Bool
artifact_le a b = text_le a.name b.name

-- Skipped by `readArtifacts`.
unfoldable pub is_no_artifact : File → Bool
is_no_artifact e = e.is_dir || beq e.name init_file || has_prefix e.name (codes ".")

-- The loop of `readArtifacts`, from a total on.
unfoldable pub add_artifacts : ℕ → List File → Option (List Artifact)
add_artifacts total [] = some []
add_artifacts total (e ∷ es) =
    let skipped = add_artifacts total es in
    if is_no_artifact e
    then skipped
    else and_then e.content λ content.
      let rest = add_artifacts (total + length content) es in
      if ltb max_artifact_bytes (total + length content)
      then none
      else and_then rest λ more. some (record { name = e.name; content = content } ∷ more)

abbrev pub read_artifacts : Listing File → Option (List Artifact)
read_artifacts absent = none
read_artifacts denied = none
read_artifacts (entries es) = and_then (add_artifacts 0 es) λ all. some (sort artifact_le all)

-- `os.ReadFile` of a name in a directory.
unfoldable pub content_of : Text → List File → Option Text
content_of name [] = none
content_of name (e ∷ es) = if beq e.name name then e.content else content_of name es

abbrev pub files_of : Listing File → List File
files_of absent = []
files_of denied = []
files_of (entries es) = es

-- `os.ReadDir` of a name in the directory; a file is no directory.
unfoldable pub listing_of : Text → List TreeEntry → Listing File
listing_of name [] = absent
listing_of name (e ∷ es) =
    if beq e.name name then (if e.is_dir then e.inside else denied) else listing_of name es

abbrev pub service_le : Service → Service → Bool
service_le a b = text_le a.name b.name

abbrev pub declaration_le : Declaration → Declaration → Bool
declaration_le a b = text_le a.service.name b.service.name

abbrev pub accepted : Result Service → Option Service
accepted (ok s) = some s
accepted (err e) = none

abbrev pub file_le : File → File → Bool
file_le a b = text_le a.name b.name

module _ (sha256 : Text → Text) (decimal : ℕ → Text) where
  -- What is hashed of the files, by name.
  unfoldable pub hashed : List File → Option Text
  hashed [] = some []
  hashed (e ∷ es) = and_then e.content λ content.
      and_then (hashed es)
        λ rest. some (e.name ++ 10 ∷ decimal (length content) ++ 10 ∷ content ++ rest)

  abbrev pub hash_files : List File → Option Text
  hash_files [] = some []
  hash_files (e ∷ es) = and_then (hashed (sort file_le (e ∷ es))) λ text. some (sha256 text)

  -- `hashArtifacts`
  abbrev pub hash_artifacts : Listing File → Option Text
  hash_artifacts absent = some []
  hash_artifacts denied = none
  hash_artifacts (entries es) = hash_files (keep_if (λ (e : File). not e.is_dir) es)

-- Skipped by `LoadTree`: the inventory, dot files, and files of another extension.
unfoldable pub is_skipped : TreeEntry → Bool
is_skipped e =
    beq e.name inventory_file
    || has_prefix e.name (codes ".")
    || (not e.is_dir && not (has_suffix e.name extension))

-- Not read by `LoadDir`.
abbrev pub is_no_declaration : TreeEntry → Bool
is_no_declaration e = e.is_dir || not (has_suffix e.name extension)

module _ (is_ip : Text → Bool) (codec : Codec Service) where
  -- `Parse`
  unfoldable pub parse : Text → Option Service
  parse src = and_then (decode codec empty_service src) λ s. accepted (normalize is_ip s)

  -- `ParseFile`, of a file's name and content.
  unfoldable pub parse_file : Text → Option Text → Option Service
  parse_file base content = and_then content λ src.
      and_then (parse src)
        λ s. if not (beq s.name (trim_suffix base extension)) then none else some s

  -- `loadServiceFile`
  unfoldable pub load_service_file : TreeEntry → Option Declaration
  load_service_file e = and_then (parse_file e.name e.content) λ s.
      and_then e.content λ source. some (record { service = s; source = source; artifacts = [] })

  -- `loadServiceDir`
  unfoldable pub load_service_dir : TreeEntry → Option Declaration
  load_service_dir e = and_then (content_of init_file (files_of e.inside)) λ source.
      and_then (parse source) λ s.
        if not (beq s.name e.name)
        then none
        else and_then (read_artifacts e.inside)
            λ artifacts. some (record { service = s; source = source; artifacts = artifacts })

  unfoldable pub load_entry : TreeEntry → Option Declaration
  load_entry e = if e.is_dir then load_service_dir e else load_service_file e

  -- The loop of `LoadTree`.
  unfoldable pub load_entries : List TreeEntry → Loaded Declaration
  load_entries [] = nothing_loaded
  load_entries (e ∷ es) =
      let rest = load_entries es in
      if is_skipped e then rest else and_loaded e.name (load_entry e) rest

  -- `LoadTree` of what the directory holds; the error is that there are problems.
  unfoldable pub load_tree : List TreeEntry → Loaded Declaration
  load_tree es = let l = load_entries es in record l { loaded = sort declaration_le l.loaded }

  module _ (sha256 : Text → Text) (decimal : ℕ → Text) where
    -- One file of `LoadDir`, with the hash of its artifacts.
    unfoldable pub load_service : List TreeEntry → TreeEntry → Option Service
    load_service all e = and_then (parse_file e.name e.content) λ s.
        and_then (hash_artifacts sha256 decimal (listing_of (s.name ++ artifact_suffix) all))
          λ hash. some (record s { config_hash = hash })

    unfoldable pub load_services : List TreeEntry → List TreeEntry → Loaded Service
    load_services all [] = nothing_loaded
    load_services all (e ∷ es) =
        let rest = load_services all es in
        if is_no_declaration e then rest else and_loaded e.name (load_service all e) rest

    -- `LoadDir` of what the directory holds.
    unfoldable pub load_dir : List TreeEntry → Loaded Service
    load_dir es = let l = load_services es es in record l { loaded = sort service_le l.loaded }
