-- ===== src/Api/Files.antt =====
-- api/files.go: the files of a service's volumes.
--
-- A volume is a map from paths to what is there; what the operating system refuses is an argument,
-- and so is `path.Clean`. A response keeps its code and its generation.
pub mod Landed
pub mod Recorded
use hostd.Base.{
  ℕ, Bool, true, false, not, ◌&&◌, ◌||◌, ◌==◌, Option, none, some, List, [], ◌∷◌, ◌++◌, Text, codes,
  beq, any, Map, lookup, insert, delete, rename, and_then, if◌then◌else◌,
}
use hostd.Strings.{trim_right_of, cut, has_suffix, is_empty}
use hostd.Service.{Service, valid_name}
use hostd.Service.Address.{Mount, mounts}
use hostd.State.{Entry, empty_entry, result_ok, result_failed}
use hostd.Supervisor.{Runtime}
use hostd.Api.{Code, accepted, invalid, failed, Request, Response, Daemon, respond}

abbrev pub op_file_put : Text
op_file_put = codes "file.put"

abbrev pub op_file_delete : Text
op_file_delete = codes "file.delete"

-- What is at a path.
pub data Node : Type 0 where
  directory : Node
  content : Text → Node

abbrev pub Volume : Type 0
Volume = Map Node

unfoldable pub trim_left_slashes : Text → Text
trim_left_slashes [] = []
trim_left_slashes (c ∷ cs) = let rest = trim_left_slashes cs in if c == 47 then rest else c ∷ cs

-- `strings.Trim(s, "/")`
unfoldable pub trim_slashes : Text → Text
trim_slashes s = trim_left_slashes (trim_right_of (λ c. c == 47) s)

unfoldable pub named_sources : List Mount → List Text
named_sources [] = []
named_sources (m ∷ ms) = let rest = named_sources ms in if m.named then m.source ∷ rest else rest

-- `namedVolumes`
unfoldable pub named_volumes : Service → Option (List Text)
named_volumes declared = and_then (mounts declared) λ ms. some (named_sources ms)

-- `fileRoot`: the volume's name and the path inside it. `declared` is what `ParseFile` gave,
-- `opens` whether the volume's directory can be found and opened.
unfoldable pub file_root :
    (Text → Text) → Bool → Option Service → (Text → Bool) → Text → Option (Text × Text)
file_root clean has_runtime declared opens wire =
    let (volume, inside, found) = cut 47 (trim_slashes wire) in
    if not has_runtime
    then none
    else and_then declared λ s. and_then (named_volumes s) λ names.
      if not (any (λ name. beq name volume) names)
      then none
      else if not (opens volume)
      then none
      else some (volume, if is_empty inside then clean (codes ".") else clean inside)

-- The calls of an upload that fail; `received` is what came of the bytes when `receive` does.
pub record UploadFaults : Type 0 where
  pub create : Bool
  pub receive : Bool
  pub received : Text
  pub sync : Bool
  pub close : Bool
  pub rename : Bool

abbrev pub upload_suffix : Text
upload_suffix = codes ".hostd-upload"

-- An upload to a path: the bytes land beside it and are renamed. Whether it succeeded.
unfoldable pub land : UploadFaults → Text → Text → Volume → Bool × Volume
land f inside upload v =
    let temporary = inside ++ upload_suffix in
    let created = insert temporary (content []) v in
    let written = insert temporary (content (if f.receive then f.received else upload)) created in
    if f.create
    then (false, v)
    else if f.receive || f.sync || f.close || f.rename
    then (false, delete temporary written)
    else (true, rename temporary inside written)

-- The record of an operation on a file.
abbrev pub file_entry : Request → Text → Text → Text → Text → Entry
file_entry req operation service path actor = record empty_entry {
  operation = operation;
  target = service ++ codes ":" ++ path;
  actor = actor;
  on_behalf_of = req.on_behalf_of;
}

module _ {r : Runtime} where
  abbrev pub refuse_file : Entry → Code → Daemon r → Volume → Response × Daemon r × Volume
  refuse_file e code d v =
      let (resp, d') = respond code (record e { result = result_failed }) false d in (resp, d', v)

  abbrev pub answer_file : Entry → Bool × Volume → Daemon r → Response × Daemon r × Volume
  answer_file e (true, v) d =
      let (resp, d') = respond accepted (record e { result = result_ok }) false d in (resp, d', v)
  answer_file e (false, v) d = refuse_file e failed d v

  abbrev pub put_at :
      UploadFaults
      → Entry
      → Text
      → Text
      → Option (Text × Text)
      → Daemon r
      → Volume
      → Response × Daemon r × Volume
  put_at f e path upload none d v = refuse_file e failed d v
  put_at f e path upload (some (volume, inside)) d v =
      if beq inside (codes ".") || has_suffix path (codes "/")
      then refuse_file e invalid d v
      else answer_file e (land f inside upload v) d

  -- `putFile`, of a service's name and a path, where `fileRoot` gave `root`.
  unfoldable pub put_file :
      UploadFaults
      → Request
      → Text
      → Text
      → Text
      → Text
      → Option (Text × Text)
      → Daemon r
      → Volume
      → Response × Daemon r × Volume
  put_file f req actor service path upload root d v =
      let e = file_entry req op_file_put service path actor in
      if not (valid_name service)
      then refuse_file e invalid d v
      else put_at f e path upload root d v

  -- What `Lstat` finds, and the removal, which may fail.
  abbrev pub delete_found :
      Bool → Entry → Text → Option Node → Daemon r → Volume → Response × Daemon r × Volume
  delete_found fails e inside none d v = refuse_file e failed d v
  delete_found fails e inside (some directory) d v = refuse_file e invalid d v
  delete_found fails e inside (some (content text)) d v =
      if fails then refuse_file e failed d v else answer_file e (true, delete inside v) d

  abbrev pub delete_at :
      Bool → Entry → Option (Text × Text) → Daemon r → Volume → Response × Daemon r × Volume
  delete_at fails e none d v = refuse_file e failed d v
  delete_at fails e (some (volume, inside)) d v =
      if beq inside (codes ".")
      then refuse_file e invalid d v
      else delete_found fails e inside (lookup inside v) d v

  -- `deleteFile`
  unfoldable pub delete_file :
      Bool
      → Request
      → Text
      → Text
      → Text
      → Option (Text × Text)
      → Daemon r
      → Volume
      → Response × Daemon r × Volume
  delete_file fails req actor service path root d v =
      let e = file_entry req op_file_delete service path actor in
      if not (valid_name service) then refuse_file e invalid d v else delete_at fails e root d v
