-- ===== src/Api/Declaration.antt =====
-- api/declaration.go: declarations that are received, and where this machine keeps them.
--
-- The services directory is a map of its files and a map of the directories beside them. What the
-- operating system refuses is an argument, and so are the names of temporary files and base64.
pub mod Writes
pub mod Stale
pub mod Sent
pub mod Removal
pub mod Removed
use hostd.Base.{
  Bool, true, false, not, ◌||◌, ◌==◌, Option, none, some, List, [], ◌∷◌, ◌++◌, Text, codes, beq,
  text_le, any, map, Map, lookup, insert, delete, rename, keys, get_or, sort, if◌then◌else◌,
}
use hostd.Strings.{trim_right_of, contains_byte, is_empty}
use hostd.Service.{Service, valid_name, extension}
use hostd.Service.Tree.{Artifact, Declaration, artifact_suffix, parse}
use hostd.Filoconf.{Codec}
use hostd.State.{Entry, empty_entry, result_ok, result_failed}
use hostd.Supervisor.{Runtime}
use hostd.Api.{Code, accepted, invalid, failed, Request, Response, Daemon, respond}

-- An artifact as it crosses the wire, its content in base64.
pub record SentArtifact : Type 0 where
  pub name : Text
  pub content : Text

-- A declaration as it crosses the wire.
pub record SentDeclaration : Type 0 where
  pub name : Text
  pub source : Text
  pub artifacts : List SentArtifact

module _ (encode : Text → Text) where
  abbrev pub send_artifact : Artifact → SentArtifact
  send_artifact a = record { name = a.name; content = encode a.content }

  -- `Send`
  unfoldable pub send : Declaration → SentDeclaration
  send d = record {
    name = d.service.name;
    source = d.source;
    artifacts = map send_artifact d.artifacts;
  }

-- What is behind the last slash.
unfoldable pub last_part : Text → Text
last_part [] = []
last_part (c ∷ cs) =
    let rest = last_part cs in if contains_byte 47 cs then rest else if c == 47 then cs else c ∷ cs

-- `filepath.Base`
unfoldable pub path_base : Text → Text
unfolding last_part
path_base name =
    let path = trim_right_of (λ c. c == 47) name in
    if is_empty name then codes "." else if is_empty path then codes "/" else last_part path

-- `plainFileName`
unfoldable pub plain_file_name : Text → Bool
unfolding path_base
plain_file_name name =
    if is_empty name || beq name (codes ".") || beq name (codes "..")
    then false
    else beq name (path_base name)

-- The calls of one write that fail; `written` is what came of the bytes when `write` does.
pub record WriteFaults : Type 0 where
  pub create : Bool
  pub write : Bool
  pub written : Text
  pub chmod : Bool
  pub sync : Bool
  pub close : Bool
  pub rename : Bool

-- `writeAtomic`, where the temporary file gets the name `temporary`. Whether it succeeded.
unfoldable pub write_atomic : WriteFaults → Text → Text → Text → Map Text → Bool × Map Text
write_atomic f temporary path content files =
    let created = insert temporary [] files in
    let written = insert temporary (if f.write then f.written else content) created in
    if f.create
    then (false, files)
    else if f.write || f.chmod || f.sync || f.close || f.rename
    then (false, delete temporary written)
    else (true, delete temporary (rename temporary path written))

-- The services directory: its files, and the directories of artifacts.
pub record Directory : Type 0 where
  pub files : Map Text
  pub artifacts : Map (Map Text)

-- The calls that fail while a declaration is written: `left` is what is left of the artifacts when
-- their removal fails. A temporary file gets a name from that of the file it is to become.
pub record DirectoryFaults : Type 0 where
  pub make_services : Bool
  pub source : WriteFaults
  pub left : Option (Map Text)
  pub make_artifacts : Bool
  pub artifact : Text → WriteFaults
  pub read_artifacts : Bool
  pub remove : Text → Bool
  pub temporary : Text → Text

-- `os.RemoveAll`
unfoldable pub remove_all : Option (Map Text) → Text → Map (Map Text) → Bool × Map (Map Text)
remove_all none dir m = (true, delete dir m)
remove_all (some left) dir m = (false, insert dir left m)

-- What follows a step, if it succeeded.
abbrev pub and_then_write : {A : Type 0} → (A → Bool × A) → Bool × A → Bool × A
and_then_write next (true, files) = next files
and_then_write next (false, files) = (false, files)

-- One entry of the artifacts' directory: whether it was sent, and whether its removal fails.
abbrev pub drop_entry : Bool → Bool → Text → Map Text → Bool × Map Text
drop_entry true fails name files = (true, files)
drop_entry false true name files = (false, files)
drop_entry false false name files = (true, delete name files)

-- The loop that removes what was not sent.
unfoldable pub remove_stale :
    (Text → Bool) → List SentArtifact → List Text → Map Text → Bool × Map Text
remove_stale fails sent [] files = (true, files)
remove_stale fails sent (name ∷ names) files =
    and_then_write (remove_stale fails sent names)
      (drop_entry (any (λ (a : SentArtifact). beq a.name name) sent) (fails name) name files)

unfoldable pub clear_stale : DirectoryFaults → List SentArtifact → Map Text → Bool × Map Text
unfolding remove_stale
clear_stale f sent files =
    if f.read_artifacts
    then (false, files)
    else remove_stale f.remove sent (sort text_le (keys files)) files

abbrev pub op_service_put : Text
op_service_put = codes "service.put"

abbrev pub put_entry : Request → Text → Text → Entry
put_entry req actor name = record empty_entry {
  operation = op_service_put;
  target = name;
  actor = actor;
  on_behalf_of = req.on_behalf_of;
}

module _ (decode : Text → Option Text) where
  -- The write of one artifact; the name "/" is that of the directory, onto which no file is renamed.
  abbrev pub write_decoded : DirectoryFaults → Text → Option Text → Map Text → Bool × Map Text
  write_decoded f name none files = (false, files)
  write_decoded f name (some content) files =
      if beq name (codes "/")
      then (false, files)
      else write_atomic (f.artifact name) (f.temporary name) name content files

  unfoldable pub write_artifact : DirectoryFaults → SentArtifact → Map Text → Bool × Map Text
  unfolding plain_file_name write_atomic
  write_artifact f a files =
      if not (plain_file_name a.name)
      then (false, files)
      else write_decoded f a.name (decode a.content) files

  -- The loop that writes what was sent.
  unfoldable pub write_each : DirectoryFaults → List SentArtifact → Map Text → Bool × Map Text
  unfolding write_artifact
  write_each f [] files = (true, files)
  write_each f (a ∷ more) files = and_then_write (write_each f more) (write_artifact f a files)

  -- The directory of artifacts, when some are sent.
  unfoldable pub fill : DirectoryFaults → List SentArtifact → Map Text → Bool × Map Text
  unfolding write_each clear_stale
  fill f sent files = and_then_write (clear_stale f sent) (write_each f sent files)

  unfoldable pub write_artifacts :
      DirectoryFaults → Text → List SentArtifact → Map (Map Text) → Bool × Map (Map Text)
  unfolding fill remove_all
  write_artifacts f dir [] m = remove_all f.left dir m
  write_artifacts f dir (a ∷ more) m =
      let (done, files) = fill f (a ∷ more) (get_or [] (lookup dir m)) in
      if f.make_artifacts then (false, m) else (done, insert dir files m)

  abbrev pub after_source :
      DirectoryFaults → SentDeclaration → Map (Map Text) → Bool × Map Text → Bool × Directory
  after_source f incoming m (false, files) = (false, record { files = files; artifacts = m })
  after_source f incoming m (true, files) =
      let (done, m') = write_artifacts f (incoming.name ++ artifact_suffix) incoming.artifacts m in
      (done, record { files = files; artifacts = m' })

  -- `writeDeclaration`
  unfoldable pub write_declaration :
      DirectoryFaults → SentDeclaration → Directory → Bool × Directory
  unfolding write_atomic write_artifacts
  write_declaration f incoming d =
      let file = incoming.name ++ extension in
      if f.make_services
      then (false, d)
      else after_source f incoming d.artifacts
          (write_atomic f.source (f.temporary file) file incoming.source d.files)

  module _ {r : Runtime} where
    abbrev pub answer_put : Entry → Bool × Directory → Daemon r → Response × Daemon r × Directory
    answer_put e (true, dir) d =
        let (resp, d') = respond accepted (record e { result = result_ok }) false d in
        (resp, d', dir)
    answer_put e (false, dir) d =
        let (resp, d') = respond failed (record e { result = result_failed }) false d in
        (resp, d', dir)

    -- Nothing is recorded; the response is stamped with the generation.
    abbrev pub invalid_put : Daemon r → Directory → Response × Daemon r × Directory
    invalid_put d dir = (record { code = invalid; generation = d.store.generation }, d, dir)

    abbrev pub put_parsed :
        DirectoryFaults
        → Request
        → Text
        → SentDeclaration
        → Option Service
        → Daemon r
        → Directory
        → Response × Daemon r × Directory
    put_parsed f req actor incoming none d dir = invalid_put d dir
    put_parsed f req actor incoming (some parsed) d dir =
        if not (beq parsed.name incoming.name) || not (valid_name incoming.name)
        then invalid_put d dir
        else answer_put (put_entry req actor incoming.name) (write_declaration f incoming dir) d

    -- `putService`, of what the body decodes to.
    unfoldable pub put_service :
        (Text → Bool)
        → Codec Service
        → DirectoryFaults
        → Request
        → Text
        → Option SentDeclaration
        → Daemon r
        → Directory
        → Response × Daemon r × Directory
    unfolding write_declaration
    put_service is_ip codec f req actor none d dir = invalid_put d dir
    put_service is_ip codec f req actor (some incoming) d dir =
        put_parsed f req actor incoming (parse is_ip codec incoming.source) d dir
