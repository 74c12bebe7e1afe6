-- ===== src/Api/Declaration/Removal.antt =====
-- api/declaration.go: the removal of a service, and of its image.
--
-- What the runtime and the operating system answer is an argument, and so are the entries of the
-- services directory that `LoadDir` reads once the file is gone.
use hostd.Base.{
  ℕ, Bool, true, false, not, Option, none, some, List, [], ◌∷◌, ◌++◌, Text, codes, beq, any, Map,
  delete, is_some, if◌then◌else◌,
}
use hostd.Strings.{is_empty}
use hostd.Service.{Service, valid_name, extension}
use hostd.Filoconf.{Codec}
use hostd.Service.Tree.{TreeEntry, load_dir, artifact_suffix}
use hostd.State.{Entry, empty_entry, result_ok, result_failed}
use hostd.Supervisor.{Runtime}
use hostd.Supervisor.Act.{Outcome, ok, err}
use hostd.Supervisor.Commands.{remove}
use hostd.Docker.Calls.{ImageSummary}
use hostd.Api.{
  Code, accepted, invalid, failed, not_known, Request, Response, Daemon, respond, is_unknown,
}
use hostd.Api.Images.{marked_repository}
use hostd.Api.Declaration.{Directory, remove_all}

-- What became of an image.
pub data Released : Type 0 where
  none_declared kept_no_runtime kept_declared kept_unlisted kept_unstamped kept_refused : Released
  removed : Text → Released

-- `ourImage`
unfoldable pub our_image : List ImageSummary → Text → Bool
unfolding marked_repository
our_image [] image = false
our_image (candidate ∷ more) image =
    let rest = our_image more image in
    if any (λ tag. beq tag image) candidate.tags
    then is_some (marked_repository candidate.tags)
    else rest

-- What the runtime lists, and whether it refuses to remove the image.
abbrev pub release_listed : Text → Option (List ImageSummary) → Bool → Released
release_listed image none refuses = kept_unlisted
release_listed image (some held) refuses =
    if not (our_image held image)
    then kept_unstamped
    else if refuses
    then kept_refused
    else removed image

-- `releaseImage`: `es` is the services directory, of which `LoadDir`'s error is passed over, and
-- `listed` what `Images` answers.
module _ (is_ip : Text → Bool) (codec : Codec Service) (sha256 : Text → Text)
    (decimal : ℕ → Text) where
  unfoldable pub release_image :
      Bool → List TreeEntry → Option (List ImageSummary) → Bool → Text → Released
  unfolding our_image
  release_image has_runtime es listed refuses image =
      if is_empty image
      then none_declared
      else if not has_runtime
      then kept_no_runtime
      else if any (λ (other : Service). beq other.image image)
          (load_dir is_ip codec sha256 decimal es).loaded
      then kept_declared
      else release_listed image listed refuses

-- What a removal meets: the calls on the directory, where a file that is missing is no failure, and
-- what the release is told.
pub record RemovalAnswers : Type 0 where
  pub file_fails : Bool
  pub left : Option (Map Text)
  pub has_runtime : Bool
  pub entries : List TreeEntry
  pub listed : Option (List ImageSummary)
  pub refuses : Bool

abbrev pub op_service_remove : Text
op_service_remove = codes "service.remove"

-- The answer, what became of the image, the daemon and the directory.
abbrev pub Removal : Runtime → Type 0
Removal r = Response × Released × Daemon r × Directory

abbrev pub remove_entry : Request → Text → Text → Entry
remove_entry req actor name = record empty_entry {
  operation = op_service_remove;
  target = name;
  actor = actor;
  on_behalf_of = req.on_behalf_of;
}

abbrev pub image_of : Option Service → Text
image_of none = []
image_of (some declared) = declared.image

module _ {r : Runtime} where
  -- A failure that is answered and not recorded.
  abbrev pub unrecorded : Code → Daemon r → Directory → Removal r
  unrecorded code d dir =
      (record { code = code; generation = d.store.generation }, none_declared, d, dir)

module _ {r : Runtime} (is_ip : Text → Bool) (codec : Codec Service) (sha256 : Text → Text)
    (decimal : ℕ → Text) where
  -- After the artifacts.
  abbrev pub remove_released :
      RemovalAnswers → Entry → Text → Daemon r → Map Text → Bool × Map (Map Text) → Removal r
  remove_released x e image d files (false, m) =
      unrecorded failed d (record { files = files; artifacts = m })
  remove_released x e image d files (true, m) =
      let (resp, d') = respond accepted (record e { result = result_ok }) true d in
      (
        resp,
        release_image is_ip codec sha256 decimal x.has_runtime x.entries x.listed x.refuses image,
        d',
        record { files = files; artifacts = m },
      )

  -- After the supervisor.
  abbrev pub remove_stopped :
      RemovalAnswers → Entry → Text → Text → Outcome Bool → Daemon r → Directory → Removal r
  remove_stopped x e name image (err cause) d dir =
      let code = if is_unknown cause then not_known else failed in
      let (resp, d') = respond code (record e { result = result_failed }) false d in
      (resp, none_declared, d', dir)
  remove_stopped x e name image (ok changed) d dir =
      if x.file_fails
      then unrecorded failed d dir
      else remove_released x e image d (delete (name ++ extension) dir.files)
          (remove_all x.left (name ++ artifact_suffix) dir.artifacts)

  -- `removeService`, of a name: `declared` is what `ParseFile` gives for its file.
  unfoldable pub remove_service :
      RemovalAnswers → Request → Text → Text → Option Service → Daemon r → Directory → Removal r
  unfolding respond release_image remove_all
  remove_service x req actor name declared d dir =
      let (o, w) = remove name d.world in
      if not (valid_name name)
      then unrecorded invalid d dir
      else remove_stopped x (remove_entry req actor name) name (image_of declared) o
          (record d { world = w }) dir
