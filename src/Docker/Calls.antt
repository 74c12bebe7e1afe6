-- ===== src/Docker/Calls.antt =====
-- docker/docker.go: the calls about containers, networks, volumes and images.
pub mod Answers
pub mod Ensured
use hostd.Base.{
  ℕ, ◌*◌, ◌/◌, Bool, true, false, not, Option, none, some, List, [], ◌∷◌, ◌++◌, Text, codes, beq,
  if◌then◌else◌, Map,
}
use hostd.Strings.{is_empty, trim_prefix}
use hostd.Logs.{contains}
use hostd.Supervisor.{Container}
use hostd.Supervisor.Schedule.{digits}
use hostd.Docker.{
  Json, text, object, field, Fields, end, get, post, delete_method, HttpRequest, Engine,
  RawContainer, RawListed, RawImage, CallError, unreachable, missing, reported, rejected,
  undecodable, Answer, got, failed, text_fields,
}
use hostd.Docker.Transport.{on_answer, decoded, forgive, plain, with_body, read_call, tell_call}

-- The word that the runtime has for what is there already stands in the error.
unfoldable pub already_exists : CallError → Bool
already_exists (unreachable why) = contains why (codes "already exists")
already_exists (missing detail) = contains detail (codes "already exists")
already_exists (reported detail) = contains detail (codes "already exists")
already_exists (rejected status detail) = contains detail (codes "already exists")
already_exists undecodable = false

abbrev pub name_field : Text → Fields → Json
name_field name rest = object (field (codes "Name") (text name) rest)

-- The name that the runtime gives first, without its slash.
abbrev pub first_name : List Text → Text
first_name [] = []
first_name (n ∷ ns) = trim_prefix n (codes "/")

-- One container of `List`.
unfoldable pub listed_of : RawListed → Container
listed_of raw = record {
  id = raw.id;
  name = first_name raw.names;
  image = raw.image;
  digest = raw.image_id;
  running = beq raw.state (codes "running");
  pid = 0;
  started = none;
  exit = 0;
  status = raw.state;
  restarts = 0;
  error = [];
  restart = [];
  labels = raw.labels;
}

unfoldable pub listed_each : List RawListed → List Container
unfolding listed_of
listed_each [] = []
listed_each (raw ∷ raws) = listed_of raw ∷ listed_each raws

-- The container of `Inspect`.
unfoldable pub inspected_of : (Text → Option ℕ) → RawContainer → Container
inspected_of parse_time raw = record {
  id = raw.id;
  name = trim_prefix raw.name (codes "/");
  image = raw.config_image;
  digest = raw.image;
  running = raw.running;
  pid = raw.pid;
  started = parse_time raw.started_at;
  exit = raw.exit_code;
  status = raw.status;
  restarts = raw.restart_count;
  error = raw.error;
  restart = raw.restart_policy;
  labels = [];
}

pub record ImageSummary : Type 0 where
  pub digest : Text
  pub tags : List Text
  pub bytes : ℕ
  pub created : ℕ

pub record ImageInfo : Type 0 where
  pub digest : Text
  pub arch : Text

pub record ServerInfo : Type 0 where
  pub version : Text
  pub arch : Text

-- The tags that name something.
unfoldable pub real_tags : List Text → List Text
real_tags [] = []
real_tags (t ∷ ts) = if beq t (codes "<none>:<none>") then real_tags ts else t ∷ real_tags ts

unfoldable pub summary_of : RawImage → ImageSummary
unfolding real_tags
summary_of raw = record {
  digest = raw.id;
  tags = real_tags raw.repo_tags;
  bytes = raw.size;
  created = raw.created;
}

unfoldable pub summaries : List RawImage → List ImageSummary
unfolding summary_of
summaries [] = []
summaries (raw ∷ raws) = summary_of raw ∷ summaries raws

-- What a container that was waited for ended with.
unfoldable pub exit_of : ℕ × Text → Answer ℕ
exit_of (code, said) = if is_empty said then got code else failed (reported said)

unfoldable pub mountpoint_of : Text → Text → Answer Text
mountpoint_of name said = if is_empty said then failed (reported name) else got said

module _ (k : Engine) where
  open k use {State, path_escape, quote}

  abbrev pub container_path : Text → Text → Text
  container_path id rest = codes "/containers/" ++ (path_escape id ++ rest)

  -- `Ping`
  unfoldable pub ping : State → Answer (Text × Text)
  ping s =
      on_answer (read_call k (plain get (codes "/version") []) s)
        (λ body. decoded (k.raw_version body))

  -- `UpdateRestart`
  unfoldable pub update_restart : Text → Text → State → Answer Text × State
  update_restart id policy = tell_call k (
      with_body (container_path id (codes "/update")) []
        (object (field (codes "RestartPolicy") (name_field policy end) end)))

  -- `Start`
  unfoldable pub start_container : Text → State → Answer Text × State
  start_container id = tell_call k (plain post (container_path id (codes "/start")) [])

  -- `Stop`; the grace is in nanoseconds.
  unfoldable pub stop_container : Text → ℕ → State → Answer Text × State
  unfolding forgive digits
  stop_container id grace s =
      let (answer, s') =
        tell_call k
          (plain post (container_path id (codes "/stop"))
            ((codes "t", digits 19 (grace / 1_000_000_000) []) ∷ []))
          s in
      (forgive answer, s')

  -- `Remove`
  unfoldable pub remove_container : Text → State → Answer Text × State
  unfolding forgive
  remove_container id s =
      let (answer, s') =
        tell_call k
          (plain delete_method (container_path id [])
            ((codes "force", codes "true") ∷ (codes "v", codes "false") ∷ []))
          s in
      (forgive answer, s')

  -- `Inspect`
  unfoldable pub inspect_container : Text → State → Answer Container
  unfolding inspected_of
  inspect_container id s =
      on_answer (read_call k (plain get (container_path id (codes "/json")) []) s) (λ body.
        on_answer (decoded (k.raw_container body)) (λ raw. got (inspected_of k.parse_time raw)))

  abbrev pub label_filter : Text → List (Text × Text)
  label_filter label =
      if is_empty label
      then []
      else (codes "filters", codes "{\"label\":[" ++ (quote label ++ codes "]}")) ∷ []

  -- `List`
  unfoldable pub list_containers : Text → State → Answer (List Container)
  unfolding listed_each
  list_containers label s =
      on_answer
        (read_call k
          (plain get (codes "/containers/json") ((codes "all", codes "true") ∷ label_filter label))
          s)
        (λ body. on_answer (decoded (k.raw_list body)) (λ raws. got (listed_each raws)))

  -- `Wait`
  unfoldable pub wait : Text → State → Answer ℕ × State
  unfolding exit_of
  wait id s =
      let (answer, s') = tell_call k (plain post (container_path id (codes "/wait")) []) s in
      (on_answer answer (λ body. on_answer (decoded (k.wait_result body)) exit_of), s')

  -- The second half of `EnsureNetwork`, after what a creation was answered.
  unfoldable pub agreed : Answer Text → Answer Text
  agreed (got body) = got body
  agreed (failed p) = if already_exists p then got [] else failed p

  abbrev pub network_path : Text → Text
  network_path name = codes "/networks/" ++ path_escape name

  unfoldable pub create_network : Text → State → Answer Text × State
  unfolding agreed already_exists
  create_network name s =
      let (answer, s') =
        tell_call k
          (with_body (codes "/networks/create") []
            (name_field name (field (codes "Driver") (text (codes "bridge")) end)))
          s in
      (agreed answer, s')

  -- Only what is missing is created.
  abbrev pub if_missing : (State → Answer Text × State) → Answer Text → State → Answer Text × State
  if_missing build (got body) s = (got body, s)
  if_missing build (failed (missing detail)) s = build s
  if_missing build (failed p) s = (failed p, s)

  -- `EnsureNetwork`
  unfoldable pub ensure_network : Text → State → Answer Text × State
  unfolding create_network
  ensure_network name s =
      if_missing (create_network name) (read_call k (plain get (network_path name) []) s) s

  abbrev pub volume_path : Text → Text
  volume_path name = codes "/volumes/" ++ path_escape name

  unfoldable pub create_volume : Text → Map Text → State → Answer Text × State
  create_volume name labels = tell_call k (
      with_body (codes "/volumes/create") []
        (name_field name (field (codes "Labels") (object (text_fields labels)) end)))

  -- `EnsureVolume`
  unfoldable pub ensure_volume : Text → Map Text → State → Answer Text × State
  unfolding create_volume
  ensure_volume name labels s =
      if_missing (create_volume name labels) (read_call k (plain get (volume_path name) []) s) s

  -- `VolumeMountpoint`
  unfoldable pub volume_mountpoint : Text → State → Answer Text
  unfolding mountpoint_of
  volume_mountpoint name s =
      on_answer (read_call k (plain get (volume_path name) []) s)
        (λ body. on_answer (decoded (k.mountpoint_field body)) (mountpoint_of name))

  -- `Image`
  unfoldable pub image : Text → State → Answer ImageInfo
  image name s =
      on_answer
        (read_call k (plain get (codes "/images/" ++ (path_escape name ++ codes "/json")) []) s)
        (λ body.
          on_answer (decoded (k.raw_image body))
            (λ raw. got (record { digest = raw.0; arch = raw.1 })))

  -- `ImageDigest`
  unfoldable pub image_digest : Text → State → Answer Text
  unfolding image
  image_digest name s = on_answer (image name s) (λ info. got info.digest)

  -- `Images`
  unfoldable pub images : State → Answer (List ImageSummary)
  unfolding summaries
  images s =
      on_answer (read_call k (plain get (codes "/images/json") []) s)
        (λ body. on_answer (decoded (k.raw_images body)) (λ raws. got (summaries raws)))

  -- `Tag`
  unfoldable pub tag : Text → Text → Text → State → Answer Text × State
  tag name repo mark = tell_call k (
      plain post (codes "/images/" ++ (path_escape name ++ codes "/tag"))
        ((codes "repo", repo) ∷ (codes "tag", mark) ∷ []))

  -- `RemoveImage`
  unfoldable pub remove_image : Text → State → Answer Text × State
  remove_image reference =
      tell_call k (plain delete_method (codes "/images/" ++ path_escape reference) [])

  -- `Server`
  unfoldable pub server : State → Answer ServerInfo
  server s = on_answer (read_call k (plain get (codes "/version") []) s) (λ body.
      on_answer (decoded (k.raw_version body))
        (λ raw. got (record { version = raw.0; arch = raw.1 })))

  -- `Arch`
  unfoldable pub arch : State → Answer Text
  unfolding server
  arch s = on_answer (server s) (λ info. got info.arch)
