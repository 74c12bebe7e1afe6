-- ===== src/Docker.antt =====
-- docker/docker.go: the container daemon, spoken to over its socket.
--
-- What is on the other end of the socket is not of the repository: it is the parameter `Engine`,
-- which answers a request or does not. A request that only reads leaves the daemon as it is. Go's
-- JSON and URL packages stand there too: a body is decoded by the field that `Engine` names after
-- it, with the fields of the Go struct.
pub mod Frames
pub mod Transport
pub mod Create
pub mod Calls
pub mod Pull
pub mod Attached
use hostd.Base.{ℕ, Bool, Option, List, [], ◌∷◌, Text, Map, ℤ}

-- What is sent as the body of a request.
mutual
  pub data Json : Type 0 where
    text : Text → Json
    number : ℕ → Json
    flag : Bool → Json
    items : Items → Json
    object : Fields → Json

  pub data Items : Type 0 where
    nil : Items
    cons : Json → Items → Items

  pub data Fields : Type 0 where
    end : Fields
    field : Text → Json → Fields → Fields

pub data Method : Type 0 where
  get post delete_method : Method

-- The path without the version of the API, a query as its keys and values.
pub record HttpRequest : Type 0 where
  pub method : Method
  pub path : Text
  pub query : List (Text × Text)
  pub body : Option Json

pub record Reply : Type 0 where
  pub status : ℕ
  pub body : Text

-- No answer comes, and why; or one does.
pub data Sent : Type 0 where
  lost : Text → Sent
  replied : Reply → Sent

-- The struct that `Inspect` decodes.
pub record RawContainer : Type 0 where
  pub id : Text
  pub name : Text
  pub image : Text
  pub config_image : Text
  pub status : Text
  pub running : Bool
  pub pid : ℕ
  pub exit_code : ℕ
  pub error : Text
  pub started_at : Text
  pub restart_count : ℕ
  pub restart_policy : Text

-- One element of what `List` decodes.
pub record RawListed : Type 0 where
  pub id : Text
  pub names : List Text
  pub image : Text
  pub image_id : Text
  pub state : Text
  pub labels : Map Text

-- One element of what `Images` decodes; the time is in seconds.
pub record RawImage : Type 0 where
  pub id : Text
  pub repo_tags : List Text
  pub size : ℕ
  pub created : ℕ

pub record Engine : Type 1 where
  pub State : Type 0
  pub ask : HttpRequest → State → Sent
  pub tell : HttpRequest → State → Sent × State
  pub path_escape : Text → Text
  pub quote : Text → Text
  pub parse_time : Text → Option ℕ
  pub message_field : Text → Option Text
  pub id_field : Text → Option Text
  pub mountpoint_field : Text → Option Text
  pub wait_result : Text → Option (ℕ × Text)
  pub raw_container : Text → Option RawContainer
  pub raw_list : Text → Option (List RawListed)
  pub raw_image : Text → Option (Text × Text)
  pub raw_images : Text → Option (List RawImage)
  pub raw_version : Text → Option (Text × Text)

-- Why a call fails: nothing answers, `ErrNotFound`, another status with what the daemon says of
-- it, an answer that cannot be decoded, or one that says itself that it is an error.
pub data CallError : Type 0 where
  unreachable missing reported : Text → CallError
  rejected : ℕ → Text → CallError
  undecodable : CallError

pub data Answer {ℓ} (A : Type ℓ) : Type ℓ where
  got : A → Answer A
  failed : CallError → Answer A

abbrev pub texts : List Text → Items
texts [] = nil
texts (t ∷ ts) = cons (text t) (texts ts)

abbrev pub text_fields : Map Text → Fields
text_fields [] = end
text_fields ((k, v) ∷ m) = field k (text v) (text_fields m)
