-- ===== src/Tests/Requests.antt =====
-- The theorems on requests, each at one request.
use hostd.Base.{
  List, All, Map, ◌≡◌, ◌⊎◌, refl, true, false, none, some, [], ◌∷◌, codes, arith, beq, lookup,
  if◌then◌else◌,
}
use hostd.State.{check}
use hostd.Supervisor.Commands.{stop}
use hostd.Api.{Request, Daemon, mutate, apply_request}
use hostd.Api.Guard.{Verdict, Moves, apply_request-Verdict, mutate-Moves}
use hostd.Docker.Calls.{ImageSummary}
use hostd.Api.Images.{Holder, used_by_container, images_to_prune}
use hostd.Api.Files.{Volume, UploadFaults, content, land}
use hostd.Api.Files.Landed.{land-lookup}
use hostd.Api.Images.Safe.{IsDisposable, images_to_prune-IsDisposable}
use hostd.Tests.{machine, host, web, world}

abbrev pub daemon : Daemon machine
daemon = record { store = record { generation = 3; seq = 9; recent = [] }; world = world; now = 5 }

abbrev pub request : Request
request = record {
  operation = codes "apply";
  on_behalf_of = [];
  expect_generation = 3;
  allow_destructive = false;
}

apply_request-Verdict_example :
    Verdict host request
      (web ∷ [])
      daemon
      (apply_request host request (codes "root") (web ∷ []) false daemon).1
      (apply_request host request (codes "root") (web ∷ []) false daemon).0.code
apply_request-Verdict_example =
    apply_request-Verdict host request (codes "root") (web ∷ []) false daemon

mutate-Moves_example :
    Moves daemon
      (stop (codes "old") daemon.world).0
      (mutate request (codes "root") (codes "old") (stop (codes "old")) daemon)
    × ((check daemon.store request.expect_generation ≡ none)
        ⊎ ((mutate request (codes "root") (codes "old") (stop (codes "old")) daemon).1.world
            ≡ daemon.world))
mutate-Moves_example =
    mutate-Moves request (codes "root") (codes "old") (stop (codes "old")) daemon (omega arith)

-- Two versions of one repository, of which a container holds the older.
abbrev images : List ImageSummary
images =
    record { digest = codes "d1"; tags = codes "app:hostd-1" ∷ []; bytes = 5; created = 1 }
    ∷ record { digest = codes "d2"; tags = codes "app:hostd-2" ∷ []; bytes = 6; created = 2 }
    ∷ []

abbrev holders : Map Holder
holders = (codes "d1", used_by_container) ∷ []

images_to_prune-IsDisposable_example :
    All (IsDisposable holders) (images_to_prune images holders 0).0
images_to_prune-IsDisposable_example = images_to_prune-IsDisposable images holders 0

abbrev version_image : ImageSummary
version_image = record {
  digest = codes "sha256:0123456789abcdef";
  tags = codes "shop:latest" ∷ codes "shop:hostd-20240101" ∷ [];
  bytes = 5;
  created = 7;
}

abbrev volume : Volume
volume = (codes "a", content (codes "old")) ∷ []

abbrev cut_upload : UploadFaults
cut_upload = record {
  create = false;
  receive = true;
  received = codes "ne";
  sync = false;
  close = false;
  rename = false;
}

land-lookup_example :
    (((land cut_upload (codes "a") (codes "new") volume).0 ≡ true)
      × (lookup (codes "a") (land cut_upload (codes "a") (codes "new") volume).1 ≡ (
          if beq (codes "a") (codes "a")
          then some (content (codes "new"))
          else lookup (codes "a") volume)))
    ⊎ (((land cut_upload (codes "a") (codes "new") volume).0 ≡ false)
        × (lookup (codes "a") (land cut_upload (codes "a") (codes "new") volume).1
            ≡ lookup (codes "a") volume))
unfolding beq
land-lookup_example = land-lookup cut_upload (codes "a") (codes "new") (codes "a") volume refl
