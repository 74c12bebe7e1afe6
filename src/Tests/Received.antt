-- ===== src/Tests/Received.antt =====
-- The theorems on declarations that arrive and go, each at one service.
use hostd.Base.{
  sort, ℕ, All, List, ◌≡◌, refl, some, none, true, false, [], ◌∷◌, Text, codes, lookup, get_or, beq,
}
use hostd.Filoconf.{Codec}
use hostd.Service.{Service}
use hostd.Service.Tree.{
  load_dir, load_services, load_service, parse_file, TreeEntry, absent, Declaration,
}
use hostd.Docker.Calls.{ImageSummary}
use hostd.Api.Declaration.{
  SentDeclaration, Directory, DirectoryFaults, put_service, send, write_declaration,
  plain_file_name,
}
use hostd.Strings.{has_suffix, has_prefix, trim_right_of, contains_byte}
use hostd.Api.Declaration.Writes.{IsReceived, put_service-IsReceived}
use hostd.Api.Declaration.Sent.{no_faults, held, write_declaration-send}
use hostd.Api.Declaration.Removal.{RemovalAnswers, remove_service, release_image}
use hostd.Api.Declaration.Removed.{
  HasLeft, IsOther, holds_stamped, release_image-removed, remove_service-HasLeft, IsOther,
}
use hostd.Tests.{web, old}
use hostd.Tests.Requests.{daemon, request}

-- A service with one file beside it.
abbrev site : Declaration
site = record {
  service = web;
  source = codes "site";
  artifacts = record { name = codes "Caddyfile"; content = codes "x" } ∷ [];
}

abbrev temporary : Text → Text
temporary name = codes "tmp"

abbrev before : Directory
before = record {
  files = (codes "web.filo", codes "old") ∷ (codes "db.filo", codes "db") ∷ [];
  artifacts = (codes "web.d", (codes "stale", codes "s") ∷ []) ∷ [];
}

write_declaration-send_example :
    ((write_declaration (λ b. some b) (no_faults temporary) (send (λ b. b) site) before).0 ≡ true)
    × (lookup
          (codes "web.filo")
          (write_declaration
            (λ b. some b)
            (no_faults temporary)
            (send (λ b. b) site)
            before).1.files
        ≡ some (codes "site"))
    × (lookup (codes "stale") (
          get_or [] (
            lookup
              (codes "web.d")
              (write_declaration
                (λ b. some b)
                (no_faults temporary)
                (send (λ b. b) site)
                before).1.artifacts))
        ≡ held (codes "stale") site.artifacts)
unfolding plain_file_name beq trim_right_of contains_byte
write_declaration-send_example =
    write_declaration-send (λ b. b) (λ b. some b) (λ b. refl) temporary site (codes "stale") before
      (refl, tt) (λ name. refl) refl

-- An engine for which a text is a service's name.
abbrev engine : Codec Service
engine = record {
  marshal = λ s. some s.name;
  unmarshal = λ s src. some (record web { name = src });
}

-- The write of the source cannot be renamed into place.
abbrev cut_off : DirectoryFaults
cut_off = record (no_faults temporary) {
  source = record {
    create = false;
    write = false;
    written = [];
    chmod = false;
    sync = false;
    close = false;
    rename = true;
  };
}

abbrev incoming : SentDeclaration
incoming = record { name = codes "web"; source = codes "web"; artifacts = [] }

put_service-IsReceived_example :
    IsReceived
      (λ b. some b)
      incoming
      (codes "web.filo")
      (codes "web.d")
      daemon
      before
      (put_service
        (λ b. some b)
        (λ s. false)
        engine
        cut_off
        request
        (codes "root")
        (some incoming)
        daemon
        before)
unfolding beq
put_service-IsReceived_example =
    put_service-IsReceived (λ b. some b) (λ s. false) engine cut_off request (codes "root") incoming
      (codes "web.filo") (codes "web.d") daemon before refl

abbrev stamped_image : List ImageSummary
stamped_image =
    record { digest = codes "d1"; tags = codes "app:hostd-1" ∷ []; bytes = 5; created = 1 } ∷ []

-- What is left in the services directory: a file that cannot be read.
abbrev left_over : List TreeEntry
left_over =
    record { name = codes "lost.filo"; is_dir = false; content = none; inside = absent } ∷ []

abbrev sum : Text → Text
sum text = codes "5"

abbrev no_digits : ℕ → Text
no_digits n = []

release_image-removed_example :
    (codes "app:hostd-1" ≡ codes "app:hostd-1")
    × (false ≡ false)
    × All (IsOther (λ s. false) engine sum no_digits left_over (codes "app:hostd-1")) left_over
    × ((held : List ImageSummary) × ((some stamped_image ≡ some held)
          × (holds_stamped (codes "app:hostd-1") held ≡ true)))
unfolding release_image beq has_prefix load_dir load_services load_service parse_file has_suffix
    sort
release_image-removed_example =
    release_image-removed (λ s. false) engine sum no_digits true left_over (some stamped_image)
      false (codes "app:hostd-1") (codes "app:hostd-1") refl

-- Nothing is refused.
abbrev answers : RemovalAnswers
answers = record {
  file_fails = false;
  left = none;
  has_runtime = true;
  entries = left_over;
  listed = some stamped_image;
  refuses = false;
}

remove_service-HasLeft_example :
    HasLeft
      (λ s. false)
      engine
      sum
      no_digits
      (codes "old")
      (codes "db.filo")
      (codes "web.d")
      daemon
      before
      (remove_service
        (λ s. false)
        engine
        sum
        no_digits
        answers
        request
        (codes "root")
        (codes "old")
        (some old)
        daemon
        before)
remove_service-HasLeft_example =
    remove_service-HasLeft (λ s. false) engine sum no_digits answers request (codes "root")
      (codes "old") (codes "db.filo") (codes "web.d") (some old) daemon before
