-- ===== src/Api/Versions.antt =====
-- api/versions.go: the versions that a service could be put back on.
pub mod Pinned
use hostd.Base.{
  ℕ, zero, suc, Bool, true, false, not, ◌&&◌, ◌||◌, ◌==◌, Option, none, some, List, [], ◌∷◌, Text,
  codes, beq, ltb, leb, text_le, length, any, all, drop, if◌then◌else◌, is_some, get_or, sort,
}
use hostd.Strings.{has_prefix, trim_prefix, is_empty}
use hostd.Service.{Service}
use hostd.Docker.Calls.{ImageSummary}
use hostd.Api.Images.{repository_of, stamped, marked_repository}

pub record ServiceVersion : Type 0 where
  pub digest : Text
  pub ref : Text
  pub tags : List Text
  pub bytes : ℕ
  pub created : ℕ
  pub running : Bool
  pub declared : Bool

pub record ServiceVersions : Type 0 where
  pub service : Text
  pub image : Text
  pub repository : Text
  pub versions : List ServiceVersion

abbrev pub digest_algorithm : Text
digest_algorithm = codes "sha256:"

abbrev pub short_digest_length : ℕ
short_digest_length = 12

-- `strings.ContainsRune("0123456789abcdef", r)`
unfoldable pub is_hex : ℕ → Bool
is_hex c = (leb 48 c && leb c 57) || (leb 97 c && leb c 102)

unfoldable pub is_digest : Text → Bool
is_digest reference =
    if has_prefix reference digest_algorithm
    then true
    else if ltb (length reference) short_digest_length
    then false
    else all is_hex reference

unfoldable pub bare_digest : Text → Text
bare_digest reference = trim_prefix reference digest_algorithm

-- The first tag that is a stamp.
unfoldable pub managed_tag : List Text → Option Text
managed_tag [] = none
managed_tag (tag ∷ tags) =
    let rest = managed_tag tags in if is_some (stamped tag) then some tag else rest

unfoldable pub ref_for : ImageSummary → Text
ref_for image = get_or image.digest (managed_tag image.tags)

unfoldable pub names_image : Text → ImageSummary → Bool
names_image declared image =
    if is_empty declared
    then false
    else if any (λ tag. beq tag declared) image.tags
    then true
    else if not (is_digest declared)
    then false
    else has_prefix (bare_digest image.digest) (bare_digest declared)

unfoldable pub in_repository : ImageSummary → Text → Bool
in_repository image repository =
    if is_empty repository
    then false
    else any (λ tag. beq (repository_of tag) repository) image.tags

abbrev pub first_repository : List Text → Text
first_repository [] = []
first_repository (tag ∷ tags) = repository_of tag

unfoldable pub repository_for : Text → List ImageSummary → Text
repository_for declared [] = if is_digest declared then [] else repository_of declared
repository_for declared (image ∷ held) =
    let rest = repository_for declared held in
    if not (names_image declared image)
    then rest
    else get_or (first_repository image.tags) (marked_repository image.tags)

-- A digest of what runs, or none.
unfoldable pub is_running : Text → ImageSummary → Bool
is_running running image = not (is_empty running) && beq image.digest running

-- Whether an image has a row.
unfoldable pub is_shown : Text → Text → Text → ImageSummary → Bool
is_shown declared repository running image =
    in_repository image repository || is_running running image || names_image declared image

unfoldable pub version_of : Text → Text → ImageSummary → ServiceVersion
version_of declared running image = record {
  digest = image.digest;
  ref = ref_for image;
  tags = image.tags;
  bytes = image.bytes;
  created = image.created;
  running = is_running running image;
  declared = names_image declared image;
}

-- The loop over the images.
unfoldable pub rows_for : Text → Text → Text → List ImageSummary → List ServiceVersion
rows_for declared repository running [] = []
rows_for declared repository running (image ∷ held) =
    let rest = rows_for declared repository running held in
    if not (is_shown declared repository running image)
    then rest
    else version_of declared running image ∷ rest

-- Newest first, then by digest.
abbrev pub version_le : ServiceVersion → ServiceVersion → Bool
version_le a b =
    if a.created == b.created then text_le a.digest b.digest else ltb b.created a.created

unfoldable pub versions_of : Service → List ImageSummary → Text → ServiceVersions
versions_of svc held running =
    let repository = repository_for svc.image held in
    record {
      service = svc.name;
      image = svc.image;
      repository = repository;
      versions = sort version_le (rows_for svc.image repository running held);
    }
