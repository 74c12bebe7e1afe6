-- ===== src/Api/Images.antt =====
-- api/server.go: which images a prune removes.
--
-- A creation time is a number, and so are an image's bytes.
pub mod Safe
use hostd.Base.{
  ℕ, zero, suc, ◌+◌, Bool, true, false, not, ◌&&◌, ◌||◌, ◌==◌, Option, none, some, List, [], ◌∷◌,
  ◌++◌, Text, codes, beq, ltb, text_le, if◌then◌else◌, Map, lookup, insert, keys, get_or, is_some,
  sort,
}
use hostd.Strings.{has_prefix, contains_byte}
use hostd.Docker.Calls.{ImageSummary}

-- Why an image is held.
pub data Holder : Type 0 where
  used_by_declared used_by_container : Holder

pub record ImageChange : Type 0 where
  pub digest : Text
  pub repository : Text
  pub tags : List Text
  pub bytes : ℕ

-- What is before and after the last colon.
unfoldable pub cut_last : Text → Option (Text × Text)
cut_last [] = none
cut_last (c ∷ cs) = elim (cut_last cs) [
  | some (before, after) ↦ some (c ∷ before, after)
  | none ↦ if c == b':' then some ([], cs) else none
]

-- `RepositoryOf`
unfoldable pub repository_of : Text → Text
unfolding cut_last
repository_of reference = elim (cut_last reference) [
  | none ↦ reference
  | some (before, after) ↦ if contains_byte b'/' after then reference else before
]

abbrev pub managed_tag_prefix : Text
managed_tag_prefix = codes "hostd-"

-- The repository of a tag that is a stamp.
unfoldable pub stamped : Text → Option Text
unfolding cut_last
stamped tag = elim (cut_last tag) [
  | none ↦ none
  | some (before, after) ↦ if has_prefix after managed_tag_prefix then some before else none
]

-- `markedRepository`, with `managedTag`: the first tag that is a stamp.
unfoldable pub marked_repository : List Text → Option Text
unfolding stamped
marked_repository [] = none
marked_repository (tag ∷ tags) = elim (stamped tag) [
  | some repo ↦ some repo
  | none ↦ marked_repository tags
]

unfoldable pub held_by_tag : List Text → Map Holder → Option Holder
held_by_tag [] holders = none
held_by_tag (tag ∷ tags) holders = elim (lookup tag holders) [
  | some by ↦ some by
  | none ↦ held_by_tag tags holders
]

-- `heldBy`, of the image's digest and tags.
unfoldable pub image_held_by : Text → List Text → Map Holder → Option Holder
unfolding held_by_tag
image_held_by digest tags holders = elim (lookup digest holders) [
  | some by ↦ some by
  | none ↦ held_by_tag tags holders
]

unfoldable pub named_by_declared : Map Holder → Map Bool → Map Bool
named_by_declared [] named = named
named_by_declared ((name, used_by_declared) ∷ holders) named =
    named_by_declared holders (insert (repository_of name) true named)
named_by_declared ((name, used_by_container) ∷ holders) named = named_by_declared holders named

unfoldable pub named_by_image : List ImageSummary → Map Holder → Map Bool → Map Bool
named_by_image [] holders named = named
named_by_image (image ∷ images) holders named = elim (marked_repository image.tags) [
  | none ↦ named_by_image images holders named
  | some repo ↦
      if is_some (image_held_by image.digest image.tags holders)
      then named_by_image images holders (insert repo true named)
      else named_by_image images holders named
]

-- `namedRepositories`
unfoldable pub named_repositories : List ImageSummary → Map Holder → Map Bool
unfolding named_by_declared named_by_image
named_repositories held holders = named_by_image held holders (named_by_declared holders [])

-- One image, behind the others of the repository that it is marked under.
unfoldable pub add_image :
    ImageSummary → Option Text → Map (List ImageSummary) → Map (List ImageSummary)
add_image image none lines = lines
add_image image (some repo) lines = insert repo (get_or [] (lookup repo lines) ++ image ∷ []) lines

-- `lines`: the marked images, by repository.
unfoldable pub lines_of : List ImageSummary → Map (List ImageSummary) → Map (List ImageSummary)
unfolding add_image
lines_of [] lines = lines
lines_of (image ∷ images) lines =
    lines_of images (add_image image (marked_repository image.tags) lines)

-- Newest first, then by digest.
abbrev pub newer : ImageSummary → ImageSummary → Bool
newer a b = if a.created == b.created then text_le a.digest b.digest else ltb b.created a.created

-- The loop over one repository's versions: what goes, and how many stay.
unfoldable pub prune_line : Map Holder → Text → ℕ → List ImageSummary → List ImageChange × ℕ
prune_line holders repo floor [] = ([], 0)
prune_line holders repo floor (image ∷ images) =
    let (remove, kept) = prune_line holders repo (pred floor) images in
    if ltb 0 floor || is_some (image_held_by image.digest image.tags holders)
    then (remove, kept + 1)
    else (
      record { digest = image.digest; repository = repo; tags = image.tags; bytes = image.bytes }
          ∷ remove,
      kept,
    )
  where
    pred : ℕ → ℕ
    pred zero = 0
    pred (suc n) = n

unfoldable pub prune_each :
    List ImageSummary → Map Holder → ℕ → Map (List ImageSummary) → List Text → List ImageChange × ℕ
unfolding named_repositories prune_line
prune_each held holders keep lines [] = ([], 0)
prune_each held holders keep lines (repo ∷ repos) =
    let floor = if get_or false (lookup repo (named_repositories held holders)) then keep else 0 in
    let versions = sort newer (get_or [] (lookup repo lines)) in
    let (remove, kept) = prune_line holders repo floor versions in
    let (later, kept_later) = prune_each held holders keep lines repos in
    (remove ++ later, kept + kept_later)

-- `imagesToPrune`
unfoldable pub images_to_prune : List ImageSummary → Map Holder → ℕ → List ImageChange × ℕ
unfolding lines_of prune_each
images_to_prune held holders keep =
    let lines = lines_of held [] in prune_each held holders keep lines (sort text_le (keys lines))
