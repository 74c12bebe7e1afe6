-- ===== src/Api/Images/Safe.antt =====
-- What a prune never removes.
use mathlib.Core.Path.{subst}
use hostd.Base.{
  ℕ, ◌≡◌, refl, Bool, true, false, ◌||◌, Option, none, some, List, [], ◌∷◌, ◌++◌, Text, ltb, beq,
  beq_iff, Map, lookup, lookup-insert, get_or, All, All-append, All-sort, is_some, sort, Bool-cases,
  inl, inr,
}
use hostd.Docker.Calls.{ImageSummary}
use hostd.Api.Images.{
  ImageChange, Holder, image_held_by, marked_repository, newer, prune_line, prune_each,
  images_to_prune, add_image, lines_of,
}

-- The image is one of the repository that the daemon marked.
abbrev IsMarked : Text → ImageSummary → Type 0
IsMarked repo image = marked_repository image.tags ≡ some repo

-- The daemon marked the image, and nothing that a declaration or a container names holds it.
pub record IsDisposable (holders : Map Holder) (c : ImageChange) : Type 0 where
  pub marked : marked_repository c.tags ≡ some c.repository
  pub free : image_held_by c.digest c.tags holders ≡ none

neither : (a : Bool) (o : Option Holder) → (a || is_some o) ≡ false → o ≡ none
neither true o h = absurd (cc h)
neither false none h = refl
neither false (some x) h = absurd (cc h)

prune_line-IsDisposable :
    (holders : Map Holder) (repo : Text) (floor : ℕ) (images : List ImageSummary)
    → All (IsMarked repo) images
    → All (IsDisposable holders) (prune_line holders repo floor images).0
unfolding prune_line
prune_line-IsDisposable holders repo floor [] h = tt
prune_line-IsDisposable holders repo floor (image ∷ images) h =
    elim (Bool-cases (ltb 0 floor || is_some (image_held_by image.digest image.tags holders))) [
      | inl stays ↦ rw stays (prune_line-IsDisposable holders repo _ images h.1)
      | inr goes ↦ rw goes (
        record { marked = h.0; free = neither (ltb 0 floor) _ goes },
        prune_line-IsDisposable holders repo _ images h.1,
      )
    ]

abbrev line : Text → Map (List ImageSummary) → List ImageSummary
line repo lines = get_or [] (lookup repo lines)

IsMarked-add_image :
    (image : ImageSummary) (o : Option Text) (lines : Map (List ImageSummary))
    → marked_repository image.tags ≡ o
    → ((repo : Text) → All (IsMarked repo) (line repo lines))
    → (repo : Text) → All (IsMarked repo) (line repo (add_image image o lines))
unfolding add_image
IsMarked-add_image image none lines e h repo = h repo
IsMarked-add_image image (some own) lines e h repo = elim (Bool-cases (beq own repo)) [
  | inl same ↦
      rw (lookup-insert own repo (line own lines ++ image ∷ []) lines, same)
        (subst (λ n. All (IsMarked n) (line own lines ++ image ∷ [])) ((beq_iff own repo).0 same)
          (All-append (IsMarked own) (line own lines) (image ∷ []) (h own) (e, tt)))
  | inr other ↦ rw (lookup-insert own repo (line own lines ++ image ∷ []) lines, other) (h repo)
]

IsMarked-line :
    (images : List ImageSummary) (lines : Map (List ImageSummary))
    → ((repo : Text) → All (IsMarked repo) (line repo lines))
    → (repo : Text) → All (IsMarked repo) (line repo (lines_of images lines))
unfolding lines_of
IsMarked-line [] lines h repo = h repo
IsMarked-line (image ∷ images) lines h repo =
    IsMarked-line images (add_image image (marked_repository image.tags) lines)
      (IsMarked-add_image image (marked_repository image.tags) lines refl h) repo

prune_each-IsDisposable :
    (held : List ImageSummary) (holders : Map Holder) (keep : ℕ) (lines : Map (List ImageSummary))
    (repos : List Text)
    → ((repo : Text) → All (IsMarked repo) (line repo lines))
    → All (IsDisposable holders) (prune_each held holders keep lines repos).0
unfolding prune_each
prune_each-IsDisposable held holders keep lines [] h = tt
prune_each-IsDisposable held holders keep lines (repo ∷ repos) h =
    All-append (IsDisposable holders) _ _
      (prune_line-IsDisposable holders repo _ (sort newer (line repo lines))
        (All-sort newer (IsMarked repo) (line repo lines) (h repo)))
      (prune_each-IsDisposable held holders keep lines repos h)

-- Whatever number of versions is to be kept, an image that a prune removes is one that the daemon
-- marked, under the repository that the answer names, and no declaration and no container holds
-- it, neither by its digest nor by any of its tags.
pub images_to_prune-IsDisposable :
    (held : List ImageSummary) (holders : Map Holder) (keep : ℕ)
    → All (IsDisposable holders) (images_to_prune held holders keep).0
unfolding images_to_prune
images_to_prune-IsDisposable held holders keep =
    prune_each-IsDisposable held holders keep (lines_of held []) _
      (IsMarked-line held [] (λ repo. unfold lookup in tt))
