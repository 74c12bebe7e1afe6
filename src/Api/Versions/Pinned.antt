-- ===== src/Api/Versions/Pinned.antt =====
-- api/versions.go: a version's reference.
use hostd.Base.{
  if_true, if_false, ◌≡◌, refl, ap, inl, inr, true, false, none, some, List, [], ◌∷◌, arith, Text,
  beq, beq_refl, any, is_some, Bool-cases, Option-cases,
}
use hostd.Strings.{has_prefix, is_empty}
use hostd.Docker.Calls.{ImageSummary}
use hostd.Api.Images.{stamped}
use hostd.Api.Versions.{managed_tag, ref_for, names_image, is_digest, bare_digest, digest_algorithm}

has_prefix_refl : (s : Text) → has_prefix s s ≡ true
unfolding has_prefix
has_prefix_refl [] = refl
has_prefix_refl (c ∷ cs) = ground (arith, has_prefix_refl cs)

stamped-nil : stamped [] ≡ none
unfolding stamped
stamped-nil = refl

-- A stamp that was found is a tag of the image, and not empty.
managed_tag-any :
    (tags : List Text) (tag : Text)
    → managed_tag tags ≡ some tag
    → (any (λ t. beq t tag) tags ≡ true) × (is_empty tag ≡ false)
unfolding managed_tag
managed_tag-any [] tag e = absurd (ground (arith, e))
managed_tag-any (t ∷ tags) tag e = elim (Bool-cases (is_some (stamped t))) [
  | inl stamp ↦
      let whole : t ≡ tag = ground (arith, if_true _ _ _ (some tag) stamp e) in
      rw (← whole) (rw (beq_refl t) refl, not_empty t stamp)
  | inr plain ↦
      let (there, more) = managed_tag-any tags tag (if_false _ _ _ (some tag) plain e) in
      (ground (arith, there), more)
]
  where
    not_empty : (t : Text) → is_some (stamped t) ≡ true → is_empty t ≡ false
    not_empty [] h = absurd (ground (arith, ap (λ o. is_some o) stamped-nil, h))
    not_empty (c ∷ t) h = refl

not_empty_of_prefix : (s : Text) → has_prefix s digest_algorithm ≡ true → is_empty s ≡ false
unfolding has_prefix
not_empty_of_prefix [] h = absurd (ground (arith, h))
not_empty_of_prefix (c ∷ s) h = refl

is_digest_of_prefix : (s : Text) → has_prefix s digest_algorithm ≡ true → is_digest s ≡ true
unfolding is_digest
is_digest_of_prefix s h = rw h refl

names_image-digest :
    (image : ImageSummary)
    → has_prefix image.digest digest_algorithm ≡ true
    → names_image image.digest image ≡ true
unfolding names_image
names_image-digest image h =
    let some_text = not_empty_of_prefix image.digest h in
    let digest = is_digest_of_prefix image.digest h in
    let itself = has_prefix_refl (bare_digest image.digest) in
    elim (Bool-cases (any (λ tag. beq tag image.digest) image.tags)) [
      | inl tagged ↦ rw (some_text, tagged) refl
      | inr untagged ↦ rw (some_text, untagged, digest) itself
    ]

-- A reference that is a digest of the runtime names its image, and so does a stamp: written down in a
-- declaration, what is shown for a version is that version.
pub names_image-ref_for :
    (image : ImageSummary)
    → has_prefix image.digest digest_algorithm ≡ true
    → names_image (ref_for image) image ≡ true
unfolding names_image ref_for
names_image-ref_for image h = elim (Option-cases (managed_tag image.tags)) [
  | inl e ↦ rw e (names_image-digest image h)
  | inr (tag, e) ↦
      let (there, more) = managed_tag-any image.tags tag e in rw e (rw (more, there) refl)
]
