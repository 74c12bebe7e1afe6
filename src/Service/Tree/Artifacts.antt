-- ===== src/Service/Tree/Artifacts.antt =====
-- service/tree.go: what travels with a declaration is within the limit.
use hostd.Base.{
  ℕ, ◌+◌, ◌≡◌, ◌≤◌, refl, inl, inr, some, List, [], ◌∷◌, arith, ltb, length, and_then-some, if_true,
  if_false, sort, put_in_order, Bool-cases,
}
use hostd.Service.Tree.{
  Artifact, File, Listing, absent, denied, entries, artifact_le, is_no_artifact, add_artifacts,
  read_artifacts, max_artifact_bytes,
}

-- The bytes of what travels with a service.
abbrev pub artifact_bytes : List Artifact → ℕ
artifact_bytes [] = 0
artifact_bytes (a ∷ more) = length a.content + artifact_bytes more

artifact_bytes-put_in_order :
    (a : Artifact) (more : List Artifact)
    → artifact_bytes (put_in_order artifact_le a more) ≡ length a.content + artifact_bytes more
unfolding put_in_order
artifact_bytes-put_in_order a [] = refl
artifact_bytes-put_in_order a (b ∷ more) = ground (arith, artifact_bytes-put_in_order a more)

artifact_bytes-sort :
    (more : List Artifact) → artifact_bytes (sort artifact_le more) ≡ artifact_bytes more
unfolding sort
artifact_bytes-sort [] = refl
artifact_bytes-sort (a ∷ more) =
    omega (arith, artifact_bytes-put_in_order a (sort artifact_le more), artifact_bytes-sort more)

add_artifacts-le :
    (total : ℕ) (es : List File) (found : List Artifact)
    → total ≤ max_artifact_bytes
    → add_artifacts total es ≡ some found
    → total + artifact_bytes found ≤ max_artifact_bytes
unfolding add_artifacts
add_artifacts-le total [] found below e = ground (arith, below)
add_artifacts-le total (x ∷ es) found below e = elim (Bool-cases (is_no_artifact x)) [
  | inl h ↦ add_artifacts-le total es found below (if_true (is_no_artifact x) _ _ (some found) h e)
  | inr h ↦
      let (content, read, e₁) =
        and_then-some x.content _ found (if_false (is_no_artifact x) _ _ (some found) h e) in
      elim (Bool-cases (ltb max_artifact_bytes (total + length content))) [
        | inl over ↦ absurd (ground (arith, if_true _ _ _ (some found) over e₁))
        | inr fits ↦
            let (more, there, e₂) =
              and_then-some (add_artifacts (total + length content) es) _ found
                (if_false _ _ _ (some found) fits e₁) in
            let whole : record { name = x.name; content = content } ∷ more ≡ found =
              ground (arith, e₂) in
            rw (← whole) (
              omega (
                arith,
                add_artifacts-le (total + length content) es more (ground (arith, fits)) there,
              ))
      ]
]

pub read_artifacts-le :
    (l : Listing File) (found : List Artifact)
    → read_artifacts l ≡ some found
    → artifact_bytes found ≤ max_artifact_bytes
read_artifacts-le absent found e = absurd (ground (arith, e))
read_artifacts-le denied found e = absurd (ground (arith, e))
read_artifacts-le (entries es) found e =
    let (more, there, same) = and_then-some (add_artifacts 0 es) _ found e in
    let sorted : sort artifact_le more ≡ found = ground (arith, same) in
    rw (← sorted, artifact_bytes-sort more)
      (omega (arith, add_artifacts-le 0 es more (omega arith) there))
