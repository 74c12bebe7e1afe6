-- ===== src/Base/Assoc.antt =====
-- Go's maps with string keys, as association lists with one entry for a key.
use mathlib.Core.Path.{◌≡◌, refl, ap, ◌∙◌}
use mathlib.Core.Option.{Option, none, some}
use mathlib.Core.List.{List, [], ◌∷◌}
use native.Mathlib.Omega.{arith}
use hostd.Base.Tests.{if◌then◌else◌}
use mathlib.Core.Bool.{false}
use hostd.Base.Bytes.{Text, beq, beq_iff, beq_refl}

abbrev pub Map {ℓ} : Type ℓ → Type ℓ
Map V = List (Text × V)

module _ {ℓ} {V : Type ℓ} where
  unfoldable pub lookup : Text → Map V → Option V
  lookup k [] = none
  lookup k ((j, v) ∷ m) = if beq j k then some v else lookup k m

  -- `m[k] = v`
  unfoldable pub insert : Text → V → Map V → Map V
  insert k v [] = (k, v) ∷ []
  insert k v ((j, w) ∷ m) = if beq j k then (k, v) ∷ m else (j, w) ∷ insert k v m

  -- `delete(m, k)`
  unfoldable pub delete : Text → Map V → Map V
  delete k [] = []
  delete k ((j, w) ∷ m) = if beq j k then delete k m else (j, w) ∷ delete k m

  unfoldable pub keys : Map V → List Text
  keys [] = []
  keys ((k, v) ∷ m) = k ∷ keys m

  pub lookup-insert :
      (k j : Text) (v : V) (m : Map V)
      → lookup j (insert k v m) ≡ (if beq k j then some v else lookup j m)
  unfolding lookup insert
  lookup-insert k j v [] = refl
  lookup-insert k j v ((i, w) ∷ m) =
      ground (arith, beq_iff k j, beq_iff i k, beq_iff i j, lookup-insert k j v m)

  pub lookup-delete :
      (k j : Text) (m : Map V) → lookup j (delete k m) ≡ (if beq k j then none else lookup j m)
  unfolding lookup delete
  lookup-delete k j [] = ground arith
  lookup-delete k j ((i, w) ∷ m) =
      ground (arith, beq_iff k j, beq_iff i k, beq_iff i j, lookup-delete k j m)

  -- `os.Rename`: what is under the first key is then under the second, where there is anything.
  abbrev pub renamed : Text → Map V → Option V → Map V
  renamed to m none = m
  renamed to m (some v) = insert to v m

  unfoldable pub rename : Text → Text → Map V → Map V
  unfolding lookup insert delete
  rename from to m = renamed to (delete from m) (lookup from m)

  pub lookup-rename :
      (from to key : Text) (v : V) (m : Map V)
      → lookup from m ≡ some v
      → lookup key (rename from to m)
        ≡ (if beq to key then some v else if beq from key then none else lookup key m)
  unfolding rename
  lookup-rename from to key v m there =
      ap (λ o. lookup key (renamed to (delete from m) o)) there
      ∙ (lookup-insert to key v (delete from m)
          ∙ ap (λ o. if beq to key then some v else o) (lookup-delete from key m))

  -- What is written beside a path and renamed onto it is there, and nothing else has changed.
  pub lookup-placed :
      (t path key : Text) (u v : V) (m : Map V)
      → beq t key ≡ false
      → lookup key (rename t path (insert t v (insert t u m)))
        ≡ (if beq path key then some v else lookup key m)
  lookup-placed t path key u v m apart =
      let there : lookup t (insert t v (insert t u m)) ≡ some v =
        lookup-insert t t v (insert t u m) ∙ (rw (beq_refl t) refl) in
      ground (
        arith,
        apart,
        lookup-rename t path key v (insert t v (insert t u m)) there,
        lookup-insert t key v (insert t u m),
        lookup-insert t key u m,
      )

  -- The same, with a removal of the name that it was written under.
  pub lookup-landed :
      (t path key : Text) (u v : V) (m : Map V)
      → beq t key ≡ false
      → lookup key (delete t (rename t path (insert t v (insert t u m))))
        ≡ (if beq path key then some v else lookup key m)
  lookup-landed t path key u v m apart = ground (
    arith,
    apart,
    lookup-delete t key (rename t path (insert t v (insert t u m))),
    lookup-placed t path key u v m apart,
  )

  -- What is written beside a path and taken away again has changed nothing else.
  pub lookup-beside :
      (t key : Text) (u v : V) (m : Map V)
      → beq t key ≡ false
      → lookup key (delete t (insert t v (insert t u m))) ≡ lookup key m
  lookup-beside t key u v m apart = ground (
    arith,
    apart,
    lookup-delete t key (insert t v (insert t u m)),
    lookup-insert t key v (insert t u m),
    lookup-insert t key u m,
  )
