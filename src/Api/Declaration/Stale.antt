-- ===== src/Api/Declaration/Stale.antt =====
-- api/declaration.go: what the loop that removes what was not sent leaves.
use hostd.Base.{
  ◌≡◌, refl, ap, ◌∙◌, inl, inr, Bool, true, false, not, ◌&&◌, none, List, [], ◌∷◌, arith, Text, beq,
  beq_iff, any, Map, lookup, delete, keys, is_some, lookup-delete, Bool-cases, if◌then◌else◌,
}
use hostd.Api.Declaration.{SentArtifact, remove_stale}

pub any-keys :
    (key : Text) (files : Map Text)
    → any (λ name. beq name key) (keys files) ≡ is_some (lookup key files)
unfolding lookup keys
any-keys key [] = refl
any-keys key ((j, v) ∷ files) = ground (arith, any-keys key files)

-- Whether an artifact of the name is among those sent.
abbrev pub is_sent : Text → List SentArtifact → Bool
is_sent key sent = any (λ (a : SentArtifact). beq a.name key) sent

-- When no removal fails, what was not sent and is listed goes, and all else stays.
pub remove_stale-lookup :
    (fails : Text → Bool) (sent : List SentArtifact) (names : List Text) (key : Text)
    (files : Map Text)
    → ((name : Text) → fails name ≡ false)
    → ((remove_stale fails sent names files).0 ≡ true)
      × (lookup key (remove_stale fails sent names files).1 ≡ (
          if not (is_sent key sent) && any (λ name. beq name key) names
          then none
          else lookup key files))
unfolding remove_stale
remove_stale-lookup fails sent [] key files ok = (refl, ground arith)
remove_stale-lookup fails sent (name ∷ names) key files ok =
    let same : beq name key ≡ true → is_sent name sent ≡ is_sent key sent =
      (λ e. ap (λ n. is_sent n sent) ((beq_iff name key).0 e)) in
    rw (ok name) (elim (Bool-cases (is_sent name sent)) [
      | inl kept ↦
          let (done, here) = remove_stale-lookup fails sent names key files ok in
          rw kept (done, here ∙ ground (arith, same, kept))
      | inr gone ↦
          let (done, here) = remove_stale-lookup fails sent names key (delete name files) ok in
          rw gone (done, here ∙ ground (arith, same, gone, lookup-delete name key files))
    ])
