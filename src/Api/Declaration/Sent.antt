-- ===== src/Api/Declaration/Sent.antt =====
-- api/declaration.go: what was sent is what this machine holds.
use hostd.Base.{
  any-sort, ◌≡◌, refl, ◌∙◌, inl, inr, Bool, true, false, not, ◌&&◌, Option, none, some, List, [],
  ◌∷◌, ◌++◌, map, arith, Text, codes, beq, beq_refl, text_le, All, Map, lookup, keys, sort, get_or,
  is_some, lookup-insert, lookup-delete, if◌then◌else◌,
}
use hostd.Service.{extension}
use hostd.Service.Tree.{Artifact, Declaration, artifact_suffix}
use hostd.Api.Declaration.{
  SentDeclaration, send_artifact, send, plain_file_name, WriteFaults, write_atomic, Directory,
  DirectoryFaults, remove_all, and_then_write, clear_stale, write_artifact, write_each, fill,
  write_artifacts, after_source, write_declaration,
}
use hostd.Api.Declaration.Writes.{write_atomic-lookup}
use hostd.Api.Declaration.Stale.{is_sent, any-keys, remove_stale-lookup}

-- What the artifacts hold under a name: of several, the last.
unfoldable pub held : Text → List Artifact → Option Text
held key [] = none
held key (a ∷ more) =
    let later = held key more in
    if is_some later then later else if beq a.name key then some a.content else none

-- No call fails.
abbrev pub no_write_faults : WriteFaults
no_write_faults = record {
  create = false;
  write = false;
  written = [];
  chmod = false;
  sync = false;
  close = false;
  rename = false;
}

abbrev pub no_faults : (Text → Text) → DirectoryFaults
no_faults temporary = record {
  make_services = false;
  source = no_write_faults;
  left = none;
  make_artifacts = false;
  artifact = λ name. no_write_faults;
  read_artifacts = false;
  remove = λ name. false;
  temporary = temporary;
}

write_atomic-whole :
    (t path content key : Text) (files : Map Text)
    → beq t key ≡ false
    → ((write_atomic no_write_faults t path content files).0 ≡ true)
      × (lookup key (write_atomic no_write_faults t path content files).1
          ≡ (if beq path key then some content else lookup key files))
write_atomic-whole t path content key files apart =
    elim (write_atomic-lookup no_write_faults t path content key files apart) [
      | inl h ↦ h
      | inr (lost, h) ↦ unfold write_atomic in absurd (ground (arith, lost))
    ]

and_then_write-done :
    {A : Type 0} (next : A → Bool × A) (o : Bool × A)
    → o.0 ≡ true
    → and_then_write next o ≡ next o.1
and_then_write-done next (true, a) h = refl
and_then_write-done next (false, a) h = absurd (ground (arith, h))

after_source-done :
    (decode : Text → Option Text) (f : DirectoryFaults) (incoming : SentDeclaration)
    (m : Map (Map Text)) (o : Bool × Map Text)
    → o.0 ≡ true
    → after_source decode f incoming m o ≡ after_source decode f incoming m (true, o.1)
after_source-done decode f incoming m (true, files) h = refl
after_source-done decode f incoming m (false, files) h = absurd (ground (arith, h))

-- A name under which a file can be sent.
abbrev pub is_sendable : Text → Bool
is_sendable name = plain_file_name name && not (beq name (codes "/"))

module _ (encode : Text → Text) (decode : Text → Option Text)
    (round : (b : Text) → decode (encode b) ≡ some b) (temporary : Text → Text) where
  write_artifact-sent :
      (a : Artifact) (files : Map Text)
      → is_sendable a.name ≡ true
      → write_artifact decode (no_faults temporary) (send_artifact encode a) files
        ≡ write_atomic no_write_faults (temporary a.name) a.name a.content files
  unfolding write_artifact
  write_artifact-sent a files good =
      let plain : plain_file_name a.name ≡ true = ground arith in
      let below : beq a.name (codes "/") ≡ false = ground arith in
      rw (plain, round a.content, below) refl

  write_each-lookup :
      (artifacts : List Artifact) (key : Text) (files : Map Text)
      → All (λ (a : Artifact). is_sendable a.name ≡ true) artifacts
      → ((name : Text) → beq (temporary name) key ≡ false)
      → let o =
          write_each decode (no_faults temporary) (map (send_artifact encode) artifacts) files in
        (o.0 ≡ true)
        × (lookup key o.1
            ≡ (if is_some (held key artifacts) then held key artifacts else lookup key files))
  unfolding write_each held
  write_each-lookup [] key files good fresh = (refl, refl)
  write_each-lookup (a ∷ more) key files good fresh =
      let written = write_atomic no_write_faults (temporary a.name) a.name a.content files in
      let (done, here) =
        write_atomic-whole (temporary a.name) a.name a.content key files (fresh a.name) in
      let (all, there) = write_each-lookup more key written.1 good.1 fresh in
      rw
        (
          write_artifact-sent a files good.0,
          and_then_write-done
              (write_each decode (no_faults temporary) (map (send_artifact encode) more)) written
              done,
        )
        (all, there ∙ ground (arith, here))

  only_sent :
      (h f l : Option Text) (s n : Bool)
      → s ≡ is_some h
      → n ≡ is_some l
      → l ≡ (if is_some h then h else f)
      → (if not s && n then none else l) ≡ h
  only_sent (some c) f l s n es en e = rw es e
  only_sent none f none s n es en e = rw (es, en) refl
  only_sent none f (some x) s n es en e = rw (es, en) refl

  is_sent-held :
      (key : Text) (artifacts : List Artifact)
      → is_sent key (map (send_artifact encode) artifacts) ≡ is_some (held key artifacts)
  unfolding held
  is_sent-held key [] = refl
  is_sent-held key (a ∷ more) = ground (arith, is_sent-held key more)

  fill-lookup :
      (artifacts : List Artifact) (key : Text) (files : Map Text)
      → All (λ (a : Artifact). is_sendable a.name ≡ true) artifacts
      → ((name : Text) → beq (temporary name) key ≡ false)
      → let o = fill decode (no_faults temporary) (map (send_artifact encode) artifacts) files in
        (o.0 ≡ true) × (lookup key o.1 ≡ held key artifacts)
  unfolding fill clear_stale
  fill-lookup artifacts key files good fresh =
      let sent = map (send_artifact encode) artifacts in
      let written = write_each decode (no_faults temporary) sent files in
      let (done, here) = write_each-lookup artifacts key files good fresh in
      let listed =
        any-sort text_le (λ name. beq name key) (keys written.1) ∙ any-keys key written.1 in
      let (cleared, left) =
        remove_stale-lookup (λ name. false) sent (sort text_le (keys written.1)) key written.1
          (λ name. refl) in
      rw (and_then_write-done (clear_stale (no_faults temporary) sent) written done) (
        cleared,
        left
            ∙ only_sent (held key artifacts) (lookup key files) _ _ _ (is_sent-held key artifacts)
                listed here,
      )

  write_artifacts-sent :
      (dir : Text) (artifacts : List Artifact) (key : Text) (m : Map (Map Text))
      → All (λ (a : Artifact). is_sendable a.name ≡ true) artifacts
      → ((name : Text) → beq (temporary name) key ≡ false)
      → let o =
          write_artifacts decode
            (no_faults temporary)
            dir
            (map (send_artifact encode) artifacts)
            m in
        (o.0 ≡ true) × (lookup key (get_or [] (lookup dir o.1)) ≡ held key artifacts)
  unfolding write_artifacts remove_all held
  write_artifacts-sent dir [] key m good fresh =
      (refl, rw (lookup-delete dir dir m, beq_refl dir) (unfold lookup in refl))
  write_artifacts-sent dir (a ∷ more) key m good fresh =
      let before = get_or [] (lookup dir m) in
      let (done, here) = fill-lookup (a ∷ more) key before good fresh in
      let files =
        fill decode (no_faults temporary) (map (send_artifact encode) (a ∷ more)) before in
      (done, rw (lookup-insert dir dir files.1 m, beq_refl dir) here)

  write_declaration-opened :
      (d : Declaration) (dir : Directory)
      → (write_atomic no_write_faults
          (temporary (d.service.name ++ extension))
          (d.service.name ++ extension)
          d.source
          dir.files).0
        ≡ true
      → write_declaration decode (no_faults temporary) (send encode d) dir
        ≡ after_source decode (no_faults temporary) (send encode d) dir.artifacts (
          true,
          (write_atomic no_write_faults
              (temporary (d.service.name ++ extension))
              (d.service.name ++ extension)
              d.source
              dir.files).1,
        )
  unfolding write_declaration send
  write_declaration-opened d dir done =
      let file = d.service.name ++ extension in
      after_source-done decode (no_faults temporary) (send encode d) dir.artifacts
        (write_atomic no_write_faults (temporary file) file d.source dir.files) done

  -- A declaration that is sent, where every call succeeds and its artifacts have plain names, is
  -- held as it was sent: the file is its source, and under every name that is not a temporary one
  -- the directory beside it has what the declaration's artifacts have under that name, and nothing
  -- where they have none, whatever was there before. Base64 decodes what it encoded.
  pub write_declaration-send :
      (d : Declaration) (key : Text) (dir : Directory)
      → All (λ (a : Artifact). is_sendable a.name ≡ true) d.artifacts
      → ((name : Text) → beq (temporary name) key ≡ false)
      → beq (temporary (d.service.name ++ extension)) (d.service.name ++ extension) ≡ false
      → let o = write_declaration decode (no_faults temporary) (send encode d) dir in
        (o.0 ≡ true)
        × (lookup (d.service.name ++ extension) o.1.files ≡ some d.source)
        × (lookup key (get_or [] (lookup (d.service.name ++ artifact_suffix) o.1.artifacts))
            ≡ held key d.artifacts)
  unfolding send
  write_declaration-send d key dir good fresh own =
      let file = d.service.name ++ extension in
      let (done, here) = write_atomic-whole (temporary file) file d.source file dir.files own in
      let (all, there) =
        write_artifacts-sent (d.service.name ++ artifact_suffix) d.artifacts key dir.artifacts good
          fresh in
      rw (write_declaration-opened d dir done) (all, here ∙ (rw (beq_refl file) refl), there)
