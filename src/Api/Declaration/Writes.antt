-- ===== src/Api/Declaration/Writes.antt =====
-- api/declaration.go: what a write leaves on disk.
use hostd.Base.{
  lookup-landed, lookup-beside, ◌≡◌, refl, sym, ◌∙◌, ◌⊎◌, inl, inr, Bool, true, false, not, ◌||◌,
  Option, none, some, List, [], ◌∷◌, ◌++◌, arith, Text, beq, beq_iff, Map, lookup, get_or,
  lookup-insert, lookup-delete, Bool-cases, if◌then◌else◌,
}
use hostd.Filoconf.{Codec}
use hostd.Service.{Service, valid_name, extension}
use hostd.Service.Tree.{artifact_suffix, parse}
use hostd.State.{Entry, result_ok, result_failed, record_locked}
use hostd.State.Generation.{moved_unchanged}
use hostd.Supervisor.{Runtime}
use hostd.Api.{Request, Response, Daemon, respond}
use hostd.Api.Declaration.{
  put_entry, answer_put, put_parsed, put_service, SentArtifact, SentDeclaration, WriteFaults,
  write_atomic, Directory, DirectoryFaults, remove_all, fill, write_artifacts, after_source,
  write_declaration,
}

-- A file that is written is there whole, or as it was; no other file changes but the temporary
-- one, which is gone.
pub write_atomic-lookup :
    (f : WriteFaults) (t path content key : Text) (files : Map Text)
    → beq t key ≡ false
    → (((write_atomic f t path content files).0 ≡ true)
        × (lookup key (write_atomic f t path content files).1
            ≡ (if beq path key then some content else lookup key files)))
      ⊎ (((write_atomic f t path content files).0 ≡ false)
          × (lookup key (write_atomic f t path content files).1 ≡ lookup key files))
unfolding write_atomic
write_atomic-lookup f t path content key files apart =
    let bytes = if f.write then f.written else content in
    elim (Bool-cases f.create) [
      | inl refused ↦ rw refused (inr (refl, refl))
      | inr created ↦ elim (Bool-cases (f.write || f.chmod || f.sync || f.close || f.rename)) [
        | inl lost ↦ rw (created, lost) (inr (refl, lookup-beside t key [] bytes files apart))
        | inr whole ↦
            let fine : f.write ≡ false = ground (arith, whole) in
            rw (created, whole)
              (inl (refl, lookup-landed t path key [] bytes files apart ∙ (rw fine refl)))
      ]
    ]

pub remove_all-lookup :
    (left : Option (Map Text)) (dir key : Text) (m : Map (Map Text))
    → (lookup key (remove_all left dir m).1 ≡ lookup key m) ⊎ (key ≡ dir)
unfolding remove_all
remove_all-lookup none dir key m = elim (Bool-cases (beq dir key)) [
  | inl own ↦ inr (sym ((beq_iff dir key).0 own))
  | inr other ↦ inl (ground (arith, other, lookup-delete dir key m))
]
remove_all-lookup (some left) dir key m = elim (Bool-cases (beq dir key)) [
  | inl own ↦ inr (sym ((beq_iff dir key).0 own))
  | inr other ↦ inl (ground (arith, other, lookup-insert dir key left m))
]

module _ (decode : Text → Option Text) where
  write_artifacts-lookup :
      (f : DirectoryFaults) (dir key : Text) (sent : List SentArtifact) (m : Map (Map Text))
      → (lookup key (write_artifacts decode f dir sent m).1 ≡ lookup key m) ⊎ (key ≡ dir)
  unfolding write_artifacts
  write_artifacts-lookup f dir key [] m = remove_all-lookup f.left dir key m
  write_artifacts-lookup f dir key (a ∷ more) m = elim (Bool-cases f.make_artifacts) [
    | inl refused ↦ rw refused (inl refl)
    | inr made ↦ elim (Bool-cases (beq dir key)) [
      | inl own ↦ inr (sym ((beq_iff dir key).0 own))
      | inr other ↦
          let files = (fill decode f (a ∷ more) (get_or [] (lookup dir m))).1 in
          rw made (inl (lookup-insert dir key files m ∙ (rw other refl)))
    ]
  ]

  -- Of the files and the directories of artifacts, what is under the two keys is as it was, or the
  -- key is that of the declaration, and then the file is its source.
  abbrev pub IsConfined : SentDeclaration → Text → Text → Directory → Directory → Type 0
  IsConfined incoming key other before after =
      ((lookup key after.files ≡ lookup key before.files)
        ⊎ ((key ≡ incoming.name ++ extension) × (lookup key after.files ≡ some incoming.source)))
      × ((lookup other after.artifacts ≡ lookup other before.artifacts)
          ⊎ (other ≡ incoming.name ++ artifact_suffix))

  after_source-IsConfined :
      (f : DirectoryFaults) (incoming : SentDeclaration) (key other : Text) (before : Directory)
      (o : Bool × Map Text)
      → (lookup key o.1 ≡ lookup key before.files)
        ⊎ ((key ≡ incoming.name ++ extension) × (lookup key o.1 ≡ some incoming.source))
      → IsConfined incoming key other before (after_source decode f incoming before.artifacts o).1
  after_source-IsConfined f incoming key other before (false, files) h = (h, inl refl)
  after_source-IsConfined f incoming key other before (true, files) h = (
    h,
    write_artifacts-lookup f (incoming.name ++ artifact_suffix) other incoming.artifacts
        before.artifacts,
  )

  write_declaration-IsConfined :
      (f : DirectoryFaults) (incoming : SentDeclaration) (key other : Text) (before : Directory)
      → beq (f.temporary (incoming.name ++ extension)) key ≡ false
      → IsConfined incoming key other before (write_declaration decode f incoming before).1
  unfolding write_declaration
  write_declaration-IsConfined f incoming key other before fresh =
      let file = incoming.name ++ extension in
      elim (Bool-cases f.make_services) [
        | inl refused ↦ rw refused (inl refl, inl refl)
        | inr made ↦ rw made (
            after_source-IsConfined f incoming key other before
              (write_atomic f.source (f.temporary file) file incoming.source before.files)
              (old_or_new file key incoming.source before.files
                (write_atomic f.source (f.temporary file) file incoming.source before.files)
                (write_atomic-lookup f.source (f.temporary file) file incoming.source key
                  before.files fresh)))
      ]
    where
      old_or_new :
          (file key source : Text) (files : Map Text) (o : Bool × Map Text)
          → ((o.0 ≡ true)
              × (lookup key o.1 ≡ (if beq file key then some source else lookup key files)))
            ⊎ ((o.0 ≡ false) × (lookup key o.1 ≡ lookup key files))
          → (lookup key o.1 ≡ lookup key files) ⊎ ((key ≡ file) × (lookup key o.1 ≡ some source))
      old_or_new file key source files o (inr (lost, h)) = inl h
      old_or_new file key source files o (inl (done, h)) = elim (Bool-cases (beq file key)) [
        | inl own ↦ inr (sym ((beq_iff file key).0 own), ground (arith, own, h))
        | inr other ↦ inl (ground (arith, other, h))
      ]

  module _ {r : Runtime} where
    -- The generation, in the answer and in the store, and what runs are as they were, and the
    -- directory is confined to the declaration.
    abbrev pub IsReceived :
        SentDeclaration
        → Text
        → Text
        → Daemon r
        → Directory
        → Response × Daemon r × Directory
        → Type 0
    IsReceived incoming key other d dir o =
        (o.0.generation ≡ d.store.generation)
        × (o.1.store.generation ≡ d.store.generation)
        × (o.1.world ≡ d.world)
        × ((o.2 ≡ dir) ⊎ (valid_name incoming.name ≡ true))
        × IsConfined incoming key other dir o.2

    answer_put-IsReceived :
        (e : Entry) (incoming : SentDeclaration) (key other : Text) (d : Daemon r) (dir : Directory)
        (o : Bool × Directory)
        → valid_name incoming.name ≡ true
        → IsConfined incoming key other dir o.1
        → IsReceived incoming key other d dir (answer_put decode e o d)
    unfolding respond record_locked
    answer_put-IsReceived e incoming key other d dir (true, dir') ok kept =
        (moved_unchanged d.store result_ok, moved_unchanged d.store result_ok, refl, inr ok, kept)
    answer_put-IsReceived e incoming key other d dir (false, dir') ok kept = (
      moved_unchanged d.store result_failed,
      moved_unchanged d.store result_failed,
      refl,
      inr ok,
      kept,
    )

    put_parsed-IsReceived :
        (f : DirectoryFaults) (req : Request) (actor : Text) (incoming : SentDeclaration)
        (parsed : Option Service) (key other : Text) (d : Daemon r) (dir : Directory)
        → beq (f.temporary (incoming.name ++ extension)) key ≡ false
        → IsReceived incoming key other d dir (put_parsed decode f req actor incoming parsed d dir)
    put_parsed-IsReceived f req actor incoming none key other d dir fresh =
        (refl, refl, refl, inl refl, (inl refl, inl refl))
    put_parsed-IsReceived f req actor incoming (some parsed) key other d dir fresh =
        elim (Bool-cases (not (beq parsed.name incoming.name) || not (valid_name incoming.name))) [
          | inl refused ↦ rw refused (refl, refl, refl, inl refl, (inl refl, inl refl))
          | inr allowed ↦ rw allowed (
              answer_put-IsReceived (put_entry req actor incoming.name) incoming key other d dir
                (write_declaration decode f incoming dir) (ground arith)
                (write_declaration-IsConfined f incoming key other dir fresh))
        ]

    -- Whatever call fails, a declaration that is received changes neither the generation nor what
    -- runs; a name that is no service name changes nothing on disk; and any other file, but for the
    -- temporary one, and any other service's artifacts are as they were, while the declaration's own
    -- file is the old one or all of the new.
    pub put_service-IsReceived :
        (is_ip : Text → Bool) (codec : Codec Service) (f : DirectoryFaults) (req : Request)
        (actor : Text) (incoming : SentDeclaration) (key other : Text) (d : Daemon r)
        (dir : Directory)
        → beq (f.temporary (incoming.name ++ extension)) key ≡ false
        → IsReceived incoming key other d dir
            (put_service decode is_ip codec f req actor (some incoming) d dir)
    unfolding put_service
    put_service-IsReceived is_ip codec f req actor incoming key other d dir fresh =
        put_parsed-IsReceived f req actor incoming (parse is_ip codec incoming.source) key other d
          dir fresh
