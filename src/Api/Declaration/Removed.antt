-- ===== src/Api/Declaration/Removed.antt =====
-- api/declaration.go: what a removal takes away, and what it puts on record.
use hostd.Base.{
  sym, beq_iff, All, ℕ, any-sort, sort, get_or, ◌+◌, ◌%◌, ◌≡◌, ◌≢◌, refl, ◌∙◌, ◌⊎◌, inl, inr, Bool,
  true, false, not, ◌&&◌, Option, none, some, List, [], ◌∷◌, ◌++◌, Text, arith, beq, beq_refl, any,
  Map, delete, is_some, lookup, lookup-delete, Bool-cases, if◌then◌else◌,
}
use hostd.Strings.{is_empty}
use hostd.Service.{Service, empty_service, stop_grace, valid_name, extension}
use hostd.Filoconf.{Codec}
use hostd.Service.Tree.{
  TreeEntry, Loaded, and_loaded, is_no_declaration, load_service, load_services, load_dir,
  service_le, artifact_suffix,
}
use hostd.State.{Entry, u64, result_ok, result_failed, moved, record_locked}
use hostd.State.Generation.{moved_unchanged}
use hostd.Supervisor.{Runtime, World}
use hostd.Supervisor.Act.{
  Outcome, ok, err, ◌>>=◌, ◌>>◌, stop_if, pure, need_runtime, change, ignore, tell,
}
use hostd.Supervisor.Containers.{container_name, retire, retire_container}
use hostd.Supervisor.Commands.{remove, undeclare, is_known}
use hostd.Docker.Calls.{ImageSummary}
use hostd.Api.{accepted, Request, Daemon, respond, is_unknown}
use hostd.Api.Images.{marked_repository}
use hostd.Api.Declaration.{Directory, remove_all}
use hostd.Api.Declaration.Writes.{remove_all-lookup}
use hostd.Api.Declaration.Removal.{
  none_declared, kept_no_runtime, kept_declared, kept_unstamped, kept_refused, removed, our_image,
  release_listed, release_image, RemovalAnswers, Removal, remove_entry, remove_released,
  remove_stopped, image_of, remove_service,
}

-- Of a list of images: one has the tag, and a tag that is a stamp.
abbrev pub holds_stamped : Text → List ImageSummary → Bool
holds_stamped image =
    any (λ (c : ImageSummary).
      any (λ tag. beq tag image) c.tags && is_some (marked_repository c.tags))

our_image-holds_stamped :
    (held : List ImageSummary) (image : Text)
    → our_image held image ≡ true
    → holds_stamped image held ≡ true
unfolding our_image
our_image-holds_stamped [] image h = h
our_image-holds_stamped (c ∷ more) image h = elim (Bool-cases (any (λ tag. beq tag image) c.tags)) [
  | inl here ↦ ground (arith, here, h)
  | inr other ↦ ground (arith, other, h, our_image-holds_stamped more image)
]

-- What a test did not stop.
passed :
    {A : Type 0} (b : Bool) (x y z : A) → x ≢ z → (if b then x else y) ≡ z → (b ≡ false) × (y ≡ z)
passed true x y z n h = absurd (n h)
passed false x y z n h = (refl, h)

release_listed-removed :
    (image gone : Text) (listed : Option (List ImageSummary)) (refuses : Bool)
    → release_listed image listed refuses ≡ removed gone
    → (gone ≡ image)
      × ((held : List ImageSummary) × ((listed ≡ some held) × (holds_stamped image held ≡ true)))
release_listed-removed image gone none refuses h = cc
release_listed-removed image gone (some held) refuses h =
    let (ours, more) =
      passed (not (our_image held image)) kept_unstamped
        (if refuses then kept_refused else removed image) (removed gone) (λ e. cc) h in
    let (went, same) = passed refuses kept_refused (removed image) (removed gone) (λ e. cc) more in
    (cc, (held, (refl, our_image-holds_stamped held image (ground (arith, ours)))))

lookup-deleted :
    {V : Type 0} (own key : Text) (m : Map V)
    → (lookup key (delete own m) ≡ lookup key m) ⊎ (key ≡ own)
lookup-deleted own key m = elim (Bool-cases (beq own key)) [
  | inl same ↦ inr (sym ((beq_iff own key).0 same))
  | inr apart ↦ inl (lookup-delete own key m ∙ (rw apart refl))
]

module _ (is_ip : Text → Bool) (codec : Codec Service) (sha256 : Text → Text)
    (decimal : ℕ → Text) where
  -- An entry of the services directory does not name the image: it is no declaration, or it cannot
  -- be read, or it declares another.
  abbrev pub IsOther : List TreeEntry → Text → TreeEntry → Type 0
  IsOther all image e =
      (is_no_declaration e ≡ true)
      ⊎ (load_service is_ip codec sha256 decimal all e ≡ none)
      ⊎ ((s : Service) × (load_service is_ip codec sha256 decimal all e ≡ some s)
          × (beq s.image image ≡ false))

  and_loaded-IsOther :
      (name image : Text) (o : Option Service) (rest : Loaded Service)
      → any (λ (s : Service). beq s.image image) (and_loaded name o rest).loaded ≡ false
      → (any (λ (s : Service). beq s.image image) rest.loaded ≡ false)
        × ((o ≡ none) ⊎ ((s : Service) × (o ≡ some s) × (beq s.image image ≡ false)))
  and_loaded-IsOther name image none rest h = (h, inl refl)
  and_loaded-IsOther name image (some s) rest h =
      (ground (arith, h), inr (s, refl, ground (arith, h)))

  load_services-IsOther :
      (all es : List TreeEntry) (image : Text)
      → any
          (λ (s : Service). beq s.image image)
          (load_services is_ip codec sha256 decimal all es).loaded
        ≡ false
      → All (IsOther all image) es
  unfolding load_services
  load_services-IsOther all [] image h = tt
  load_services-IsOther all (e ∷ es) image h = elim (Bool-cases (is_no_declaration e)) [
    | inl skipped ↦ (inl skipped, load_services-IsOther all es image (rw skipped at h))
    | inr kept ↦
        let (later, here) =
          and_loaded-IsOther e.name image (load_service is_ip codec sha256 decimal all e)
            (load_services is_ip codec sha256 decimal all es) (rw kept at h) in
        (inr here, load_services-IsOther all es image later)
  ]

  -- An image that a release removes is the one that was declared; of the files that are left in the
  -- services directory, each that can be read declares another one; and the runtime listed, and so
  -- holds, an image of that name that has a stamp of hostd. A file that cannot be read keeps nothing.
  pub release_image-removed :
      (has_runtime : Bool) (es : List TreeEntry) (listed : Option (List ImageSummary))
      (refuses : Bool) (image gone : Text)
      → release_image is_ip codec sha256 decimal has_runtime es listed refuses image ≡ removed gone
      → (gone ≡ image)
        × (is_empty image ≡ false)
        × All (IsOther es image) es
        × ((held : List ImageSummary) × ((listed ≡ some held) × (holds_stamped image held ≡ true)))
  unfolding release_image load_dir
  release_image-removed has_runtime es listed refuses image gone h =
      let later = release_listed image listed refuses in
      let names : Service → Bool = λ (other : Service). beq other.image image in
      let found = (load_services is_ip codec sha256 decimal es es).loaded in
      let named = any names (sort service_le found) in
      let (some_image, h1) =
        passed (is_empty image) none_declared
          (if not has_runtime then kept_no_runtime else if named then kept_declared else later)
          (removed gone) (λ e. cc) h in
      let (running, h2) =
        passed (not has_runtime) kept_no_runtime (if named then kept_declared else later)
          (removed gone) (λ e. cc) h1 in
      let (free, h3) = passed named kept_declared later (removed gone) (λ e. cc) h2 in
      let (same, there) = release_listed-removed image gone listed refuses h3 in
      (
        same,
        some_image,
        load_services-IsOther es es image (sym (any-sort service_le names found) ∙ free),
        there,
      )

module _ {r : Runtime} where
  -- The service that a name stands for.
  abbrev pub service_of : Text → World r → Service
  service_of name w = get_or (record empty_service { name = name }) (lookup name w.declared)

  -- The name is declared no more, and the runtime was asked to stop its container, with the service's
  -- patience, and then to remove it.
  abbrev pub IsRetired : Text → World r → World r → Type 0
  IsRetired name w u =
      (u.declared ≡ delete name w.declared)
      × (u.machine
          ≡ (r.remove (container_name (service_of name w).name)
              (r.stop (container_name (service_of name w).name) (stop_grace (service_of name w))
                w.machine).1).1)

  remove-IsRetired :
      (name : Text) (w : World r) (changed : Bool)
      → (remove name w).0 ≡ ok changed
      → IsRetired name w (remove name w).1
  unfolding remove undeclare ◌>>=◌ ◌>>◌ stop_if pure need_runtime change retire retire_container
      ignore tell
  remove-IsRetired name w changed h = elim (Bool-cases (is_known name w)) [
    | inr unknown ↦ absurd (ground (arith, unknown, h))
    | inl known ↦ elim (Bool-cases w.has_runtime) [
      | inr without ↦ absurd (ground (arith, known, without, h))
      | inl there ↦ ground (arith, known, there)
    ]
  ]

module _ {r : Runtime} (is_ip : Text → Bool) (codec : Codec Service) (sha256 : Text → Text)
    (decimal : ℕ → Text) where
  -- What is true after a removal: it was accepted, and the service is retired, its file and its
  -- artifacts are gone and the generation has moved; or it was not, and the generation is what it
  -- was. What else the directory has, under any file's or directory's name, is as it was.
  abbrev pub HasLeft : Text → Text → Text → Daemon r → Directory → Removal r → Type 0
  HasLeft name key other d dir o =
      (((o.0.code ≡ accepted)
          × IsRetired name d.world o.2.world
          × (o.2.store.generation ≡ (d.store.generation + 1) % u64)
          × (o.0.generation ≡ o.2.store.generation)
          × (lookup (name ++ extension) o.3.files ≡ none)
          × (lookup (name ++ artifact_suffix) o.3.artifacts ≡ none))
        ⊎ ((o.0.code ≢ accepted) × (o.2.store.generation ≡ d.store.generation)))
      × ((lookup key o.3.files ≡ lookup key dir.files) ⊎ (key ≡ name ++ extension))
      × ((lookup other o.3.artifacts ≡ lookup other dir.artifacts)
          ⊎ (other ≡ name ++ artifact_suffix))

  moved_accepted : (d : Daemon r) → moved d.store result_ok true ≡ (d.store.generation + 1) % u64
  unfolding moved beq
  moved_accepted d = refl

  remove_released-HasLeft :
      (x : RemovalAnswers) (e : Entry) (name image key other : Text) (left : Option (Map Text))
      (d : Daemon r) (w : World r) (dir : Directory)
      → IsRetired name d.world w
      → HasLeft name key other d dir (
          remove_released is_ip codec sha256 decimal x e image
            (record d { world = w })
            (delete (name ++ extension) dir.files)
            (remove_all left (name ++ artifact_suffix) dir.artifacts))
  unfolding respond record_locked remove_all
  remove_released-HasLeft x e name image key other none d w dir retired =
      let file = name ++ extension in
      let own = name ++ artifact_suffix in
      (
        inl (
          refl,
          retired,
          moved_accepted d,
          refl,
          lookup-delete file file dir.files ∙ (rw (beq_refl file) refl),
          lookup-delete own own dir.artifacts ∙ (rw (beq_refl own) refl),
        ),
        lookup-deleted file key dir.files,
        lookup-deleted own other dir.artifacts,
      )
  remove_released-HasLeft x e name image key other (some left) d w dir retired = (
    inr (λ h. cc, refl),
    lookup-deleted (name ++ extension) key dir.files,
    remove_all-lookup (some left) (name ++ artifact_suffix) other dir.artifacts,
  )

  remove_stopped-HasLeft :
      (x : RemovalAnswers) (e : Entry) (name image key other : Text) (o : Outcome Bool)
      (d : Daemon r) (w : World r) (dir : Directory)
      → ((changed : Bool) → o ≡ ok changed → IsRetired name d.world w)
      → HasLeft name key other d dir
          (remove_stopped is_ip codec sha256 decimal x e name image o (record d { world = w }) dir)
  unfolding respond record_locked
  remove_stopped-HasLeft x e name image key other (err cause) d w dir retired =
      elim (Bool-cases (is_unknown cause)) [
        | inl unknown ↦
            rw unknown (inr (λ h. cc, moved_unchanged d.store result_failed), inl refl, inl refl)
        | inr known ↦
            rw known (inr (λ h. cc, moved_unchanged d.store result_failed), inl refl, inl refl)
      ]
  remove_stopped-HasLeft x e name image key other (ok changed) d w dir retired =
      elim (Bool-cases x.file_fails) [
        | inl failing ↦ rw failing (inr (λ h. cc, refl), inl refl, inl refl)
        | inr fine ↦
            rw fine (
              remove_released-HasLeft x e name image key other x.left d w dir
                (retired changed refl))
      ]

  -- A removal that is accepted has retired the service: its name is declared no more, the runtime was
  -- asked to stop its container and then to remove it, whatever it answered, the declaration's file
  -- and its artifacts are gone, and the generation has moved, wrapping at 2^64, to the one in the
  -- answer. A removal that is not accepted keeps the generation. Either leaves every other file and
  -- every other directory of artifacts as it was.
  pub remove_service-HasLeft :
      (x : RemovalAnswers) (req : Request) (actor name key other : Text) (declared : Option Service)
      (d : Daemon r) (dir : Directory)
      → HasLeft name key other d dir
          (remove_service is_ip codec sha256 decimal x req actor name declared d dir)
  unfolding remove_service
  remove_service-HasLeft x req actor name key other declared d dir =
      elim (Bool-cases (valid_name name)) [
        | inl good ↦ rw good (
            remove_stopped-HasLeft x (remove_entry req actor name) name (image_of declared) key
              other (remove name d.world).0 d (remove name d.world).1 dir
              (λ changed h. remove-IsRetired name d.world changed h))
        | inr bad ↦ rw bad (inr (λ h. cc, refl), inl refl, inl refl)
      ]
