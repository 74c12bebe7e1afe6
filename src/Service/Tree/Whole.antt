-- ===== src/Service/Tree/Whole.antt =====
-- service/tree.go and service/service.go: what is read of a directory, and that nothing is lost.
use mathlib.Core.Path.{subst}
use mathlib.Core.List.{Perm}
use hostd.Base.{
  map, is_some, sort, sort-perm, ◌∙◌, and_then-some, if_true, if_false, ◌+◌, ◌≡◌, ◌≤◌, refl, sym,
  ap, inl, inr, Bool, true, false, not, ◌&&◌, Option, none, some, List, [], ◌∷◌, ◌++◌, arith, Text,
  beq, beq_iff, beq_refl, text_le_total, text_le_trans, length, length-sort, any, keep_if, All,
  All-sort, if◌then◌else◌, IsSorted, IsTotalOrder, sort-IsSorted, Bool-cases,
}
use hostd.Strings.{has_suffix, trim_suffix}
use hostd.Filoconf.{Codec}
use hostd.Service.{Service, extension}
use hostd.Service.Tree.{
  Declaration, TreeEntry, Loaded, and_loaded, read_artifacts, max_artifact_bytes, declaration_le,
  load_entry, load_entries, load_tree, load_service_dir, load_service_file, parse, parse_file,
  is_skipped, content_of, files_of, init_file,
}
use hostd.Service.Tree.Artifacts.{artifact_bytes, read_artifacts-le}

trim_suffix-append :
    (s suffix : Text) → has_suffix s suffix ≡ true → trim_suffix s suffix ++ suffix ≡ s
unfolding has_suffix trim_suffix
trim_suffix-append [] suffix h = sym ((beq_iff [] suffix).0 h)
trim_suffix-append (c ∷ cs) suffix h = elim (Bool-cases (beq (c ∷ cs) suffix)) [
  | inl e ↦ rw e (sym ((beq_iff (c ∷ cs) suffix).0 e))
  | inr e ↦ rw e (ap (λ l. c ∷ l) (trim_suffix-append cs suffix (ground (arith, e, h))))
]

-- Whether an entry is the home of a service: a directory of its name, or a file of its name with the
-- extension.
abbrev pub is_home : TreeEntry → Service → Bool
is_home e s = if e.is_dir then beq e.name s.name else beq e.name (s.name ++ extension)

-- What a reader gives for the entries that it can read.
abbrev pub first_of : Option Declaration → List Declaration → List Declaration
first_of none ds = ds
first_of (some d) ds = d ∷ ds

abbrev pub readable_of : (TreeEntry → Option Declaration) → List TreeEntry → List Declaration
readable_of load [] = []
readable_of load (e ∷ es) = first_of (load e) (readable_of load es)

and_loaded-found :
    (name : Text) (o : Option Declaration) (rest : Loaded Declaration) (ds : List Declaration)
    (ns : List Text)
    → rest.loaded ≡ ds
    → rest.problems ≡ ns
    → ((and_loaded name o rest).loaded ≡ first_of o ds)
      × ((and_loaded name o rest).problems ≡ (if not (is_some o) then name ∷ ns else ns))
and_loaded-found name none rest ds ns h k = (h, ap (λ l. name ∷ l) k)
and_loaded-found name (some d) rest ds ns h k = (ap (λ l. d ∷ l) h, k)

module _ (is_ip : Text → Bool) (codec : Codec Service) where
  pub parse_file-name :
      (base : Text) (content : Option Text) (s : Service)
      → has_suffix base extension ≡ true
      → parse_file is_ip codec base content ≡ some s
      → beq base (s.name ++ extension) ≡ true
  unfolding parse_file
  parse_file-name base content s named e =
      let (src, read, e₁) = and_then-some content _ s e in
      let (t, parsed, e₂) = and_then-some (parse is_ip codec src) _ s e₁ in
      elim (Bool-cases (beq t.name (trim_suffix base extension))) [
        | inl same ↦
            let other : not (beq t.name (trim_suffix base extension)) ≡ false = rw same refl in
            let whole : t ≡ s = ground (arith, if_false _ _ _ (some s) other e₂) in
            let name : t.name ≡ trim_suffix base extension = (beq_iff _ _).0 same in
            rw (← whole, name, trim_suffix-append base extension named) (beq_refl base)
        | inr differs ↦
            let other : not (beq t.name (trim_suffix base extension)) ≡ true = rw differs refl in
            absurd (ground (arith, if_true _ _ _ (some s) other e₂))
      ]

  load_service_file-home :
      (e : TreeEntry) (d : Declaration)
      → has_suffix e.name extension ≡ true
      → load_service_file is_ip codec e ≡ some d
      → (beq e.name (d.service.name ++ extension) ≡ true)
        × (artifact_bytes d.artifacts ≤ max_artifact_bytes)
  unfolding load_service_file
  load_service_file-home e d named h =
      let (s, parsed, h₁) = and_then-some (parse_file is_ip codec e.name e.content) _ d h in
      let (source, read, h₂) = and_then-some e.content _ d h₁ in
      let whole : record { service = s; source = source; artifacts = [] } ≡ d =
        ground (arith, h₂) in
      rw (← whole) (parse_file-name e.name e.content s named parsed, omega arith)

  load_service_dir-home :
      (e : TreeEntry) (d : Declaration)
      → load_service_dir is_ip codec e ≡ some d
      → (beq e.name d.service.name ≡ true) × (artifact_bytes d.artifacts ≤ max_artifact_bytes)
  unfolding load_service_dir
  load_service_dir-home e d h =
      let (source, read, h₁) = and_then-some (content_of init_file (files_of e.inside)) _ d h in
      let (s, parsed, h₂) = and_then-some (parse is_ip codec source) _ d h₁ in
      elim (Bool-cases (beq s.name e.name)) [
        | inl same ↦
            let other : not (beq s.name e.name) ≡ false = rw same refl in
            let (found, there, h₃) =
              and_then-some (read_artifacts e.inside) _ d (if_false _ _ _ (some d) other h₂) in
            let whole : record { service = s; source = source; artifacts = found } ≡ d =
              ground (arith, h₃) in
            let name : e.name ≡ s.name = sym ((beq_iff _ _).0 same) in
            rw (← whole) (rw name (beq_refl s.name), read_artifacts-le e.inside found there)
        | inr differs ↦
            let other : not (beq s.name e.name) ≡ true = rw differs refl in
            absurd (ground (arith, if_true _ _ _ (some d) other h₂))
      ]

  load_entry-home :
      (e : TreeEntry) (d : Declaration)
      → is_skipped e ≡ false
      → load_entry is_ip codec e ≡ some d
      → (is_home e d.service ≡ true) × (artifact_bytes d.artifacts ≤ max_artifact_bytes)
  unfolding load_entry is_skipped
  load_entry-home e d kept h = elim (Bool-cases e.is_dir) [
    | inl dir ↦
        let (home, few) = load_service_dir-home e d (if_true e.is_dir _ _ (some d) dir h) in
        (rw dir home, few)
    | inr file ↦
        let named : has_suffix e.name extension ≡ true = ground (arith, kept, file) in
        let (home, few) =
          load_service_file-home e d named (if_false e.is_dir _ _ (some d) file h) in
        (rw file home, few)
  ]

  -- What a tree's declaration has: an entry that is its home, and artifacts within the limit.
  abbrev pub IsDeclared : List TreeEntry → Declaration → Type 0
  IsDeclared es d =
      (any (λ e. not (is_skipped e) && is_home e d.service) es ≡ true)
      × (artifact_bytes d.artifacts ≤ max_artifact_bytes)

  IsDeclared-later :
      (e : TreeEntry) (es : List TreeEntry) (ds : List Declaration)
      → All (IsDeclared es) ds
      → All (IsDeclared (e ∷ es)) ds
  IsDeclared-later e es [] h = tt
  IsDeclared-later e es (d ∷ ds) h = ((ground (arith, h.0.0), h.0.1), IsDeclared-later e es ds h.1)

  and_loaded-IsDeclared :
      (e : TreeEntry) (es : List TreeEntry) (o : Option Declaration) (rest : Loaded Declaration)
      → is_skipped e ≡ false
      → load_entry is_ip codec e ≡ o
      → All (IsDeclared es) rest.loaded
      → All (IsDeclared (e ∷ es)) (and_loaded e.name o rest).loaded
  and_loaded-IsDeclared e es none rest kept same h = IsDeclared-later e es rest.loaded h
  and_loaded-IsDeclared e es (some d) rest kept same h =
      let (home, few) = load_entry-home e d kept same in
      ((rw (kept, home) refl, few), IsDeclared-later e es rest.loaded h)

  load_entries-IsDeclared :
      (es : List TreeEntry) → All (IsDeclared es) (load_entries is_ip codec es).loaded
  unfolding load_entries
  load_entries-IsDeclared [] = tt
  load_entries-IsDeclared (e ∷ es) = elim (Bool-cases (is_skipped e)) [
    | inl skipped ↦
        rw skipped
          (IsDeclared-later e es (load_entries is_ip codec es).loaded (load_entries-IsDeclared es))
    | inr kept ↦ rw kept (
        and_loaded-IsDeclared e es (load_entry is_ip codec e) (load_entries is_ip codec es) kept
          refl (load_entries-IsDeclared es))
  ]

  pub length-and_loaded :
      {A : Type 0} (name : Text) (o : Option A) (rest : Loaded A)
      → length (and_loaded name o rest).loaded + length (and_loaded name o rest).problems
        ≡ length rest.loaded + length rest.problems + 1
  length-and_loaded name none rest = omega arith
  length-and_loaded name (some a) rest = omega arith

  load_entries-length :
      (es : List TreeEntry)
      → length (load_entries is_ip codec es).loaded + length (load_entries is_ip codec es).problems
        ≡ length (keep_if (λ e. not (is_skipped e)) es)
  unfolding load_entries
  load_entries-length [] = refl
  load_entries-length (e ∷ es) = elim (Bool-cases (is_skipped e)) [
    | inl skipped ↦ rw skipped (load_entries-length es)
    | inr kept ↦ rw kept (
        omega (
          arith,
          length-and_loaded e.name (load_entry is_ip codec e) (load_entries is_ip codec es),
          load_entries-length es,
        ))
  ]

  named :
      (b : Bool) (e : TreeEntry) (es : List TreeEntry)
      → (if b
          then e.name ∷ map (λ (e : TreeEntry). e.name) es
          else map (λ (e : TreeEntry). e.name) es)
        ≡ map (λ (e : TreeEntry). e.name) (if b then e ∷ es else es)
  named true e es = refl
  named false e es = refl

  load_entries-found :
      (es : List TreeEntry)
      → ((load_entries is_ip codec es).loaded
          ≡ readable_of (load_entry is_ip codec) (keep_if (λ e. not (is_skipped e)) es))
        × ((load_entries is_ip codec es).problems
            ≡ map
                (λ (e : TreeEntry). e.name)
                (keep_if (λ e. not (is_skipped e) && not (is_some (load_entry is_ip codec e))) es))
  unfolding load_entries
  load_entries-found [] = (refl, refl)
  load_entries-found (e ∷ es) = elim (Bool-cases (is_skipped e)) [
    | inl skipped ↦ rw skipped (load_entries-found es)
    | inr kept ↦
        let (all, unread) = load_entries-found es in
        let (h, k) =
          and_loaded-found e.name (load_entry is_ip codec e) (load_entries is_ip codec es) _ _ all
            unread in
        rw kept (h, k ∙ named (not (is_some (load_entry is_ip codec e))) e _)
  ]

  -- Reading a tree gives its declarations by name; each is at home in the tree, in a directory of its
  -- name or a file of its name, and what travels with it is within the limit; and each entry that is
  -- not skipped is one of them, once, or cannot be loaded, and then its name is reported, and no
  -- other name is.
  pub load_tree-IsDeclared :
      (es : List TreeEntry)
      → All (IsDeclared es) (load_tree is_ip codec es).loaded
        × IsSorted declaration_le (load_tree is_ip codec es).loaded
        × Perm
            (load_tree is_ip codec es).loaded
            (readable_of (load_entry is_ip codec) (keep_if (λ e. not (is_skipped e)) es))
        × ((load_tree is_ip codec es).problems
            ≡ map
                (λ (e : TreeEntry). e.name)
                (keep_if (λ e. not (is_skipped e) && not (is_some (load_entry is_ip codec e))) es))
        × (length (load_tree is_ip codec es).loaded + length (load_tree is_ip codec es).problems
            ≡ length (keep_if (λ e. not (is_skipped e)) es))
  unfolding load_tree
  load_tree-IsDeclared es =
      let l = load_entries is_ip codec es in
      let (all, unread) = load_entries-found es in
      (
        All-sort declaration_le (IsDeclared es) l.loaded (load_entries-IsDeclared es),
        sort-IsSorted declaration_le declaration_order l.loaded,
        subst (Perm (sort declaration_le l.loaded)) all (sort-perm declaration_le l.loaded),
        unread,
        omega (arith, length-sort declaration_le l.loaded, load_entries-length es),
      )
    where
      declaration_order : IsTotalOrder declaration_le
      declaration_order = record {
        total = λ a b. text_le_total a.service.name b.service.name;
        trans = λ a b c h k. text_le_trans a.service.name b.service.name c.service.name h k;
      }
