-- ===== src/State/Disk.antt =====
-- The state directory: the audit file with one previous, the snapshot with the temporary
-- file that becomes it, and their readers.
use hostd.Base.{
  ℕ, ◌*◌, ◌^◌, Bool, true, false, Option, none, some, List, [], ◌∷◌, ◌++◌, Text, length, take,
  take_last, ltb, ◌||◌, is_some, if◌then◌else◌, get_or,
}
use hostd.Strings.{lines, trim_space, trim_right_of, is_empty}
use hostd.Filoconf.{Codec, decode, marshal}
use hostd.State.{
  Entry, Store, Snapshot, empty_entry, first_generation, max_audit_memory, record_locked, completed,
}
use hostd.Base.{◌==◌}

abbrev pub max_audit_bytes : ℕ
max_audit_bytes = 4 * 2 ^ 20

-- The files that are there.
pub record Disk : Type 0 where
  pub audit : Option Text
  pub previous : Option Text
  pub snapshot : Option Text
  pub temporary : Option Text

-- Which calls of one `Record` the operating system refuses. A refused write may have written the
-- first `n` bytes.
pub record Faults : Type 0 where
  pub stat : Bool
  pub rename : Bool
  pub open_file : Bool
  pub write : Option ℕ
  pub create_temp : Bool
  pub write_temp : Option ℕ
  pub sync : Bool
  pub close : Bool
  pub rename_temp : Bool

abbrev pub no_faults : Faults
no_faults = record {
  stat = false;
  rename = false;
  open_file = false;
  write = none;
  create_temp = false;
  write_temp = none;
  sync = false;
  close = false;
  rename_temp = false;
}

-- `rotateIfNeeded`: the directory as it then is, and whether there was no error.
unfoldable pub rotate_if_needed : Faults → Disk → Disk × Bool
rotate_if_needed f d = if f.stat then (d, false) else elim d.audit [
  | none ↦ (d, true)
  | some content ↦
      if ltb (length content) max_audit_bytes
      then (d, true)
      else if f.rename
      then (d, false)
      else (record d { audit = none; previous = some content }, true)
]

-- What reaches the file of a write of `line`.
unfoldable pub written : Faults → Text → Text
written f line = elim f.write [ none ↦ line | some n ↦ take n line ]

-- What reaches the temporary file.
unfoldable pub written_temp : Faults → Text → Text
written_temp f body = elim f.write_temp [ none ↦ body | some n ↦ take n body ]

-- `strings.TrimRight(line, "\n") + "\n"`
unfoldable pub one_line : Text → Text
unfolding trim_right_of
one_line text = trim_right_of (λ c. c == 10) text ++ 10 ∷ []

-- `append`, from the rotation on; the error is only printed.
unfoldable pub append_line : Faults → Text → Disk → Disk
unfolding rotate_if_needed written one_line
append_line f text d =
    let (d', rotated) = rotate_if_needed f d in
    if rotated
    then (if f.open_file
        then d'
        else record d' { audit = some (get_or [] d'.audit ++ written f (one_line text)) })
    else d

module _ (codec : Codec Entry) where
  -- `append`
  unfoldable pub append_entry : Faults → Entry → Disk → Disk
  append_entry f e d = elim (marshal codec e) [ none ↦ d | some line ↦ append_line f line d ]

  unfoldable pub readable : List Text → List Entry
  unfolding decode
  readable [] = []
  readable (line ∷ rest) =
      let entries = readable rest in
      let text = trim_space line in
      if is_empty text
      then entries
      else elim (decode codec empty_entry text) [ none ↦ entries | some e ↦ e ∷ entries ]

  -- `readAudit`: the flag says that the file cannot be read; a line that cannot be is skipped.
  unfoldable pub read_audit : Bool → Option Text → List Entry
  read_audit refused file =
      if refused then [] else elim file [ none ↦ [] | some content ↦ readable (lines content) ]

  -- `loadAudit`
  unfoldable pub load_audit : Bool → Bool → Disk → List Entry
  load_audit previous_refused refused d =
      let out = read_audit previous_refused d.previous ++ read_audit refused d.audit in
      if ltb max_audit_memory (length out) then take_last max_audit_memory out else out

-- What becomes of the file that was made: it is written, and renamed unless a call was refused;
-- it is removed in the end, which does nothing where it was renamed.
unfoldable pub fill_temp : Faults → Text → Disk → Disk
unfolding written_temp
fill_temp f body d =
    let filled = record d { temporary = some (written_temp f body) } in
    if is_some f.write_temp || f.sync || f.close || f.rename_temp
    then record filled { temporary = none }
    else record filled { snapshot = filled.temporary; temporary = none }

-- What is saved of what the engine printed.
abbrev pub save_printed : Faults → Option Text → Disk → Disk
save_printed f none d = d
save_printed f (some body) d = if f.create_temp then d else fill_temp f body d

module _ (codec : Codec Snapshot) where
  -- `saveSnapshot`
  unfoldable pub save_snapshot : Faults → ℕ → ℕ → Disk → Disk
  unfolding fill_temp
  save_snapshot f generation seq d =
      save_printed f (marshal codec (record { generation = generation; audit_seq = seq })) d

  -- `readSnapshot` on a fresh store: no store is an error of `Open`.
  unfoldable pub read_snapshot : Bool → Store → Disk → Option Store
  read_snapshot refused s d = if refused then none else elim d.snapshot [
    | none ↦ some s
    | some content ↦
        elim (decode codec (record { generation = first_generation; audit_seq = 0 }) content) [
          | none ↦ none
          | some snap ↦ some (record s { generation = snap.generation; seq = snap.audit_seq })
        ]
  ]

module _ (entries : Codec Entry) (snapshots : Codec Snapshot) where
  -- `Record`: the locked part, then the audit line, then the snapshot.
  unfoldable pub record_entry : Faults → ℕ → Entry → Bool → Store × Disk → Store × Disk
  unfolding record_locked
  record_entry f now e changed (s, d) =
      let s' = record_locked s now e changed in
      let d' = append_entry entries f (completed s now e changed) d in
      (s', save_snapshot snapshots f s'.generation s'.seq d')

  -- `Open`; the flags say which of `MkdirAll` and the three reads are refused.
  unfoldable pub open_store : Bool → Bool → Bool → Bool → Disk → Option Store
  open_store mkdir_refused snapshot_refused previous_refused audit_refused d =
      if mkdir_refused
      then none
      else elim (read_snapshot snapshots snapshot_refused
          (record { generation = first_generation; seq = 0; recent = [] }) d) [
            | none ↦ none
            | some s ↦
                some (record s { recent = load_audit entries previous_refused audit_refused d })
          ]
