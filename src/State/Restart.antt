-- ===== src/State/Restart.antt =====
-- What a daemon that starts again reads is what the one before it wrote.
use hostd.Base.{
  Option, none, Option-cases, Bool-cases, inl, inr, is_some, ◌||◌, ℕ, ◌<◌, ◌≡◌, refl, Bool, true,
  false, some, List, [], ◌∷◌, ◌++◌, Text, arith, length, ltb, ◌⊎◌, ◌==◌,
}
use hostd.Strings.{
  lines, ends_line, is_newline_free, lines-append-line, trim_space, trim_space-newline, is_empty,
  trim_right_of, trim_right_of-concat,
}
use hostd.Filoconf.{Codec, decode, marshal, max_source_size}
use hostd.State.{Entry, Store, Snapshot, empty_entry, first_generation, record_locked, completed}
use hostd.State.Disk.{
  Disk, Faults, no_faults, max_audit_bytes, rotate_if_needed, append_line, append_entry, one_line,
  written, readable, read_audit, fill_temp, save_printed, written_temp, save_snapshot,
  read_snapshot, record_entry, open_store, load_audit,
}

-- What the Filo engine promises of one value: it is printed on one line, with nothing to trim but
-- newlines at the end, within the size that is read back, and reading gives the value back.
pub record IsPrinted {A : Type 0} (codec : Codec A) (zero_value a : A) (line : Text) : Type 0 where
  pub marshals : marshal codec a ≡ some (line ++ 10 ∷ [])
  pub one : is_newline_free line ≡ true
  pub tight : trim_space line ≡ line
  pub bare : trim_right_of (λ c. c == 10) line ≡ line
  pub some_text : is_empty line ≡ false
  pub small : ltb max_source_size (length line) ≡ false
  pub reads : codec.unmarshal zero_value line ≡ some a

module _ (codec : Codec Entry) where
  readable-append :
      (xs ys : List Text) → readable codec (xs ++ ys) ≡ readable codec xs ++ readable codec ys
  unfolding readable
  readable-append [] ys = refl
  readable-append (x ∷ xs) ys = ground (arith, readable-append xs ys)

  readable-line :
      (e : Entry) (line : Text)
      → IsPrinted codec empty_entry e line
      → readable codec ((line ++ 10 ∷ []) ∷ []) ≡ e ∷ []
  unfolding readable decode
  readable-line e line p = rw (trim_space-newline line, p.tight, p.some_text, p.small, p.reads)

  one_line-line :
      (e : Entry) (line : Text)
      → IsPrinted codec empty_entry e line
      → one_line (line ++ 10 ∷ []) ≡ line ++ 10 ∷ []
  unfolding one_line
  one_line-line e line p = rw (trim_right_of-concat (λ c. c == 10) line 10 refl, p.bare)

  append_entry-audit :
      (e : Entry) (line content : Text) (d : Disk)
      → IsPrinted codec empty_entry e line
      → d.audit ≡ some content
      → length content < max_audit_bytes
      → (append_entry codec no_faults e d).audit ≡ some (content ++ (line ++ 10 ∷ []))
  unfolding append_entry append_line rotate_if_needed written
  append_entry-audit e line content d p there below =
      ground (arith, p.marshals, one_line-line e line p)

  -- Where the operating system refuses nothing and the file is below the rotation size and ends
  -- with a whole line, the entries read back after an append are those before and the new one.
  pub read_audit-append_entry :
      (e : Entry) (line content : Text) (d : Disk)
      → IsPrinted codec empty_entry e line
      → d.audit ≡ some content
      → length content < max_audit_bytes
      → ends_line true content ≡ true
      → read_audit codec false (append_entry codec no_faults e d).audit
        ≡ read_audit codec false d.audit ++ e ∷ []
  unfolding read_audit
  read_audit-append_entry e line content d p there below whole = rw (
    append_entry-audit e line content d p there below,
    there,
    lines-append-line content line whole p.one,
    readable-append (lines content) ((line ++ 10 ∷ []) ∷ []),
    readable-line e line p,
  )

module _ (entries : Codec Entry) (snapshots : Codec Snapshot) where
  save_snapshot-snapshot :
      (generation seq : ℕ) (body : Text) (d : Disk)
      → marshal snapshots (record { generation = generation; audit_seq = seq }) ≡ some body
      → (save_snapshot snapshots no_faults generation seq d).snapshot ≡ some body
  unfolding save_snapshot fill_temp written_temp
  save_snapshot-snapshot generation seq body d h = ground arith

  -- Where nothing is refused, and the engine prints and reads back the counters, a store opened
  -- after a call of `Record` has the generation and the audit sequence of the one that made it.
  pub open_store-record_entry :
      (now : ℕ) (e : Entry) (changed : Bool) (s : Store) (d : Disk) (body : Text)
      → marshal snapshots (record {
        generation = (record_locked s now e changed).generation;
        audit_seq = (record_locked s now e changed).seq;
      })
        ≡ some body
      → decode snapshots (record { generation = first_generation; audit_seq = 0 }) body
        ≡ some (record {
          generation = (record_locked s now e changed).generation;
          audit_seq = (record_locked s now e changed).seq;
        })
      → (s' : Store) × (open_store entries snapshots false false false false
            (record_entry entries snapshots no_faults now e changed (s, d)).1
          ≡ some s')
        × (s'.generation ≡ (record_locked s now e changed).generation)
        × (s'.seq ≡ (record_locked s now e changed).seq)
  unfolding open_store read_snapshot record_entry
  open_store-record_entry now e changed s d body printed read =
      let s₁ = record_locked s now e changed in
      let d₁ = append_entry entries no_faults (completed s now e changed) d in
      let d₂ = save_snapshot snapshots no_faults s₁.generation s₁.seq d₁ in
      (
        record s₁ { recent = load_audit entries false false d₂ },
        ground (arith, save_snapshot-snapshot s₁.generation s₁.seq body d₁ printed),
        refl,
        refl,
      )

  fill_temp_atomic :
      (f : Faults) (body : Text) (d : Disk)
      → ((fill_temp f body d).snapshot ≡ d.snapshot) ⊎ ((fill_temp f body d).snapshot ≡ some body)
  unfolding fill_temp written_temp
  fill_temp_atomic f body d =
      elim (Bool-cases (is_some f.write_temp || f.sync || f.close || f.rename_temp)) [
        | inl lost ↦ rw lost (inl refl)
        | inr whole ↦ elim (Option-cases f.write_temp) [
          | inl all ↦ ground (arith, all, whole)
          | inr (n, part) ↦ absurd (ground (arith, part, whole))
        ]
      ]

  save_printed_atomic :
      (f : Faults) (o : Option Text) (d : Disk)
      → ((save_printed f o d).snapshot ≡ d.snapshot) ⊎ ((save_printed f o d).snapshot ≡ o)
  unfolding fill_temp
  save_printed_atomic f none d = inl refl
  save_printed_atomic f (some body) d = elim (Bool-cases f.create_temp) [
    | inl refused ↦ rw refused (inl refl)
    | inr made ↦ rw made (fill_temp_atomic f body d)
  ]

  -- A snapshot that cannot be finished, at whatever step, leaves the file that is read as it was:
  -- what is there afterwards is the old content or the whole new one.
  pub save_snapshot_atomic :
      (f : Faults) (generation seq : ℕ) (d : Disk)
      → ((save_snapshot snapshots f generation seq d).snapshot ≡ d.snapshot)
        ⊎ ((save_snapshot snapshots f generation seq d).snapshot
            ≡ marshal snapshots (record { generation = generation; audit_seq = seq }))
  unfolding save_snapshot
  save_snapshot_atomic f generation seq d =
      save_printed_atomic f
        (marshal snapshots (record { generation = generation; audit_seq = seq })) d
