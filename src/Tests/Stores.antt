-- ===== src/Tests/Stores.antt =====
-- The state directory's theorems, each at one store.
use hostd.Base.{
  ◌⊎◌, ◌≡◌, refl, true, false, none, some, List, [], ◌∷◌, ◌++◌, codes, arith, beq, if◌then◌else◌,
}
use hostd.Filoconf.{Codec, marshal, decode}
use hostd.Strings.{is_space, trim_space, trim_right_of}
use hostd.State.{Store, Entry, Snapshot, empty_entry, result_ok, check, record_locked}
use hostd.State.Disk.{
  Disk, no_faults, append_entry, read_audit, one_line, save_snapshot, record_entry, open_store,
}
use hostd.State.Generation.{Call, check-record_locked}
use hostd.State.Ceiling.{IsWithinCeiling, append_all, append_all-IsWithinCeiling}
use hostd.State.Restart.{
  IsPrinted, read_audit-append_entry, open_store-record_entry, save_snapshot_atomic,
}

abbrev entry : Entry
entry = record empty_entry { operation = codes "apply"; result = result_ok }

abbrev store : Store
store = record { generation = 3; seq = 9; recent = [] }

abbrev calls : List Call
calls =
    record { now = 5; entry = entry; changed = true }
    ∷ record { now = 6; entry = entry; changed = false }
    ∷ []

abbrev disk : Disk
disk = record {
  audit = some (codes "x" ++ 10 ∷ []);
  previous = none;
  snapshot = none;
  temporary = none;
}

-- An engine that knows one value and its text.
abbrev one_entry : Codec Entry
one_entry = record {
  marshal = λ e. some (codes "(entry)");
  unmarshal = λ e src. if beq src (codes "(entry)") then some entry else none;
}

abbrev snapshot : Snapshot
snapshot = record { generation = 4; audit_seq = 10 }

abbrev one_snapshot : Codec Snapshot
one_snapshot = record {
  marshal = λ s. some (codes "(4 10)");
  unmarshal = λ s src. if beq src (codes "(4 10)" ++ 10 ∷ []) then some snapshot else none;
}

check-record_locked_example :
    check (record_locked store 5 entry true) 3 ≡ some (record { expected = 3; current = 4 })
check-record_locked_example =
    check-record_locked store 5 entry 3 (omega arith) refl (λ e. omega arith) (unfold check in refl)

append_all-IsWithinCeiling_example :
    IsWithinCeiling 8 (append_all ((no_faults, codes "line") ∷ []) disk)
append_all-IsWithinCeiling_example =
    append_all-IsWithinCeiling 8 ((no_faults, codes "line") ∷ []) disk
      (unfold one_line trim_right_of in omega arith, tt)
      (record { audit = omega arith; previous = omega arith })

printed : IsPrinted one_entry empty_entry entry (codes "(entry)")
unfolding is_space
printed = record {
  marshals = unfold marshal trim_right_of in refl;
  one = refl;
  tight = unfold trim_space in refl;
  bare = unfold trim_right_of in refl;
  some_text = refl;
  small = refl;
  reads = unfold beq in refl;
}

read_audit-append_entry_example :
    read_audit one_entry false (append_entry one_entry no_faults entry disk).audit
    ≡ read_audit one_entry false disk.audit ++ entry ∷ []
read_audit-append_entry_example =
    read_audit-append_entry one_entry entry (codes "(entry)") (codes "x" ++ 10 ∷ []) disk printed
      refl (omega arith) refl

open_store-record_entry_example :
    (s' : Store) × (open_store one_entry one_snapshot false false false false
        (record_entry one_entry one_snapshot no_faults 5 entry true (store, disk)).1
      ≡ some s')
    × (s'.generation ≡ (record_locked store 5 entry true).generation)
    × (s'.seq ≡ (record_locked store 5 entry true).seq)
open_store-record_entry_example =
    open_store-record_entry one_entry one_snapshot 5 entry true store disk
      (codes "(4 10)" ++ 10 ∷ []) (unfold marshal trim_right_of in refl)
      (unfold decode record_locked beq in refl)

save_snapshot_atomic_example :
    ((save_snapshot one_snapshot no_faults 4 10 disk).snapshot ≡ none)
    ⊎ ((save_snapshot one_snapshot no_faults 4 10 disk).snapshot ≡ marshal one_snapshot snapshot)
save_snapshot_atomic_example = save_snapshot_atomic one_entry one_snapshot no_faults 4 10 disk
