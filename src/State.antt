-- ===== src/State.antt =====
-- state/state.go: the generation counter and the audit log.
--
-- `Store` is the part that the mutex guards, `Disk` the state directory. What the operating system
-- may refuse is an argument, `Faults`; times and the Filo engine are arguments too. The counters
-- are uint64 and wrap.
pub mod Disk
pub mod Generation
pub mod Recent
pub mod Ceiling
pub mod Restart
use hostd.Base.{
  ℕ, ◌+◌, ◌%◌, ◌^◌, ◌-◌, ◌<◌, Bool, true, false, not, ◌&&◌, ◌||◌, Option, none, some, List, [], ◌∷◌,
  ◌++◌, Text, codes, beq, ◌==◌, leb, ltb, length, take_last, if◌then◌else◌,
}

abbrev pub u64 : ℕ
u64 = 2 ^ 64

abbrev pub max_audit_memory : ℕ
max_audit_memory = 1000

abbrev pub actor_local : Text
actor_local = codes "local"

abbrev pub result_ok : Text
result_ok = codes "ok"

abbrev pub result_refused : Text
result_refused = codes "refused"

abbrev pub result_failed : Text
result_failed = codes "failed"

pub record Entry : Type 0 where
  pub seq : ℕ
  pub time_ms : ℕ
  pub actor : Text
  pub on_behalf_of : Text
  pub operation : Text
  pub target : Text
  pub before : ℕ
  pub after : ℕ
  pub result : Text
  pub detail : Text

-- `var e Entry`
abbrev pub empty_entry : Entry
empty_entry = record {
  seq = 0;
  time_ms = 0;
  actor = [];
  on_behalf_of = [];
  operation = [];
  target = [];
  before = 0;
  after = 0;
  result = [];
  detail = [];
}

pub record Store : Type 0 where
  pub generation : ℕ
  pub seq : ℕ
  pub recent : List Entry

pub record Snapshot : Type 0 where
  pub generation : ℕ
  pub audit_seq : ℕ

abbrev pub first_generation : ℕ
first_generation = 1

pub record ErrConflict : Type 0 where
  pub expected : ℕ
  pub current : ℕ

-- `Check`: no error, or the conflict.
unfoldable pub check : Store → ℕ → Option ErrConflict
check s expected =
    if expected == 0
    then none
    else if not (expected == s.generation)
    then some (record { expected = expected; current = s.generation })
    else none

-- The generation moves for an accepted operation that changed something.
unfoldable pub moved : Store → Text → Bool → ℕ
moved s result changed =
    if beq result result_ok && changed then (s.generation + 1) % u64 else s.generation

-- The entry as `Record` completes it under the lock; `now` is the wall clock in milliseconds.
unfoldable pub completed : Store → ℕ → Entry → Bool → Entry
unfolding moved
completed s now e changed = record e {
  before = s.generation;
  after = moved s e.result changed;
  seq = (s.seq + 1) % u64;
  time_ms = if e.time_ms == 0 then now else e.time_ms;
  actor = if beq e.actor [] then actor_local else e.actor;
}

-- `append(s.recent, e)`, cut to its newest `maxAuditMemory`.
unfoldable pub remember : List Entry → Entry → List Entry
remember recent e =
    let all = recent ++ e ∷ [] in
    if ltb max_audit_memory (length all) then take_last max_audit_memory all else all

-- What `Record` does under the lock. The disk follows in `Disk.record_entry`.
unfoldable pub record_locked : Store → ℕ → Entry → Bool → Store
unfolding moved completed remember
record_locked s now e changed = record {
  generation = moved s e.result changed;
  seq = (s.seq + 1) % u64;
  recent = remember s.recent (completed s now e changed);
}

-- `Recent`; Go's int may be negative, and every limit that is not positive means all.
unfoldable pub recent : Store → ℕ → List Entry
recent s limit =
    let limit' : ℕ = if limit == 0 || ltb (length s.recent) limit then length s.recent else limit in
    take_last limit' s.recent
