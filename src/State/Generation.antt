-- ===== src/State/Generation.antt =====
-- Optimistic control: what the generation promises to somebody who claims one.
use hostd.Base.{
  Text, false, ℕ, ◌+◌, ◌<◌, ◌≡◌, ◌≢◌, Bool, true, ◌&&◌, none, some, List, [], ◌∷◌, arith, beq,
  beq_iff,
}
use hostd.State.{Store, Entry, u64, result_ok, check, moved, record_locked}

-- One call of `Record`: the clock, the entry, and whether something changed.
pub record Call : Type 0 where
  pub now : ℕ
  pub entry : Entry
  pub changed : Bool

unfoldable pub record_all : Store → List Call → Store
record_all s [] = s
record_all s (c ∷ cs) = record_all (record_locked s c.now c.entry c.changed) cs

-- A call that moves the generation.
abbrev pub moves : Call → Bool
moves c = beq c.entry.result result_ok && c.changed

-- Below 2^64, an accepted change by anyone makes every claim that passed before it, other than
-- zero, a conflict that names the new generation.
pub check-record_locked :
    (s : Store) (now : ℕ) (e : Entry) (expected : ℕ)
    → s.generation + 1 < u64
    → e.result ≡ result_ok
    → expected ≢ 0
    → check s expected ≡ none
    → check (record_locked s now e true) expected
      ≡ some (record { expected = expected; current = s.generation + 1 })
unfolding check record_locked moved
check-record_locked s now e expected small accepted claims passed =
    ground (arith, beq_iff e.result result_ok)

-- What changes nothing keeps the generation.
pub moved_unchanged : (s : Store) (result : Text) → moved s result false ≡ s.generation
unfolding moved
moved_unchanged s result = ground arith
