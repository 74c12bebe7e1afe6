-- ===== src/Logs/Writer/Count/Distinct.antt =====
-- logs/store.go: a number is of one line, wherever the line is, and SQLite never refuses a batch
-- for its keys.
use hostd.Base.{
  ℕ, ◌+◌, ◌≡◌, ◌≤◌, ◌<◌, ◌⊎◌, inl, inr, refl, Bool, false, some, List, [], ◌∷◌, ◌++◌, arith, length,
  Text, ◌==◌, any, map, append-nil, append_assoc, ap,
}
use hostd.State.{u64}
use hostd.Logs.{Record, Options}
use hostd.Logs.Writer.{
  Row, LogStore, row_of, insert_rows, write_batch, flush, take_queue, open_log, highest,
}
use hostd.Logs.Writer.Steps.{Op, step, run_log, drain}
use hostd.Logs.Writer.Count.{held, lines_of, rows_of, count-append}
use hostd.Logs.Writer.Count.Whole.{step-Accounted}

abbrev pub is : ℕ → ℕ → Bool
is n k = k == n

-- A number is of at most one line, and is not above the last one handed out.
pub record IsDistinct (s : LogStore) : Type 0 where
  pub once : (n : ℕ) → held (is n) s ≤ 1
  pub given : (n : ℕ) → (held (is n) s ≡ 0) ⊎ (n ≤ s.seq)

step-IsDistinct :
    (prose : ℕ → Text) (op : Op) (s : LogStore)
    → s.seq + 1 < u64
    → IsDistinct s
    → (IsDistinct (step prose op s)) × ((step prose op s).seq ≤ s.seq + 1)
step-IsDistinct prose op s room d = elim (step-Accounted prose op s) [
  | inl a ↦
      let m = a.moves (omega arith) in
      (
        record {
          once = λ n. let w = a.within (is n) (omega arith) in omega (arith, d.once n);
          given = λ n. let w = a.within (is n) (omega arith) in ground (arith, d.given n);
        },
        omega arith,
      )
  | inr a ↦
      let m = a.moves (omega arith) in
      (
        record {
          once = λ n. let w = a.within (is n) (omega arith) in ground (arith, d.once n, d.given n);
          given = λ n. let w = a.within (is n) (omega arith) in ground (arith, d.given n);
        },
        omega arith,
      )
]

-- While the counter is below 2^64, no steps make two lines of one number.
pub run_log-IsDistinct :
    (prose : ℕ → Text) (ops : List Op) (s : LogStore)
    → s.seq + length ops < u64
    → IsDistinct s
    → IsDistinct (run_log prose ops s)
unfolding run_log
run_log-IsDistinct prose [] s room d = d
run_log-IsDistinct prose (op ∷ ops) s room d =
    let (d', up) = step-IsDistinct prose op s (omega arith) d in
    run_log-IsDistinct prose ops (step prose op s) (omega arith) d'

highest-le : (n : ℕ) (rows : List Row) → (rows_of (is n) rows ≡ 0) ⊎ (n ≤ highest rows)
unfolding highest
highest-le n [] = inl refl
highest-le n (r ∷ rows) = ground (arith, highest-le n rows)

-- A store that opens a table with a primary key.
pub open_log-IsDistinct :
    (o : Options) (rows : List Row)
    → ((n : ℕ) → rows_of (is n) rows ≤ 1)
    → IsDistinct (open_log o rows)
unfolding open_log
open_log-IsDistinct o rows key = record {
  once = λ n. omega (arith, key n);
  given = λ n. ground (arith, highest-le n rows);
}

pub any-rows_of :
    (n : ℕ) (table : List Row)
    → rows_of (is n) table ≡ 0
    → any (λ (row : Row). row.seq == n) table ≡ false
any-rows_of n [] e = refl
any-rows_of n (r ∷ rows) e = ground (arith, any-rows_of n rows)

-- Nothing is refused for its key where the numbers are distinct.
insert_rows-all :
    (table : List Row) (batch : List Record)
    → ((n : ℕ) → rows_of (is n) table + lines_of (is n) batch ≤ 1)
    → insert_rows table batch ≡ some (table ++ map row_of batch)
unfolding insert_rows
insert_rows-all table [] h = rw (append-nil table) refl
insert_rows-all table (r ∷ rs) h =
    let e = insert_rows-all (table ++ row_of r ∷ []) rs (λ n. rows_of-next n table r rs (h n)) in
    let free : any (λ (row : Row). row.seq == r.seq) table ≡ false =
      any-rows_of r.seq table (ground (arith, h r.seq)) in
    rw (free, e) (ap some (append_assoc table (row_of r ∷ []) (map row_of rs)))
  where
    rows_of-next :
        (n : ℕ) (table : List Row) (r : Record) (rs : List Record)
        → rows_of (is n) table + lines_of (is n) (r ∷ rs) ≤ 1
        → rows_of (is n) (table ++ row_of r ∷ []) + lines_of (is n) rs ≤ 1
    rows_of-next n table r rs k =
        unfold row_of in
        omega (arith, k, count-append (λ (row : Row). row.seq) (is n) table (row_of r ∷ []))

flush_all_of :
    (s : LogStore) (all : List Record)
    → insert_rows s.table all ≡ some (s.table ++ map row_of all)
    → flush false (record s { queue = []; batch = all })
      ≡ record s { queue = []; batch = []; table = s.table ++ map row_of all }
unfolding flush write_batch
flush_all_of s [] e = rw (append-nil s.table) refl
flush_all_of s (r ∷ rs) e = rw e refl

-- What `Flush` promises: where the numbers are distinct and SQLite refuses nothing, everything
-- that was queued before it is in the table after it, in that order behind what was there, and
-- nothing is counted as lost.
pub drain-table :
    (s : LogStore)
    → IsDistinct s
    → drain false s
      ≡ record s { queue = []; batch = []; table = s.table ++ map row_of (s.batch ++ s.queue) }
unfolding drain take_queue
drain-table s d = flush_all_of s (s.batch ++ s.queue) (
    insert_rows-all s.table (s.batch ++ s.queue)
      λ n. omega (arith, d.once n, count-append (λ (r : Record). r.seq) (is n) s.batch s.queue))
