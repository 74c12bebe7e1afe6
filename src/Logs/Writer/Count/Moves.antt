-- ===== src/Logs/Writer/Count/Moves.antt =====
-- logs/store.go: what each part of a step does to the lines it holds, and to the count of those
-- that were lost.
use hostd.Base.{
  ℕ, zero, suc, ◌+◌, ◌-◌, ◌≡◌, ◌≤◌, ◌<◌, ◌⊎◌, inl, inr, refl, Bool, true, false, not, Option, none,
  some, List, [], ◌∷◌, ◌++◌, arith, length, Text, ltb, ◌==◌, ◌%◌, Bool-cases, pos_part,
}
use hostd.State.{u64}
use hostd.Logs.{Record, queue_depth}
use hostd.Logs.Writer.{
  Row, LogStore, flush, take_queue, sweep, drop_old, drop_upto, drop_beyond, cutoff, deliver,
  enqueue, append, numbered_line, report_dropped, dropped_event, row_at, newest_first,
}
use hostd.Logs.Writer.Steps.{number_one, deliver_picked, enqueue_picked}
use hostd.Logs.Writer.Count.{
  one, lines_of, rows_of, held, everything, count-append, count-keep_if_le, IsSplit,
  rows_of-insert_rows, flush-cases, count-everything,
}

-- The numbers that a step hands out, of those that the test holds of.
abbrev pub news : ℕ → (ℕ → Bool) → ℕ → ℕ
news zero p n = 0
news (suc k) p n = one (p (suc n))

-- From one state to the next: the numbers handed out and the rows deleted, with no other line made,
-- and every other one held or counted as lost.
pub record IsAccounted (s s' : LogStore) (made deleted : ℕ) : Type 0 where
  pub moves : s.seq + made < u64 → s'.seq ≡ s.seq + made
  pub within : (p : ℕ → Bool) → s.seq + made < u64 → held p s' ≤ held p s + news made p s.seq
  pub exact :
      s.seq + made < u64
      → held everything s + s.dropped + made < u64
      → held everything s' + s'.dropped + deleted ≡ held everything s + s.dropped + made

pub untouched-IsAccounted : (s : LogStore) → IsAccounted s s 0 0
untouched-IsAccounted s = record {
  moves = λ h. omega arith;
  within = λ p h. omega arith;
  exact = λ h k. omega arith;
}

module _ {a b c : LogStore} {made deleted first : ℕ} where
  pub in_turn-IsAccounted :
      IsAccounted a b 0 first
      → IsAccounted b c made deleted
      → IsAccounted a c made (first + deleted)
  in_turn-IsAccounted f g = record {
    moves = λ h. let e = f.moves (omega arith) in let e' = g.moves (omega arith) in omega arith;
    within = λ p h.
        let e = f.moves (omega arith) in
        let e' : b.seq ≡ a.seq = omega arith in
        let w = f.within p (omega arith) in
        let w' : held p c ≤ held p b + news made p a.seq = rw (← e') (g.within p (omega arith)) in
        omega arith;
    exact = λ h k.
        let e = f.moves (omega arith) in
        let x = f.exact (omega arith) (omega arith) in
        let x' = g.exact (omega arith) (omega arith) in omega arith;
  }

pub flush-IsAccounted : (refused : Bool) (s : LogStore) → IsAccounted s (flush refused s) 0 0
flush-IsAccounted refused s = elim (flush-cases refused s) [
  | inl (e, _) ↦ rw e (untouched-IsAccounted s)
  | inr (inl e) ↦ rw e (record {
    moves = λ h. omega arith;
    within = λ p h. omega arith;
    exact = λ h k. omega (arith, count-everything (λ (r : Record). r.seq) s.batch);
  })
  | inr (inr (rows, e, there)) ↦ rw e (record {
    moves = λ h. omega arith;
    within = λ p h. omega (arith, rows_of-insert_rows p s.table s.batch rows there);
    exact = λ h k. omega (arith, rows_of-insert_rows everything s.table s.batch rows there);
  })
]

pub take_queue-IsAccounted : (s : LogStore) → IsAccounted s (take_queue s) 0 0
unfolding take_queue
take_queue-IsAccounted s = record {
  moves = λ h. omega arith;
  within = λ p h. omega (arith, count-append (λ (r : Record). r.seq) p s.batch s.queue);
  exact = λ h k. omega (arith, count-append (λ (r : Record). r.seq) everything s.batch s.queue);
}

pub number_one-IsAccounted :
    (now : ℕ) (r : Record) (s : LogStore) → IsAccounted s (number_one now r s) 1 0
unfolding number_one numbered_line
number_one-IsAccounted now r s = record {
  moves = λ h. omega arith;
  within = λ p h.
      let e : (s.seq + 1) % u64 ≡ suc s.seq = omega arith in
      rw e (
        omega (
          arith,
          count-append (λ (r : Record). r.seq) p s.numbered
              (record (numbered_line now r s) { seq = suc s.seq } ∷ []),
        ));
  exact = λ h k. omega (
    arith,
    count-append (λ (r : Record). r.seq) everything s.numbered (numbered_line now r s ∷ []),
  );
}

pub deliver_picked-IsAccounted :
    (o : Option (Record × List Record)) (s : LogStore)
    → ((p : ℕ → Bool) → IsSplit (λ r. r.seq) p (lines_of p s.numbered) o)
    → IsAccounted s (deliver_picked o s) 0 0
unfolding deliver
deliver_picked-IsAccounted none s h = untouched-IsAccounted s
deliver_picked-IsAccounted (some (r, rest)) s h = record {
  moves = λ k. omega arith;
  within = λ p k. omega (arith, h p, count-append (λ (r : Record). r.seq) p s.told (r ∷ []));
  exact = λ k l.
      omega (arith, h everything, count-append (λ (r : Record). r.seq) everything s.told (r ∷ []));
}

-- A line that comes to the queue is in it, or counted as lost.
enqueue-cases :
    (r : Record) (s : LogStore)
    → (enqueue r s ≡ record s { queue = s.queue ++ r ∷ [] })
      ⊎ (enqueue r s ≡ record s { dropped = (s.dropped + 1) % u64 })
unfolding enqueue
enqueue-cases r s = elim (Bool-cases (ltb (length s.queue) queue_depth)) [
  | inl e ↦ inl (rw e refl)
  | inr e ↦ inr (rw e refl)
]

pub enqueue_picked-IsAccounted :
    (o : Option (Record × List Record)) (s : LogStore)
    → ((p : ℕ → Bool) → IsSplit (λ r. r.seq) p (lines_of p s.told) o)
    → IsAccounted s (enqueue_picked o s) 0 0
enqueue_picked-IsAccounted none s h = untouched-IsAccounted s
enqueue_picked-IsAccounted (some (r, rest)) s h =
    elim (enqueue-cases r (record s { told = rest })) [
      | inl e ↦ rw e (record {
        moves = λ k. omega arith;
        within = λ p k. omega (arith, h p, count-append (λ (r : Record). r.seq) p s.queue (r ∷ []));
        exact = λ k l.
            omega (
              arith,
              h everything,
              count-append (λ (r : Record). r.seq) everything s.queue (r ∷ []),
            );
      })
      | inr e ↦ rw e (record {
        moves = λ k. omega arith;
        within = λ p k. omega (arith, h p);
        exact = λ k l. omega (arith, h everything);
      })
    ]

pub append-IsAccounted :
    (now : ℕ) (r : Record) (s : LogStore) → IsAccounted s (append now r s).1 1 0
unfolding append deliver numbered_line
append-IsAccounted now r s =
    let line = numbered_line now r s in
    elim (enqueue-cases line (deliver line (record s { seq = (s.seq + 1) % u64 }))) [
      | inl e ↦ rw e (record {
        moves = λ h. omega arith;
        within = λ p h.
            let e : (s.seq + 1) % u64 ≡ suc s.seq = omega arith in
            rw e (
              omega (
                arith,
                count-append (λ (r : Record). r.seq) p s.queue
                    (record line { seq = suc s.seq } ∷ []),
              ));
        exact = λ h k.
            omega (arith, count-append (λ (r : Record). r.seq) everything s.queue (line ∷ []));
      })
      | inr e ↦ rw e (record {
        moves = λ h. omega arith;
        within = λ p h. omega arith;
        exact = λ h k. omega arith;
      })
    ]

rows_of-drop_upto_le :
    (p : ℕ → Bool) (o : Option Row) (rows : List Row)
    → rows_of p (drop_upto o rows) ≤ rows_of p rows
rows_of-drop_upto_le p none rows = omega arith
rows_of-drop_upto_le p (some last) rows =
    count-keep_if_le (λ (r : Row). r.seq) p (λ (r : Row). ltb last.seq r.seq) rows

module _ (p : ℕ → Bool) where
  rows_of-drop_old_le : (n : ℕ) (rows : List Row) → rows_of p (drop_old n rows) ≤ rows_of p rows
  unfolding drop_old
  rows_of-drop_old_le n rows =
      count-keep_if_le (λ (r : Row). r.seq) p (λ (r : Row). not (ltb r.time_ms n)) rows

  rows_of-drop_beyond_le :
      (n : ℕ) (rows : List Row) → rows_of p (drop_beyond n rows) ≤ rows_of p rows
  unfolding drop_beyond
  rows_of-drop_beyond_le n rows = rows_of-drop_upto_le p (row_at n (newest_first rows)) rows

  rows_of-sweep_le :
      (now : ℕ) (no_age no_rows : Bool) (s : LogStore)
      → rows_of p (sweep now no_age no_rows s).table ≤ rows_of p s.table
  unfolding sweep
  rows_of-sweep_le now true no_rows s = omega arith
  rows_of-sweep_le now false true s = rows_of-drop_old_le (cutoff now s.opts) s.table
  rows_of-sweep_le now false false s =
      let rows = drop_old (cutoff now s.opts) s.table in
      omega (
        arith,
        rows_of-drop_old_le (cutoff now s.opts) s.table,
        rows_of-drop_beyond_le (pos_part s.opts.max_rows) rows,
      )

-- A table that became shorter, and nothing else.
shorter-IsAccounted :
    (s : LogStore) (rows : List Row)
    → ((p : ℕ → Bool) → rows_of p rows ≤ rows_of p s.table)
    → IsAccounted s (record s { table = rows }) 0 (length s.table - length rows)
shorter-IsAccounted s rows h = record {
  moves = λ k. omega arith;
  within = λ p k. omega (arith, h p);
  exact = λ k l. omega (
    arith,
    h everything,
    count-everything (λ (r : Row). r.seq) s.table,
    count-everything (λ (r : Row). r.seq) rows,
  );
}

pub sweep-IsAccounted :
    (now : ℕ) (no_age no_rows : Bool) (s : LogStore)
    → IsAccounted s
        (sweep now no_age no_rows s)
        0
        (length s.table - length (sweep now no_age no_rows s).table)
unfolding sweep
sweep-IsAccounted now true no_rows s =
    let e : length s.table - length s.table ≡ 0 = omega arith in rw e (untouched-IsAccounted s)
sweep-IsAccounted now false true s =
    shorter-IsAccounted s _ λ p. rows_of-sweep_le p now false true s
sweep-IsAccounted now false false s =
    shorter-IsAccounted s _ λ p. rows_of-sweep_le p now false false s

-- A report that says nothing, or that is a line of its own.
pub report_dropped-IsAccounted :
    (prose : ℕ → Text) (now : ℕ) (s : LogStore)
    → (IsAccounted s (report_dropped prose now s) 0 0)
      ⊎ (IsAccounted s (report_dropped prose now s) 1 0)
unfolding report_dropped
report_dropped-IsAccounted prose now s = elim (Bool-cases (s.dropped == s.reported)) [
  | inl e ↦ inl (rw e (untouched-IsAccounted s))
  | inr e ↦ inr (
      let lost = (s.dropped + (u64 - s.reported)) % u64 in
      let a =
        append-IsAccounted now (dropped_event prose lost) (record s { reported = s.dropped }) in
      rw e (record {
        moves = λ h. a.moves h;
        within = λ p h. a.within p h;
        exact = λ h k. a.exact h k;
      }))
]
