-- ===== src/Logs/Writer/Ceiling.antt =====
-- logs/store.go: the two ceilings that a sweep puts on the table.
use mathlib.Core.Path.{subst}
use hostd.Base.{
  ◌∙◌, not, leb, ℕ, zero, suc, ◌≡◌, ◌≤◌, ◌<◌, ◌⊎◌, inl, inr, refl, sym, ap, Bool, true, false, none,
  some, List, [], ◌∷◌, arith, length, keep_if, All, All-keep_if, length-sort, ltb, sort,
  put_in_order, IsSorted, IsTotalOrder, sort-IsSorted, Bool-cases, Option-cases, pos_part,
}
use hostd.Logs.Writer.{
  Row, LogStore, sweep, drop_old, drop_beyond, cutoff, row_at, newest_first, newer_le,
}

newer_order : IsTotalOrder newer_le
newer_order = record { total = λ a b. ground arith; trans = λ a b c h k. ground arith }

module _ {ℓ} {A : Type ℓ} (le : A → A → Bool) (p : A → Bool) where
  length-keep_if-put_in_order :
      (a : A) (xs : List A)
      → length (keep_if p (put_in_order le a xs)) ≡ length (keep_if p (a ∷ xs))
  unfolding put_in_order
  length-keep_if-put_in_order a [] = refl
  length-keep_if-put_in_order a (x ∷ xs) = ground (arith, length-keep_if-put_in_order a xs)

  length-keep_if-sort : (xs : List A) → length (keep_if p (sort le xs)) ≡ length (keep_if p xs)
  unfolding sort
  length-keep_if-sort [] = refl
  length-keep_if-sort (x ∷ xs) =
      ground (arith, length-keep_if-put_in_order x (sort le xs), length-keep_if-sort xs)

none_newer :
    (first last : Row) (rows : List Row)
    → first ≡ last
    → All (λ r. newer_le first r ≡ true) rows
    → length (keep_if (λ (r : Row). ltb last.seq r.seq) rows) ≡ 0
none_newer first last [] e h = refl
none_newer first last (r ∷ rows) e h =
    let same : last.seq ≡ first.seq = ap (λ (r : Row). r.seq) (sym e) in
    ground (arith, h.0, none_newer first last rows e h.1)

-- In rows that are in order, those newer than the one at an offset are that many at most.
length-newer-le :
    (n : ℕ) (rows : List Row) (last : Row)
    → IsSorted newer_le rows
    → row_at n rows ≡ some last
    → length (keep_if (λ (r : Row). ltb last.seq r.seq) rows) ≤ n
length-newer-le n [] last s e = omega arith
length-newer-le zero (r ∷ rows) last s e =
    let same : r ≡ last = ground arith in
    let seq : last.seq ≡ r.seq = ap (λ (r : Row). r.seq) (sym same) in
    ground (arith, none_newer r last rows same s.0)
length-newer-le (suc n) (r ∷ rows) last s e = ground (arith, length-newer-le n rows last s.1 e)

row_at-none : (n : ℕ) (rows : List Row) → row_at n rows ≡ none → length rows ≤ n
row_at-none n [] e = omega arith
row_at-none zero (r ∷ rows) e = ground arith
row_at-none (suc n) (r ∷ rows) e = ground (arith, row_at-none n rows e)

row_at-some : (n : ℕ) (rows : List Row) (last : Row) → row_at n rows ≡ some last → n < length rows
row_at-some n [] last e = ground arith
row_at-some zero (r ∷ rows) last e = omega arith
row_at-some (suc n) (r ∷ rows) last e = ground (arith, row_at-some n rows last e)

-- How many rows are at least as new as a number.
abbrev pub as_new : ℕ → List Row → ℕ
as_new n rows = length (keep_if (λ (r : Row). not (ltb r.seq n)) rows)

row_at-All :
    (P : Row → Type 0) (n : ℕ) (rows : List Row) (last : Row)
    → All P rows
    → row_at n rows ≡ some last
    → P last
row_at-All P n [] last h e = absurd (ground (arith, e))
row_at-All P zero (r ∷ rows) last h e = let same : r ≡ last = ground arith in subst P same h.0
row_at-All P (suc n) (r ∷ rows) last h e = row_at-All P n rows last h.1 e

as_new-below :
    (first : Row) (n : ℕ) (rows : List Row)
    → first.seq < n
    → All (λ r. newer_le first r ≡ true) rows
    → as_new n rows ≡ 0
as_new-below first n [] lt h = refl
as_new-below first n (r ∷ rows) lt h = ground (arith, h.0, as_new-below first n rows lt h.1)

as_new-le : (n : ℕ) (rows : List Row) → as_new n rows ≤ length rows
as_new-le n [] = omega arith
as_new-le n (r ∷ rows) = ground (arith, as_new-le n rows)

-- In rows that are in order, a number is newer than the one at an offset exactly if no more rows
-- than that are as new as it.
row_at-as_new :
    (max n : ℕ) (rows : List Row) (last : Row)
    → IsSorted newer_le rows
    → row_at max rows ≡ some last
    → ltb last.seq n ≡ leb (as_new n rows) max
row_at-as_new max n [] last s e = absurd (ground (arith, e))
row_at-as_new zero n (r ∷ rows) last s e =
    let same : r ≡ last = ground arith in
    let seq : last.seq ≡ r.seq = ap (λ (r : Row). r.seq) (sym same) in
    elim (Bool-cases (ltb r.seq n)) [
      | inl lt ↦ ground (arith, lt, seq, as_new-below r n rows (ground (arith, lt)) s.0)
      | inr ge ↦ ground (arith, ge, seq)
    ]
row_at-as_new (suc max) n (r ∷ rows) last s e =
    let older : newer_le r last ≡ true = row_at-All _ max rows last s.0 e in
    ground (arith, older, row_at-as_new max n rows last s.1 e)

-- Whether a row is among the newest: the rows as new as it, with itself, are that many at most.
abbrev pub is_among_newest : ℕ → List Row → Row → Bool
is_among_newest max rows r = leb (as_new r.seq rows) max

keep_if-eq :
    (p q : Row → Bool) (rows : List Row) → ((r : Row) → p r ≡ q r) → keep_if p rows ≡ keep_if q rows
keep_if-eq p q [] h = refl
keep_if-eq p q (r ∷ rows) h = ground (arith, h r, keep_if-eq p q rows h)

keep_if-all : (p : Row → Bool) (rows : List Row) → ((r : Row) → p r ≡ true) → rows ≡ keep_if p rows
keep_if-all p [] h = refl
keep_if-all p (r ∷ rows) h = ground (arith, h r, keep_if-all p rows h)

-- What is left is exactly what is among the newest.
drop_beyond-newest :
    (max : ℕ) (rows : List Row) → drop_beyond max rows ≡ keep_if (is_among_newest max rows) rows
unfolding drop_beyond newest_first
drop_beyond-newest max rows =
    let ordered = sort newer_le rows in
    let count : (n : ℕ) → as_new n ordered ≡ as_new n rows =
      λ n. length-keep_if-sort newer_le (λ (r : Row). not (ltb r.seq n)) rows in
    elim (Option-cases (row_at max ordered)) [
      | inl e ↦ rw e (
          keep_if-all (is_among_newest max rows) rows (λ r.
            ground
              (arith, row_at-none max ordered e, length-sort newer_le rows, as_new-le r.seq rows)))
      | inr (last, e) ↦ rw e (
          keep_if-eq (λ (r : Row). ltb last.seq r.seq) (is_among_newest max rows) rows
            (λ r.
              row_at-as_new max r.seq ordered last (sort-IsSorted newer_le newer_order rows) e
              ∙ ap (λ n. leb n max) (count r.seq)))
    ]

-- At most the number asked for is left, and nothing goes where no more are there.
drop_beyond-bounds :
    (n : ℕ) (rows : List Row)
    → (length (drop_beyond n rows) ≤ n) × ((n < length rows) ⊎ (drop_beyond n rows ≡ rows))
unfolding drop_beyond newest_first
drop_beyond-bounds n rows =
    let ordered = sort newer_le rows in
    let size : length ordered ≡ length rows = length-sort newer_le rows in
    elim (Option-cases (row_at n ordered)) [
      | inl e ↦ rw e (omega (arith, row_at-none n ordered e), inr refl)
      | inr (last, e) ↦ rw e (
        omega (
          arith,
          length-newer-le n ordered last (sort-IsSorted newer_le newer_order rows) e,
          length-keep_if-sort newer_le (λ (r : Row). ltb last.seq r.seq) rows,
        ),
        inl (omega (arith, row_at-some n ordered last e)),
      )
    ]

All-drop_old : (n : ℕ) (rows : List Row) → All (λ r. n ≤ r.time_ms) (drop_old n rows)
unfolding drop_old
All-drop_old n [] = tt
All-drop_old n (r ∷ rows) = elim (Bool-cases (ltb r.time_ms n)) [
  | inl e ↦ rw e (All-drop_old n rows)
  | inr e ↦ rw e (ground arith, All-drop_old n rows)
]

All-drop_beyond :
    (n m : ℕ) (rows : List Row)
    → All (λ r. n ≤ r.time_ms) rows
    → All (λ r. n ≤ r.time_ms) (drop_beyond m rows)
unfolding drop_beyond
All-drop_beyond n m rows h = elim (Option-cases (row_at m (newest_first rows))) [
  | inl e ↦ rw e h
  | inr (last, e) ↦ rw e (All-keep_if (λ (r : Row). ltb last.seq r.seq) _ rows h)
]

-- After a sweep that SQLite does not refuse, the table has at most as many rows as it may, none of
-- them is older than the retention, and no row goes that need not: of the rows that are not older,
-- exactly those stay, in their order, that are among the newest as many as it may have.
pub sweep-bounds :
    (now : ℕ) (s : LogStore)
    → (length (sweep now false false s).table ≤ pos_part s.opts.max_rows)
      × All (λ r. cutoff now s.opts ≤ r.time_ms) (sweep now false false s).table
      × ((pos_part s.opts.max_rows < length (drop_old (cutoff now s.opts) s.table))
          ⊎ ((sweep now false false s).table ≡ drop_old (cutoff now s.opts) s.table))
      × ((sweep now false false s).table
          ≡ keep_if
              (is_among_newest (pos_part s.opts.max_rows) (drop_old (cutoff now s.opts) s.table))
              (drop_old (cutoff now s.opts) s.table))
unfolding sweep
sweep-bounds now s =
    let old = cutoff now s.opts in
    let rows = drop_old old s.table in
    let (few, all) = drop_beyond-bounds (pos_part s.opts.max_rows) rows in
    (
      few,
      All-drop_beyond old (pos_part s.opts.max_rows) rows (All-drop_old old s.table),
      all,
      drop_beyond-newest (pos_part s.opts.max_rows) rows,
    )
