-- ===== src/Logs/Writer/Count.antt =====
-- logs/store.go: how many of the lines that a test holds of are on their way or in the table.
pub mod Moves
pub mod Whole
pub mod Distinct
use hostd.Base.{
  ℕ, zero, suc, ◌+◌, ◌≡◌, ◌≤◌, ◌⊎◌, inl, inr, refl, Bool, true, false, Option, none, some, List, [],
  ◌∷◌, ◌++◌, arith, length, any, keep_if, if◌then◌else◌, Bool-cases, Option-cases, is_some, map,
}
use hostd.Strings.{is_empty}
use hostd.Logs.{Record}
use hostd.Logs.Writer.{Row, LogStore, row_of, insert_rows, write_batch, flush, flushed}
use hostd.Logs.Writer.Steps.{pick, beside}

abbrev pub one : Bool → ℕ
one true = 1
one false = 0

abbrev pub count {ℓ} : {A : Type ℓ} → (A → ℕ) → (ℕ → Bool) → List A → ℕ
count f p [] = 0
count f p (x ∷ xs) = one (p (f x)) + count f p xs

abbrev pub lines_of : (ℕ → Bool) → List Record → ℕ
lines_of = count (λ r. r.seq)

abbrev pub rows_of : (ℕ → Bool) → List Row → ℕ
rows_of = count (λ r. r.seq)

-- The lines whose number the test holds of, wherever they are.
abbrev pub held : (ℕ → Bool) → LogStore → ℕ
held p s =
    lines_of p s.numbered
    + lines_of p s.told
    + lines_of p s.queue
    + lines_of p s.batch
    + rows_of p s.table

abbrev pub everything : ℕ → Bool
everything n = true

module _ {ℓ} {A : Type ℓ} (f : A → ℕ) (p : ℕ → Bool) where
  pub count-append : (xs ys : List A) → count f p (xs ++ ys) ≡ count f p xs + count f p ys
  count-append [] ys = omega arith
  count-append (x ∷ xs) ys = omega (arith, count-append xs ys)

  pub count-keep_if_le : (q : A → Bool) (xs : List A) → count f p (keep_if q xs) ≤ count f p xs
  count-keep_if_le q [] = omega arith
  count-keep_if_le q (x ∷ xs) = ground (arith, count-keep_if_le q xs)

  -- What is picked and what is left is all.
  abbrev pub IsSplit : ℕ → Option (A × List A) → Type 0
  IsSplit total none = Unit
  IsSplit total (some (y, ys)) = total ≡ one (p (f y)) + count f p ys

  IsSplit-beside :
      (x : A) (total : ℕ) (o : Option (A × List A))
      → IsSplit total o
      → IsSplit (one (p (f x)) + total) (beside x o)
  IsSplit-beside x total none h = tt
  IsSplit-beside x total (some (y, ys)) h = omega (arith, h)

  pub pick-IsSplit : (k : ℕ) (xs : List A) → IsSplit (count f p xs) (pick k xs)
  pick-IsSplit k [] = tt
  pick-IsSplit zero (x ∷ xs) = refl
  pick-IsSplit (suc k) (x ∷ xs) = IsSplit-beside x (count f p xs) (pick k xs) (pick-IsSplit k xs)

pub count-everything {ℓ} :
    {A : Type ℓ} (f : A → ℕ) (xs : List A) → count f everything xs ≡ length xs
count-everything f [] = refl
count-everything f (x ∷ xs) = omega (arith, count-everything f xs)

module _ (p : ℕ → Bool) where
  pub rows_of-insert_rows :
      (table : List Row) (batch : List Record) (rows : List Row)
      → insert_rows table batch ≡ some rows
      → rows_of p rows ≡ rows_of p table + lines_of p batch
  unfolding insert_rows row_of
  rows_of-insert_rows table [] rows e = ground arith
  rows_of-insert_rows table (r ∷ rs) rows e = ground (
    arith,
    rows_of-insert_rows (table ++ row_of r ∷ []) rs rows,
    count-append (λ (r : Row). r.seq) p table (row_of r ∷ []),
  )

write_batch-rows :
    (refused : Bool) (table rows : List Row) (batch : List Record)
    → write_batch refused table batch ≡ some rows
    → insert_rows table batch ≡ some rows
unfolding write_batch
write_batch-rows refused table rows batch e = ground (arith, e)

-- A flush finds nothing, loses its batch, or has it in the table.
pub flush-cases :
    (refused : Bool) (s : LogStore)
    → ((flush refused s ≡ s) × (s.batch ≡ []))
      ⊎ ((flush refused s ≡ flushed none s)
          ⊎ ((rows : List Row) × (flush refused s ≡ flushed (some rows) s)
              × (insert_rows s.table s.batch ≡ some rows)))
unfolding flush
flush-cases refused s = split s.batch refl
  where
    split :
        (batch : List Record)
        → s.batch ≡ batch
        → ((flush refused s ≡ s) × (s.batch ≡ []))
          ⊎ ((flush refused s ≡ flushed none s)
              ⊎ ((rows : List Row) × (flush refused s ≡ flushed (some rows) s)
                  × (insert_rows s.table s.batch ≡ some rows)))
    split [] e = inl (rw e refl, e)
    split (r ∷ rs) e =
        let some_lines : is_empty s.batch ≡ false = rw e refl in
        elim (Option-cases (write_batch refused s.table s.batch)) [
          | inl lost ↦ inr (inl (rw (some_lines, lost) refl))
          | inr (rows, there) ↦ inr (
              inr (
                rows,
                rw (some_lines, there) refl,
                write_batch-rows refused s.table rows s.batch there,
              ))
        ]
