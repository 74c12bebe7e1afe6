-- ===== src/Logs/Search/Order.antt =====
-- The rows of a table in the order of their numbers.
use mathlib.Core.Bool.{Bool-set}
use mathlib.Core.List.{Pairwise, Mem, mem-cons, not-mem-nil, reverse, reverse_perm}
use mathlib.Core.List.Perm
use mathlib.Core.Logic.Or
use native.Mathlib.Nat.{ℕ_set}
use mathlib.Core.HLevel.{Π_prop}
use hostd.Base.{
  ℕ, ◌≡◌, ◌≤◌, refl, sym, ◌∙◌, Bool, true, false, not, List, [], ◌∷◌, arith, any, ltb, ◌==◌, sort,
  put_in_order, IsSorted, IsTotalOrder, ToldApart, sort-eq_of_perm, sort-perm, sort-IsSorted,
  reverse-IsSorted, All,
}
use hostd.Logs.Writer.{Row, newer_le, newest_first}
use hostd.Logs.Writer.Count.{rows_of}
use hostd.Logs.Writer.Count.Distinct.{is, any-rows_of}

abbrev pub older_le : Row → Row → Bool
older_le a b = not (ltb b.seq a.seq)

-- The rows by their numbers.
unfoldable pub oldest_first : List Row → List Row
oldest_first rows = sort older_le rows

newer_order : IsTotalOrder newer_le
newer_order = record { total = λ a b. ground arith; trans = λ a b c h k. ground arith }

older_order : IsTotalOrder older_le
older_order = record { total = λ a b. ground arith; trans = λ a b c h k. ground arith }

row_set : IsSet Row
row_set = hlevel ℕ_set

module _ {ℓ} {A : Type ℓ} (le : A → A → Bool) where
  -- Nothing moves in a list that is in order.
  pub sort_sorted : (xs : List A) → IsSorted le xs → sort le xs ≡ xs
  unfolding sort
  sort_sorted [] s = refl
  sort_sorted (x ∷ xs) s = rw (sort_sorted xs s.1) (first x xs s.0)
    where
      first : (x : A) (xs : List A) → All (λ y. le x y ≡ true) xs → put_in_order le x xs ≡ x ∷ xs
      first x [] h = unfold put_in_order in refl
      first x (y ∷ ys) h = unfold put_in_order in rw h.0 refl

any_of_mem :
    (r : Row) (rows : List Row) → Mem r rows → any (λ (row : Row). row.seq == r.seq) rows ≡ true
any_of_mem r [] i = absurd (not-mem-nil i)
any_of_mem r (x ∷ xs) i =
    Or.elim (Bool-set _ _) (mem-cons.0 i) (λ here. rw (sym here) (ground arith))
      (λ later. ground (arith, any_of_mem r xs later))

ToldApart-prop : (a b : Row) → IsProp (ToldApart newer_le a b)
ToldApart-prop a b = Π_prop λ h. Π_prop λ k. row_set a b

pub Pairwise-distinct :
    (rows : List Row) → ((n : ℕ) → rows_of (is n) rows ≤ 1) → Pairwise (ToldApart newer_le) rows
Pairwise-distinct [] h = Pairwise.nil
Pairwise-distinct (r ∷ rows) h =
    let alone : any (λ (row : Row). row.seq == r.seq) rows ≡ false =
      any-rows_of r.seq rows (ground (arith, h r.seq)) in
    Pairwise.cons (λ b i. apart r b rows alone i)
      (Pairwise-distinct rows (λ n. ground (arith, h n)))
  where
    same_seq : (a b : Row) → newer_le a b ≡ true → newer_le b a ≡ true → b.seq ≡ a.seq
    same_seq a b h k = ground arith

    apart :
        (a b : Row) (rows : List Row)
        → any (λ (row : Row). row.seq == a.seq) rows ≡ false
        → Mem b rows
        → ToldApart newer_le a b
    apart a b rows alone i h k =
        let there : any (λ (row : Row). row.seq == a.seq) rows ≡ true =
          rw (← same_seq a b h k) (any_of_mem b rows i) in
        absurd (ground (arith, there, alone))

pub newest_first-reverse :
    (rows : List Row)
    → ((n : ℕ) → rows_of (is n) rows ≤ 1)
    → newest_first rows ≡ reverse (oldest_first rows)
unfolding newest_first oldest_first
newest_first-reverse rows h =
    let sorted = sort older_le rows in
    sort-eq_of_perm newer_le newer_order row_set
      (Perm.trans (Perm.symm (sort-perm older_le rows)) (Perm.symm (reverse_perm sorted)))
      (Pairwise-distinct rows h)
    ∙ sort_sorted newer_le (reverse sorted)
        (reverse-IsSorted older_le sorted (sort-IsSorted older_le older_order rows))
