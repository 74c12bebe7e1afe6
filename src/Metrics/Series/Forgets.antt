-- ===== src/Metrics/Series/Forgets.antt =====
-- metrics/store.go: a minute that is folded again.
use hostd.Base.{
  ℕ, ◌≡◌, refl, ap, inl, inr, Bool, true, not, List, [], ◌∷◌, ◌++◌, map, arith, any, keep_if,
  if◌then◌else◌, Bool-cases,
}
use hostd.Metrics.{Float}
use hostd.Metrics.Series.{
  Reading, same_series, same_key, same_minute, replace, replace_all, is_old_raw, groups, minute_row,
  fold_rows,
}
use hostd.Metrics.Series.Fold.{minute_key, same_key_sym, any-groups, any-minute_rows}

module _ {f : Float} where
  keep_if-append :
      (q : Reading f → Bool) (xs ys : List (Reading f))
      → keep_if q (xs ++ ys) ≡ keep_if q xs ++ keep_if q ys
  keep_if-append q [] ys = refl
  keep_if-append q (x ∷ xs) ys = ground (arith, keep_if-append q xs ys)

  replace-split :
      (r m : Reading f) (xs ys : List (Reading f))
      → replace r (xs ++ m ∷ ys)
        ≡ r
          ∷ (keep_if (λ row. not (same_key r row)) xs
              ++ (if not (same_key r m)
                  then m ∷ keep_if (λ row. not (same_key r row)) ys
                  else keep_if (λ row. not (same_key r row)) ys))
  unfolding replace
  replace-split r m xs ys =
      ap (λ l. r ∷ l) (keep_if-append (λ row. not (same_key r row)) xs (m ∷ ys))

  -- A row that is replaced leaves nothing of its value.
  replace_all-forgets :
      (m m' : Reading f) (rs xs ys : List (Reading f))
      → ((r : Reading f) → same_key r m' ≡ same_key r m)
      → any (λ r. same_key r m) rs ≡ true
      → replace_all rs (xs ++ m ∷ ys) ≡ replace_all rs (xs ++ m' ∷ ys)
  unfolding replace_all
  replace_all-forgets m m' [] xs ys h e = absurd (ground (arith, e))
  replace_all-forgets m m' (r ∷ rs) xs ys h e =
      let rest = keep_if (λ row. not (same_key r row)) ys in
      let front = keep_if (λ row. not (same_key r row)) xs in
      elim (Bool-cases (same_key r m)) [
        | inl same ↦ rw (replace-split r m xs ys, replace-split r m' xs ys, h r, same) refl
        | inr other ↦
            rw (replace-split r m xs ys, replace-split r m' xs ys, h r, other)
              (replace_all-forgets m m' rs (r ∷ front) rest h (ground (arith, other, e)))
      ]

  any-sym :
      (k : Reading f) (rs : List (Reading f))
      → any (same_key k) rs ≡ true
      → any (λ r. same_key r k) rs ≡ true
  any-sym k [] e = e
  any-sym k (r ∷ rs) e = ground (arith, e, same_key_sym k r, any-sym k rs)

  -- Where rows of full resolution are folded into a minute, whatever the minute's row was before is
  -- gone: the average of what an earlier sweep folded into it does not count. (A sweep folds up to
  -- an instant inside a minute, so a minute is mostly folded in two rounds.)
  pub fold_rows-forgets :
      (fold : ℕ) (r : Reading f) (v w : f.Value) (rows : List (Reading f))
      → any (λ row. same_minute row r) (keep_if (is_old_raw fold) rows) ≡ true
      → fold_rows fold (record (minute_key r) { value = v } ∷ rows)
        ≡ fold_rows fold (record (minute_key r) { value = w } ∷ rows)
  unfolding fold_rows is_old_raw
  fold_rows-forgets fold r v w rows e =
      let folded = keep_if (is_old_raw fold) rows in
      let made = map (minute_row folded) (groups folded) in
      replace_all-forgets (record (minute_key r) { value = v })
        (record (minute_key r) { value = w }) made [] rows (λ k. same_key-value k v w)
        (any-value v made (
          any-sym (minute_key r) made
            (any-minute_rows r folded (groups folded) (any-groups r folded e))))
    where
      same_key-value :
          (k : Reading f) (v w : f.Value)
          → same_key k (record (minute_key r) { value = w })
            ≡ same_key k (record (minute_key r) { value = v })
      same_key-value k v w = unfold same_key same_series in refl

      any-value :
          (v : f.Value) (rs : List (Reading f))
          → any (λ k. same_key k (minute_key r)) rs ≡ true
          → any (λ k. same_key k (record (minute_key r) { value = v })) rs ≡ true
      any-value v rs e = unfold same_key same_series in e
