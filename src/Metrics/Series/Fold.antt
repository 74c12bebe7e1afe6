-- ===== src/Metrics/Series/Fold.antt =====
-- metrics/store.go: what a sweep makes of the full resolution rows.
use hostd.Base.{
  ◌*◌, ◌/◌, ◌≡◌, refl, inl, inr, Bool, true, not, List, [], ◌∷◌, map, arith, beq_iff, any, keep_if,
  Bool-cases,
}
use hostd.Metrics.{Float}
use hostd.Metrics.Series.{
  Reading, same_series, same_key, same_minute, groups, minute_row, minute_step,
}

module _ {f : Float} where
  same_series_trans :
      (a b c : Reading f) → same_series a b ≡ true → same_series b c ≡ true → same_series a c ≡ true
  unfolding same_series
  same_series_trans a b c h k = ground (
    arith,
    beq_iff a.metric b.metric,
    beq_iff b.metric c.metric,
    beq_iff a.metric c.metric,
    beq_iff a.scope b.scope,
    beq_iff b.scope c.scope,
    beq_iff a.scope c.scope,
    beq_iff a.name b.name,
    beq_iff b.name c.name,
    beq_iff a.name c.name,
  )

  same_series_sym : (a b : Reading f) → same_series a b ≡ true → same_series b a ≡ true
  unfolding same_series
  same_series_sym a b h = ground (
    arith,
    beq_iff a.metric b.metric,
    beq_iff b.metric a.metric,
    beq_iff a.scope b.scope,
    beq_iff b.scope a.scope,
    beq_iff a.name b.name,
    beq_iff b.name a.name,
  )

  pub same_key_sym : (a b : Reading f) → same_key a b ≡ true → same_key b a ≡ true
  unfolding same_key
  same_key_sym a b h = ground (arith, same_series_sym a b)

  same_minute_trans :
      (a b c : Reading f) → same_minute a b ≡ true → same_minute b c ≡ true → same_minute a c ≡ true
  unfolding same_minute
  same_minute_trans a b c h k = ground (arith, same_series_trans a b c)

  -- A key that is in a list is in what a filter keeps, if it keeps all that have the key.
  any-keep_if :
      (p q : Reading f → Bool) (rows : List (Reading f))
      → ((r : Reading f) → p r ≡ true → q r ≡ true)
      → any p rows ≡ true
      → any p (keep_if q rows) ≡ true
  any-keep_if p q [] h e = e
  any-keep_if p q (r ∷ rows) h e = ground (arith, h r, any-keep_if p q rows h)

  -- Each row has one of its group.
  pub any-groups :
      (m : Reading f) (rs : List (Reading f))
      → any (λ r. same_minute r m) rs ≡ true
      → any (λ r. same_minute r m) (groups rs) ≡ true
  unfolding groups
  any-groups m [] e = e
  any-groups m (r ∷ rs) e = elim (Bool-cases (same_minute r m)) [
    | inl same ↦ rw same refl
    | inr other ↦ rw other (
        any-keep_if (λ row. same_minute row m) (λ row. not (same_minute r row)) (groups rs)
          (λ row h. ground (arith, same_minute_trans r row m, h, other))
          (any-groups m rs (ground (arith, other, e))))
  ]

  -- The key of a minute's row.
  abbrev pub minute_key : Reading f → Reading f
  minute_key r = record r { step_ms = minute_step; time_ms = r.time_ms / minute_step * minute_step }

  minute_row-key :
      (folded : List (Reading f)) (r m : Reading f)
      → same_minute r m ≡ true
      → same_key (minute_key m) (minute_row folded r) ≡ true
  unfolding same_key same_minute same_series minute_row
  minute_row-key folded r m h = ground (
    arith,
    beq_iff r.metric m.metric,
    beq_iff m.metric r.metric,
    beq_iff r.scope m.scope,
    beq_iff m.scope r.scope,
    beq_iff r.name m.name,
    beq_iff m.name r.name,
  )

  pub any-minute_rows :
      (m : Reading f) (folded rs : List (Reading f))
      → any (λ r. same_minute r m) rs ≡ true
      → any (same_key (minute_key m)) (map (minute_row folded) rs) ≡ true
  unfolding minute_row
  any-minute_rows m folded [] e = e
  any-minute_rows m folded (r ∷ rs) e = elim (Bool-cases (same_minute r m)) [
    | inl same ↦ rw (minute_row-key folded r m same) refl
    | inr other ↦ ground (arith, other, e, any-minute_rows m folded rs)
  ]
