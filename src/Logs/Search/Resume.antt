-- ===== src/Logs/Search/Resume.antt =====
-- logs/store.go: where a reader of a container's output resumes.
use hostd.Base.{
  ℕ, ◌+◌, ◌*◌, ◌≡◌, ◌≤◌, ◌<◌, ◌⊎◌, inl, inr, refl, ap, ◌∙◌, any, ◌&&◌, Bool, true, false, ◌||◌,
  Option, none, some, List, [], ◌∷◌, ◌++◌, map, arith, Text, All, keep_if, ◌==◌, if◌then◌else◌,
  Bool-cases,
}
use hostd.Logs.Writer.{Row, LogStore, row_of}
use hostd.Logs.Writer.Steps.{drain}
use hostd.Logs.Writer.Count.Distinct.{IsDistinct, drain-table}
use hostd.Logs.Search.{last_at, newest_ms, is_output}

-- What a resume at an instant says of a row: it is not of the service's output, or it has no time,
-- or it is before the instant.
abbrev pub IsBefore : Text → ℕ → Row → Type 0
IsBefore service t row =
    (is_output service row ≡ false) ⊎ ((row.time_ms ≡ 0) ⊎ (row.time_ms * 1000000 < t))

-- A row of the output that ends one millisecond before the instant.
abbrev pub ends_at : Text → ℕ → List Row → Bool
ends_at service t = any (λ row. is_output service row && ((row.time_ms + 1) * 1000000 == t))

newest_ms-IsBefore :
    (service : Text) (m : ℕ) (rows : List Row)
    → newest_ms (keep_if (is_output service) rows) ≤ m
    → All (IsBefore service ((m + 1) * 1000000)) rows
unfolding newest_ms
newest_ms-IsBefore service m [] h = tt
newest_ms-IsBefore service m (r ∷ rows) h = elim (Bool-cases (is_output service r)) [
  | inl e ↦ (inr (inr (ground arith)), newest_ms-IsBefore service m rows (ground arith))
  | inr e ↦ (inl e, newest_ms-IsBefore service m rows (ground arith))
]

newest_ms-ends :
    (service : Text) (rows : List Row)
    → (newest_ms (keep_if (is_output service) rows) ≡ 0)
      ⊎ (ends_at service ((newest_ms (keep_if (is_output service) rows) + 1) * 1000000) rows ≡ true)
unfolding newest_ms
newest_ms-ends service [] = inl refl
newest_ms-ends service (r ∷ rows) = ground (arith, newest_ms-ends service rows)

no_time :
    (service : Text) (rows : List Row)
    → newest_ms (keep_if (is_output service) rows) ≡ 0
    → All (IsBefore service 0) rows
unfolding newest_ms
no_time service [] h = tt
no_time service (r ∷ rows) h = elim (Bool-cases (is_output service r)) [
  | inl e ↦ (inr (inl (ground arith)), no_time service rows (ground arith))
  | inr e ↦ (inl e, no_time service rows (ground arith))
]

-- In an open store whose numbers are distinct, where SQLite refuses nothing, the instant at which a
-- reader resumes is behind each line of the service's output that has a time, those on their way
-- from the queue included, and it is zero or one millisecond behind one of them.
pub last_at-resumes :
    (service : Text) (s : LogStore)
    → IsDistinct s
    → s.closed ≡ false
    → (t : ℕ) × ((last_at false false service s).0 ≡ some t)
      × All (IsBefore service t) (s.table ++ map row_of (s.batch ++ s.queue))
      × ((t ≡ 0) ⊎ (ends_at service t (s.table ++ map row_of (s.batch ++ s.queue)) ≡ true))
unfolding last_at
last_at-resumes service s d is_open =
    let all = s.table ++ map row_of (s.batch ++ s.queue) in
    let newest = newest_ms (keep_if (is_output service) all) in
    let answer : (last_at false false service s).0
        ≡ (if newest == 0 then some 0 else some ((newest + 1) * 1000000)) =
      answer_open (λ t. instant (newest_ms (keep_if (is_output service) t.table))) s.closed s
        (drain false s) is_open
      ∙ ap (λ (t : LogStore). instant (newest_ms (keep_if (is_output service) t.table)))
          (drain-table s d) in
    elim (Bool-cases (newest == 0)) [
      | inl e ↦ (0, answer ∙ rw e refl, no_time service all (ground arith), inl refl)
      | inr e ↦ (
        (newest + 1) * 1000000,
        answer ∙ rw e refl,
        newest_ms-IsBefore service newest all (omega arith),
        inr (ground (arith, newest_ms-ends service all)),
      )
    ]
  where
    instant : ℕ → Option ℕ
    instant n = if n == 0 then some 0 else some ((n + 1) * 1000000)

    answer_open :
        (f : LogStore → Option ℕ) (closed : Bool) (s s' : LogStore)
        → closed ≡ false
        → (if closed || false then none else f (if closed then s else s')) ≡ f s'
    answer_open f true s s' e = absurd (ground arith)
    answer_open f false s s' e = refl
