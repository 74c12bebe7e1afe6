-- ===== src/Docker/Pull/Said.antt =====
-- What a pull ends with, and how often a transfer says where it got to.
use Prim.Native.Nat.{◌-◌}
use hostd.Base.{
  ℕ, ◌+◌, ◌*◌, ◌≤◌, ◌≡◌, refl, ap, ◌∙◌, inl, inr, Bool, true, false, not, ◌||◌, List, [], ◌∷◌, ◌++◌,
  Text, ltb, length, All, arith, Bool-cases, if◌then◌else◌,
}
use hostd.Strings.{is_empty}
use hostd.Docker.{Answer, got, failed, reported}
use hostd.Docker.Pull.{
  progress_interval, PullLine, Decoded, unread, line, Pulling, take_line, finish_pull, pull_lines,
  no_lines, pull, Counter, count_from, count_read, count_reads, report_text,
}

-- Reports from one instant to another, each an interval or more after the one before.
abbrev pub Spaced : {A : Type 0} → ℕ → List (ℕ × A) → ℕ → Type 0
Spaced a [] b = a ≡ b
Spaced a ((t, said) ∷ rs) b = (a + progress_interval ≤ t) × Spaced t rs b

module _ {A : Type 0} where
  Spaced-concat :
      (a b t : ℕ) (rs : List (ℕ × A)) (said : A)
      → Spaced a rs b
      → b + progress_interval ≤ t
      → Spaced a (rs ++ (t, said) ∷ []) t
  Spaced-concat a b t [] said h late = omega (arith, h)
  Spaced-concat a b t ((u, x) ∷ rs) said h late = (h.0, Spaced-concat u b t rs said h.1 late)

  -- So many reports take so long.
  pub Spaced-length :
      (a b : ℕ) (rs : List (ℕ × A)) → Spaced a rs b → a + length rs * progress_interval ≤ b
  Spaced-length a b [] h = omega (arith, h)
  Spaced-length a b ((t, x) ∷ rs) h = omega (arith, h.0, Spaced-length t b rs h.1)

passed :
    (deaf empty : Bool) (now said : ℕ)
    → (deaf || empty || ltb (now - said) progress_interval) ≡ false
    → said + progress_interval ≤ now
passed true empty now said h = cc
passed false true now said h = cc
passed false false now said h = ground arith

IsPaced : ℕ → Pulling → Type 0
IsPaced a p = Spaced a p.reports p.said

take_line-IsPaced :
    (a : ℕ) (listening : Bool) (now : ℕ) (l : PullLine) (p : Pulling)
    → IsPaced a p
    → IsPaced a (take_line listening now l p)
unfolding IsPaced take_line
take_line-IsPaced a listening now l p h = elim (Bool-cases (not (is_empty l.error))) [
  | inl e ↦ rw e h
  | inr e ↦
      rw e
        (elim (Bool-cases
          (not listening || is_empty l.status || ltb (now - p.said) progress_interval)) [
            | inl quiet ↦ rw quiet h
            | inr loud ↦ rw loud (
                Spaced-concat a p.said now p.reports (report_text l) h
                  (passed (not listening) (is_empty l.status) now p.said loud))
          ])
]

-- The errors that the runtime streams, in order, and the last of them.
abbrev pub errors_of : List Decoded → List Text
errors_of [] = []
errors_of (unread ∷ ds) = errors_of ds
errors_of (line now l ∷ ds) = if is_empty l.error then errors_of ds else l.error ∷ errors_of ds

abbrev pub last_of : Text → List Text → Text
last_of t [] = t
last_of t (u ∷ us) = last_of u us

abbrev pub IsRead : Decoded → Type 0
IsRead unread = ⊥
IsRead (line now l) = Unit

abbrev pub ended : Text → Answer (Unit {0})
ended e = if is_empty e then got tt else failed (reported e)

take_line-error :
    (listening : Bool) (now : ℕ) (l : PullLine) (p : Pulling)
    → (take_line listening now l p).error ≡ (if is_empty l.error then p.error else l.error)
unfolding take_line
take_line-error listening now l p = ground arith

last_of-step :
    (e : Text) (b : Bool) (u : Text) (us : List Text)
    → last_of (if b then e else u) us ≡ last_of e (if b then us else u ∷ us)
last_of-step e true u us = refl
last_of-step e false u us = refl

pull_lines-errors :
    (listening : Bool) (ds : List Decoded) (p : Pulling)
    → All IsRead ds
    → (pull_lines listening ds p).0 ≡ ended (last_of p.error (errors_of ds))
unfolding pull_lines finish_pull
pull_lines-errors listening [] p h = refl
pull_lines-errors listening (unread ∷ ds) p h = elim h.0 [ ]
pull_lines-errors listening (line now l ∷ ds) p h =
    pull_lines-errors listening ds (take_line listening now l p) h.1
    ∙ ap (λ e. ended (last_of e (errors_of ds))) (take_line-error listening now l p)
    ∙ ap ended (last_of-step p.error (is_empty l.error) l.error (errors_of ds))

pull_lines-IsPaced :
    (a : ℕ) (listening : Bool) (ds : List Decoded) (p : Pulling)
    → IsPaced a p
    → (b : ℕ) × Spaced a (pull_lines listening ds p).1 b
unfolding pull_lines finish_pull
pull_lines-IsPaced a listening [] p h = (p.said, unfold IsPaced in h)
pull_lines-IsPaced a listening (unread ∷ ds) p h = (p.said, unfold IsPaced in h)
pull_lines-IsPaced a listening (line now l ∷ ds) p h =
    pull_lines-IsPaced a listening ds (take_line listening now l p)
      (take_line-IsPaced a listening now l p h)

-- When every line of the stream can be decoded, a pull fails exactly if one of them names an
-- error, and with the last error named; its reports are a second or more apart.
pub pull-last_of :
    (listening : Bool) (ds : List Decoded)
    → All IsRead ds
    → ((pull listening ds).0 ≡ ended (last_of [] (errors_of ds)))
      × ((b : ℕ) × Spaced 0 (pull listening ds).1 b)
unfolding pull
pull-last_of listening ds read = (
  pull_lines-errors listening ds no_lines read,
  pull_lines-IsPaced 0 listening ds no_lines (unfold IsPaced in refl),
)

abbrev pub sum_reads : List (ℕ × ℕ) → ℕ
sum_reads [] = 0
sum_reads ((now, read) ∷ rs) = read + sum_reads rs

record IsCounted (a : ℕ) (read : ℕ) (c : Counter) : Type 0 where
  total : c.total ≡ read
  spaced : Spaced a c.reports c.said

count_reads-IsCounted :
    (a read : ℕ) (rs : List (ℕ × ℕ)) (c : Counter)
    → IsCounted a read c
    → IsCounted a (read + sum_reads rs) (count_reads rs c)
unfolding count_reads
count_reads-IsCounted a read [] c h = record { total = omega (arith, h.total); spaced = h.spaced }
count_reads-IsCounted a read ((now, more) ∷ rs) c h =
    let e : read + sum_reads ((now, more) ∷ rs) ≡ read + more + sum_reads rs = omega arith in
    rw e (count_reads-IsCounted a (read + more) rs (count_read (now, more) c) one)
  where
    one : IsCounted a (read + more) (count_read (now, more) c)
    one =
        unfold count_read in
        elim (Bool-cases (ltb (now - c.said) progress_interval)) [
          | inl soon ↦ rw soon (record { total = omega (arith, h.total); spaced = h.spaced })
          | inr late ↦ rw late (record {
            total = omega (arith, h.total);
            spaced =
                Spaced-concat a c.said now c.reports (c.total + more) h.spaced
                  (passed false false now c.said late);
          })
        ]

-- A transfer counts every byte that is read, and says so once a second at most: so many reports
-- from the start on take so many seconds.
pub count_reads-total :
    (now : ℕ) (rs : List (ℕ × ℕ))
    → let c = count_reads rs (count_from now) in
      (c.total ≡ sum_reads rs)
      × Spaced now c.reports c.said
      × (now + length c.reports * progress_interval ≤ c.said)
unfolding count_from
count_reads-total now rs =
    let h =
      count_reads-IsCounted now 0 rs (count_from now) (record { total = refl; spaced = refl }) in
    (omega (arith, h.total), h.spaced, Spaced-length now _ _ h.spaced)
