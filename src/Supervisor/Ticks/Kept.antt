-- ===== src/Supervisor/Ticks/Kept.antt =====
-- The ring holds the last rounds, each once, and a percentile is one of them.
use mathlib.Core.List.{Perm, perm_append_comm}
use mathlib.Core.List.Perm
use Prim.Native.Nat.{◌%◌, ◌-◌}
use hostd.Base.{
  ℕ, zero, suc, ◌+◌, ◌^◌, ◌≤◌, ◌<◌, ◌≡◌, refl, sym, ap, ◌∙◌, ◌⊎◌, inl, inr, some, List, [], ◌∷◌,
  ◌++◌, append-nil, append_assoc, ltb, leb, take, drop, take_last, length, length-append,
  take_last-take_last, take_last_all, sort, arith, if◌then◌else◌, min,
}
use hostd.Supervisor.Status.{Status}
use hostd.Supervisor.Ticks.{
  tick_samples, set, Ticks, zeros, no_ticks, sample_tick, sample_each, samples_of, percentile,
  get_elem?, stats,
}

set-front :
    (front back : List ℕ) (x d : ℕ) → set (front ++ x ∷ back) (length front) d ≡ front ++ d ∷ back
unfolding set
set-front [] back x d = refl
set-front (y ∷ front) back x d = ap (λ (l : List ℕ). y ∷ l) (set-front front back x d)

-- One more behind the last `n`, of which there are `n`.
take_last-concat :
    (n : ℕ) (xs : List ℕ) (y d : ℕ) (ys : List ℕ)
    → take_last n xs ≡ y ∷ ys
    → length ys + 1 ≡ n
    → take_last n (xs ++ d ∷ []) ≡ ys ++ d ∷ []
take_last-concat n xs y d ys e size =
    sym (take_last-take_last n xs (d ∷ []))
    ∙ ap (λ l. take_last n (l ++ d ∷ [])) e
    ∙ (let one : length (y ∷ (ys ++ d ∷ [])) - n ≡ 1 = omega (arith, length-append ys (d ∷ [])) in
        ap (λ k. drop k (y ∷ (ys ++ d ∷ []))) one)

-- The ring, cut where the next sample_tick goes: behind the cut stands what is overwritten first.
record IsRing (ds : List ℕ) (t : Ticks) (front back : List ℕ) : Type 0 where
  cut_at : t.ring ≡ front ++ back
  at : length front ≡ t.ticks % tick_samples
  whole : length front + length back ≡ tick_samples
  count : t.ticks ≡ length ds
  held : t.sampled ≡ min (length ds) tick_samples
  window :
      ((length ds < tick_samples) × (front ≡ ds))
      ⊎ ((tick_samples ≤ length ds) × (back ++ front ≡ take_last tick_samples ds))

HasRing : List ℕ → Ticks → Type 0
HasRing es u = (front : List ℕ) × (back : List ℕ) × IsRing es u front back

-- One sample_tick more, up to the size of the ring.
counted :
    (n sampled : ℕ)
    → sampled ≡ min n tick_samples
    → (if ltb sampled tick_samples then sampled + 1 else sampled) ≡ min (n + 1) tick_samples
counted n sampled h = ground arith

module _ (ds : List ℕ) (d : ℕ) (t : Ticks) (few : length ds + 1 < 2 ^ 64) where
  sampled_one :
      (front back : List ℕ)
      → IsRing ds t front back
      → (sample_tick d t).sampled ≡ min (length (ds ++ d ∷ [])) tick_samples
  unfolding sample_tick
  sampled_one front back r =
      counted (length ds) t.sampled r.held
      ∙ ap (λ n. min n tick_samples) (sym (length-append ds (d ∷ [])))

  ring_one :
      (front back : List ℕ) (x : ℕ)
      → IsRing ds t front (x ∷ back)
      → (sample_tick d t).ring ≡ front ++ d ∷ back
  unfolding sample_tick
  ring_one front back x r = rw (r.cut_at, ← r.at) (set-front front back x d)

  ticks_one :
      (front back : List ℕ) → IsRing ds t front back → (sample_tick d t).ticks ≡ length ds + 1
  unfolding sample_tick
  ticks_one front back r = omega (arith, r.count)

  -- What the window is, when the sample_tick that was overwritten is its first.
  window_one :
      (front back : List ℕ) (x : ℕ)
      → IsRing ds t front (x ∷ back)
      → tick_samples ≤ length ds
      → x ∷ back ++ front ≡ take_last tick_samples ds
      → take_last tick_samples (ds ++ d ∷ []) ≡ (back ++ front) ++ d ∷ []
  window_one front back x r long same =
      take_last-concat tick_samples ds x d (back ++ front) (sym same)
        (omega (arith, length-append back front, r.whole))

  -- The place behind the one that is written is inside the ring,
  middle :
      (front ys : List ℕ) (x y : ℕ)
      → IsRing ds t front (x ∷ y ∷ ys)
      → IsRing (ds ++ d ∷ []) (sample_tick d t) (front ++ d ∷ []) (y ∷ ys)
  middle front ys x y r =
      let longer = length-append ds (d ∷ []) in
      let longer_front = length-append front (d ∷ []) in
      let ticks = ticks_one front (x ∷ y ∷ ys) r in
      record {
        cut_at = ring_one front (y ∷ ys) x r ∙ sym (append_assoc front (d ∷ []) (y ∷ ys));
        at = omega (arith, longer_front, r.at, r.whole, r.count, ticks);
        whole = omega (arith, longer_front, r.whole);
        count = omega (arith, longer, ticks);
        held = sampled_one front (x ∷ y ∷ ys) r;
        window = slid r.window;
      }
    where
      slid :
          ((length ds < tick_samples) × (front ≡ ds))
            ⊎ ((tick_samples ≤ length ds) × ((x ∷ y ∷ ys) ++ front ≡ take_last tick_samples ds))
          → ((length (ds ++ d ∷ []) < tick_samples) × (front ++ d ∷ [] ≡ ds ++ d ∷ []))
            ⊎ ((tick_samples ≤ length (ds ++ d ∷ []))
                × ((y ∷ ys) ++ (front ++ d ∷ []) ≡ take_last tick_samples (ds ++ d ∷ [])))
      slid (inl (short, same)) = inl (
        omega (arith, length-append ds (d ∷ []), ap length same, r.whole),
        ap (λ l. l ++ d ∷ []) same,
      )
      slid (inr (long, same)) = inr (
        omega (arith, length-append ds (d ∷ [])),
        sym (append_assoc (y ∷ ys) front (d ∷ [])) ∙ sym (window_one front (y ∷ ys) x r long same),
      )

  -- or it is the first again.
  last :
      (front : List ℕ) (x : ℕ)
      → IsRing ds t front (x ∷ [])
      → IsRing (ds ++ d ∷ []) (sample_tick d t) [] (front ++ d ∷ [])
  last front x r =
      let longer = length-append ds (d ∷ []) in
      let longer_front = length-append front (d ∷ []) in
      let ticks = ticks_one front (x ∷ []) r in
      record {
        cut_at = ring_one front [] x r;
        at = omega (arith, r.at, r.whole, r.count, ticks);
        whole = omega (arith, longer_front, r.whole);
        count = omega (arith, longer, ticks);
        held = sampled_one front (x ∷ []) r;
        window = inr (omega (arith, longer, r.at, r.whole, r.count), slid r.window);
      }
    where
      slid :
          ((length ds < tick_samples) × (front ≡ ds))
            ⊎ ((tick_samples ≤ length ds) × ((x ∷ []) ++ front ≡ take_last tick_samples ds))
          → (front ++ d ∷ []) ++ [] ≡ take_last tick_samples (ds ++ d ∷ [])
      slid (inl (short, same)) =
          append-nil (front ++ d ∷ [])
          ∙ ap (λ l. l ++ d ∷ []) same
          ∙ sym (
              take_last_all tick_samples (ds ++ d ∷ [])
                (omega (arith, length-append ds (d ∷ []), short)))
      slid (inr (long, same)) =
          append-nil (front ++ d ∷ []) ∙ sym (window_one front [] x r long same)

  sample-HasRing :
      (front back : List ℕ) → IsRing ds t front back → HasRing (ds ++ d ∷ []) (sample_tick d t)
  unfolding HasRing
  sample-HasRing front [] r = absurd (omega (arith, r.at, r.whole))
  sample-HasRing front (x ∷ []) r = ([], front ++ d ∷ [], last front x r)
  sample-HasRing front (x ∷ y ∷ ys) r = (front ++ d ∷ [], y ∷ ys, middle front ys x y r)

no_ticks-HasRing : HasRing [] no_ticks
unfolding HasRing no_ticks
no_ticks-HasRing = (
  [],
  zeros tick_samples,
  record {
    cut_at = refl;
    at = refl;
    whole = refl;
    count = refl;
    held = refl;
    window = inl (omega arith, refl);
  },
)

sample_each-HasRing :
    (ds before : List ℕ) (t : Ticks)
    → length before + length ds < 2 ^ 64
    → HasRing before t
    → HasRing (before ++ ds) (sample_each ds t)
unfolding sample_each HasRing
sample_each-HasRing [] before t few h = rw (append-nil before) h
sample_each-HasRing (d ∷ ds) before t few (front, back, r) =
    let longer = length-append before (d ∷ []) in
    rw (← append_assoc before (d ∷ []) ds) (
      sample_each-HasRing ds (before ++ d ∷ []) (sample_tick d t) (omega (arith, longer))
        (sample-HasRing before d t (omega arith) front back r))

take-length-append : (xs ys : List ℕ) → take (length xs) (xs ++ ys) ≡ xs
take-length-append [] ys = refl
take-length-append (x ∷ xs) ys = ap (λ (l : List ℕ). x ∷ l) (take-length-append xs ys)

samples_of-perm :
    (ds : List ℕ) (t : Ticks) → HasRing ds t → Perm (samples_of t) (take_last tick_samples ds)
unfolding HasRing samples_of
samples_of-perm ds t (front, back, r) = kept r.window
  where
    kept :
        ((length ds < tick_samples) × (front ≡ ds))
          ⊎ ((tick_samples ≤ length ds) × (back ++ front ≡ take_last tick_samples ds))
        → Perm (take t.sampled t.ring) (take_last tick_samples ds)
    kept (inl (short, same)) =
        let held : t.sampled ≡ length front = omega (arith, r.held, ap length same) in
        rw (r.cut_at, held, take-length-append front back)
          (rw same (rw (take_last_all tick_samples ds (omega (arith, short))) (Perm.refl ds)))
    kept (inr (long, same)) =
        let held : t.sampled ≡ length (front ++ back) =
          omega (arith, r.held, length-append front back, r.whole) in
        let all : take (length (front ++ back)) (front ++ back) ≡ front ++ back =
          ap (take (length (front ++ back))) (sym (append-nil (front ++ back)))
          ∙ take-length-append (front ++ back) [] in
        rw (r.cut_at, held, all) (rw (← same) (perm_append_comm front back))

get_elem?-below : (xs : List ℕ) (i : ℕ) → i < length xs → (v : ℕ) × (get_elem? xs i ≡ some v)
get_elem?-below [] i h = absurd (omega arith)
get_elem?-below (x ∷ xs) zero h = (x, refl)
get_elem?-below (x ∷ xs) (suc i) h = get_elem?-below xs i (omega arith)

-- A scale of at most one never points outside the samples.
percentile-within :
    (scaled : ℕ → ℕ)
    → ((n : ℕ) → scaled n ≤ n)
    → (xs : List ℕ) → (v : ℕ) × (percentile scaled xs ≡ some v)
unfolding percentile
percentile-within scaled h [] = (0, refl)
percentile-within scaled h (x ∷ xs) =
    get_elem?-below (x ∷ xs) (scaled (length xs)) (omega (arith, h (length xs)))

-- After rounds of these durations, fewer than 2^64, the samples that `-debug` speaks of are the
-- last 256 rounds, each once; and for scales of at most one the three percentiles are found, so
-- that asking for them does not panic.
pub stats-window :
    (ds : List ℕ) (services : ℕ) (statuses : List Status) (half most whole : ℕ → ℕ)
    → length ds < 2 ^ 64
    → ((n : ℕ) → half n ≤ n)
    → ((n : ℕ) → most n ≤ n)
    → ((n : ℕ) → whole n ≤ n)
    → let t = sample_each ds no_ticks in
      let st = stats half most whole services statuses t in
      Perm (samples_of t) (take_last tick_samples ds)
      × ((v : ℕ) × (st.tick_p50 ≡ some v))
      × ((v : ℕ) × (st.tick_p95 ≡ some v))
      × ((v : ℕ) × (st.tick_max ≡ some v))
unfolding stats
stats-window ds services statuses half most whole few h m g =
    let sorted = sort leb (samples_of (sample_each ds no_ticks)) in
    (
      samples_of-perm ds (sample_each ds no_ticks)
          (sample_each-HasRing ds [] no_ticks (omega (arith, few)) no_ticks-HasRing),
      percentile-within half h sorted,
      percentile-within most m sorted,
      percentile-within whole g sorted,
    )
