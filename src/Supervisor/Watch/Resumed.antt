-- ===== src/Supervisor/Watch/Resumed.antt =====
-- A dropped stream is resumed where it stopped.
use hostd.Base.{
  ℕ, zero, suc, ◌+◌, ◌≤◌, ◌<◌, ◌≡◌, refl, sym, ap, ◌∙◌, inl, inr, Bool, true, false, List, [], ◌∷◌,
  ◌++◌, append_assoc, append-nil, leb, take, drop, take-append-drop, All, All-keep_if, arith,
  Bool-cases,
}
use hostd.Supervisor.{Runtime}
use hostd.Supervisor.Watch.{
  Announced, due, Watching, handle_event, handle_events, watch_stream, watch_runtime,
}

-- The instants of the log strictly increase.
abbrev pub IsIncreasing : List Announced → Type 0
IsIncreasing [] = Unit
IsIncreasing (e ∷ es) = All (λ f. e.at < f.at) es × IsIncreasing es

-- Where the next stream begins, after these events.
after : ℕ → List Announced → ℕ
after since [] = since
after since (e ∷ es) = after (e.at + 1) es

From : ℕ → List Announced → Type 0
From since = All (λ (e : Announced). since ≤ e.at)

due-From : (since : ℕ) (es : List Announced) → From since (due since es)
unfolding due From
due-From since [] = tt
due-From since (e ∷ es) = elim (Bool-cases (leb since e.at)) [
  | inl h ↦ rw h (ground arith, due-From since es)
  | inr h ↦ rw h (due-From since es)
]

due_all : (since : ℕ) (es : List Announced) → From since es → due since es ≡ es
unfolding due From
due_all since [] h = refl
due_all since (e ∷ es) (first, rest) =
    let passes : leb since e.at ≡ true = ground arith in
    rw passes (ap (λ (l : List Announced). e ∷ l) (due_all since es rest))

due-due : (s t : ℕ) (es : List Announced) → s ≤ t → due t (due s es) ≡ due t es
unfolding due
due-due s t [] h = refl
due-due s t (e ∷ es) h = ground (arith, due-due s t es h)

due-IsIncreasing : (s : ℕ) (es : List Announced) → IsIncreasing es → IsIncreasing (due s es)
unfolding due
due-IsIncreasing s [] h = tt
due-IsIncreasing s (e ∷ es) (first, rest) = elim (Bool-cases (leb s e.at)) [
  | inl k ↦
      rw k (All-keep_if (λ f. leb s f.at) (λ f. e.at < f.at) es first, due-IsIncreasing s es rest)
  | inr k ↦ rw k (due-IsIncreasing s es rest)
]

From-next : (e : Announced) (es : List Announced) → All (λ f. e.at < f.at) es → From (e.at + 1) es
unfolding From
From-next e [] h = tt
From-next e (f ∷ es) (h, hs) = (omega (arith, h), From-next e es hs)

after-le : (s n : ℕ) (es : List Announced) → IsIncreasing es → From s es → s ≤ after s (take n es)
unfolding after From
after-le s zero es up h = omega arith
after-le s (suc n) [] up h = omega arith
after-le s (suc n) (e ∷ es) (first, up) (low, rest) =
    omega (arith, low, after-le (e.at + 1) n es up (From-next e es first))

-- Behind the first events of the log, those that are due are the others.
due-after :
    (s n : ℕ) (es : List Announced)
    → IsIncreasing es
    → From s es
    → due (after s (take n es)) es ≡ drop n es
unfolding after From due
due-after s zero es up h = due_all s es h
due-after s (suc n) [] up h = refl
due-after s (suc n) (e ∷ es) (first, up) (low, rest) =
    let t = after (e.at + 1) (take n es) in
    let from : From (e.at + 1) es = From-next e es first in
    let past : leb t e.at ≡ false = ground (arith, after-le (e.at + 1) n es up from) in
    rw past (due-after (e.at + 1) n es up from)

module _ {r : Runtime} where
  handle_events-since :
      (es : List Announced) (x : Watching r) → (handle_events es x).since ≡ after x.since es
  unfolding handle_events after
  handle_events-since [] x = refl
  handle_events-since (e ∷ es) x = handle_events-since es (handle_event e x)

  handle_events-seen :
      (es : List Announced) (x : Watching r) → (handle_events es x).seen ≡ x.seen ++ es
  unfolding handle_events
  handle_events-seen [] x = sym (append-nil x.seen)
  handle_events-seen (e ∷ es) x =
      handle_events-seen es (handle_event e x) ∙ append_assoc x.seen (e ∷ []) es

  -- A stream moves on by what it brought, however it ended.
  watch_stream-lem :
      (log : List Announced) (n : ℕ) (failing : Bool) (x : Watching r)
      → ((watch_stream log n failing x).since ≡ after x.since (take n (due x.since log)))
        × ((watch_stream log n failing x).seen ≡ x.seen ++ take n (due x.since log))
  unfolding watch_stream
  watch_stream-lem log n true x =
      let es = take n (due x.since log) in (handle_events-since es x, handle_events-seen es x)
  watch_stream-lem log n false x =
      let es = take n (due x.since log) in (handle_events-since es x, handle_events-seen es x)

  -- When the instants of the runtime's events strictly increase, the events handled over all the
  -- streams, however many dropped and after however many events, together with those still due
  -- are the ones that were due at the start, in order: none is lost and none handled twice.
  pub watch_runtime-resumes :
      (log : List Announced) (streams : List (ℕ × Bool)) (x : Watching r)
      → IsIncreasing log
      → (watch_runtime log streams x).seen ++ due (watch_runtime log streams x).since log
        ≡ x.seen ++ due x.since log
  unfolding watch_runtime
  watch_runtime-resumes log [] x up = refl
  watch_runtime-resumes log ((n, failing) ∷ streams) x up =
      let d = due x.since log in
      let (since, seen) = watch_stream-lem log n failing x in
      let rising = due-IsIncreasing x.since log up in
      let from = due-From x.since log in
      let rest : due (after x.since (take n d)) log ≡ drop n d =
        sym (due-due x.since (after x.since (take n d)) log (after-le x.since n d rising from))
        ∙ due-after x.since n d rising from in
      watch_runtime-resumes log streams (watch_stream log n failing x) up
      ∙ rw (seen, since, rest)
          (append_assoc x.seen (take n d) (drop n d) ∙ ap (λ l. x.seen ++ l) (take-append-drop n d))
