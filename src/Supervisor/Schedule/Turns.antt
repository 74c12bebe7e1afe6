-- ===== src/Supervisor/Schedule/Turns.antt =====
-- A turn of a job is taken once.
use mathlib.Core.Path.{subst}
use hostd.Base.{
  ℕ, ◌≡◌, refl, sym, ◌∙◌, ap, inl, inr, Bool, true, false, not, ◌||◌, Option, none, some, [], ◌∷◌,
  Text, arith, beq, beq_iff, beq_refl, leb, if◌then◌else◌, Map, lookup, insert, lookup-insert, All,
  is_positive, pos_part, Bool-cases,
}
use hostd.Service.{Service, want_running, is_job, interval}
use hostd.Supervisor.{Runtime, World}
use hostd.Supervisor.Containers.{Host}
use hostd.Supervisor.Schedule.Quiet.{Quiet-start_run}
use hostd.Supervisor.Schedule.{slot_of, set_fired, take_turn, fire_one, fire_each, fire_due}

-- The slot of a declaration at an instant.
abbrev slot_at : ℕ → Service → ℕ
slot_at now s = slot_of now (pos_part (interval s))

-- The job has no turn to take: it is none, it is stopped, or its slot has been fired.
data Done (now : ℕ) (e : Text × Service) (fired : Map ℕ) : Type 0 where
  idle : not (is_job e.1) || not (want_running e.1) ≡ true → Done now e fired
  timeless : is_positive (interval e.1) ≡ false → Done now e fired
  over :
      (last : ℕ)
      → lookup e.0 fired ≡ some last
      → leb (slot_at now e.1) last ≡ true
      → Done now e fired

Done-later :
    (now soon : ℕ) (es : Map Service) (fired : Map ℕ)
    → All (λ e. slot_at soon e.1 ≡ slot_at now e.1) es
    → All (λ e. Done now e fired) es
    → All (λ e. Done soon e fired) es
Done-later now soon [] fired same h = tt
Done-later now soon (e ∷ es) fired same h =
    (again e same.0 h.0, Done-later now soon es fired same.1 h.1)
  where
    again :
        (e : Text × Service)
        → slot_at soon e.1 ≡ slot_at now e.1
        → Done now e fired
        → Done soon e fired
    again e p (idle x) = idle x
    again e p (timeless x) = timeless x
    again e p (over last x y) = over last x (ap (λ n. leb n last) p ∙ y)

-- A choice that leaves the world as it is when either test says so.
module _ {ℓ} {A : Type ℓ} where
  if_same : (b : Bool) (x w : A) → x ≡ w → (if b then x else w) ≡ w
  if_same true x w h = h
  if_same false x w h = refl

  if_true : (b : Bool) (x w : A) → b ≡ true → (if b then x else w) ≡ x
  if_true true x w h = refl
  if_true false x w h = absurd (cc h)

  if_false : (b : Bool) (x w : A) → b ≡ false → (if b then x else w) ≡ w
  if_false true x w h = absurd (cc h)
  if_false false x w h = refl

  keep_or_keep : (a b : Bool) (w x : A) → b ≡ false → (if a then w else if not b then w else x) ≡ w
  keep_or_keep true b w x h = refl
  keep_or_keep false true w x h = absurd (cc h)
  keep_or_keep false false w x h = refl

  keep_or_same : (a b : Bool) (w x : A) → x ≡ w → (if a then w else if not b then w else x) ≡ w
  keep_or_same true b w x h = refl
  keep_or_same false true w x h = h
  keep_or_same false false w x h = refl

  -- What holds of both ends holds of the choice.
  keep_or_rec {κ} :
      (P : A → Type κ) (a b : Bool) (w x : A)
      → P w
      → P x
      → P (if a then w else if not b then w else x)
  keep_or_rec P true b w x p q = p
  keep_or_rec P false true w x p q = q
  keep_or_rec P false false w x p q = p

-- The slots after a turn: those before, if the slot is an old one, or with the slot of this turn.
data Fired (name : Text) (slot : ℕ) (before after : Map ℕ) : Type 0 where
  kept :
      (last : ℕ)
      → lookup name before ≡ some last
      → leb slot last ≡ true
      → after ≡ before
      → Fired name slot before after
  first : lookup name before ≡ none → after ≡ insert name slot before → Fired name slot before after
  later :
      (last : ℕ)
      → lookup name before ≡ some last
      → leb slot last ≡ false
      → after ≡ insert name slot before
      → Fired name slot before after

Done-Fired :
    (now : ℕ) (e : Text × Service) (name : Text) (slot : ℕ) (before after : Map ℕ)
    → Fired name slot before after
    → Done now e before
    → Done now e after
Done-Fired now e name slot before after f (idle h) = idle h
Done-Fired now e name slot before after f (timeless h) = timeless h
Done-Fired now e name slot before after (kept last h k p) (over old i j) =
    over old (ap (lookup e.0) p ∙ i) j
Done-Fired now e name slot before after (first h p) (over old i j) =
    over old
      (ap (lookup e.0) p
        ∙ ground (
          arith,
          lookup-insert name e.0 slot before,
          beq_iff name e.0,
          h,
          i,
          ap (λ n. lookup n before),
        ))
      j
Done-Fired now e name slot before after (later last h k p) (over old i j) =
    elim (Bool-cases (beq name e.0)) [
      | inl same ↦
          let before_of : lookup name before ≡ lookup e.0 before =
            ap (λ n. lookup n before) ((beq_iff name e.0).0 same) in
          let at_slot : lookup e.0 after ≡ some slot =
            ap (lookup e.0) p ∙ lookup-insert name e.0 slot before ∙ rw same refl in
          over slot at_slot (ground (arith, before_of))
      | inr other ↦ over old (ap (lookup e.0) p ∙ lookup-insert name e.0 slot before ∙ rw other i) j
    ]

Fired-Done :
    (now : ℕ) (name : Text) (s : Service) (before after : Map ℕ)
    → Fired name (slot_at now s) before after
    → Done now (name, s) after
Fired-Done now name s before after (kept last h k p) = over last (ap (lookup name) p ∙ h) k
Fired-Done now name s before after (first h p) =
    over (slot_at now s)
      (ap (lookup name) p ∙ lookup-insert name name _ before ∙ rw (beq_refl name) refl)
      (ground arith)
Fired-Done now name s before after (later last h k p) =
    over (slot_at now s)
      (ap (lookup name) p ∙ lookup-insert name name _ before ∙ rw (beq_refl name) refl)
      (ground arith)

module _ {r : Runtime} where
  fire_one-Done :
      (host : Host) (now : ℕ) (e : Text × Service) (w : World r)
      → Done now e w.fired
      → fire_one host now e w ≡ w
  unfolding fire_one take_turn
  fire_one-Done host now (name, s) w (idle h) = rw h refl
  fire_one-Done host now (name, s) w (timeless h) = keep_or_keep _ (is_positive (interval s)) w _ h
  fire_one-Done host now (name, s) w (over last h k) =
      keep_or_same _ (is_positive (interval s)) w _
        (ap (λ o. take_turn host s name (slot_at now s) o w) h ∙ rw k refl)

  take_turn-Fired :
      (host : Host) (s : Service) (name : Text) (slot : ℕ) (o : Option ℕ) (w : World r)
      → lookup name w.fired ≡ o
      → Fired name slot w.fired (take_turn host s name slot o w).fired
  unfolding take_turn set_fired
  take_turn-Fired host s name slot none w h = first h refl
  take_turn-Fired host s name slot (some last) w h = elim (Bool-cases (leb slot last)) [
    | inl passed ↦ kept last h passed (rw passed refl)
    | inr due ↦
        later last h due (rw due (Quiet-start_run host s slot (set_fired name slot w)).fired)
  ]

  fire_one-keeps :
      (host : Host) (now : ℕ) (e d : Text × Service) (w : World r)
      → Done now d w.fired
      → Done now d (fire_one host now e w).fired
  unfolding fire_one
  fire_one-keeps host now (name, s) d w h =
      keep_or_rec (λ x. Done now d x.fired) _ (is_positive (interval s)) w _ h
        (Done-Fired now d name (slot_at now s) w.fired _
          (take_turn-Fired host s name _ (lookup name w.fired) w refl) h)

  fire_one_settles :
      (host : Host) (now : ℕ) (e : Text × Service) (w : World r)
      → Done now e (fire_one host now e w).fired
  unfolding fire_one
  fire_one_settles host now (name, s) w =
      elim (Bool-cases (not (is_job s) || not (want_running s))) [
        | inl skipped ↦ idle skipped
        | inr job ↦ elim (Bool-cases (is_positive (interval s))) [
          | inr none_set ↦ timeless none_set
          | inl timed ↦
              rw (job, timed)
                (Fired-Done now name s w.fired _
                  (take_turn-Fired host s name _ (lookup name w.fired) w refl))
        ]
      ]

  fire_each-keeps :
      (host : Host) (now : ℕ) (es : Map Service) (d : Text × Service) (w : World r)
      → Done now d w.fired
      → Done now d (fire_each host now es w).fired
  unfolding fire_each
  fire_each-keeps host now [] d w h = h
  fire_each-keeps host now (e ∷ es) d w h =
      fire_each-keeps host now es d _ (fire_one-keeps host now e d w h)

  fire_each_settles :
      (host : Host) (now : ℕ) (es : Map Service) (w : World r)
      → All (λ e. Done now e (fire_each host now es w).fired) es
  unfolding fire_each
  fire_each_settles host now [] w = tt
  fire_each_settles host now (e ∷ es) w = (
    fire_each-keeps host now es e _ (fire_one_settles host now e w),
    fire_each_settles host now es _,
  )

  fire_each-Done :
      (host : Host) (now : ℕ) (es : Map Service) (w : World r)
      → All (λ e. Done now e w.fired) es
      → fire_each host now es w ≡ w
  unfolding fire_each
  fire_each-Done host now [] w h = refl
  fire_each-Done host now (e ∷ es) w h =
      ap (fire_each host now es) (fire_one-Done host now e w h.0) ∙ fire_each-Done host now es w h.1

  Still : World r → World r → Type 0
  Still w w' = (w'.declared ≡ w.declared) × (w'.has_runtime ≡ w.has_runtime)

  fire_one-Still :
      (host : Host) (now : ℕ) (e : Text × Service) (w : World r) → Still w (fire_one host now e w)
  unfolding fire_one take_turn set_fired Still
  fire_one-Still host now (name, s) w =
      keep_or_rec (Still w) _ (is_positive (interval s)) w _ (refl, refl)
        (turn (lookup name w.fired))
    where
      turn : (o : Option ℕ) → Still w (take_turn host s name (slot_at now s) o w)
      turn none = (refl, refl)
      turn (some last) = elim (Bool-cases (leb (slot_at now s) last)) [
        | inl passed ↦ rw passed (refl, refl)
        | inr due ↦
            let q = Quiet-start_run host s (slot_at now s) (set_fired name (slot_at now s) w) in
            rw due (q.declared, q.has_runtime)
      ]

  fire_each-Still :
      (host : Host) (now : ℕ) (es : Map Service) (w : World r) → Still w (fire_each host now es w)
  unfolding fire_each Still
  fire_each-Still host now [] w = (refl, refl)
  fire_each-Still host now (e ∷ es) w =
      let p = fire_one-Still host now e w in
      let q = fire_each-Still host now es (fire_one host now e w) in (q.0 ∙ p.0, q.1 ∙ p.1)

  fire_due-Done :
      (host : Host) (now : ℕ) (u : World r)
      → All (λ e. Done now e u.fired) u.declared
      → fire_due host now u ≡ u
  unfolding fire_due
  fire_due-Done host now u h = if_same u.has_runtime _ u (fire_each-Done host now u.declared u h)

  -- After the jobs that are due were started, another look at the clock changes nothing, as long
  -- as every declaration's slot is still the one it was: a job starts at most once in a slot.
  pub fire_due_once :
      (host : Host) (now soon : ℕ) (w : World r)
      → All
          (λ e. slot_of soon (pos_part (interval e.1)) ≡ slot_of now (pos_part (interval e.1)))
          w.declared
      → fire_due host soon (fire_due host now w) ≡ fire_due host now w
  unfolding fire_due Still
  fire_due_once host now soon w same = elim (Bool-cases w.has_runtime) [
    | inl there ↦
        let fired = fire_each host now w.declared w in
        let still = (fire_each-Still host now w.declared w).0 in
        let before : fire_due host now w ≡ fired = if_true _ _ w there in
        let done =
          Done-later now soon w.declared fired.fired same
            (fire_each_settles host now w.declared w) in
        ap (fire_due host soon) before
        ∙ fire_due-Done host soon fired
            (subst (All (λ e. Done soon e fired.fired)) (sym still) done)
        ∙ sym before
    | inr missing ↦
        let before : fire_due host now w ≡ w = if_false _ _ w missing in
        ap (fire_due host soon) before ∙ if_false _ _ w missing ∙ sym before
  ]
