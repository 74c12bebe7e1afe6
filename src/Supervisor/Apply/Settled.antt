-- ===== src/Supervisor/Apply/Settled.antt =====
-- What an apply leaves declared.
use mathlib.Core.Logic.Or
use mathlib.Core.Path.{subst}
use mathlib.Core.List.{Mem, mem-append, mem-cons, not-mem-nil, mem-filter_map, Mem-prop}
use mathlib.Core.List.Perm
use hostd.Strings.{is_empty}
use hostd.Base.{
  ◌≡◌, refl, sym, ap, ◌∙◌, ◌⊎◌, inl, inr, Bool, true, false, not, Option, none, some, List, [], ◌∷◌,
  Text, codes, arith, beq, beq_iff, beq_refl, Map, lookup, insert, lookup-insert, lookup-delete,
  get_or, All, Bool-cases, Option-cases, sort-perm,
}
use hostd.Service.{Service, want_running, is_job}
use hostd.Supervisor.{Runtime, World, Held, Event, containers, declare}
use hostd.Supervisor.Plan.{
  Change, plan, wanted_of, action_remove, changes_known, change_known, live_of, is_live, change_le,
  gone,
}
use hostd.Supervisor.Plan.Order.{IsMap}
use hostd.Supervisor.Plan.Justified.{Reason, removal, update, addition, plan-Reason, mem_of_lookup}
use hostd.Supervisor.Act.{Outcome, ok, err}
use hostd.Supervisor.Act.Keeps.{
  Quiet, Quiet-refl, Quiet-trans, Quiet-event, Keeps-if, Keeps-pure, Keeps-ignore, Keeps-tell,
}
use hostd.Supervisor.Containers.{Host}
use hostd.Supervisor.Commands.{stop, undeclare}
use hostd.Supervisor.Commands.Quiet.{Keeps-create, Keeps-stop, Keeps-retire}
use hostd.Supervisor.Apply.{
  drop_container, after_stop, apply_remove, report_failed, apply_set, apply_change, apply_each,
  declare_all, changes_of, apply,
}

-- The event that says that something about a service failed.
abbrev pub problem : Text → Event
problem name = record { kind = codes "hostd.problem"; service = name; run = [] }

-- The change does not give `k` a declaration.
abbrev Spares : Text → Change → Type 0
Spares k c = (beq c.action action_remove ≡ true) ⊎ (beq c.service k ≡ false)

module _ {r : Runtime} where
  Quiet-drop_container : (name : Text) (w : World r) → Quiet w (drop_container name w)
  unfolding drop_container
  Quiet-drop_container name w =
      (Keeps-if w.has_runtime _ _ (Keeps-ignore _ (Keeps-tell _)) (Keeps-pure tt)).at w

  Quiet-report_failed :
      (name : Text) (o : Outcome (Unit {0})) (w : World r) → Quiet w (report_failed name o w)
  unfolding report_failed
  Quiet-report_failed name (err e) w = Quiet-event _ name [] w
  Quiet-report_failed name (ok u) w = Quiet-refl w

  Quiet-apply_set :
      (host : Host) (name : Text) (s : Service) (w : World r)
      → Quiet (declare name s w) (apply_set host name s w)
  unfolding apply_set
  Quiet-apply_set host name s w = elim (Bool-cases (is_job s)) [
    | inl job ↦ rw job ((Keeps-retire s).at (declare name s w))
    | inr other ↦ rw other (
        Quiet-trans _ _ _ ((Keeps-create host s (want_running s)).at (declare name s w))
          (Quiet-report_failed name _ _))
  ]

  -- No declaration, or the problem is on record.
  abbrev Gone : Text → World r → Type 0
  Gone k w = (lookup k w.declared ≡ none) ⊎ Mem (problem k) w.events

  Quiet-Gone : (k : Text) (u w : World r) → Quiet u w → Gone k u → Gone k w
  Quiet-Gone k u w q (inl none_there) = inl (ap (lookup k) q.declared ∙ none_there)
  Quiet-Gone k u w q (inr i) = inr (q.events (problem k) i)

  undeclare-Gone : (name k : Text) (w : World r) → Gone k w → Gone k (undeclare name w)
  unfolding undeclare
  undeclare-Gone name k w (inl none_there) = inl (ground (arith, lookup-delete name k w.declared))
  undeclare-Gone name k w (inr i) = inr i

  after_stop-Gone :
      (name k : Text) (o : Outcome Bool) (w : World r) → Gone k w → Gone k (after_stop name o w)
  unfolding after_stop
  after_stop-Gone name k (err e) w h = Quiet-Gone k w _ (Quiet-event _ name [] w) h
  after_stop-Gone name k (ok moved) w h =
      undeclare-Gone name k (drop_container name w)
        (Quiet-Gone k w _ (Quiet-drop_container name w) h)

  -- After a removal the service is not declared, or the problem is on record.
  after_stop_removes : (k : Text) (o : Outcome Bool) (w : World r) → Gone k (after_stop k o w)
  unfolding after_stop undeclare
  after_stop_removes k (err e) w = inr (mem-append.1 (Or.inr (mem-cons.1 (Or.inl refl))))
  after_stop_removes k (ok moved) w =
      inl (lookup-delete k k (drop_container k w).declared ∙ rw (beq_refl k))

  declare-Gone :
      (name k : Text) (s : Service) (w : World r)
      → beq name k ≡ false
      → Gone k w
      → Gone k (declare name s w)
  declare-Gone name k s w other (inl none_there) =
      inl (lookup-insert name k s w.declared ∙ rw other none_there)
  declare-Gone name k s w other (inr i) = inr i

  apply_change-Gone :
      (host : Host) (wanted : Map Service) (c : Change) (k : Text) (w : World r)
      → Spares k c
      → Gone k w
      → Gone k (apply_change host wanted c w)
  unfolding apply_change apply_remove
  apply_change-Gone host wanted c k w spares h = elim (Bool-cases (beq c.action action_remove)) [
    | inl taken ↦
        rw taken
          (after_stop-Gone c.service k _ _ (Quiet-Gone k w _ ((Keeps-stop c.service).at w) h))
    | inr set ↦ rw set (
        Quiet-Gone k _ _ (Quiet-apply_set host c.service _ w)
          (declare-Gone c.service k _ w (ground arith) h))
  ]

  apply_each-Gone :
      (host : Host) (wanted : Map Service) (cs : List Change) (k : Text) (w : World r)
      → All (Spares k) cs
      → Gone k w
      → Gone k (apply_each host wanted cs w)
  unfolding apply_each
  apply_each-Gone host wanted [] k w spares h = h
  apply_each-Gone host wanted (c ∷ cs) k w spares h =
      apply_each-Gone host wanted cs k _ spares.1 (apply_change-Gone host wanted c k w spares.0 h)

  apply_change_removes :
      (host : Host) (wanted : Map Service) (c : Change) (k : Text) (w : World r)
      → beq c.action action_remove ≡ true
      → beq c.service k ≡ true
      → Gone k (apply_change host wanted c w)
  unfolding apply_change apply_remove
  apply_change_removes host wanted c k w taken same = rw taken (
      subst (λ n. Gone n (after_stop c.service (stop c.service w).0 (stop c.service w).1))
        ((beq_iff c.service k).0 same)
        (after_stop_removes c.service (stop c.service w).0 (stop c.service w).1))

  apply_each_removes :
      (host : Host) (wanted : Map Service) (cs : List Change) (c : Change) (k : Text) (w : World r)
      → c.service ≡ k
      → All (Spares k) cs
      → Mem c cs
      → Gone k (apply_each host wanted cs w)
  unfolding apply_each
  apply_each_removes host wanted [] c k w about spares i = absurd (not-mem-nil i)
  apply_each_removes host wanted (d ∷ cs) c k w about spares i =
      elim (Bool-cases (beq d.service k)) [
        | inl same ↦
            apply_each-Gone host wanted cs k _ spares.1
              (apply_change_removes host wanted d k w (ground (arith, spares.0)) same)
        | inr other ↦ apply_each_removes host wanted cs c k _ about spares.1 (
            Or.elim Mem-prop (mem-cons.0 i)
              (λ here. absurd (ground (arith, beq_iff d.service k, ap (λ x. x.service) here)))
              (λ later. later))
      ]

  declared-declare_all :
      (ss : List Service) (w : World r) → (declare_all ss w).declared ≡ wanted_of ss w.declared
  unfolding declare_all wanted_of
  declared-declare_all [] w = refl
  declared-declare_all (s ∷ ss) w = declared-declare_all ss (declare s.name s w)

  events-declare_all : (ss : List Service) (w : World r) → (declare_all ss w).events ≡ w.events
  unfolding declare_all
  events-declare_all [] w = refl
  events-declare_all (s ∷ ss) w = events-declare_all ss (declare s.name s w)

-- The later of two maps decides.
abbrev or_else : Option Service → Option Service → Option Service
or_else none o = o
or_else (some s) o = some s

lookup-nil : (k : Text) → lookup {V = Service} k [] ≡ none
unfolding lookup
lookup-nil k = refl

lookup-wanted_of :
    (ss : List Service) (m : Map Service) (k : Text)
    → lookup k (wanted_of ss m) ≡ or_else (lookup k (wanted_of ss [])) (lookup k m)
unfolding wanted_of
lookup-wanted_of [] m k = unfold lookup in refl
lookup-wanted_of (s ∷ ss) m k = ground (
  arith,
  lookup-wanted_of ss (insert s.name s m) k,
  lookup-wanted_of ss (insert s.name s []) k,
  lookup-insert s.name k s m,
  lookup-insert s.name k s [],
  lookup-nil k,
  Option-cases (lookup k (wanted_of ss [])),
)

change_known-removal :
    (live : Map Bool) (wanted : Map Service) (k : Text) (s : Service)
    → lookup k wanted ≡ none
    → change_known live wanted k s
      ≡ some (record {
        service = k;
        action = action_remove;
        detail = gone (not (is_empty s.every));
        destructive = is_live live k;
        disruptive = false;
      })
unfolding change_known
change_known-removal live wanted k s unwanted = rw (change_known, unwanted) refl

plan-removal :
    (answer : Option (List Held)) (known : Map Service) (declared : List Service) (k : Text)
    (s : Service)
    → lookup k known ≡ some s
    → lookup k (wanted_of declared []) ≡ none
    → (c : Change) × (c.service ≡ k) × Mem c (plan answer known declared)
unfolding plan changes_known
plan-removal answer known declared k s there unwanted =
    let live = live_of (get_or [] answer) [] in
    let wanted = wanted_of declared [] in
    let c : Change = record {
      service = k;
      action = action_remove;
      detail = gone (not (is_empty s.every));
      destructive = is_live live k;
      disruptive = false;
    } in
    let made : change_known live wanted k s ≡ some c =
      change_known-removal live wanted k s unwanted in
    let found =
      (mem-filter_map (λ e. change_known live wanted e.0 e.1) known {b = c}).1
        ∣ ((k, s), mem_of_lookup known k s there, made) ∣₁ in
    (c, refl, (Perm.mem_iff (sort-perm change_le _)).1 (mem-append.1 (Or.inl found)))

Reason-Spares :
    (live : Map Bool) (wanted known : Map Service) (k : Text) (c : Change)
    → lookup k wanted ≡ none
    → Reason live wanted known c
    → Spares k c
Reason-Spares live wanted known k c unwanted (removal h1 h2 a h3 h4) =
    inl (rw a (beq_refl action_remove))
Reason-Spares live wanted known k c unwanted (update a b h1 there h2 h3 h4 h5) =
    inr (ground (arith, beq_iff c.service k, ap (λ n. lookup n wanted)))
Reason-Spares live wanted known k c unwanted (addition h1 there h2 h3 h4) =
    inr (ground (arith, beq_iff c.service k))

All-map {κ κ'} :
    {A : Type 0} (P : A → Type κ) (Q : A → Type κ') (l : List A)
    → ((a : A) → P a → Q a)
    → All P l
    → All Q l
All-map P Q [] f h = tt
All-map P Q (a ∷ l) f h = (f a h.0, All-map P Q l f h.1)

module _ {r : Runtime} where
  -- The world with no event on record.
  abbrev pub silent : World r → World r
  silent w = record w { events = [] }

  left_out :
      (host : Host) (declared : List Service) (w : World r) (k : Text)
      → IsMap w.declared
      → lookup k (wanted_of declared []) ≡ none
      → Gone k (apply_each host (wanted_of declared []) (changes_of declared (silent w)) (silent w))
  unfolding changes_of
  left_out host declared w k h unwanted =
      let cs = plan (containers (silent w)) w.declared declared in
      let spares =
        All-map _ (Spares k) cs (λ c. Reason-Spares _ _ _ k c unwanted)
          (plan-Reason (containers (silent w)) w.declared declared h) in
      elim (Option-cases (lookup k w.declared)) [
        | inl unknown ↦
            apply_each-Gone host (wanted_of declared []) cs k (silent w) spares (inl unknown)
        | inr (s, there) ↦
            let (c, about, i) =
              plan-removal (containers (silent w)) w.declared declared k s there unwanted in
            apply_each_removes host (wanted_of declared []) cs c k (silent w) about spares i
      ]

  -- After an apply that starts with no event on record, a name is declared exactly as the files
  -- declare it, or it is in no file and an event says that something about it failed: for every
  -- host and runtime, whatever their calls answer.
  pub apply-lookup :
      (host : Host) (declared : List Service) (w : World r) (k : Text)
      → IsMap w.declared
      → (lookup k (apply host declared (silent w)).1.declared ≡ lookup k (wanted_of declared []))
        ⊎ ((lookup k (wanted_of declared []) ≡ none)
            × Mem (problem k) (apply host declared (silent w)).1.events)
  unfolding apply
  apply-lookup host declared w k h =
      let wanted = wanted_of declared [] in
      let cs = changes_of declared (silent w) in
      let applied = apply_each host wanted cs (silent w) in
      let after : lookup k (declare_all declared applied).declared
          ≡ or_else (lookup k wanted) (lookup k applied.declared) =
        ap (lookup k) (declared-declare_all declared applied)
        ∙ lookup-wanted_of declared applied.declared k in
      elim (Option-cases (lookup k wanted)) [
        | inl unwanted ↦ elim (left_out host declared w k h unwanted) [
          | inl none_there ↦ inl (cc)
          | inr i ↦ inr (
            unwanted,
            mem-append.1
                (Or.inl (subst (Mem (problem k)) (sym (events-declare_all declared applied)) i)),
          )
        ]
        | inr (s, there) ↦ inl (after ∙ rw there refl)
      ]
