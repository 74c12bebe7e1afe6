-- ===== src/Supervisor/Plan/Justified.antt =====
-- Every change of a plan has its reason, and a plan is empty exactly when there is none.
use mathlib.Core.Logic.Or
use mathlib.Core.List.{
  Perm, filter_map, filter_map-eq-nil_iff, Mem, mem-cons, not-mem-nil, append-eq-nil_iff,
}
use mathlib.Core.List.Perm
use mathlib.Core.Path.{subst}
use native.Mathlib.Nat.{ℕ_set}
use hostd.Base.{
  ◌≡◌, ◌↔◌, refl, sym, ap, ◌∙◌, inl, inr, Bool, true, false, Option, none, some, List, [], ◌∷◌,
  ◌++◌, Text, arith, beq, beq_iff, beq_refl, All, All-append, All-sort, Map, lookup, get_or,
  is_some, sort, sort-perm, Bool-cases, Option-cases,
}
use hostd.Service.{Service}
use hostd.Supervisor.{Held}
use hostd.Supervisor.Plan.{
  Change, same_definition, change_le, change_known, change_new, changes_known, changes_new, live_of,
  wanted_of, plan, action_remove, action_update, action_add, is_live,
}
use hostd.Supervisor.Plan.Order.{IsMap, wanted_of-IsMap}

service_set : IsSet (Option Service)
service_set = hlevel ℕ_set

-- In a map with one entry for a key, an entry is what its key looks up.
pub lookup_of_mem :
    (m : Map Service) (e : Text × Service) → IsMap m → Mem e m → lookup e.0 m ≡ some e.1
unfolding lookup
lookup_of_mem [] e h i = absurd (not-mem-nil i)
lookup_of_mem ((k, v) ∷ m) e h i =
    Or.elim (service_set _ _) (mem-cons.0 i) (λ here. rw here (rw (beq_refl k)))
      (λ later. elim (Bool-cases (beq k e.0)) [
        | inl same ↦
            absurd
              (cc (lookup_of_mem m e h.1 later, h.0, ap (λ x. lookup x m) ((beq_iff k e.0).0 same)))
        | inr other ↦ rw other (lookup_of_mem m e h.1 later)
      ])

module _ {V : Type 0} where
  pub mem_of_lookup : (m : Map V) (k : Text) (s : V) → lookup k m ≡ some s → Mem (k, s) m
  unfolding lookup
  mem_of_lookup [] k s h = absurd (cc h)
  mem_of_lookup ((j, v) ∷ m) k s h = elim (Bool-cases (beq j k)) [
    | inl same ↦ mem-cons.1 (Or.inl (pair (ground arith) (ground (arith, beq_iff j k))))
    | inr other ↦ mem-cons.1 (Or.inr (mem_of_lookup m k s (ground arith)))
  ]
    where
      pair : v ≡ s → j ≡ k → ◌≡◌ {A = Text × V} (k, s) (j, v)
      pair p q i = (sym q i, sym p i)

All-filter_map {κ} :
    (P : Change → Type κ) (f : Text × Service → Option Change) (m : Map Service)
    → ((e : Text × Service) (c : Change) → Mem e m → f e ≡ some c → P c)
    → All P (filter_map f m)
unfolding filter_map
All-filter_map P f [] h = tt
All-filter_map P f (e ∷ m) h = elim (Option-cases (f e)) [
  | inl skipped ↦ rw skipped (All-filter_map P f m (λ e' c i. h e' c (mem-cons.1 (Or.inr i))))
  | inr (c, made) ↦ rw made (
    h e c (mem-cons.1 (Or.inl refl)) made,
    All-filter_map P f m (λ e' c' i. h e' c' (mem-cons.1 (Or.inr i))),
  )
]

module _ (live : Map Bool) (wanted known : Map Service) where
  -- Why a change is in the plan, and what it is marked with.
  pub data Reason (c : Change) : Type 0 where
    removal :
        is_some (lookup c.service known) ≡ true
        → lookup c.service wanted ≡ none
        → c.action ≡ action_remove
        → c.destructive ≡ is_live live c.service
        → c.disruptive ≡ false
        → Reason c
    update :
        (a b : Service)
        → lookup c.service known ≡ some a
        → lookup c.service wanted ≡ some b
        → same_definition a b ≡ false
        → c.action ≡ action_update
        → c.destructive ≡ false
        → c.disruptive ≡ is_live live c.service
        → Reason c
    addition :
        lookup c.service known ≡ none
        → is_some (lookup c.service wanted) ≡ true
        → c.action ≡ action_add
        → c.destructive ≡ false
        → c.disruptive ≡ false
        → Reason c

  change_known-Reason :
      (name : Text) (s : Service) (c : Change)
      → lookup name known ≡ some s
      → change_known live wanted name s ≡ some c
      → Reason c
  unfolding change_known
  change_known-Reason name s c there made = elim (Option-cases (lookup name wanted)) [
    | inl gone ↦
        let e : name ≡ c.service = ground arith in
        removal (subst (λ n. is_some (lookup n known) ≡ true) e (rw there))
          (subst (λ n. lookup n wanted ≡ none) e gone) (ground arith) (ground arith) (ground arith)
    | inr (t, kept) ↦
        let e : name ≡ c.service = ground arith in
        update s t (subst (λ n. lookup n known ≡ some s) e there)
          (subst (λ n. lookup n wanted ≡ some t) e kept) (ground arith) (ground arith)
          (ground arith) (ground arith)
  ]

  change_new-Reason :
      (name : Text) (s : Service) (c : Change)
      → lookup name wanted ≡ some s
      → change_new known name s ≡ some c
      → Reason c
  unfolding change_new
  change_new-Reason name s c there made =
      let e : name ≡ c.service = ground arith in
      addition (subst (λ n. lookup n known ≡ none) e (ground arith))
        (subst (λ n. is_some (lookup n wanted) ≡ true) e (rw there)) (ground arith) (ground arith)
        (ground arith)

-- Every change of a plan is a removal of a service that is declared and no longer wanted, marked
-- destructive exactly if the runtime's answer has it running; an update of one whose declaration
-- differs, disruptive exactly if it is running; or the addition of one that is not declared yet.
pub plan-Reason :
    (answer : Option (List Held)) (known : Map Service) (declared : List Service)
    → IsMap known
    → All
        (Reason (live_of (get_or [] answer) []) (wanted_of declared []) known)
        (plan answer known declared)
unfolding plan changes_known changes_new
plan-Reason answer known declared h =
    let live = live_of (get_or [] answer) [] in
    let wanted = wanted_of declared [] in
    All-sort change_le (Reason live wanted known) _ (
      All-append (Reason live wanted known) _ _
        (All-filter_map (Reason live wanted known) _ known (λ e c i made.
          change_known-Reason live wanted known e.0 e.1 c (lookup_of_mem known e h i) made))
        (All-filter_map (Reason live wanted known) _ wanted (λ e c i made.
          change_new-Reason live wanted known e.0 e.1 c
            (lookup_of_mem wanted e (wanted_of-IsMap declared [] tt) i) made)))

-- The machine believes of one service what is wanted of it.
pub data Agrees (known wanted : Map Service) (k : Text) : Type 0 where
  absent : lookup k known ≡ none → lookup k wanted ≡ none → Agrees known wanted k
  same :
      (a b : Service)
      → lookup k known ≡ some a
      → lookup k wanted ≡ some b
      → same_definition a b ≡ true
      → Agrees known wanted k

sort-nil : (l : List Change) → sort change_le l ≡ [] → l ≡ []
sort-nil l h = sym (Perm.nil-eq (subst (λ x. Perm x l) h (sort-perm change_le l)))

module _ (live : Map Bool) (known wanted : Map Service) where
  changes_nil-Agrees :
      changes_known live wanted known ++ changes_new known wanted ≡ []
      → (k : Text) → Agrees known wanted k
  unfolding changes_known changes_new
  changes_nil-Agrees h k =
      let parts =
        (append-eq-nil_iff {p = changes_known live wanted known} {q = changes_new known wanted}).0
          h in
      elim (Option-cases (lookup k known)) [
        | inl absent_known ↦ elim (Option-cases (lookup k wanted)) [
          | inl absent_wanted ↦ absent absent_known absent_wanted
          | inr (b, there) ↦ absurd (
              fresh b absent_known (
                (filter_map-eq-nil_iff {f = λ e. change_new known e.0 e.1}).0 parts.1 (k, b)
                  (mem_of_lookup wanted k b there)))
        ]
        | inr (a, there) ↦ elim (Option-cases (lookup k wanted)) [
          | inl gone ↦ absurd (
              removed a gone (
                (filter_map-eq-nil_iff {f = λ e. change_known live wanted e.0 e.1}).0 parts.0 (k, a)
                  (mem_of_lookup known k a there)))
          | inr (b, kept) ↦ same a b there kept (
              unchanged a b kept (
                (filter_map-eq-nil_iff {f = λ e. change_known live wanted e.0 e.1}).0 parts.0 (k, a)
                  (mem_of_lookup known k a there)))
        ]
      ]
    where
      fresh : (b : Service) → lookup k known ≡ none → change_new known k b ≡ none → ⊥
      fresh b e c = unfold change_new in ground arith

      removed : (a : Service) → lookup k wanted ≡ none → change_known live wanted k a ≡ none → ⊥
      removed a e c = unfold change_known in ground arith

      unchanged :
          (a b : Service)
          → lookup k wanted ≡ some b
          → change_known live wanted k a ≡ none
          → same_definition a b ≡ true
      unchanged a b e c = unfold change_known in ground arith

  Agrees-changes_nil :
      IsMap known
      → IsMap wanted
      → ((k : Text) → Agrees known wanted k)
      → changes_known live wanted known ++ changes_new known wanted ≡ []
  unfolding changes_known changes_new
  Agrees-changes_nil hk hw agree = append-eq-nil_iff.1 (
    filter_map-eq-nil_iff.1 (λ e i. kept e (agree e.0) (lookup_of_mem known e hk i)),
    filter_map-eq-nil_iff.1 (λ e i. old e (agree e.0) (lookup_of_mem wanted e hw i)),
  )
    where
      kept :
          (e : Text × Service)
          → Agrees known wanted e.0
          → lookup e.0 known ≡ some e.1
          → change_known live wanted e.0 e.1 ≡ none
      kept e (absent p q) h = absurd (cc)
      kept e (same a b p q r) h = unfold change_known in ground arith

      old :
          (e : Text × Service)
          → Agrees known wanted e.0
          → lookup e.0 wanted ≡ some e.1
          → change_new known e.0 e.1 ≡ none
      old e (absent p q) h = absurd (cc)
      old e (same a b p q r) h = unfold change_new in ground arith

-- A plan has nothing to change exactly when, for every name, the machine and the files both
-- declare nothing, or declare the same container.
pub plan-nil_iff :
    (answer : Option (List Held)) (known : Map Service) (declared : List Service)
    → IsMap known
    → (plan answer known declared ≡ []) ↔ ((k : Text) → Agrees known (wanted_of declared []) k)
unfolding plan
plan-nil_iff answer known declared h =
    let live = live_of (get_or [] answer) [] in
    let wanted = wanted_of declared [] in
    (
      λ e. changes_nil-Agrees live known wanted (sort-nil _ e),
      λ agree.
          ap (sort change_le)
            (Agrees-changes_nil live known wanted h (wanted_of-IsMap declared [] tt) agree)
          ∙ (unfold sort in refl),
    )
