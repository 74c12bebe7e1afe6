-- ===== src/Supervisor/Plan/Order.antt =====
-- A plan does not depend on the order in which Go's maps give their entries.
use mathlib.Core.Bool.{Bool-set}
use mathlib.Core.Logic.{∥∥₁_elim}
use mathlib.Core.List.{
  mem-filter_map, Pairwise-append, Perm, Pairwise, Mem, filter_map, mem-cons, not-mem-nil,
}
use mathlib.Core.List.Perm
use mathlib.Core.Logic.Or
use mathlib.Core.HLevel.{Π_prop}
use native.Mathlib.Nat.{ℕ_set}
use mathlib.Core.Path.{subst}
use hostd.Base.{
  ◌≡◌, ◌≢◌, refl, sym, ap, ◌∙◌, ◌⊎◌, inl, inr, Bool, true, Option, none, some, List, [], ◌∷◌, ◌++◌,
  Text, arith, beq, beq_iff, beq_refl, compare_text_swap, compare_text_eq, text_le, text_le_trans,
  Map, lookup, insert, lookup-insert, get_or, is_some, sort, IsTotalOrder, ToldApart,
  sort-eq_of_perm, Option-cases, Bool-cases,
}
use hostd.Service.{Service}
use hostd.Supervisor.{Held}
use hostd.Supervisor.Plan.{
  Change, change_le, change_known, change_new, changes_known, changes_new, live_of, wanted_of, plan,
}

-- One entry for a key.
abbrev pub IsMap {ℓ} : {V : Type ℓ} → Map V → Type ℓ
IsMap [] = Unit
IsMap ((k, v) ∷ m) = (lookup k m ≡ none) × IsMap m

pub insert-IsMap {ℓ} : {V : Type ℓ} (k : Text) (v : V) (m : Map V) → IsMap m → IsMap (insert k v m)
unfolding insert
insert-IsMap k v [] h = (unfold lookup in refl, tt)
insert-IsMap k v ((j, w) ∷ m) h = elim (Bool-cases (beq j k)) [
  | inl same ↦ rw same (subst (λ x. lookup x m ≡ none) ((beq_iff j k).0 same) h.0, h.1)
  | inr other ↦
      rw other (
        ground (arith, lookup-insert k j v m, beq_iff k j, beq_iff j k, h.0),
        insert-IsMap k v m h.1,
      )
]

pub wanted_of-IsMap :
    (declared : List Service) (m : Map Service) → IsMap m → IsMap (wanted_of declared m)
unfolding wanted_of
wanted_of-IsMap [] m h = h
wanted_of-IsMap (s ∷ ss) m h = wanted_of-IsMap ss (insert s.name s m) (insert-IsMap s.name s m h)

change_set : IsSet Change
change_set = hlevel ℕ_set

change_le_total : (a b : Change) → (change_le a b ≡ true) ⊎ (change_le b a ≡ true)
unfolding change_le
change_le_total a b =
    ground (arith, compare_text_swap a.service b.service, compare_text_swap a.action b.action)

change_le_trans :
    (a b c : Change) → change_le a b ≡ true → change_le b c ≡ true → change_le a c ≡ true
unfolding change_le text_le
change_le_trans a b c h k = ground (
  arith,
  text_le_trans a.service b.service c.service,
  text_le_trans a.action b.action c.action,
  compare_text_eq a.service c.service,
  compare_text_eq a.service b.service,
  compare_text_eq b.service c.service,
  compare_text_swap a.service b.service,
  compare_text_swap b.service c.service,
)

pub change_le_order : IsTotalOrder change_le
change_le_order = record { total = change_le_total; trans = change_le_trans }

-- Changes of two services are told apart.
ToldApart-service : (a b : Change) → a.service ≢ b.service → ToldApart change_le a b
unfolding change_le
ToldApart-service a b ne h k = absurd (
    ne
      (compare_text_eq a.service b.service (ground (arith, compare_text_swap a.service b.service))))

lookup_some_of_mem {ℓ} :
    {V : Type ℓ} (m : Map V) (e : Text × V) → Mem e m → is_some (lookup e.0 m) ≡ true
unfolding lookup
lookup_some_of_mem [] e i = absurd (not-mem-nil i)
lookup_some_of_mem ((k, v) ∷ m) e i =
    Or.elim (Bool-set _ _) (mem-cons.0 i) (λ here. rw here (rw (beq_refl k)))
      (λ later. elim (Bool-cases (beq k e.0)) [
        | inl same ↦ rw same
        | inr other ↦ rw other (lookup_some_of_mem m e later)
      ])

ToldApart-prop : (a b : Change) → IsProp (ToldApart change_le a b)
ToldApart-prop a b = Π_prop λ h. Π_prop λ k. change_set a b

-- Changes made from the entries of a map, each under its entry's key, are told apart.
module _ (f : Text × Service → Option Change)
    (keyed : (e : Text × Service) (c : Change) → f e ≡ some c → c.service ≡ e.0) where
  Pairwise-filter_map :
      (m : Map Service) → IsMap m → Pairwise (ToldApart change_le) (filter_map f m)
  unfolding filter_map
  Pairwise-filter_map [] h = Pairwise.nil
  Pairwise-filter_map (e ∷ m) h = elim (Option-cases (f e)) [
    | inl skipped ↦ rw skipped (Pairwise-filter_map m h.1)
    | inr (c, made) ↦ rw made (
        Pairwise.cons
          (λ c' i.
            ∥∥₁_elim ((mem-filter_map f m).0 i) (ToldApart-prop c c')
              (λ found. apart e c made found.0 c' found.2 found.1 h.0))
          (Pairwise-filter_map m h.1))
  ]
    where
      apart :
          (e : Text × Service) (c : Change)
          → f e ≡ some c
          → (e' : Text × Service) (c' : Change) → f e' ≡ some c'
          → Mem e' m
          → lookup e.0 m ≡ none
          → ToldApart change_le c c'
      apart e c made e' c' made' i none_there = ToldApart-service c c' (λ same. cc (
        lookup_some_of_mem m e' i,
        ap (λ k. is_some (lookup k m)) (sym (keyed e c made) ∙ same ∙ keyed e' c' made'),
        ap is_some none_there,
      ))

change_known_service :
    (live : Map Bool) (wanted : Map Service) (name : Text) (known : Service) (c : Change)
    → change_known live wanted name known ≡ some c
    → c.service ≡ name
unfolding change_known
change_known_service live wanted name known c h = ground arith

change_new_service :
    (known : Map Service) (name : Text) (s : Service) (c : Change)
    → change_new known name s ≡ some c
    → (c.service ≡ name) × (lookup name known ≡ none)
unfolding change_new
change_new_service known name s c h = ground arith

module _ (live : Map Bool) (wanted known : Map Service) where
  Pairwise-changes :
      IsMap known
      → IsMap wanted
      → Pairwise (ToldApart change_le) (changes_known live wanted known ++ changes_new known wanted)
  unfolding changes_known changes_new
  Pairwise-changes hk hw = (Pairwise-append ToldApart-prop).1 (
    Pairwise-filter_map (λ e. change_known live wanted e.0 e.1)
        (λ e c h. change_known_service live wanted e.0 e.1 c h) known hk,
    Pairwise-filter_map (λ e. change_new known e.0 e.1)
        (λ e c h. (change_new_service known e.0 e.1 c h).0) wanted hw,
    λ a i b j.
        ∥∥₁_elim ((mem-filter_map (λ e. change_known live wanted e.0 e.1) known).0 i)
          (ToldApart-prop a b)
          (λ x.
            ∥∥₁_elim ((mem-filter_map (λ e. change_new known e.0 e.1) wanted).0 j)
              (ToldApart-prop a b) (λ y. cross a x.0 x.1 x.2 b y.0 y.2)),
  )
    where
      cross :
          (a : Change) (e : Text × Service)
          → Mem e known
          → change_known live wanted e.0 e.1 ≡ some a
          → (b : Change) (e' : Text × Service) → change_new known e'.0 e'.1 ≡ some b
          → ToldApart change_le a b
      cross a e i made b e' made' =
          let (s, absent) = change_new_service known e'.0 e'.1 b made' in
          ToldApart-service a b (λ same. cc (
            lookup_some_of_mem known e i,
            ap (λ k. is_some (lookup k known))
                (sym (change_known_service live wanted e.0 e.1 a made) ∙ same ∙ s),
            ap is_some absent,
          ))

-- Go gives the entries of a map in any order. Whatever orders the two loops of `Plan` see, the
-- plan is the same list: the same declarations against the same machine make the same plan.
pub plan_any_order :
    (answer : Option (List Held)) (known : Map Service) (declared : List Service)
    (known' wanted' : Map Service)
    → IsMap known
    → Perm known known'
    → Perm (wanted_of declared []) wanted'
    → sort change_le (
        changes_known (live_of (get_or [] answer) []) (wanted_of declared []) known'
        ++ changes_new known wanted')
      ≡ plan answer known declared
unfolding plan changes_known changes_new
plan_any_order answer known declared known' wanted' h p q =
    let live = live_of (get_or [] answer) [] in
    let wanted = wanted_of declared [] in
    sym (
      sort-eq_of_perm change_le change_le_order change_set
        (Perm.append (Perm.filter_map (λ e. change_known live wanted e.0 e.1) p)
          (Perm.filter_map (λ e. change_new known e.0 e.1) q))
        (unfold changes_known changes_new in
          Pairwise-changes live wanted known h (wanted_of-IsMap declared [] tt)))
