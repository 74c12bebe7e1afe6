-- ===== src/Base/Sort.antt =====
-- `slices.SortFunc` by insertion, for an order given as a Boolean test.
use mathlib.Core.Path.{◌≡◌}
use mathlib.Core.Bool.{Bool, true, ◌||◌}
use mathlib.Core.List.{List, [], ◌∷◌, ◌++◌, Perm, reverse, reverse-cons}
use mathlib.Core.List.Perm
use mathlib.Core.List.{Permᴰ, Pairwise, rel_of_Pairwise-cons, mem-cons, is_set}
use mathlib.Core.List.Pairwise
use mathlib.Core.HLevel.{Π_prop}
use mathlib.Core.Logic.Or
use mathlib.Core.Logic.{∥∥₁_elim, ◌⊎◌}
use mathlib.Core.Path.{refl, sym, ap, ◌∙◌, ap₂}
use native.Mathlib.Omega.{arith}
use hostd.Base.Tests.{if◌then◌else◌, Bool-cases}
use hostd.Base.Lists.{any, length, All, All-append, All-reverse}
use mathlib.Core.Logic.{inl, inr}

module _ {ℓ} {A : Type ℓ} (le : A → A → Bool) where
  unfoldable pub put_in_order : A → List A → List A
  put_in_order a [] = a ∷ []
  put_in_order a (x ∷ xs) = if le a x then a ∷ x ∷ xs else x ∷ put_in_order a xs

  unfoldable pub sort : List A → List A
  unfolding put_in_order
  sort [] = []
  sort (x ∷ xs) = put_in_order x (sort xs)

  -- Each element is in order with all that follow it.
  abbrev pub IsSorted : List A → Type ℓ
  IsSorted [] = Unit
  IsSorted (x ∷ xs) = All (λ y. le x y ≡ true) xs × IsSorted xs

  pub put_in_order-perm : (a : A) (xs : List A) → Perm (put_in_order a xs) (a ∷ xs)
  unfolding put_in_order
  put_in_order-perm a [] = Perm.refl (a ∷ [])
  put_in_order-perm a (x ∷ xs) = elim (Bool-cases (le a x)) [
    | inl h ↦ rw h (Perm.refl (a ∷ x ∷ xs))
    | inr h ↦ rw h (Perm.trans (Perm.cons x (put_in_order-perm a xs)) (Perm.swap a x xs))
  ]

  pub sort-perm : (xs : List A) → Perm (sort xs) xs
  unfolding sort
  sort-perm [] = Perm.refl []
  sort-perm (x ∷ xs) = Perm.trans (put_in_order-perm x (sort xs)) (Perm.cons x (sort-perm xs))

  length-put_in_order : (a : A) (xs : List A) → length (put_in_order a xs) ≡ length (a ∷ xs)
  unfolding put_in_order
  length-put_in_order a [] = refl
  length-put_in_order a (x ∷ xs) = ground (arith, length-put_in_order a xs)

  pub length-sort : (xs : List A) → length (sort xs) ≡ length xs
  unfolding sort
  length-sort [] = refl
  length-sort (x ∷ xs) = omega (arith, length-put_in_order x (sort xs), length-sort xs)

  pub All-put_in_order {κ} :
      (P : A → Type κ) (a : A) (xs : List A) → P a → All P xs → All P (put_in_order a xs)
  unfolding put_in_order
  All-put_in_order P a [] h hs = (h, tt)
  All-put_in_order P a (x ∷ xs) h hs = elim (Bool-cases (le a x)) [
    | inl e ↦ rw e (h, hs)
    | inr e ↦ rw e (hs.0, All-put_in_order P a xs h hs.1)
  ]

  pub All-sort {κ} : (P : A → Type κ) (xs : List A) → All P xs → All P (sort xs)
  unfolding sort
  All-sort P [] h = h
  All-sort P (x ∷ xs) h = All-put_in_order P x (sort xs) h.0 (All-sort P xs h.1)

module _ {ℓ} {A : Type ℓ} (le : A → A → Bool) where
  any-put_in_order :
      (p : A → Bool) (x : A) (xs : List A) → any p (put_in_order le x xs) ≡ (p x || any p xs)
  unfolding put_in_order
  any-put_in_order p x [] = refl
  any-put_in_order p x (y ∷ ys) = ground (arith, any-put_in_order p x ys)

  -- Sorting keeps what is in a list.
  pub any-sort : (p : A → Bool) (xs : List A) → any p (sort le xs) ≡ any p xs
  unfolding sort
  any-sort p [] = refl
  any-sort p (x ∷ xs) = any-put_in_order p x (sort le xs) ∙ ap (λ b. p x || b) (any-sort p xs)

  pub IsSorted-concat :
      (xs : List A) (x : A)
      → IsSorted le xs
      → All (λ y. le y x ≡ true) xs
      → IsSorted le (xs ++ x ∷ [])
  IsSorted-concat [] x s h = (tt, tt)
  IsSorted-concat (y ∷ ys) x s h =
      (All-append _ ys (x ∷ []) s.0 (h.0, tt), IsSorted-concat ys x s.1 h.1)

-- A list in order is in the opposite order from its end.
pub reverse-IsSorted {ℓ} :
    {A : Type ℓ} (le : A → A → Bool) (xs : List A)
    → IsSorted le xs
    → IsSorted (λ a b. le b a) (reverse xs)
reverse-IsSorted le [] s = tt
reverse-IsSorted le (x ∷ xs) s = rw (reverse-cons x xs) (
    IsSorted-concat (λ a b. le b a) (reverse xs) x (reverse-IsSorted le xs s.1)
      (All-reverse (λ y. le x y ≡ true) xs s.0))

-- The laws of an order that a sort may rest on.
pub record IsTotalOrder {ℓ} {A : Type ℓ} (le : A → A → Bool) : Type ℓ where
  pub total : (a b : A) → (le a b ≡ true) ⊎ (le b a ≡ true)
  pub trans : (a b c : A) → le a b ≡ true → le b c ≡ true → le a c ≡ true

-- Two elements that the order cannot tell apart are the same.
abbrev pub ToldApart {ℓ} : {A : Type ℓ} → (A → A → Bool) → A → A → Type ℓ
ToldApart le a b = le a b ≡ true → le b a ≡ true → a ≡ b

module _ {ℓ} {A : Type ℓ} (le : A → A → Bool) (order : IsTotalOrder le) where
  le-All :
      (a x : A) (xs : List A)
      → le a x ≡ true
      → All (λ y. le x y ≡ true) xs
      → All (λ y. le a y ≡ true) xs
  le-All a x [] h hs = tt
  le-All a x (y ∷ ys) h hs = (order.trans a x y h hs.0, le-All a x ys h hs.1)

  put_in_order-IsSorted :
      (a : A) (xs : List A) → IsSorted le xs → IsSorted le (put_in_order le a xs)
  unfolding put_in_order
  put_in_order-IsSorted a [] s = (tt, tt)
  put_in_order-IsSorted a (x ∷ xs) s = elim (Bool-cases (le a x)) [
    | inl e ↦ rw e ((e, le-All a x xs e s.0), s)
    | inr e ↦ rw e (
      All-put_in_order le (λ y. le x y ≡ true) a xs (ground (arith, order.total a x)) s.0,
      put_in_order-IsSorted a xs s.1,
    )
  ]

  pub sort-IsSorted : (xs : List A) → IsSorted le (sort le xs)
  unfolding sort
  sort-IsSorted [] = tt
  sort-IsSorted (x ∷ xs) = put_in_order-IsSorted x (sort le xs) (sort-IsSorted xs)

  put_in_order_comm :
      (a b : A) (xs : List A)
      → ToldApart le a b
      → put_in_order le a (put_in_order le b xs) ≡ put_in_order le b (put_in_order le a xs)
  unfolding put_in_order
  put_in_order_comm a b [] apart = ground (arith, order.total a b, apart)
  put_in_order_comm a b (x ∷ xs) apart = ground (
    arith,
    order.total a b,
    order.trans a b x,
    order.trans b a x,
    apart,
    put_in_order_comm a b xs,
  )

  sort-eq_of_permᴰ :
      (set : IsSet A) {xs ys : List A}
      → Permᴰ xs ys
      → Pairwise (ToldApart le) xs
      → sort le xs ≡ sort le ys
  unfolding sort
  sort-eq_of_permᴰ set Permᴰ.nil w = refl
  sort-eq_of_permᴰ set (Permᴰ.cons {l₁ = xs} e p) w =
      ap₂ (put_in_order le) e (sort-eq_of_permᴰ set p (Pairwise.of_cons w))
  sort-eq_of_permᴰ set (Permᴰ.swap {a} {b} {l} e f) w =
      rw (← e, ← f)
        (put_in_order_comm a b (sort le l) (rel_of_Pairwise-cons w (mem-cons.1 (Or.inl refl))))
  sort-eq_of_permᴰ set (Permᴰ.trans p q) w =
      sort-eq_of_permᴰ set p w
      ∙ sort-eq_of_permᴰ set q (
          Perm.pairwise (λ a b. Π_prop λ h. Π_prop λ k. set a b) (λ a b r h k. sym (r k h)) ∣ p ∣₁
            w)

  -- The order in which elements come to a sort is not seen in its result.
  pub sort-eq_of_perm :
      (set : IsSet A) {xs ys : List A}
      → Perm xs ys
      → Pairwise (ToldApart le) xs
      → sort le xs ≡ sort le ys
  sort-eq_of_perm set p w = ∥∥₁_elim p (is_set set _ _) (λ q. sort-eq_of_permᴰ set q w)
