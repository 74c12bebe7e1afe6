-- ===== src/Base/Bytes.antt =====
-- Go's strings: sequences of bytes, compared whole or in byte order.
use Prim.Native.Char.{code}
use Prim.Native.String.{String}
use Prim.Native.Nat.{ℕ, compare, Ordering}
use mathlib.Core.Path.{◌≡◌, refl}
use mathlib.Core.Logic.{◌↔◌, ◌⊎◌, inl, inr}
use mathlib.Core.Bool.{Bool, true, false, ◌&&◌}
use mathlib.Core.List.{List, [], ◌∷◌}
use native.Mathlib.Omega.{arith}
use hostd.Base.Tests.{◌==◌, ==_iff}

abbrev pub Text : Type 0
Text = List ℕ

-- The bytes of a literal; every literal of the program is ASCII.
abbrev pub codes : String → Text
codes String.[] = []
codes (String.◌∷◌ c s) = code c ∷ codes s

-- `slices.Equal`
unfoldable pub list_eq {ℓ} : {A : Type ℓ} → (A → A → Bool) → List A → List A → Bool
list_eq e [] [] = true
list_eq e (x ∷ xs) (y ∷ ys) = e x y && list_eq e xs ys
list_eq e _ _ = false

pub list_eq_iff {ℓ} :
    {A : Type ℓ} (e : A → A → Bool)
    → ((x y : A) → (e x y ≡ true) ↔ (x ≡ y))
    → (xs ys : List A) → (list_eq e xs ys ≡ true) ↔ (xs ≡ ys)
unfolding list_eq
list_eq_iff e h [] [] = ground arith
list_eq_iff e h [] (y ∷ ys) = ground arith
list_eq_iff e h (x ∷ xs) [] = ground arith
list_eq_iff e h (x ∷ xs) (y ∷ ys) = ground (arith, h x y, list_eq_iff e h xs ys)

-- `==` on strings
unfoldable pub beq : Text → Text → Bool
unfolding list_eq
beq = list_eq ◌==◌

pub beq_iff : (a b : Text) → (beq a b ≡ true) ↔ (a ≡ b)
unfolding beq
beq_iff = list_eq_iff ◌==◌ ==_iff

pub beq_refl : (a : Text) → beq a a ≡ true
beq_refl a = (beq_iff a a).1 refl

-- `strings.Compare`
unfoldable pub compare_text : Text → Text → Ordering
compare_text [] [] = Ordering.eq
compare_text [] (y ∷ ys) = Ordering.lt
compare_text (x ∷ xs) [] = Ordering.gt
compare_text (x ∷ xs) (y ∷ ys) = elim (compare x y) [
  | Ordering.lt ↦ Ordering.lt
  | Ordering.eq ↦ compare_text xs ys
  | Ordering.gt ↦ Ordering.gt
]

abbrev pub not_gt : Ordering → Bool
not_gt Ordering.gt = false
not_gt _ = true

unfoldable pub text_le : Text → Text → Bool
unfolding compare_text
text_le a b = not_gt (compare_text a b)

pub text_le_total : (a b : Text) → (text_le a b ≡ true) ⊎ (text_le b a ≡ true)
unfolding text_le
text_le_total [] [] = inl refl
text_le_total [] (y ∷ b) = inl refl
text_le_total (x ∷ a) [] = inr refl
text_le_total (x ∷ a) (y ∷ b) = ground (arith, text_le_total a b)

pub text_le_trans : (a b c : Text) → text_le a b ≡ true → text_le b c ≡ true → text_le a c ≡ true
unfolding text_le
text_le_trans [] b [] h k = refl
text_le_trans [] b (z ∷ c) h k = refl
text_le_trans (x ∷ a) [] c h k = cc
text_le_trans (x ∷ a) (y ∷ b) [] h k = cc
text_le_trans (x ∷ a) (y ∷ b) (z ∷ c) h k = ground (arith, text_le_trans a b c)

abbrev pub flip : Ordering → Ordering
flip Ordering.lt = Ordering.gt
flip Ordering.eq = Ordering.eq
flip Ordering.gt = Ordering.lt

pub compare_text_swap : (a b : Text) → compare_text b a ≡ flip (compare_text a b)
unfolding compare_text
compare_text_swap [] [] = refl
compare_text_swap [] (y ∷ b) = refl
compare_text_swap (x ∷ a) [] = refl
compare_text_swap (x ∷ a) (y ∷ b) = ground (arith, compare_text_swap a b)

pub compare_text_eq : (a b : Text) → compare_text a b ≡ Ordering.eq → a ≡ b
unfolding compare_text
compare_text_eq [] [] h = refl
compare_text_eq [] (y ∷ b) h = cc
compare_text_eq (x ∷ a) [] h = cc
compare_text_eq (x ∷ a) (y ∷ b) h = ground (arith, compare_text_eq a b)
