-- ===== src/Strings/Trim.antt =====
-- `strings.TrimSpace` and `strings.TrimRight`. White space is ASCII's: the only texts that reach
-- these calls are names, lines of a log and lines that the program wrote itself.
use hostd.Base.{
  ℕ, ◌≡◌, refl, ap, Bool, true, false, ◌&&◌, ◌||◌, List, [], ◌∷◌, ◌++◌, Text, ◌==◌, leb,
  if◌then◌else◌,
}

-- tab, line feed, vertical tab, form feed, carriage return, space
unfoldable pub is_space : ℕ → Bool
is_space c = (leb 9 c && leb c 13) || c == 32

abbrev pub is_empty {ℓ} : {A : Type ℓ} → List A → Bool
is_empty [] = true
is_empty (x ∷ xs) = false

unfoldable pub trim_left : Text → Text
trim_left [] = []
trim_left (c ∷ cs) = if is_space c then trim_left cs else c ∷ cs

-- The bytes at the end for which the test holds go.
unfoldable pub trim_right_of : (ℕ → Bool) → Text → Text
trim_right_of p [] = []
trim_right_of p (c ∷ cs) =
    let rest = trim_right_of p cs in if p c && is_empty rest then [] else c ∷ rest

unfoldable pub trim_right : Text → Text
unfolding trim_right_of
trim_right = trim_right_of is_space

unfoldable pub trim_space : Text → Text
unfolding trim_left trim_right
trim_space s = trim_left (trim_right s)

pub trim_right_of-concat :
    (p : ℕ → Bool) (s : Text) (c : ℕ)
    → p c ≡ true
    → trim_right_of p (s ++ c ∷ []) ≡ trim_right_of p s
unfolding trim_right_of
trim_right_of-concat p [] c h = rw h
trim_right_of-concat p (x ∷ s) c h = rw (trim_right_of-concat p s c h)

-- A line's own end is trimmed with the space around it.
pub trim_space-newline : (s : Text) → trim_space (s ++ 10 ∷ []) ≡ trim_space s
unfolding trim_space trim_right
trim_space-newline s = ap trim_left (trim_right_of-concat is_space s 10 (unfold is_space in refl))
