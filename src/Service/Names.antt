-- ===== src/Service/Names.antt =====
-- `ValidName` is the trust boundary: a name goes into paths, labels and container names.
use hostd.Base.{ℕ, ◌≤◌, ◌≡◌, refl, ◌⊎◌, Bool, true, false, [], ◌∷◌, Text, arith, length, All}
use hostd.Strings.{is_space, trim_left, trim_right, trim_space}
use hostd.Service.{valid_name, valid_from, is_letter_or_digit, is_dash}

-- A byte that a name may hold.
abbrev pub IsNameByte : ℕ → Type 0
IsNameByte c = ((b'a' ≤ c) × (c ≤ b'z')) ⊎ ((b'0' ≤ c) × (c ≤ b'9')) ⊎ (c ≡ b'-') ⊎ (c ≡ b'_')

-- A byte with which a name may begin and end.
abbrev pub IsNameEdge : ℕ → Type 0
IsNameEdge c = ((b'a' ≤ c) × (c ≤ b'z')) ⊎ ((b'0' ≤ c) × (c ≤ b'9'))

-- The last byte has the property.
abbrev pub EndsWith : (ℕ → Type 0) → Text → Type 0
EndsWith P [] = Unit
EndsWith P (c ∷ []) = P c
EndsWith P (c ∷ d ∷ cs) = EndsWith P (d ∷ cs)

abbrev pub BeginsWith : (ℕ → Type 0) → Text → Type 0
BeginsWith P [] = Unit
BeginsWith P (c ∷ cs) = P c

valid_from-All : (first : Bool) (s : Text) → valid_from first s ≡ true → All IsNameByte s
unfolding valid_from is_letter_or_digit is_dash
valid_from-All first [] h = tt
valid_from-All first (c ∷ cs) h = (ground arith, valid_from-All false cs (ground arith))

valid_from-ends : (first : Bool) (s : Text) → valid_from first s ≡ true → EndsWith IsNameEdge s
unfolding valid_from is_letter_or_digit is_dash
valid_from-ends first [] h = tt
valid_from-ends first (c ∷ []) h = ground arith
valid_from-ends first (c ∷ d ∷ cs) h = valid_from-ends false (d ∷ cs) (ground arith)

valid_from-begins : (s : Text) → valid_from true s ≡ true → BeginsWith IsNameEdge s
unfolding valid_from is_letter_or_digit is_dash
valid_from-begins [] h = tt
valid_from-begins (c ∷ cs) h = ground arith

-- An accepted name has 1 to 64 bytes, each a lower-case letter, a digit, a dash or an underscore,
-- and begins and ends with a letter or a digit.
pub valid_name-IsNameByte :
    (name : Text)
    → valid_name name ≡ true
    → (1 ≤ length name)
      × (length name ≤ 64)
      × All IsNameByte name
      × BeginsWith IsNameEdge name
      × EndsWith IsNameEdge name
unfolding valid_name
valid_name-IsNameByte [] h = cc
valid_name-IsNameByte (c ∷ cs) h =
    let ok : valid_from true (c ∷ cs) ≡ true = ground arith in
    (
      omega arith,
      ground arith,
      valid_from-All true (c ∷ cs) ok,
      valid_from-begins (c ∷ cs) ok,
      valid_from-ends true (c ∷ cs) ok,
    )

trim_right-All : (s : Text) → All IsNameByte s → trim_right s ≡ s
unfolding trim_right is_space
trim_right-All [] a = refl
trim_right-All (c ∷ cs) a = ground (arith, trim_right-All cs a.1, a.0)

trim_left-All : (s : Text) → All IsNameByte s → trim_left s ≡ s
unfolding trim_left is_space
trim_left-All [] a = refl
trim_left-All (c ∷ cs) a = ground (arith, a.0)

-- There is nothing to trim around an accepted name.
pub trim_space-valid_name : (name : Text) → valid_name name ≡ true → trim_space name ≡ name
unfolding trim_space
trim_space-valid_name name h =
    let a = (valid_name-IsNameByte name h).2 in rw (trim_right-All name a) (trim_left-All name a)
