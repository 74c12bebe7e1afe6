-- ===== src/Strings/Split.antt =====
-- `strings.Lines`, `Split`, `Cut` and the tests on prefixes and contents.
use hostd.Base.{
  ℕ, ◌≡◌, refl, ◌∙◌, Bool, true, false, ◌&&◌, ◌||◌, not, List, [], ◌∷◌, ◌++◌, append_assoc, Text,
  ◌==◌, if◌then◌else◌, arith, any, all, beq,
}

-- `strings.Lines`: each line with its newline; the last may have none.
unfoldable pub lines_from : Text → Text → List Text
lines_from [] [] = []
lines_from (d ∷ current) [] = (d ∷ current) ∷ []
lines_from current (c ∷ cs) = elim (c == 10) [
  | true ↦ (current ++ c ∷ []) ∷ lines_from [] cs
  | false ↦ lines_from (current ++ c ∷ []) cs
]

unfoldable pub lines : Text → List Text
unfolding lines_from
lines = lines_from []

-- The text ends where a line ends.
abbrev pub ends_line : Bool → Text → Bool
ends_line at_start [] = at_start
ends_line at_start (c ∷ cs) = ends_line (c == 10) cs

abbrev pub is_newline_free : Text → Bool
is_newline_free = all (λ c. not (c == 10))

lines_from-line :
    (current line : Text)
    → is_newline_free line ≡ true
    → lines_from current (line ++ 10 ∷ []) ≡ (current ++ (line ++ 10 ∷ [])) ∷ []
unfolding lines_from
lines_from-line [] [] h = refl
lines_from-line (d ∷ current) [] h = refl
lines_from-line [] (c ∷ line) h = ground (arith, lines_from-line (c ∷ []) line)
lines_from-line (d ∷ current) (c ∷ line) h = ground (
  arith,
  lines_from-line (d ∷ (current ++ c ∷ [])) line,
  append_assoc current (c ∷ []) (line ++ 10 ∷ []),
)

-- Behind a text that ends where a line ends, the lines are read on their own.
pub lines_from-append :
    (current s t : Text) (b : Bool)
    → (b ≡ true → current ≡ [])
    → ends_line b s ≡ true
    → lines_from current (s ++ t) ≡ lines_from current s ++ lines_from [] t
unfolding lines_from
lines_from-append [] [] t b h e = refl
lines_from-append (d ∷ current) [] t b h e = absurd (cc (h e))
lines_from-append [] (c ∷ s) t b h e = ground (
  arith,
  lines_from-append [] s t true (λ _. refl),
  lines_from-append (c ∷ []) s t false (λ x. cc),
)
lines_from-append (d ∷ current) (c ∷ s) t b h e = ground (
  arith,
  lines_from-append [] s t true (λ _. refl),
  lines_from-append (d ∷ (current ++ c ∷ [])) s t false (λ x. cc),
)

-- A line put behind whole lines is one more line.
pub lines-append-line :
    (s line : Text)
    → ends_line true s ≡ true
    → is_newline_free line ≡ true
    → lines (s ++ (line ++ 10 ∷ [])) ≡ lines s ++ (line ++ 10 ∷ []) ∷ []
unfolding lines
lines-append-line s line e h =
    lines_from-append [] s (line ++ 10 ∷ []) true (λ _. refl) e ∙ rw (lines_from-line [] line h)

-- `strings.HasPrefix(s, prefix)`
unfoldable pub has_prefix : Text → Text → Bool
has_prefix s [] = true
has_prefix [] (p ∷ ps) = false
has_prefix (c ∷ cs) (p ∷ ps) = c == p && has_prefix cs ps

drop_prefix : Text → Text → Text
drop_prefix s [] = s
drop_prefix [] (p ∷ ps) = []
drop_prefix (c ∷ cs) (p ∷ ps) = drop_prefix cs ps

-- `strings.TrimPrefix(s, prefix)`
unfoldable pub trim_prefix : Text → Text → Text
unfolding has_prefix drop_prefix
trim_prefix s prefix = if has_prefix s prefix then drop_prefix s prefix else s

pub trim_prefix-append : (p s : Text) → trim_prefix (p ++ s) p ≡ s
unfolding trim_prefix
trim_prefix-append p s = rw (has p s) (dropped p s)
  where
    has : (p s : Text) → has_prefix (p ++ s) p ≡ true
    has [] [] = unfold has_prefix in refl
    has [] (c ∷ s) = unfold has_prefix in refl
    has (c ∷ p) s = unfold has_prefix in ground (arith, has p s)

    dropped : (p s : Text) → drop_prefix (p ++ s) p ≡ s
    dropped [] s = unfold drop_prefix in refl
    dropped (c ∷ p) s = unfold drop_prefix in dropped p s

-- `strings.HasSuffix(s, suffix)`
unfoldable pub has_suffix : Text → Text → Bool
has_suffix [] suffix = beq [] suffix
has_suffix (c ∷ cs) suffix = beq (c ∷ cs) suffix || has_suffix cs suffix

-- `strings.TrimSuffix(s, suffix)`
unfoldable pub trim_suffix : Text → Text → Text
trim_suffix [] suffix = []
trim_suffix (c ∷ cs) suffix = if beq (c ∷ cs) suffix then [] else c ∷ trim_suffix cs suffix

-- `strings.Contains(s, string(byte))`
unfoldable pub contains_byte : ℕ → Text → Bool
contains_byte b = any (λ c. c == b)

-- `strings.ContainsAny(s, chars)`
unfoldable pub contains_any : Text → Text → Bool
unfolding contains_byte
contains_any s chars = any (λ c. contains_byte c chars) s

split_from : ℕ → Text → Text → List Text
split_from sep current [] = current ∷ []
split_from sep current (c ∷ cs) = elim (c == sep) [
  | true ↦ current ∷ split_from sep [] cs
  | false ↦ split_from sep (current ++ c ∷ []) cs
]

-- `strings.Split(s, string(sep))`
unfoldable pub split : ℕ → Text → List Text
unfolding split_from
split sep = split_from sep []

-- `strings.Cut(s, string(sep))`: before, after, found
unfoldable pub cut : ℕ → Text → Text × Text × Bool
cut sep [] = ([], [], false)
cut sep (c ∷ cs) =
    let (before, after, found) = cut sep cs in
    if c == sep then ([], cs, true) else (c ∷ before, after, found)
