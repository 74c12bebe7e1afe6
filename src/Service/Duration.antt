-- ===== src/Service/Duration.antt =====
-- `time.ParseDuration` and `strconv.Atoi`, which read the schedule and the ports of a declaration.
use hostd.Base.{
  ℕ, ◌+◌, ◌-◌, ◌*◌, ◌/◌, ◌^◌, Bool, true, false, not, ◌&&◌, ◌||◌, Option, none, some, [], ◌∷◌, ◌++◌,
  Text, codes, beq, ◌==◌, leb, ltb, if◌then◌else◌, ℤ, pos, negsuc,
}

unfoldable pub is_digit : ℕ → Bool
is_digit c = leb b'0' c && leb c b'9'

abbrev pub second : ℕ
second = 1_000_000_000

-- The units that Go knows; micro is written with `u`, or with one of two two-byte signs.
unfoldable pub unit_of : Text → Option ℕ
unit_of u =
    if beq u (codes "ns")
    then some 1
    else if beq u (codes "us")
        || (beq u (0xc2 ∷ 0xb5 ∷ b's' ∷ []) || beq u (0xce ∷ 0xbc ∷ b's' ∷ []))
    then some 1_000
    else if beq u (codes "ms")
    then some 1_000_000
    else if beq u (codes "s")
    then some 1_000_000_000
    else if beq u (codes "m")
    then some 60_000_000_000
    else if beq u (codes "h")
    then some 3_600_000_000_000
    else none

-- Where the reader stands within one number with its unit.
pub data Phase : Type 0 where
  start : Phase
  whole : ℕ → Phase
  fraction : ℕ → ℕ → ℕ → Bool → Phase
  unit : ℕ → ℕ → ℕ → Text → Phase

-- A number with its unit, added to the sum so far; the sum stays within 2^63.
unfoldable pub add_term : ℕ → ℕ → ℕ → ℕ → Text → Option ℕ
unfolding unit_of
add_term total v f scale u = elim (unit_of u) [
  | none ↦ none
  | some size ↦
      let value = v * size + f * size / scale in
      if ltb (2 ^ 63) (total + value) then none else some (total + value)
]

begin : ℕ → ℕ → Option (ℕ × Phase)
begin total c =
    if is_digit c
    then some (total, whole (c - 48))
    else if c == b'.'
    then some (total, fraction 0 0 1 false)
    else none

-- One byte; the flag of `fraction` says that a digit was read on either side of the point.
step : ℕ → Phase → ℕ → Option (ℕ × Phase)
step total start c = begin total c
step total (whole v) c =
    if is_digit c
    then some (total, whole (v * 10 + (c - 48)))
    else if c == b'.'
    then some (total, fraction v 0 1 true)
    else some (total, unit v 0 1 (c ∷ []))
step total (fraction v f scale any_digit) c =
    if is_digit c
    then some (total, fraction v (f * 10 + (c - 48)) (scale * 10) true)
    else if c == b'.' || not any_digit
    then none
    else some (total, unit v f scale (c ∷ []))
step total (unit v f scale u) c =
    if is_digit c || c == b'.'
    then elim (add_term total v f scale u) [ none ↦ none | some total' ↦ begin total' c ]
    else some (total, unit v f scale (u ++ c ∷ []))

finish : ℕ → Phase → Option ℕ
finish total (unit v f scale u) = add_term total v f scale u
finish total _ = none

read_terms : ℕ → Phase → Text → Option ℕ
read_terms total phase [] = finish total phase
read_terms total phase (c ∷ cs) = elim (step total phase c) [
  | none ↦ none
  | some (total', phase') ↦ read_terms total' phase' cs
]

magnitude : Text → Option ℕ
magnitude s = if beq s (codes "0") then some 0 else read_terms 0 start s

negate : ℕ → ℤ
negate n = if n == 0 then pos 0 else negsuc (n - 1)

-- `time.ParseDuration`, in nanoseconds. A fraction is cut at the nanosecond.
unfoldable pub parse_duration : Text → Option ℤ
unfolding magnitude read_terms step begin finish add_term negate is_digit
parse_duration [] = none
parse_duration (c ∷ cs) =
    if c == b'-'
    then elim (magnitude cs) [ none ↦ none | some n ↦ some (negate n) ]
    else elim (magnitude (if c == b'+' then cs else c ∷ cs)) [
      | none ↦ none
      | some n ↦ if n == 2 ^ 63 then none else some (pos n)
    ]

read_digits : ℕ → Text → Option ℕ
read_digits n [] = some n
read_digits n (c ∷ cs) =
    let rest = read_digits (n * 10 + (c - 48)) cs in if is_digit c then rest else none

unsigned : Text → Option ℕ
unsigned [] = none
unsigned (c ∷ cs) = read_digits 0 (c ∷ cs)

-- `strconv.Atoi`, on 64 bits
unfoldable pub atoi : Text → Option ℤ
unfolding unsigned read_digits is_digit negate
atoi [] = none
atoi (c ∷ cs) =
    if c == b'-'
    then elim (unsigned cs) [
      | none ↦ none
      | some n ↦ if ltb (2 ^ 63) n then none else some (negate n)
    ]
    else elim (unsigned (if c == b'+' then cs else c ∷ cs)) [
      | none ↦ none
      | some n ↦ if ltb n (2 ^ 63) then some (pos n) else none
    ]
