-- ===== src/Supervisor/Schedule/Digits.antt =====
-- The name of a run tells the millisecond that it was scheduled for.
use native.Mathlib.Nat.{pow-suc}
use hostd.Base.{
  ℕ, zero, suc, ◌+◌, ◌-◌, ◌*◌, ◌/◌, ◌%◌, ◌^◌, ◌<◌, ◌≡◌, refl, sym, ap, ◌∙◌, inl, inr, [], ◌∷◌, Text,
  arith, ltb, Bool-cases,
}
use hostd.Supervisor.Schedule.{unix_milli, digits, run_id, run_name, run_of}
use hostd.Supervisor.Schedule.Clock.{run_of-run_name}

-- The number that decimal digits behind `n` make.
unfoldable pub read : ℕ → Text → ℕ
read n [] = n
read n (c ∷ cs) = read (10 * n + (c - 48)) cs

read-digits : (fuel n : ℕ) (rest : Text) → n < 10 ^ fuel → read 0 (digits fuel n rest) ≡ read n rest
unfolding digits read
read-digits zero n rest h = let e : n ≡ 0 = omega arith in rw e refl
read-digits (suc fuel) n rest h = elim (Bool-cases (ltb n 10)) [
  | inl last ↦ rw last (ap (λ m. read m rest) (ground arith))
  | inr more ↦ rw more (
      read-digits fuel (n / 10) ((48 + n % 10) ∷ rest) (let power = pow-suc 10 fuel in omega arith)
      ∙ ap (λ m. read m rest) (omega arith))
]

-- The digits of a run are those of its millisecond: nineteen are enough for every `int64`.
pub read-run_id : (slot : ℕ) → unix_milli slot < 10 ^ 19 → read 0 (run_id slot) ≡ unix_milli slot
unfolding run_id read
read-run_id slot h = read-digits 19 (unix_milli slot) [] h

-- Two runs of a service have the same container's name only if they are of the same millisecond.
pub run_name_injective :
    (service : Text) (a b : ℕ)
    → unix_milli a < 10 ^ 19
    → unix_milli b < 10 ^ 19
    → run_name service a ≡ run_name service b
    → unix_milli a ≡ unix_milli b
run_name_injective service a b h k same =
    sym (read-run_id a h)
    ∙ ap (read 0) (
        sym (run_of-run_name service a)
        ∙ ap (λ n. run_of n service) same
        ∙ run_of-run_name service b)
    ∙ read-run_id b k
