-- ===== src/State/Ceiling.antt =====
-- The audit log has a ceiling without anyone trimming it.
use hostd.Base.{
  ℕ, ◌+◌, ◌≤◌, ◌≡◌, true, Option, List, [], ◌∷◌, Text, arith, length, length-append, length-take,
  get_or,
}
use hostd.State.Disk.{
  Disk, Faults, max_audit_bytes, rotate_if_needed, written, one_line, append_line,
}

abbrev pub size : Option Text → ℕ
size file = length (get_or [] file)

-- Neither audit file passes the rotation size by more than one line of at most `k` bytes.
pub record IsWithinCeiling (k : ℕ) (d : Disk) : Type 0 where
  pub audit : size d.audit ≤ max_audit_bytes + k
  pub previous : size d.previous ≤ max_audit_bytes + k

written-le : (f : Faults) (line : Text) → length (written f line) ≤ length line
unfolding written
written-le f line = ground (arith, length-take (get_or 0 f.write) line)

-- What a rotation leaves: nothing over the rotation size in the audit file, and in the other the
-- file that was there or the one that was moved.
rotate_if_needed-IsWithinCeiling :
    (k : ℕ) (f : Faults) (d : Disk)
    → IsWithinCeiling k d
    → IsWithinCeiling k (rotate_if_needed f d).0
      × ((rotate_if_needed f d).1 ≡ true → size (rotate_if_needed f d).0.audit ≤ max_audit_bytes)
unfolding rotate_if_needed
rotate_if_needed-IsWithinCeiling k f d w = ground arith

unfoldable pub append_all : List (Faults × Text) → Disk → Disk
append_all [] d = d
append_all ((f, text) ∷ rest) d = append_all rest (append_line f text d)

abbrev pub LinesWithin : ℕ → List (Faults × Text) → Type 0
LinesWithin k [] = Unit
LinesWithin k ((f, text) ∷ rest) = (length (one_line text) ≤ k) × LinesWithin k rest

append_line-IsWithinCeiling :
    (k : ℕ) (f : Faults) (text : Text) (d : Disk)
    → length (one_line text) ≤ k
    → IsWithinCeiling k d
    → IsWithinCeiling k (append_line f text d)
unfolding append_line
append_line-IsWithinCeiling k f text d short w =
    let r = rotate_if_needed-IsWithinCeiling k f d w in
    ground (
      arith,
      r,
      written-le f (one_line text),
      length-append (get_or [] (rotate_if_needed f d).0.audit) (written f (one_line text)),
    )

-- Whatever calls the operating system refuses, after any appends of lines of at most `k` bytes
-- each audit file has at most four megabytes and one line.
pub append_all-IsWithinCeiling :
    (k : ℕ) (appends : List (Faults × Text)) (d : Disk)
    → LinesWithin k appends
    → IsWithinCeiling k d
    → IsWithinCeiling k (append_all appends d)
unfolding append_all
append_all-IsWithinCeiling k [] d h w = w
append_all-IsWithinCeiling k ((f, text) ∷ rest) d h w =
    append_all-IsWithinCeiling k rest (append_line f text d) h.1
      (append_line-IsWithinCeiling k f text d h.0 w)
