-- ===== src/Docker/Pull.antt =====
-- docker/docker.go: `Pull`, and the reports of `Pull` and `Progress`.
--
-- What the runtime streams is a list of decoded lines, each with the instant at which it is read;
-- a line that cannot be decoded ends the list's reading. Instants are nanoseconds and the zero time
-- is 0, which is more than a second before any instant that a clock gives.
pub mod Said
use Prim.Native.Nat.{◌-◌}
use hostd.Base.{
  ℕ, ◌+◌, Bool, true, false, not, ◌&&◌, ◌||◌, Option, none, some, List, [], ◌∷◌, ◌++◌, Text, codes,
  ltb, if◌then◌else◌,
}
use hostd.Strings.{is_empty, cut, trim_space}
use hostd.Docker.{Answer, got, failed, CallError, reported, undecodable}

-- `progressInterval`
abbrev pub progress_interval : ℕ
progress_interval = 1_000_000_000

pub record PullLine : Type 0 where
  pub status : Text
  pub id : Text
  pub progress : Text
  pub error : Text

-- What the decoder gives in one round, and when.
pub data Decoded : Type 0 where
  unread : Decoded
  line : ℕ → PullLine → Decoded

-- A report of the pull: when, and what is said.
abbrev pub Report : Type 0
Report = ℕ × Text

-- What is asked for: `fromImage` and `tag`.
unfoldable pub pull_reference : Text → Text × Text
pull_reference image =
    let (name, tag, found) = cut 58 image in (name, if found then tag else codes "latest")

unfoldable pub report_text : PullLine → Text
report_text l = trim_space (l.id ++ (codes " " ++ (l.status ++ (codes " " ++ l.progress))))

-- The state of the loop: the last error, the last report's instant, the reports.
pub record Pulling : Type 0 where
  pub error : Text
  pub said : ℕ
  pub reports : List Report

-- One line that was decoded; `listening` says that there is somebody to report to.
unfoldable pub take_line : Bool → ℕ → PullLine → Pulling → Pulling
unfolding report_text
take_line listening now l p =
    if not (is_empty l.error)
    then record p { error = l.error }
    else if not listening || is_empty l.status || ltb (now - p.said) progress_interval
    then p
    else record p { said = now; reports = p.reports ++ (now, report_text l) ∷ [] }

unfoldable pub finish_pull : Pulling → Answer (Unit {0}) × List Report
finish_pull p = (if is_empty p.error then got tt else failed (reported p.error), p.reports)

-- The loop of `Pull`.
unfoldable pub pull_lines : Bool → List Decoded → Pulling → Answer (Unit {0}) × List Report
unfolding take_line finish_pull
pull_lines listening [] p = finish_pull p
pull_lines listening (unread ∷ ds) p = (failed undecodable, p.reports)
pull_lines listening (line now l ∷ ds) p = pull_lines listening ds (take_line listening now l p)

abbrev pub no_lines : Pulling
no_lines = record { error = []; said = 0; reports = [] }

-- `Pull`, once the runtime has answered.
unfoldable pub pull : Bool → List Decoded → Answer (Unit {0}) × List Report
unfolding pull_lines
pull listening ds = pull_lines listening ds no_lines

-- `counter`
pub record Counter : Type 0 where
  pub total : ℕ
  pub said : ℕ
  pub reports : List (ℕ × ℕ)

-- `Progress`: the clock starts at once.
unfoldable pub count_from : ℕ → Counter
count_from now = record { total = 0; said = now; reports = [] }

-- `Read`, of so many bytes, at an instant.
unfoldable pub count_read : ℕ × ℕ → Counter → Counter
count_read (now, read) c =
    let total = c.total + read in
    if ltb (now - c.said) progress_interval
    then record c { total = total }
    else record c { total = total; said = now; reports = c.reports ++ (now, total) ∷ [] }

unfoldable pub count_reads : List (ℕ × ℕ) → Counter → Counter
unfolding count_read
count_reads [] c = c
count_reads (r ∷ rs) c = count_reads rs (count_read r c)
