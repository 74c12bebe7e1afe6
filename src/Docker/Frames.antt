-- ===== src/Docker/Frames.antt =====
-- docker/docker.go, `Logs`: the two streams of a container, framed in one connection.
--
-- A body is the bytes that arrive and how they end: with the connection closed, or cut by an
-- error. The four bytes of a size are below 256, so that `|` of the shifted bytes is their sum; a
-- size that is read from four bytes is never negative. `time.Parse` is the parameter `parse_time`.
pub mod Delivered
use Prim.Native.Nat.{◌%◌}
use hostd.Base.{
  ℕ, zero, suc, ◌+◌, ◌*◌, ◌/◌, Bool, true, false, Option, none, some, List, [], ◌∷◌, ◌++◌, map,
  Text, codes, ◌==◌, ltb, if◌then◌else◌, length,
}
use hostd.Strings.{split, cut, trim_right_of}

-- `maxFrameBytes`
abbrev pub max_frame_bytes : ℕ
max_frame_bytes = 1_048_576

-- `docker.Line`; no time is Go's zero time.
pub record Line : Type 0 where
  pub stream : Text
  pub text : Text
  pub at : Option ℕ

-- How following ends: the body is over, a read fails, a frame is too long, or the reader stops.
-- `spent` is the model's own, for fuel that ran out.
pub data Ending : Type 0 where
  finished broken stopped spent : Ending
  oversized : ℕ → Ending

-- The eight bytes of a header, and what follows them: the stream's byte and the size.
unfoldable pub read_header : Text → Option (ℕ × ℕ × Text)
read_header (a ∷ b ∷ c ∷ d ∷ e ∷ f ∷ g ∷ h ∷ rest) =
    some (a, e * 16_777_216 + f * 65_536 + g * 256 + h, rest)
read_header _ = none

abbrev pub add_byte : ℕ → Option (Text × Text) → Option (Text × Text)
add_byte c none = none
add_byte c (some (front, back)) = some (c ∷ front, back)

-- `io.ReadFull` of so many bytes
unfoldable pub read_full : ℕ → Text → Option (Text × Text)
read_full zero bytes = some ([], bytes)
read_full (suc n) [] = none
read_full (suc n) (c ∷ cs) = add_byte c (read_full n cs)

abbrev pub stream_of : ℕ → Text
stream_of first = if first == 2 then codes "stderr" else codes "stdout"

-- The reader of the lines keeps a state of its own, and says whether to go on.
module _ {S : Type 0} where
  abbrev pub while_going : (S → Bool × S) → Bool × S → Bool × S
  while_going k (true, s) = k s
  while_going k (false, s) = (false, s)

module _ {S : Type 0} (fn : Line → S → Bool × S) where
  unfoldable pub offer_lines : List Line → S → Bool × S
  offer_lines [] s = (true, s)
  offer_lines (l ∷ ls) s = while_going (offer_lines ls) (fn l s)

module _ (parse_time : Text → Option ℕ) where
  abbrev pub timed : Text → Text → Option ℕ → Option ℕ × Text
  timed raw rest none = (none, raw)
  timed raw rest (some at) = (some at, rest)

  -- `splitTimestamp`
  unfoldable pub split_timestamp : Text → Option ℕ × Text
  split_timestamp raw =
      let (stamp, rest, found) = cut 32 raw in
      if found then timed raw rest (parse_time stamp) else (none, raw)

  unfoldable pub line_of : ℕ → Text → Line
  unfolding split_timestamp
  line_of first raw =
      let (at, text) = split_timestamp raw in
      record { stream = stream_of first; text = text; at = at }

  -- The lines of one frame.
  unfoldable pub frame_lines : ℕ → Text → List Line
  unfolding line_of
  frame_lines first payload = map (line_of first) (split 10 (trim_right_of (λ c. c == 10) payload))

  module _ {S : Type 0} (fn : Line → S → Bool × S) where
    -- The rounds that are left are `again`, of the bytes that remain.
    abbrev pub after_lines : (Text → S → Ending × S) → Text → Bool × S → Ending × S
    after_lines again more (true, s) = again more s
    after_lines again more (false, s) = (stopped, s)

    abbrev pub after_payload : (Text → S → Ending × S) → ℕ → Option (Text × Text) → S → Ending × S
    after_payload again first none s = (broken, s)
    after_payload again first (some (payload, more)) s =
        after_lines again more (offer_lines fn (frame_lines first payload) s)

    abbrev pub after_header :
        (Text → S → Ending × S) → Bool → Option (ℕ × ℕ × Text) → S → Ending × S
    after_header again closed none s = (if closed then finished else broken, s)
    after_header again closed (some (first, size, rest)) s =
        if ltb max_frame_bytes size
        then (oversized size, s)
        else after_payload again first (read_full size rest) s

    -- The loop of `Logs`; `closed` says that the body ends with the connection.
    unfoldable pub follow_frames : ℕ → Bool → Text → S → Ending × S
    unfolding read_header read_full frame_lines offer_lines
    follow_frames zero closed bytes s = (spent, s)
    follow_frames (suc fuel) closed bytes s =
        after_header (follow_frames fuel closed) closed (read_header bytes) s

    -- `Logs`, once the runtime has answered: each round takes eight bytes or more.
    unfoldable pub logs : Bool → Text → S → Ending × S
    unfolding follow_frames
    logs closed bytes s = follow_frames (suc (length bytes)) closed bytes s
