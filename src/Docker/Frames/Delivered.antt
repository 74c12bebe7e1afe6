-- ===== src/Docker/Frames/Delivered.antt =====
-- Following a container's output comes to an end, and delivers the lines of every frame in order.
use Prim.Native.Nat.{◌%◌}
use hostd.Base.{
  ℕ, zero, suc, ◌+◌, ◌*◌, ◌/◌, ◌≤◌, ◌<◌, ◌≡◌, ◌≢◌, refl, ap, ◌∙◌, inl, inr, Bool, true, false,
  Option, none, some, List, [], ◌∷◌, ◌++◌, append_assoc, Text, ltb, length, length-append, All,
  arith, Bool-cases, Option-cases, if◌then◌else◌,
}
use hostd.Docker.Frames.{
  max_frame_bytes, Line, Ending, finished, stopped, spent, oversized, read_header, add_byte,
  read_full, frame_lines, while_going, offer_lines, after_lines, after_payload, after_header,
  follow_frames, logs,
}

-- What the runtime writes for one frame: the stream, three bytes of nothing, the size, the bytes.
abbrev pub Frame : Type 0
Frame = ℕ × Text

unfoldable pub frame_bytes : Frame → Text
frame_bytes (first, payload) =
    let n = length payload in
    (first ∷ 0 ∷ 0 ∷ 0 ∷ (n / 16_777_216) ∷ (n / 65_536 % 256) ∷ (n / 256 % 256) ∷ (n % 256) ∷ [])
    ++ payload

unfoldable pub stream_bytes : List Frame → Text
stream_bytes [] = []
stream_bytes (f ∷ fs) = frame_bytes f ++ stream_bytes fs

abbrev pub IsShort : Frame → Type 0
IsShort (first, payload) = length payload ≤ max_frame_bytes

read_full-append : (p rest : Text) → read_full (length p) (p ++ rest) ≡ some (p, rest)
unfolding read_full
read_full-append [] rest = refl
read_full-append (c ∷ p) rest = ap (add_byte c) (read_full-append p rest)

read_full-length :
    (n : ℕ) (bytes front back : Text)
    → read_full n bytes ≡ some (front, back)
    → length back ≤ length bytes
unfolding read_full
read_full-length zero bytes front back e = ground arith
read_full-length (suc n) [] front back e = cc
read_full-length (suc n) (c ∷ cs) front back e = elim (Option-cases (read_full n cs)) [
  | inl missing ↦ absurd (ground (arith, missing))
  | inr (p, whole) ↦ ground (arith, read_full-length n cs p.0 p.1)
]

read_header-length :
    (bytes : Text) (first size : ℕ) (rest : Text)
    → read_header bytes ≡ some (first, size, rest)
    → length rest < length bytes
unfolding read_header
read_header-length (a ∷ b ∷ c ∷ d ∷ e ∷ f ∷ g ∷ h ∷ more) first size rest same = ground arith
read_header-length _ first size rest same = cc

stream_bytes-length : (fs : List Frame) → length fs ≤ length (stream_bytes fs)
unfolding stream_bytes frame_bytes
stream_bytes-length [] = omega arith
stream_bytes-length ((first, payload) ∷ fs) =
    omega (
      arith,
      length-append (frame_bytes (first, payload)) (stream_bytes fs),
      stream_bytes-length fs,
    )

size_lem :
    (n : ℕ)
    → n ≤ max_frame_bytes
    → n / 16_777_216 * 16_777_216 + n / 65_536 % 256 * 65_536 + n / 256 % 256 * 256 + n % 256 ≡ n
size_lem n h = omega arith

read_header-frame_bytes :
    (first : ℕ) (payload rest : Text)
    → length payload ≤ max_frame_bytes
    → read_header (frame_bytes (first, payload) ++ rest)
      ≡ some (first, length payload, payload ++ rest)
unfolding read_header frame_bytes
read_header-frame_bytes first payload rest h = rw (size_lem (length payload) h)

module _ (parse_time : Text → Option ℕ) where
  -- The lines of the frames, in order.
  unfoldable pub frames_lines : List Frame → List Line
  frames_lines [] = []
  frames_lines ((first, payload) ∷ fs) = frame_lines parse_time first payload ++ frames_lines fs

module _ {S : Type 0} (fn : Line → S → Bool × S) where
  while_going_assoc :
      (both first second : S → Bool × S)
      → ((s : S) → both s ≡ while_going second (first s))
      → (p : Bool × S) → while_going both p ≡ while_going second (while_going first p)
  while_going_assoc both first second h (true, s) = h s
  while_going_assoc both first second h (false, s) = refl

  offer_lines-append :
      (ls ms : List Line) (s : S)
      → offer_lines fn (ls ++ ms) s ≡ while_going (offer_lines fn ms) (offer_lines fn ls s)
  unfolding offer_lines
  offer_lines-append [] ms s = refl
  offer_lines-append (l ∷ ls) ms s =
      while_going_assoc (offer_lines fn (ls ++ ms)) (offer_lines fn ls) (offer_lines fn ms)
        (offer_lines-append ls ms) (fn l s)

-- The end of a stream whose lines have been offered.
abbrev pub settle : {S : Type 0} → Bool × S → Ending × S
settle (true, s) = (finished, s)
settle (false, s) = (stopped, s)

module _ (parse_time : Text → Option ℕ) {S : Type 0} (fn : Line → S → Bool × S) where
  -- One whole frame is delivered, and the next is read.
  follow_frames-frame :
      (fuel : ℕ) (first : ℕ) (payload rest : Text) (s : S)
      → length payload ≤ max_frame_bytes
      → follow_frames parse_time fn (suc fuel) true (frame_bytes (first, payload) ++ rest) s
        ≡ after_lines parse_time fn
            (follow_frames parse_time fn fuel true)
            rest
            (offer_lines fn (frame_lines parse_time first payload) s)
  unfolding follow_frames
  follow_frames-frame fuel first payload rest s h =
      let again = follow_frames parse_time fn fuel true in
      let fits : ltb max_frame_bytes (length payload) ≡ false = ground arith in
      ap (λ o. after_header parse_time fn again true o s)
        (read_header-frame_bytes first payload rest h)
      ∙ ap
          (λ (b : Bool).
            if b
            then (oversized (length payload), s)
            else after_payload parse_time fn again first
                (read_full (length payload) (payload ++ rest)) s)
          fits
      ∙ ap (λ o. after_payload parse_time fn again first o s) (read_full-append payload rest)

  after_lines-settle :
      (again : Text → S → Ending × S) (more : Text) (k : S → Bool × S) (p : Bool × S)
      → ((s : S) → again more s ≡ settle (k s))
      → after_lines parse_time fn again more p ≡ settle (while_going k p)
  after_lines-settle again more k (true, s) h = h s
  after_lines-settle again more k (false, s) h = refl

  follow_frames-deliver :
      (fuel : ℕ) (fs : List Frame) (tail : Text) (s : S)
      → All IsShort fs
      → read_header tail ≡ none
      → length fs < fuel
      → follow_frames parse_time fn fuel true (stream_bytes fs ++ tail) s
        ≡ settle (offer_lines fn (frames_lines parse_time fs) s)
  unfolding stream_bytes frames_lines
  follow_frames-deliver zero fs tail s short ends h = absurd (omega arith)
  follow_frames-deliver (suc fuel) [] tail s short ends h =
      unfold follow_frames offer_lines in rw ends
  follow_frames-deliver (suc fuel) ((first, payload) ∷ fs) tail s short ends h =
      let ls = frame_lines parse_time first payload in
      rw
        (
          append_assoc (frame_bytes (first, payload)) (stream_bytes fs) tail,
          follow_frames-frame fuel first payload (stream_bytes fs ++ tail) s short.0,
          offer_lines-append fn ls (frames_lines parse_time fs) s,
        )
        (after_lines-settle (follow_frames parse_time fn fuel true) (stream_bytes fs ++ tail)
          (offer_lines fn (frames_lines parse_time fs)) (offer_lines fn ls s)
          (λ s'. follow_frames-deliver fuel fs tail s' short.1 ends (omega arith)))

  -- Behind a frame the bytes run out before the fuel does.
  Ends : (Text → S → Ending × S) → ℕ → Type 0
  Ends again fuel = (more : Text) (s : S) → length more < fuel → (again more s).0 ≢ spent

  after_lines-Ends :
      (again : Text → S → Ending × S) (fuel : ℕ) (more : Text) (p : Bool × S)
      → Ends again fuel
      → length more < fuel
      → (after_lines parse_time fn again more p).0 ≢ spent
  unfolding Ends
  after_lines-Ends again fuel more (true, s) h fits = h more s fits
  after_lines-Ends again fuel more (false, s) h fits = λ same. cc

  after_payload-Ends :
      (again : Text → S → Ending × S) (fuel first n : ℕ) (rest : Text) (o : Option (Text × Text))
      (s : S)
      → Ends again fuel
      → length rest < fuel
      → read_full n rest ≡ o
      → (after_payload parse_time fn again first o s).0 ≢ spent
  after_payload-Ends again fuel first n rest none s h fits e = λ same. cc
  after_payload-Ends again fuel first n rest (some (payload, more)) s h fits e =
      after_lines-Ends again fuel more (offer_lines fn (frame_lines parse_time first payload) s) h
        (omega (arith, read_full-length n rest payload more e))

  after_header-Ends :
      (again : Text → S → Ending × S) (fuel : ℕ) (closed : Bool) (bytes : Text)
      (o : Option (ℕ × ℕ × Text)) (s : S)
      → Ends again fuel
      → length bytes ≤ fuel
      → read_header bytes ≡ o
      → (after_header parse_time fn again closed o s).0 ≢ spent
  after_header-Ends again fuel true bytes none s h fits e = λ same. cc
  after_header-Ends again fuel false bytes none s h fits e = λ same. cc
  after_header-Ends again fuel closed bytes (some (first, size, rest)) s h fits e =
      elim (Bool-cases (ltb max_frame_bytes size)) [
        | inl long ↦ rw long (λ same. cc)
        | inr short ↦ rw short (
            after_payload-Ends again fuel first size rest (read_full size rest) s h
              (omega (arith, read_header-length bytes first size rest e)) refl)
      ]

  follow_frames-Ends :
      (fuel : ℕ) (closed : Bool) (bytes : Text) (s : S)
      → length bytes < fuel
      → (follow_frames parse_time fn fuel closed bytes s).0 ≢ spent
  unfolding follow_frames Ends
  follow_frames-Ends zero closed bytes s h = absurd (omega arith)
  follow_frames-Ends (suc fuel) closed bytes s h =
      after_header-Ends (follow_frames parse_time fn fuel closed) fuel closed bytes
        (read_header bytes) s (follow_frames-Ends fuel closed) (omega arith) refl

  -- Following comes to an end on every answer of the runtime, whatever its bytes are.
  pub logs-ends :
      (closed : Bool) (bytes : Text) (s : S) → (logs parse_time fn closed bytes s).0 ≢ spent
  unfolding logs
  logs-ends closed bytes s = follow_frames-Ends (suc (length bytes)) closed bytes s (omega arith)

  -- When the runtime writes frames of at most `max_frame_bytes` each and then closes, with less
  -- than a header behind them, each line of each frame is offered in order, with the frame's
  -- stream, until the reader stops; following then ends as finished, or as stopped by the reader.
  pub logs-deliver :
      (fs : List Frame) (tail : Text) (s : S)
      → All IsShort fs
      → read_header tail ≡ none
      → logs parse_time fn true (stream_bytes fs ++ tail) s
        ≡ settle (offer_lines fn (frames_lines parse_time fs) s)
  unfolding logs
  logs-deliver fs tail s short ends =
      follow_frames-deliver (suc (length (stream_bytes fs ++ tail))) fs tail s short ends
        (omega (arith, length-append (stream_bytes fs) tail, stream_bytes-length fs))
