-- ===== src/Wire/Frame/Split.antt =====
-- `parse_response` takes the frames of a body one by one.
use grok_build_auth.Prelude.{
  bind_ext, take-append, drop-append, ℕ, zero, suc, ◌+◌, ◌*◌, ◌/◌, ◌%◌, ◌^◌, ◌≤◌, ◌<◌, ◌≡◌, refl,
  ap, Bool, none, some, List, [], ◌∷◌, ◌++◌, arith, length, length-append, All, ok, ◌>>=◌,
  append_assoc,
}
use grok_build_auth.Wire.Base.{Bytes, Wire}
use grok_build_auth.Wire.Frame.{
  finish, nothing_read, parse_response, read_frame, frame_loop, Reading, next_frame, big_endian,
}

-- The specification: a body is its frames, one behind another.
pub record Frame : Type 0 where
  pub flag : ℕ
  pub payload : Bytes

abbrev pub Fits : Frame → Type 0
Fits f = length f.payload < 2 ^ 32

unfoldable pub write_frame : Frame → Bytes
write_frame f = f.flag ∷ (big_endian (length f.payload) ++ f.payload)

unfoldable pub write_frames : List Frame → Bytes
unfolding write_frame
write_frames [] = []
write_frames (f ∷ fs) = write_frame f ++ write_frames fs

size_digits :
    (n : ℕ)
    → n < 2 ^ 32
    → n / 16777216 % 256 * 16777216 + n / 65536 % 256 * 65536 + n / 256 % 256 * 256 + n % 256 ≡ n
size_digits n h = omega arith

next_frame-write_frame :
    (f : Frame) (rest : Bytes)
    → Fits f
    → next_frame (write_frame f ++ rest) ≡ some (f.flag, f.payload, rest)
unfolding next_frame write_frame big_endian
next_frame-write_frame f rest h =
    rw (size_digits (length f.payload) h, take-append f.payload rest, drop-append f.payload rest)

-- Fewer than five bytes are no frame.
next_frame-short : (tail : Bytes) → length tail < 5 → next_frame tail ≡ none
unfolding next_frame
next_frame-short (_ ∷ _ ∷ _ ∷ _ ∷ _ ∷ rest) h = absurd (omega arith)
next_frame-short _ h = refl

length-write_frame : (f : Frame) → length (write_frame f) ≡ 5 + length f.payload
unfolding write_frame big_endian
length-write_frame f = omega arith

write_frames-cons :
    (f : Frame) (fs : List Frame) (tail : Bytes)
    → write_frames (f ∷ fs) ++ tail ≡ write_frame f ++ (write_frames fs ++ tail)
unfolding write_frames
write_frames-cons f fs tail = append_assoc (write_frame f) (write_frames fs) tail

write_frames-nil : (tail : Bytes) → write_frames [] ++ tail ≡ tail
unfolding write_frames
write_frames-nil tail = refl

module _ (is_printable : ℕ → Bool) where
  pub frame_loop-none :
      (fuel : ℕ) (s : Reading) (body : Bytes)
      → next_frame body ≡ none
      → frame_loop is_printable fuel s body ≡ ok s
  unfolding frame_loop
  frame_loop-none zero s body e = rw (e, frame_loop)
  frame_loop-none (suc fuel) s body e = rw (e, frame_loop)

  pub frame_loop-some :
      (fuel : ℕ) (s : Reading) (body : Bytes) {flag : ℕ} {payload rest : Bytes}
      → next_frame body ≡ some (flag, payload, rest)
      → frame_loop is_printable (suc fuel) s body
        ≡ (read_frame is_printable s flag payload >>= λ s'. frame_loop is_printable fuel s' rest)
  unfolding frame_loop
  frame_loop-some fuel s body e = rw (e, frame_loop)

  unfoldable pub read_frames : Reading → List Frame → Wire Reading
  read_frames s [] = ok s
  read_frames s (f ∷ fs) = do s' ← read_frame is_printable s f.flag f.payload; read_frames s' fs

  frame_loop-write_frames :
      (fuel : ℕ) (s : Reading) (fs : List Frame) (tail : Bytes)
      → All Fits fs
      → length tail < 5
      → length (write_frames fs ++ tail) ≤ fuel
      → frame_loop is_printable fuel s (write_frames fs ++ tail) ≡ read_frames s fs
  unfolding read_frames
  frame_loop-write_frames fuel s [] tail fit short h =
      rw write_frames-nil (frame_loop-none fuel s tail (next_frame-short tail short))
  frame_loop-write_frames zero s (f ∷ fs) tail fit short h = absurd (
      omega (
        arith,
        ap length (write_frames-cons f fs tail),
        length-append (write_frame f) (write_frames fs ++ tail),
        length-write_frame f,
      ))
  frame_loop-write_frames (suc fuel) s (f ∷ fs) tail fit short h =
      let room : length (write_frames fs ++ tail) ≤ fuel = omega (
        arith,
        ap length (write_frames-cons f fs tail),
        length-append (write_frame f) (write_frames fs ++ tail),
        length-write_frame f,
      ) in
      rw
        (
          write_frames-cons f fs tail,
          frame_loop-some fuel s _ (next_frame-write_frame f (write_frames fs ++ tail) fit.0),
        )
        (bind_ext (read_frame is_printable s f.flag f.payload) _ _
          (λ s'. frame_loop-write_frames fuel s' fs tail fit.1 short room))

  -- A body of frames, each of a size that fits its header, is read frame by frame, in order, and up
  -- to four bytes behind them change nothing.
  pub parse_response-write_frames :
      (fs : List Frame) (tail : Bytes)
      → All Fits fs
      → length tail < 5
      → parse_response is_printable (write_frames fs ++ tail)
        ≡ (read_frames nothing_read fs >>= finish)
  unfolding parse_response
  parse_response-write_frames fs tail fit short =
      ap (λ m. m >>= finish)
        (frame_loop-write_frames (length (write_frames fs ++ tail)) nothing_read fs tail fit short
          (omega arith))
