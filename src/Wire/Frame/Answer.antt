-- ===== src/Wire/Frame/Answer.antt =====
-- A whole answer of the service, from its bytes to the status.
use grok_build_auth.Prelude.{
  ℤ, pos, Text, codes, ℕ, zero, suc, ◌+◌, ◌*◌, ◌^◌, ◌≤◌, ◌<◌, ◌≡◌, refl, sym, ◌∙◌, ◌≢◌, inl, inr,
  Bool, some, List, [], ◌∷◌, ◌++◌, map, arith, Option-cases, length, length-drop, All, ok, err,
  ◌>>=◌, bind-err, append-nil,
}
use grok_build_auth.Wire.Base.{Bytes, out_of_fuel}
use grok_build_auth.Wire.Frame.{
  nothing_read, finish, frame_request, Reading, frame_loop, read_frame, next_frame, parse_response,
}
use grok_build_auth.Wire.Message.RoundTrip.{decode_message-encode_message, as_string, IsPlain}
use grok_build_auth.Wire.Message.{decode_message, Field, encode_message}
use grok_build_auth.Wire.Message.Total.{decode_message-ne-out_of_fuel}
use grok_build_auth.Wire.Frame.Split.{
  frame_loop-some, write_frames, frame_loop-none, Frame, read_frames, parse_response-write_frames,
  write_frame,
}

-- A successful answer: one message, and the trailer that says so.
abbrev pub ok_trailer : Bytes
ok_trailer = codes "grpc-status:0\r\n"

abbrev ok_frame : Frame
ok_frame = record { flag = 0x80; payload = ok_trailer }

frame_request-write_frame :
    (message : Bytes) {framed : Bytes}
    → frame_request message ≡ ok framed
    → (framed ≡ write_frame (record { flag = 0; payload = message })) × (length message < 2 ^ 32)
unfolding frame_request write_frame
frame_request-write_frame message e = ground arith

two_frames : (f g : Frame) → write_frame f ++ write_frame g ≡ write_frames (f ∷ g ∷ []) ++ []
unfolding write_frames
two_frames f g =
    rw (append-nil (write_frame f ++ (write_frame g ++ [])), append-nil (write_frame g))

module _ (is_printable : ℕ → Bool) where
  read_frames-answer :
      (message : Bytes) {decoded : List Field}
      → decode_message is_printable message ≡ ok decoded
      → (read_frames is_printable nothing_read
            (record { flag = 0; payload = message } ∷ ok_frame ∷ [])
          >>= finish)
        ≡ ok (record {
          messages = decoded ∷ [];
          trailers = (codes "grpc-status", codes "0") ∷ [];
          grpc_status = some (pos 0);
        })
  unfolding read_frames read_frame finish
  read_frames-answer message e = rw e refl

  -- What `frame_request` wrote, with the trailer of status 0 behind it, is read as an answer of
  -- status 0 whose one message has the fields that `encode_message` was given, in order.
  pub parse_response-frame_request :
      (fields : List (ℤ × Text)) {message framed : Bytes}
      → All (IsPlain is_printable) fields
      → encode_message fields ≡ ok message
      → frame_request message ≡ ok framed
      → parse_response is_printable
          (framed ++ write_frame (record { flag = 0x80; payload = ok_trailer }))
        ≡ ok (record {
          messages = map (as_string is_printable) fields ∷ [];
          trailers = (codes "grpc-status", codes "0") ∷ [];
          grpc_status = some (pos 0);
        })
  parse_response-frame_request fields {message} {framed} plain em ef =
      let (written, fits) = frame_request-write_frame message ef in
      rw
        (
          written,
          two_frames (record { flag = 0; payload = message }) ok_frame,
          parse_response-write_frames is_printable
              (record { flag = 0; payload = message } ∷ ok_frame ∷ []) [] (fits, (omega arith, tt))
              (omega arith),
        )
        (read_frames-answer message (decode_message-encode_message is_printable fields plain em))

  next_frame-shrinks :
      (body : Bytes) {flag : ℕ} {payload rest : Bytes}
      → next_frame body ≡ some (flag, payload, rest)
      → length rest < length body
  unfolding next_frame
  next_frame-shrinks (f ∷ b3 ∷ b2 ∷ b1 ∷ b0 ∷ bytes) e =
      ground (arith, length-drop (b3 * 16777216 + b2 * 65536 + b1 * 256 + b0) bytes)
  next_frame-shrinks _ e = cc

  read_frame-ne-out_of_fuel :
      (s : Reading) (flag : ℕ) (payload : Bytes)
      → read_frame is_printable s flag payload ≢ err out_of_fuel
  unfolding read_frame
  read_frame-ne-out_of_fuel s flag payload =
      ground (arith, decode_message-ne-out_of_fuel is_printable payload)

  finish-ne-out_of_fuel : (s : Reading) → finish s ≢ err out_of_fuel
  unfolding finish
  finish-ne-out_of_fuel s = ground arith

  frame_loop-ne-out_of_fuel :
      (fuel : ℕ) (s : Reading) (body : Bytes)
      → length body ≤ fuel
      → frame_loop is_printable fuel s body ≢ err out_of_fuel
  frame_loop-ne-out_of_fuel zero s body h e = elim (Option-cases (next_frame body)) [
    | inl stop ↦ cc (frame_loop-none is_printable 0 s body stop)
    | inr ((flag, payload, rest), go) ↦ absurd (omega (arith, next_frame-shrinks body go))
  ]
  frame_loop-ne-out_of_fuel (suc fuel) s body h e = elim (Option-cases (next_frame body)) [
    | inl stop ↦ cc (frame_loop-none is_printable (suc fuel) s body stop)
    | inr ((flag, payload, rest), go) ↦
        let room : length rest ≤ fuel = omega (arith, next_frame-shrinks body go) in
        elim (bind-err (read_frame is_printable s flag payload) _
          (sym (frame_loop-some is_printable fuel s body go) ∙ e)) [
            | inl e' ↦ read_frame-ne-out_of_fuel s flag payload e'
            | inr (s', _, e') ↦ frame_loop-ne-out_of_fuel fuel s' rest room e'
          ]
  ]

  -- `parse_response` always ends, with an answer or an exception.
  pub parse_response-ne-out_of_fuel :
      (body : Bytes) → parse_response is_printable body ≢ err out_of_fuel
  unfolding parse_response
  parse_response-ne-out_of_fuel body e =
      elim (bind-err (frame_loop is_printable (length body) nothing_read body) finish e) [
        | inl e' ↦ frame_loop-ne-out_of_fuel (length body) nothing_read body (omega arith) e'
        | inr (s, _, e') ↦ finish-ne-out_of_fuel s e'
      ]
