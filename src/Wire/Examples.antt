-- ===== src/Wire/Examples.antt =====
-- The theorems about the codec at concrete inputs.
use grok_build_auth.Prelude.{
  ℤ, pos, Text, codes, ℕ, ◌≡◌, refl, ◌≢◌, Bool, true, some, List, [], ◌∷◌, ◌++◌, map, arith, All,
  ok, err, ◌>>=◌,
}
use grok_build_auth.Wire.Base.{out_of_fuel, Bytes}
use grok_build_auth.Wire.Varint.{varint, read_varint}
use grok_build_auth.Wire.Message.RoundTrip.{decode_message-encode_message, as_string, IsPlain}
use grok_build_auth.Wire.Message.{decode_message, encode_message}
use grok_build_auth.Wire.Frame.{finish, nothing_read, frame_request, parse_response}
use grok_build_auth.Wire.Frame.Split.{
  parse_response-write_frames, read_frames, write_frame, write_frames,
}
use grok_build_auth.Wire.Frame.Answer.{
  parse_response-frame_request, parse_response-ne-out_of_fuel, ok_trailer,
}
use grok_build_auth.Wire.Varint.RoundTrip.{read_varint-varint}
use grok_build_auth.Wire.Message.Total.{decode_message-ne-out_of_fuel}

abbrev any_char : ℕ → Bool
any_char c = true

abbrev fields : List (ℤ × Text)
fields = (pos 1, codes "user@example.org") ∷ (pos 3, codes "é€") ∷ []

abbrev message : Bytes
message = 10 ∷ 16 ∷ codes "user@example.org" ++ (26 ∷ 5 ∷ 0xc3 ∷ 0xa9 ∷ 0xe2 ∷ 0x82 ∷ 0xac ∷ [])

encoded : encode_message fields ≡ ok message
unfolding encode_message
encoded = refl

framed : frame_request message ≡ ok (0 ∷ 0 ∷ 0 ∷ 0 ∷ 25 ∷ message)
unfolding frame_request
framed = refl

plain : All (IsPlain any_char) fields
plain = ((omega arith, refl), ((omega arith, refl), tt))

read_varint-varint_example : read_varint (varint 300 ++ 7 ∷ []) ≡ ok (300, 7 ∷ [])
read_varint-varint_example = read_varint-varint 300 (7 ∷ [])

decode_message-encode_message_example :
    decode_message any_char message ≡ ok (map (as_string any_char) fields)
decode_message-encode_message_example = decode_message-encode_message any_char fields plain encoded

decode_message-ne-out_of_fuel_example : decode_message any_char (8 ∷ 150 ∷ []) ≢ err out_of_fuel
decode_message-ne-out_of_fuel_example = decode_message-ne-out_of_fuel any_char (8 ∷ 150 ∷ [])

parse_response-write_frames_example :
    parse_response any_char
      (write_frames (record { flag = 0; payload = message } ∷ []) ++ (1 ∷ 2 ∷ []))
    ≡ (read_frames any_char nothing_read (record { flag = 0; payload = message } ∷ []) >>= finish)
parse_response-write_frames_example =
    parse_response-write_frames any_char (record { flag = 0; payload = message } ∷ []) (1 ∷ 2 ∷ [])
      (omega arith) (omega arith)

parse_response-frame_request_example :
    parse_response any_char
      ((0 ∷ 0 ∷ 0 ∷ 0 ∷ 25 ∷ message) ++ write_frame (record { flag = 0x80; payload = ok_trailer }))
    ≡ ok (record {
      messages = map (as_string any_char) fields ∷ [];
      trailers = (codes "grpc-status", codes "0") ∷ [];
      grpc_status = some (pos 0);
    })
parse_response-frame_request_example =
    parse_response-frame_request any_char fields plain encoded framed

parse_response-ne-out_of_fuel_example : parse_response any_char message ≢ err out_of_fuel
parse_response-ne-out_of_fuel_example = parse_response-ne-out_of_fuel any_char message
