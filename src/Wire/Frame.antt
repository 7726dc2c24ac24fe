-- ===== src/Wire/Frame.antt =====
-- gRPC-web frames: `frame_request` and `parse_response` of xconsole_client/grpcweb.py.
pub mod Split
pub mod Answer
use grok_build_auth.Prelude.{
  lower, strip, parse_int, split_once, text_eq, ℤ, pos, Text, codes, ℕ, zero, suc, ◌+◌, ◌-◌, ◌*◌,
  ◌/◌, ◌%◌, ◌^◌, ◌≡◌, refl, Bool, true, false, ◌&&◌, Option, none, some, List, [], ◌∷◌, ◌++◌, ltb,
  leb, ◌==◌, if◌then◌else◌, length, take, drop, ok, err, ◌>>=◌,
}
use grok_build_auth.Wire.Base.{value_error, struct_error, out_of_fuel, Bytes, Wire}
use grok_build_auth.Wire.Utf8.{decode_replace}
use grok_build_auth.Wire.Message.{Field, decode_message}

-- `struct.pack(">I", n)` of a number that fits.
unfoldable pub big_endian : ℕ → Bytes
big_endian n = n / 16777216 % 256 ∷ n / 65536 % 256 ∷ n / 256 % 256 ∷ n % 256 ∷ []

unfoldable pub frame_request : Bytes → Wire Bytes
unfolding big_endian
frame_request message =
    if ltb (length message) (2 ^ 32)
    then ok (0 ∷ (big_endian (length message) ++ message))
    else err struct_error

-- A dict with texts as keys, in the order of insertion.
abbrev pub Trailers : Type 0
Trailers = List (Text × Text)

unfoldable pub set_trailer : Text → Text → Trailers → Trailers
set_trailer k v [] = (k, v) ∷ []
set_trailer k v ((j, w) ∷ d) = if text_eq j k then (j, v) ∷ d else (j, w) ∷ set_trailer k v d

unfoldable pub get_trailer : Text → Trailers → Option Text
get_trailer k [] = none
get_trailer k ((j, w) ∷ d) = if text_eq j k then some w else get_trailer k d

abbrev cons_head : ℕ → List Text → List Text
cons_head c [] = (c ∷ []) ∷ []
cons_head c (line ∷ lines) = (c ∷ line) ∷ lines

-- `text.split("\r\n")`
unfoldable pub split_lines : Text → List Text
split_lines [] = [] ∷ []
split_lines (c ∷ []) = (c ∷ []) ∷ []
split_lines (c ∷ d ∷ s) = elim (c == 13 && d == 10) [
  | true ↦ [] ∷ split_lines s
  | false ↦ cons_head c (split_lines (d ∷ s))
]

-- One line of a trailer frame; a line without a colon is passed over.
unfoldable pub add_line : Trailers → Text → Trailers
unfolding set_trailer split_once strip lower
add_line trailers line = elim (split_once b':' line) [
  | none ↦ trailers
  | some (k, v) ↦ set_trailer (lower (strip k)) (strip v) trailers
]

unfoldable pub add_lines : Trailers → List Text → Trailers
unfolding add_line
add_lines trailers [] = trailers
add_lines trailers (line ∷ lines) = add_lines (add_line trailers line) lines

pub record Reading : Type 0 where
  pub messages : List (List Field)
  pub trailers : Trailers

abbrev pub nothing_read : Reading
nothing_read = record { messages = []; trailers = [] }

pub record Response : Type 0 where
  pub messages : List (List Field)
  pub trailers : Trailers
  pub grpc_status : Option ℤ

-- `while i + 5 <= n`: the flag, the payload and `body[i:]` for the next round.
unfoldable pub next_frame : Bytes → Option (ℕ × Bytes × Bytes)
next_frame (flag ∷ b3 ∷ b2 ∷ b1 ∷ b0 ∷ rest) =
    let size = b3 * 16777216 + b2 * 65536 + b1 * 256 + b0 in
    some (flag, take size rest, drop size rest)
next_frame _ = none

abbrev status_of : Trailers → Wire (Option ℤ)
status_of trailers = elim (get_trailer (codes "grpc-status") trailers) [
  | none ↦ ok none
  | some text ↦ elim (parse_int text) [ none ↦ err value_error | some n ↦ ok (some n) ]
]

unfoldable pub finish : Reading → Wire Response
unfolding get_trailer parse_int
finish s = do
  status ← status_of s.trailers
  ok (record { messages = s.messages; trailers = s.trailers; grpc_status = status })

module _ (is_printable : ℕ → Bool) where
  -- `flag & 0x80` of a byte.
  unfoldable pub read_frame : Reading → ℕ → Bytes → Wire Reading
  unfolding add_lines split_lines decode_replace
  read_frame s flag payload =
      if leb 0x80 flag
      then ok (record s { trailers = add_lines s.trailers (split_lines (decode_replace payload)) })
      else do
        fields ← decode_message is_printable payload
        ok (record s { messages = s.messages ++ fields ∷ [] })

  -- A round takes five bytes at least.
  pub frame_loop : ℕ → Reading → Bytes → Wire Reading
  frame_loop zero s body = elim (next_frame body) [ none ↦ ok s | some _ ↦ err out_of_fuel ]
  frame_loop (suc fuel) s body = elim (next_frame body) [
    | none ↦ ok s
    | some (flag, payload, rest) ↦ (do s' ← read_frame s flag payload; frame_loop fuel s' rest)
  ]

  unfoldable pub parse_response : Bytes → Wire Response
  unfolding frame_loop read_frame next_frame finish decode_message
  parse_response body = do s ← frame_loop (length body) nothing_read body; finish s

two_trailers :
    parse_response (λ c. true) (0x80 ∷ 0 ∷ 0 ∷ 0 ∷ 24 ∷ codes "Grpc-Status: 16\r\nx: a:b\r\n")
    ≡ ok (record {
      messages = [];
      trailers = (codes "grpc-status", codes "16") ∷ (codes "x", codes "a:b") ∷ [];
      grpc_status = some (pos 16);
    })
unfolding parse_response
two_trailers = refl
