-- ===== src/Wire/Message.antt =====
-- Protobuf messages: the `encode_` functions and `decode_message` of xconsole_client/grpcweb.py.
pub mod RoundTrip
pub mod Total
use grok_build_auth.Wire.Base.{
  value_error, wt_fixed32, out_of_fuel, wt_fixed64, wt_len, wt_varint, Bytes, Wire,
}
use grok_build_auth.Wire.Varint.{read_varint, encode_varint, varint, tag}
use grok_build_auth.Prelude.{
  drop, take, ◌%◌, ◌*◌, ◌/◌, ◌&&◌, ◌++◌, ◌+◌, ◌>>=◌, zero, err, suc, [], ◌∷◌, none, some, ◌==◌,
  length, true, ok, if◌then◌else◌, Text, ℤ, Bool, Option, ℕ, List,
}
use grok_build_auth.Wire.Utf8.{decode, encode}

-- An encoded value of a field: `_tag(...) + encode_varint(len(raw)) + raw`.
unfoldable pub encode_bytes : ℤ → Bytes → Wire Bytes
unfolding tag varint
encode_bytes field_no raw = do head ← tag field_no wt_len; ok (head ++ varint (length raw) ++ raw)

-- The text is encoded before the tag is.
unfoldable pub encode_string : ℤ → Text → Wire Bytes
unfolding encode_bytes encode
encode_string field_no text = do raw ← encode text; encode_bytes field_no raw

unfoldable pub encode_varint_field : ℤ → ℤ → Wire Bytes
unfolding tag encode_varint
encode_varint_field field_no value = do
  head ← tag field_no wt_varint
  body ← encode_varint value
  ok (head ++ body)

unfoldable pub encode_message : List (ℤ × Text) → Wire Bytes
unfolding encode_string
encode_message [] = ok []
encode_message ((field_no, value) ∷ fields) = do
  out ← encode_string field_no value
  rest ← encode_message fields
  ok (out ++ rest)

-- A decoded field with its number. A `double` or `float` is given by its bits, and is absent where
-- the chunk is cut short; `hex` stands for the bytes of the chunk.
pub data Field : Type 0 where
  varint_field : ℕ → ℕ → Field
  fixed64_field : ℕ → Option ℕ → Bytes → Field
  string_field : ℕ → Text → Field
  bytes_field : ℕ → Bytes → ℕ → Field
  fixed32_field : ℕ → Option ℕ → Bytes → Field

unfoldable pub little_endian : Bytes → ℕ
little_endian [] = 0
little_endian (b ∷ bs) = b + 256 * little_endian bs

-- `struct.unpack` of a chunk of just this size.
unfoldable pub unpack_exact : ℕ → Bytes → Option ℕ
unfolding little_endian
unpack_exact size chunk = if length chunk == size then some (little_endian chunk) else none

abbrev pub all_chars : (ℕ → Bool) → Text → Bool
all_chars p [] = true
all_chars p (c ∷ s) = p c && all_chars p s

-- Which characters `str.isprintable` accepts is the Unicode database's.
module _ (is_printable : ℕ → Bool) where
  len_field : ℕ → ℕ → Bytes → Option Text → Field
  len_field field_no ln chunk none = bytes_field field_no chunk ln
  len_field field_no ln chunk (some s) =
      if all_chars is_printable s then string_field field_no s else bytes_field field_no chunk ln

  -- The body of the loop of `decode_message` behind the tag; the list is `data[i:]`.
  read_field : ℕ → ℕ → Bytes → Wire (Field × Bytes)
  unfolding len_field
  read_field field_no wt rest =
      if wt == wt_varint
      then (do (val, rest') ← read_varint rest; ok (varint_field field_no val, rest'))
      else if wt == wt_fixed64
      then (let chunk = take 8 rest in
          ok (fixed64_field field_no (unpack_exact 8 chunk) chunk, drop 8 rest))
      else if wt == wt_len
      then (do
        (ln, rest') ← read_varint rest
        let chunk = take ln rest'
        ok (len_field field_no ln chunk (decode chunk), drop ln rest'))
      else if wt == wt_fixed32
      then (let chunk = take 4 rest in
          ok (fixed32_field field_no (unpack_exact 4 chunk) chunk, drop 4 rest))
      else err value_error

  -- One round of the loop: the tag, then the field.
  pub read_tagged : Bytes → Wire (Field × Bytes)
  read_tagged bytes = do
    (tag_no, rest) ← read_varint bytes
    read_field (tag_no / 8) (tag_no % 8) rest

  -- `while i < n`; a round takes a byte at least, so the length is fuel enough.
  decode_loop : ℕ → Bytes → Wire (List Field)
  decode_loop fuel [] = ok []
  decode_loop zero (b ∷ bs) = err out_of_fuel
  decode_loop (suc fuel) (b ∷ bs) = do
    (field, rest) ← read_tagged (b ∷ bs)
    fields ← decode_loop fuel rest
    ok (field ∷ fields)

  unfoldable pub decode_message : Bytes → Wire (List Field)
  unfolding decode_loop read_tagged read_field len_field read_varint decode unpack_exact
  decode_message bytes = decode_loop (length bytes) bytes
