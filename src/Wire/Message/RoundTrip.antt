-- ===== src/Wire/Message/RoundTrip.antt =====
-- `decode_message` takes back the fields that `encode_message` wrote.
use grok_build_auth.Prelude.{
  ok-injective, ℤ, pos, negsuc, Text, take-append, drop-append, ℕ, zero, suc, ◌+◌, ◌*◌, ◌/◌, ◌%◌,
  ◌≤◌, ◌≡◌, refl, Bool, true, some, List, [], ◌∷◌, ◌++◌, map, arith, length, All, ok, ◌>>=◌,
  bind-ok, append_assoc,
}
use grok_build_auth.Wire.Base.{Bytes, wt_len}
use grok_build_auth.Wire.Message.{
  decode_message, encode_message, decode_loop, string_field, all_chars, Field, read_field,
  encode_string, read_tagged,
}
use grok_build_auth.Wire.Utf8.{encode, decode}
use grok_build_auth.Wire.Utf8.RoundTrip.{decode-encode, IsCodePoint}
use grok_build_auth.Wire.Varint.{varint}
use grok_build_auth.Wire.Varint.RoundTrip.{read_varint-varint}
use grok_build_auth.Wire.Message.Total.{read_tagged-shrinks}
use mathlib.Core.Path.{subst}

module _ (is_printable : ℕ → Bool) where
  -- What the round trip asks of a field: a text of printable characters.
  abbrev pub IsPlain : ℤ × Text → Type 0
  IsPlain (field_no, text) = All IsCodePoint text × (all_chars is_printable text ≡ true)

  abbrev pub as_string : ℤ × Text → Field
  as_string (pos n, text) = string_field n text
  as_string (negsuc n, text) = string_field 0 text

  tag_parts : (n : ℕ) → ((n * 8 + wt_len) / 8 ≡ n) × ((n * 8 + wt_len) % 8 ≡ wt_len)
  tag_parts n = omega arith

  -- The chunk of a field, with what follows it.
  read_field-chunk :
      (n : ℕ) (text : Text) (raw rest : Bytes)
      → decode raw ≡ some text
      → all_chars is_printable text ≡ true
      → read_field is_printable n wt_len (varint (length raw) ++ (raw ++ rest))
        ≡ ok (string_field n text, rest)
  unfolding read_field
  read_field-chunk n text raw rest d p =
      rw
        (
          read_varint-varint (length raw) (raw ++ rest),
          take-append raw rest,
          drop-append raw rest,
          d,
        )
        (ground arith)

  read_tagged-piece :
      (n : ℕ) (text : Text) (raw rest : Bytes)
      → decode raw ≡ some text
      → all_chars is_printable text ≡ true
      → read_tagged is_printable ((varint (n * 8 + wt_len) ++ varint (length raw) ++ raw) ++ rest)
        ≡ ok (string_field n text, rest)
  unfolding read_tagged
  read_tagged-piece n text raw rest d p =
      rw
        (
          append_assoc (varint (n * 8 + wt_len) ++ varint (length raw)) raw rest,
          append_assoc (varint (n * 8 + wt_len)) (varint (length raw)) (raw ++ rest),
          read_varint-varint (n * 8 + wt_len) (varint (length raw) ++ (raw ++ rest)),
          (tag_parts n).0,
          (tag_parts n).1,
        )
        (read_field-chunk n text raw rest d p)

  read_tagged-encode_string :
      (field : ℤ × Text) {piece : Bytes} (rest : Bytes)
      → IsPlain field
      → encode_string field.0 field.1 ≡ ok piece
      → read_tagged is_printable (piece ++ rest) ≡ ok (as_string field, rest)
  unfolding encode_string
  read_tagged-encode_string (negsuc n, text) rest plain e =
      let (raw, _, e') = bind-ok (encode text) _ e in cc
  read_tagged-encode_string (pos n, text) rest plain e =
      let (raw, er, e') = bind-ok (encode text) _ e in
      rw (← ok-injective e')
        (read_tagged-piece n text raw rest (decode-encode text plain.0 er) plain.1)

  decode_loop-step :
      (fuel : ℕ) (bs : Bytes) {field : Field} (rest : Bytes)
      → read_tagged is_printable bs ≡ ok (field, rest)
      → decode_loop is_printable (suc fuel) bs
        ≡ (decode_loop is_printable fuel rest >>= λ fields. ok (field ∷ fields))
  unfolding decode_loop
  decode_loop-step fuel [] rest e = absurd (omega (arith, read_tagged-shrinks is_printable [] e))
  decode_loop-step fuel (b ∷ bs) rest e = rw e

  decode_loop-encode_message :
      (fuel : ℕ) (fields : List (ℤ × Text)) {bytes : Bytes}
      → All IsPlain fields
      → encode_message fields ≡ ok bytes
      → length bytes ≤ fuel
      → decode_loop is_printable fuel bytes ≡ ok (map as_string fields)
  unfolding encode_message
  decode_loop-encode_message fuel [] plain e h =
      subst (λ l. decode_loop is_printable fuel l ≡ ok []) (ok-injective e)
        (unfold decode_loop in refl)
  decode_loop-encode_message fuel (field ∷ fields) {bytes} plain e h =
      let (piece, ep, e') = bind-ok (encode_string field.0 field.1) _ e in
      let (more, em, e'') = bind-ok (encode_message fields) _ e' in
      let read : read_tagged is_printable bytes ≡ ok (as_string field, more) =
        subst (λ l. read_tagged is_printable l ≡ ok (as_string field, more)) (ok-injective e'')
          (read_tagged-encode_string field more plain.0 ep) in
      let shorter = read_tagged-shrinks is_printable bytes read in
      elim fuel
          as (λ n.
            length bytes ≤ n
            → decode_loop is_printable n bytes ≡ ok (map as_string (field ∷ fields))) [
              | zero ↦ λ h. absurd (omega arith)
              | suc k ↦ λ h. rw (
                decode_loop-step k bytes more read,
                decode_loop-encode_message k fields plain.1 em (omega arith),
              )
            ]
        h

  -- A message that `encode_message` wrote, of texts whose characters are all printable, decodes to
  -- its fields as strings, in their order.
  pub decode_message-encode_message :
      (fields : List (ℤ × Text)) {bytes : Bytes}
      → All IsPlain fields
      → encode_message fields ≡ ok bytes
      → decode_message is_printable bytes ≡ ok (map as_string fields)
  unfolding decode_message
  decode_message-encode_message fields {bytes} plain e =
      decode_loop-encode_message (length bytes) fields plain e (omega arith)
