-- ===== src/Wire/Varint.antt =====
-- Base-128 integers: `encode_varint`, `_tag` and `_read_varint` of xconsole_client/grpcweb.py.
pub mod RoundTrip
pub mod Total
use mathlib.Core.Logic.{dite}
use mathlib.Core.WellFounded.{Acc}
use native.Mathlib.Decide.{dec_lt}
use grok_build_auth.Prelude.{
  ℕ, ◌+◌, ◌-◌, ◌*◌, ◌/◌, ◌%◌, ◌^◌, ◌<◌, [], ◌∷◌, ℤ, pos, negsuc, ok, err, arith, ltb, if◌then◌else◌,
  lt_wf,
}
use grok_build_auth.Wire.Base.{Bytes, Wire, value_error, index_error}

pub shift_shrinks : (v : ℕ) → 0 < v / 128 → v / 128 < v
shift_shrinks v h = omega arith

-- The loop of `encode_varint`, which recurs on the value left: `value & 0x7F` is `v % 128`,
-- `value >>= 7` is `v / 128`, and `byte | 0x80` adds 128 to a byte below it.
varint_loop : (v : ℕ) → Acc ◌<◌ v → Bytes
varint_loop v (Acc.intro _ smaller) =
    dite (dec_lt 0 (v / 128))
      (λ more. (v % 128 + 128) ∷ varint_loop (v / 128) (smaller _ (shift_shrinks v more)))
      (λ _. v % 128 ∷ [])

unfoldable pub varint : ℕ → Bytes
unfolding varint_loop lt_wf dec_lt
varint v = varint_loop v (lt_wf.apply v)

unfoldable pub encode_varint : ℤ → Wire Bytes
unfolding varint
encode_varint (pos v) = ok (varint v)
encode_varint (negsuc _) = err value_error

-- `(field_no << 3) | wire_type`: the three bits of the wire type are free, so `|` adds.
unfoldable pub tag_value : ℤ → ℕ → ℤ
tag_value (pos n) wire_type = pos (n * 8 + wire_type)
tag_value (negsuc n) wire_type = negsuc (n * 8 + 7 - wire_type)

unfoldable pub tag : ℤ → ℕ → Wire Bytes
unfolding tag_value encode_varint
tag field_no wire_type = encode_varint (tag_value field_no wire_type)

-- The loop of `_read_varint`. The list is `data[i:]`, and `data[i]` past the end is an IndexError.
-- The bits that `|=` sets lie above those of `result`.
read_loop : ℕ → ℕ → Bytes → Wire (ℕ × Bytes)
read_loop result shift [] = err index_error
read_loop result shift (b ∷ rest) =
    let result' = result + b % 128 * 2 ^ shift in
    let more = read_loop result' (shift + 7) rest in if ltb b 128 then ok (result', rest) else more

unfoldable pub read_varint : Bytes → Wire (ℕ × Bytes)
unfolding read_loop
read_varint = read_loop 0 0
