-- ===== src/Wire/Varint/RoundTrip.antt =====
-- `_read_varint` takes back what `encode_varint` wrote, whatever follows.
use mathlib.Core.WellFounded.{Acc}
use native.Mathlib.Decide.{dec_lt}
use native.Mathlib.Numerals.{towards_suc}
use grok_build_auth.Prelude.{
  ℕ, ◌+◌, ◌*◌, ◌/◌, ◌%◌, ◌^◌, ◌<◌, ◌≡◌, ap, ◌++◌, ok, arith, lt_wf, dite_ind,
}
use grok_build_auth.Wire.Base.{Bytes}
use grok_build_auth.Wire.Varint.{varint_loop, varint, read_loop, read_varint, shift_shrinks}

pow_seven : (s : ℕ) → 2 ^ (s + 7) ≡ 128 * 2 ^ s
pow_seven s = simp towards_suc (omega arith)

split_value : (v p : ℕ) → v % 128 * p + v / 128 * (128 * p) ≡ v * p
split_value v p = omega (arith, ap (λ (t : ℕ). t * p) (whole v))
  where
    whole : (v : ℕ) → v % 128 + v / 128 * 128 ≡ v
    whole v = omega arith

step_value : (v r s : ℕ) → r + (v % 128 + 128) % 128 * 2 ^ s + v / 128 * 2 ^ (s + 7) ≡ r + v * 2 ^ s
step_value v r s =
    let low : (v % 128 + 128) % 128 ≡ v % 128 = omega arith in
    rw (pow_seven, low) (omega (arith, split_value v (2 ^ s)))

last_value : (v : ℕ) → ¬ (0 < v / 128) → v % 128 % 128 ≡ v
last_value v h = omega arith

read_loop-varint_loop :
    (v : ℕ) (w : Acc ◌<◌ v) (r s : ℕ) (rest : Bytes)
    → read_loop r s (varint_loop v w ++ rest) ≡ ok (r + v * 2 ^ s, rest)
unfolding read_loop varint_loop
read_loop-varint_loop v (Acc.intro _ smaller) r s rest =
    dite_ind (λ bytes. read_loop r s (bytes ++ rest) ≡ ok (r + v * 2 ^ s, rest))
      (dec_lt 0 (v / 128))
      (λ more. ground (
        arith,
        read_loop-varint_loop (v / 128) (smaller (v / 128) (shift_shrinks v more))
            (r + (v % 128 + 128) % 128 * 2 ^ s) (s + 7) rest,
        step_value v r s,
      ))
      (λ done. rw (last_value v done) (ground arith))

-- Reading what `encode_varint` wrote gives the number and leaves what follows it.
pub read_varint-varint : (v : ℕ) (rest : Bytes) → read_varint (varint v ++ rest) ≡ ok (v, rest)
unfolding read_varint varint
read_varint-varint v rest = rw (read_loop-varint_loop v (lt_wf.apply v) 0 0 rest) (ground arith)
