-- ===== src/Wire/Varint/Total.antt =====
-- `_read_varint` ends, and takes a byte at least.
use grok_build_auth.Prelude.{ℕ, ◌+◌, ◌*◌, ◌%◌, ◌^◌, ◌<◌, ◌≡◌, ◌≢◌, [], ◌∷◌, arith, length, ok, err}
use grok_build_auth.Wire.Base.{Bytes, out_of_fuel}
use grok_build_auth.Wire.Varint.{read_varint, read_loop}

read_loop-shrinks :
    (r s : ℕ) (bs : Bytes) {n : ℕ} {rest : Bytes}
    → read_loop r s bs ≡ ok (n, rest)
    → length rest < length bs
unfolding read_loop
read_loop-shrinks r s [] h = cc
read_loop-shrinks r s (b ∷ bs) {n} {rest} h =
    ground (arith, read_loop-shrinks (r + b % 128 * 2 ^ s) (s + 7) bs {n = n} {rest = rest})

pub read_varint-shrinks :
    (bs : Bytes) {n : ℕ} {rest : Bytes} → read_varint bs ≡ ok (n, rest) → length rest < length bs
unfolding read_varint
read_varint-shrinks = read_loop-shrinks 0 0

read_loop-ne-out_of_fuel : (r s : ℕ) (bs : Bytes) → read_loop r s bs ≢ err out_of_fuel
unfolding read_loop
read_loop-ne-out_of_fuel r s [] h = cc
read_loop-ne-out_of_fuel r s (b ∷ bs) h =
    ground (arith, read_loop-ne-out_of_fuel (r + b % 128 * 2 ^ s) (s + 7) bs)

pub read_varint-ne-out_of_fuel : (bs : Bytes) → read_varint bs ≢ err out_of_fuel
unfolding read_varint
read_varint-ne-out_of_fuel = read_loop-ne-out_of_fuel 0 0
