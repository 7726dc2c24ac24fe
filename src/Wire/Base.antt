-- ===== src/Wire/Base.antt =====
-- Bytes, texts and the exceptions of xconsole_client/grpcweb.py.
use grok_build_auth.Prelude.{ℕ, ◌<◌, List, Result}

abbrev pub Bytes : Type 0
Bytes = List ℕ

abbrev pub IsByte : ℕ → Type 0
IsByte b = b < 256

-- The exceptions; `out_of_fuel` is none of Python's, and is shown not to come.
pub data WireError : Type 0 where
  value_error index_error unicode_encode_error struct_error out_of_fuel : WireError

abbrev pub Wire {ℓ} : Type ℓ → Type ℓ
Wire A = Result WireError A

abbrev pub wt_varint : ℕ
wt_varint = 0

abbrev pub wt_fixed64 : ℕ
wt_fixed64 = 1

abbrev pub wt_len : ℕ
wt_len = 2

abbrev pub wt_fixed32 : ℕ
wt_fixed32 = 5
