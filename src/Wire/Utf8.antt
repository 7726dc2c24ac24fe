-- ===== src/Wire/Utf8.antt =====
-- The UTF-8 codec of Python that xconsole_client/grpcweb.py calls: `encode("utf-8")`,
-- `decode("utf-8")` and `decode("utf-8", "replace")`.
pub mod RoundTrip
use grok_build_auth.Prelude.{
  ℕ, zero, suc, ◌+◌, ◌-◌, ◌*◌, ◌/◌, ◌%◌, List, [], ◌∷◌, ◌++◌, map, Option, none, some, ok, err,
  ◌>>=◌, Bool, ◌&&◌, ltb, leb, ◌==◌, if◌then◌else◌, Text, ◌≡◌, refl,
}
use grok_build_auth.Wire.Base.{Bytes, Wire, unicode_encode_error}

abbrev pub within : ℕ → ℕ → ℕ → Bool
within lo hi b = leb lo b && leb b hi

-- The surrogates have no encoding.
unfoldable pub encode_char : ℕ → Wire Bytes
encode_char c =
    if ltb c 0x80
    then ok (c ∷ [])
    else if ltb c 0x800
    then ok ((0xc0 + c / 64) ∷ (0x80 + c % 64) ∷ [])
    else if within 0xd800 0xdfff c
    then err unicode_encode_error
    else if ltb c 0x10000
    then ok ((0xe0 + c / 4096) ∷ (0x80 + c / 64 % 64) ∷ (0x80 + c % 64) ∷ [])
    else ok
        ((0xf0 + c / 262144) ∷ (0x80 + c / 4096 % 64) ∷ (0x80 + c / 64 % 64) ∷ (0x80 + c % 64) ∷ [])

unfoldable pub encode : Text → Wire Bytes
unfolding encode_char
encode [] = ok []
encode (c ∷ s) = do head ← encode_char c; rest ← encode s; ok (head ++ rest)

-- Where the decoder stands in a character: the bytes that follow the next one, the bits read, and
-- the range of the next byte.
pub data Pending : Type 0 where
  idle : Pending
  need : ℕ → ℕ → ℕ → ℕ → Pending

-- What has been decoded: a character, or `none` for a longest run of bytes that begins none.
abbrev pub Items : Type 0
Items = List (Option ℕ)

unfoldable pub begin_char : ℕ → Items × Pending
begin_char b =
    if ltb b 0x80
    then (some b ∷ [], idle)
    else if ltb b 0xc2
    then (none ∷ [], idle)
    else if ltb b 0xe0
    then ([], need 0 (b - 0xc0) 0x80 0xbf)
    else if ltb b 0xf0
    then (
      [],
      need 1 (b - 0xe0) (if b == 0xe0 then 0xa0 else 0x80) (if b == 0xed then 0x9f else 0xbf),
    )
    else if ltb b 0xf5
    then (
      [],
      need 2 (b - 0xf0) (if b == 0xf0 then 0x90 else 0x80) (if b == 0xf4 then 0x8f else 0xbf),
    )
    else (none ∷ [], idle)

unfoldable pub add_byte : ℕ → ℕ → Items × Pending
add_byte zero acc = (some acc ∷ [], idle)
add_byte (suc more) acc = ([], need more acc 0x80 0xbf)

unfoldable pub feed : Pending → ℕ → Items × Pending
unfolding begin_char add_byte
feed idle b = begin_char b
feed (need more acc lo hi) b =
    if within lo hi b
    then add_byte more (acc * 64 + (b - 0x80))
    else let (out, next) = begin_char b in (none ∷ out, next)

unfoldable pub scan : Pending → Bytes → Items
unfolding feed
scan idle [] = []
scan (need more acc lo hi) [] = none ∷ []
scan p (b ∷ bs) = let (out, next) = feed p b in out ++ scan next bs

abbrev strict : Items → Option Text
strict [] = some []
strict (none ∷ _) = none
strict (some c ∷ items) = elim (strict items) [ none ↦ none | some s ↦ some (c ∷ s) ]

-- `none` is the UnicodeDecodeError.
unfoldable pub decode : Bytes → Option Text
unfolding scan
decode bs = strict (scan idle bs)

abbrev or_replacement : Option ℕ → ℕ
or_replacement none = 0xfffd
or_replacement (some c) = c

unfoldable pub decode_replace : Bytes → Text
unfolding scan
decode_replace bs = map or_replacement (scan idle bs)

broken : decode_replace (0x41 ∷ 0xe2 ∷ 0x82 ∷ 0x42 ∷ 0xff ∷ []) ≡ 0x41 ∷ 0xfffd ∷ 0x42 ∷ 0xfffd ∷ []
unfolding decode_replace
broken = refl

euro : (decode (0xe2 ∷ 0x82 ∷ 0xac ∷ []) ≡ some (0x20ac ∷ [])) × (decode (0xc0 ∷ 0x80 ∷ []) ≡ none)
unfolding decode
euro = (refl, refl)
