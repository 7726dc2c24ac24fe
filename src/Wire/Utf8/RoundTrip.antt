-- ===== src/Wire/Utf8/RoundTrip.antt =====
-- What `encode("utf-8")` wrote is decoded to the same text.
use grok_build_auth.Prelude.{
  append-nil, append_assoc, bind-ok, refl, map, ◌==◌, All, Text, ok, ◌++◌, [], if◌then◌else◌, ℕ,
  ◌+◌, ◌/◌, ◌%◌, ◌<◌, ◌≤◌, ◌∷◌, some, false, arith, ◌≡◌,
}
use grok_build_auth.Wire.Base.{Bytes}
use grok_build_auth.Wire.Utf8.{strict, decode, need, feed, encode_char, encode, within, idle, scan}
use mathlib.Core.Path.{subst}

abbrev pub IsCodePoint : ℕ → Type 0
IsCodePoint c = c < 0x110000

module _ (c : ℕ) (rest : Bytes) where
  scan_one : c < 0x80 → scan idle (c ∷ rest) ≡ some c ∷ scan idle rest
  unfolding scan
  scan_one h = ground arith

  scan_two :
      0x80 ≤ c
      → c < 0x800
      → scan idle ((0xc0 + c / 64) ∷ (0x80 + c % 64) ∷ rest) ≡ some c ∷ scan idle rest
  unfolding scan
  scan_two h k = ground arith

  scan_three :
      0x800 ≤ c
      → c < 0x10000
      → within 0xd800 0xdfff c ≡ false
      → scan idle ((0xe0 + c / 4096) ∷ (0x80 + c / 64 % 64) ∷ (0x80 + c % 64) ∷ rest)
        ≡ some c ∷ scan idle rest
  unfolding scan
  scan_three h k s = ground arith

scan-idle : (b : ℕ) (bs : Bytes) → scan idle (b ∷ bs) ≡ (feed idle b).0 ++ scan (feed idle b).1 bs
unfolding scan
scan-idle b bs = refl

scan-need :
    (more acc lo hi b : ℕ) (bs : Bytes)
    → scan (need more acc lo hi) (b ∷ bs)
      ≡ (feed (need more acc lo hi) b).0 ++ scan (feed (need more acc lo hi) b).1 bs
unfolding scan
scan-need more acc lo hi b bs = refl

-- The three parts of a character of four bytes: its lead byte, its second byte, the other two.
feed_lead :
    (q : ℕ)
    → q < 5
    → feed idle (0xf0 + q)
      ≡ ([], need 2 q (if q == 0 then 0x90 else 0x80) (if q == 4 then 0x8f else 0xbf))
unfolding feed
feed_lead q h = ground arith

feed_second :
    (c : ℕ)
    → 0x10000 ≤ c
    → c < 0x110000
    → feed
        (need 2
          (c / 262144)
          (if c / 262144 == 0 then 0x90 else 0x80)
          (if c / 262144 == 4 then 0x8f else 0xbf))
        (0x80 + c / 4096 % 64)
      ≡ ([], need 1 (c / 4096) 0x80 0xbf)
unfolding feed
feed_second c h k = ground arith

scan_tail :
    (c : ℕ) (rest : Bytes)
    → scan (need 1 (c / 4096) 0x80 0xbf) ((0x80 + c / 64 % 64) ∷ (0x80 + c % 64) ∷ rest)
      ≡ some c ∷ scan idle rest
unfolding scan
scan_tail c rest = ground arith

scan_four :
    (c : ℕ) (rest : Bytes)
    → 0x10000 ≤ c
    → c < 0x110000
    → scan idle (
        (0xf0 + c / 262144)
        ∷ (0x80 + c / 4096 % 64)
        ∷ (0x80 + c / 64 % 64)
        ∷ (0x80 + c % 64)
        ∷ rest)
      ≡ some c ∷ scan idle rest
scan_four c rest h k =
    rw (scan-idle, feed_lead (c / 262144) (omega arith))
      (rw (scan-need, feed_second c h k) (scan_tail c rest))

scan-encode_char :
    (c : ℕ) {bytes : Bytes} (rest : Bytes)
    → IsCodePoint c
    → encode_char c ≡ ok bytes
    → scan idle (bytes ++ rest) ≡ some c ∷ scan idle rest
unfolding encode_char
scan-encode_char c rest h e =
    ground (arith, scan_one c rest, scan_two c rest, scan_three c rest, scan_four c rest)

scan-encode :
    (s : Text) {bytes : Bytes} (rest : Bytes)
    → All IsCodePoint s
    → encode s ≡ ok bytes
    → scan idle (bytes ++ rest) ≡ map some s ++ scan idle rest
unfolding encode
scan-encode [] rest h e = ground arith
scan-encode (c ∷ s) {bytes} rest h e =
    let (head, eh, e') = bind-ok (encode_char c) _ e in
    let (tail, et, e'') = bind-ok (encode s) _ e' in
    let joined : bytes ≡ head ++ tail = cc in
    rw (
      joined,
      append_assoc head tail rest,
      scan-encode_char c (tail ++ rest) h.0 eh,
      scan-encode s rest h.1 et,
    )

strict-map-some : (s : Text) → strict (map some s) ≡ some s
strict-map-some [] = refl
strict-map-some (c ∷ s) = rw (strict-map-some s)

-- The encoding of a text of code points, where it has one, decodes to that text.
pub decode-encode :
    (s : Text) {bytes : Bytes} → All IsCodePoint s → encode s ≡ ok bytes → decode bytes ≡ some s
unfolding decode
decode-encode s {bytes} h e =
    let scanned : scan idle bytes ≡ map some s =
      subst (λ l. scan idle bytes ≡ l) (append-nil (map some s))
        (subst (λ l. scan idle l ≡ map some s ++ []) (append-nil bytes) (scan-encode s [] h e)) in
    rw (scanned, strict-map-some s)
