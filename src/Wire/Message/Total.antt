-- ===== src/Wire/Message/Total.antt =====
-- The loop of `decode_message` ends: each round takes a byte at least.
use grok_build_auth.Prelude.{
  ℕ, zero, suc, ◌/◌, ◌%◌, ◌≤◌, ◌<◌, ◌≡◌, refl, ◌≢◌, inl, inr, Bool, [], ◌∷◌, arith, length, take,
  drop, length-drop, ok, err, ◌>>=◌, bind-ok, bind-err,
}
use grok_build_auth.Wire.Base.{Wire, Bytes, out_of_fuel}
use grok_build_auth.Wire.Message.{
  len_field, varint_field, decode_message, Field, read_tagged, read_field, decode_loop,
}
use grok_build_auth.Wire.Varint.Total.{read_varint-shrinks, read_varint-ne-out_of_fuel}
use grok_build_auth.Wire.Varint.{read_varint}
use mathlib.Core.Path.{subst}
use grok_build_auth.Wire.Utf8.{decode}

-- The number of bytes that a reader left.
abbrev left {ℓ} : {A : Type ℓ} → Wire (A × Bytes) → ℕ
left (ok (a, rest)) = length rest
left (err e) = 0

left-drop {ℓ} :
    {A : Type ℓ} (m : Wire (ℕ × Bytes)) (f : ℕ × Bytes → A) (k : ℕ)
    → left m ≤ k
    → left (m >>= λ x. ok (f x, drop x.0 x.1)) ≤ k
left-drop (ok (n, rest)) f k h = omega (arith, length-drop n rest)
left-drop (err e) f k h = h

left-map {ℓ} :
    {A : Type ℓ} (m : Wire (ℕ × Bytes)) (f : ℕ → A) (k : ℕ)
    → left m ≤ k
    → left (m >>= λ x. ok (f x.0, x.1)) ≤ k
left-map (ok (n, rest)) f k h = h
left-map (err e) f k h = h

left-read_varint : (bs : Bytes) → left (read_varint bs) ≤ length bs
left-read_varint bs = go (read_varint bs) refl
  where
    go : (m : Wire (ℕ × Bytes)) → read_varint bs ≡ m → left m ≤ length bs
    go (ok (n, rest)) e = omega (arith, read_varint-shrinks bs e)
    go (err x) e = omega arith

module _ (is_printable : ℕ → Bool) where
  left-read_field :
      (field_no wt : ℕ) (bs : Bytes) → left (read_field is_printable field_no wt bs) ≤ length bs
  unfolding read_field
  left-read_field field_no wt bs =
      let number =
        left-map (read_varint bs) (λ v. varint_field field_no v) (length bs)
          (left-read_varint bs) in
      let chunk =
        left-drop (read_varint bs)
          (λ x. len_field is_printable field_no x.0 (take x.0 x.1) (decode (take x.0 x.1)))
          (length bs) (left-read_varint bs) in
      ground (arith, length-drop 8 bs, length-drop 4 bs)

  read_field-shrinks :
      (field_no wt : ℕ) (bs : Bytes) {field : Field} {rest : Bytes}
      → read_field is_printable field_no wt bs ≡ ok (field, rest)
      → length rest ≤ length bs
  read_field-shrinks field_no wt bs h =
      subst (λ m. left m ≤ length bs) h (left-read_field field_no wt bs)

  read_field-ne-out_of_fuel :
      (field_no wt : ℕ) (bs : Bytes) → read_field is_printable field_no wt bs ≢ err out_of_fuel
  unfolding read_field
  read_field-ne-out_of_fuel field_no wt bs h = ground (arith, read_varint-ne-out_of_fuel bs)

  pub read_tagged-shrinks :
      (bs : Bytes) {field : Field} {rest : Bytes}
      → read_tagged is_printable bs ≡ ok (field, rest)
      → length rest < length bs
  unfolding read_tagged
  read_tagged-shrinks bs h =
      let ((tag_no, after), eh, e) = bind-ok (read_varint bs) _ h in
      omega (arith, read_varint-shrinks bs eh, read_field-shrinks (tag_no / 8) (tag_no % 8) after e)

  read_tagged-ne-out_of_fuel : (bs : Bytes) → read_tagged is_printable bs ≢ err out_of_fuel
  unfolding read_tagged
  read_tagged-ne-out_of_fuel bs h = elim (bind-err (read_varint bs) _ h) [
    | inl e ↦ read_varint-ne-out_of_fuel bs e
    | inr ((tag_no, after), eh, e) ↦ read_field-ne-out_of_fuel (tag_no / 8) (tag_no % 8) after e
  ]

  decode_loop-ne-out_of_fuel :
      (fuel : ℕ) (bs : Bytes)
      → length bs ≤ fuel
      → decode_loop is_printable fuel bs ≢ err out_of_fuel
  unfolding decode_loop
  decode_loop-ne-out_of_fuel fuel [] h e = cc
  decode_loop-ne-out_of_fuel zero (b ∷ bs) h e = absurd (omega arith)
  decode_loop-ne-out_of_fuel (suc fuel) (b ∷ bs) h e =
      elim (bind-err (read_tagged is_printable (b ∷ bs)) _ e) [
        | inl e' ↦ read_tagged-ne-out_of_fuel (b ∷ bs) e'
        | inr ((field, rest), eh, e') ↦
            let shorter : length rest ≤ fuel = omega (arith, read_tagged-shrinks (b ∷ bs) eh) in
            elim (bind-err (decode_loop is_printable fuel rest) _ e') [
              | inl e'' ↦ decode_loop-ne-out_of_fuel fuel rest shorter e''
              | inr (fields, _, e'') ↦ cc
            ]
      ]

  -- The loop of `decode_message` always ends: it returns the fields, or raises.
  pub decode_message-ne-out_of_fuel :
      (bs : Bytes) → decode_message is_printable bs ≢ err out_of_fuel
  unfolding decode_message
  decode_message-ne-out_of_fuel bs = decode_loop-ne-out_of_fuel (length bs) bs (omega arith)
