-- ===== src/Cpa/Names/Safe.antt =====
-- The names of auth files hold no character that leads out of their directory.
use grok_build_auth.Prelude.{
  ◌∙◌, ap, sym, if◌then◌else◌, false, Bool, arith, show_nat-IsDigit, show_nat, ◌&&◌, not, inr,
  strip, inl, is_empty, ◌==◌, IsDigit, Bool-cases, [], ◌∷◌, true, All, map, Text, ℕ, ◌≡◌,
}
use grok_build_auth.Cpa.Names.{
  file_name, credential_file_name, sanitize_file_segment, kept_or_dash, lstrip_dash, rstrip_dash,
  is_kept,
}

abbrev pub Kept : Text → Type 0
Kept s = All (λ c. is_kept c ≡ true) s

kept_or_dash-is_kept : (c : ℕ) → is_kept (kept_or_dash c) ≡ true
kept_or_dash-is_kept c = elim (Bool-cases (is_kept c)) [
  | inl kept ↦ rw (kept, kept)
  | inr other ↦ rw other
]

Kept-map : (s : Text) → Kept (map kept_or_dash s)
Kept-map [] = tt
Kept-map (c ∷ s) = (kept_or_dash-is_kept c, Kept-map s)

Kept-lstrip_dash : (s : Text) → Kept s → Kept (lstrip_dash s)
Kept-lstrip_dash [] h = tt
Kept-lstrip_dash (c ∷ s) (h, hs) = elim (Bool-cases (c == b'-')) [
  | inl dash ↦ rw dash (Kept-lstrip_dash s hs)
  | inr other ↦ rw other (h, hs)
]

Kept-rstrip_dash : (s : Text) → Kept s → Kept (rstrip_dash s)
Kept-rstrip_dash [] h = tt
Kept-rstrip_dash (c ∷ s) (h, hs) = elim (Bool-cases (c == b'-' && is_empty (rstrip_dash s))) [
  | inl dash ↦ rw dash tt
  | inr other ↦ rw other (h, Kept-rstrip_dash s hs)
]

Kept-sanitize_file_segment : (value : Text) → Kept (sanitize_file_segment value)
unfolding sanitize_file_segment
Kept-sanitize_file_segment value = elim (Bool-cases (is_empty (strip value))) [
  | inl blank ↦ rw blank tt
  | inr other ↦ rw other (
      Kept-rstrip_dash (lstrip_dash (map kept_or_dash (strip value)))
        (Kept-lstrip_dash (map kept_or_dash (strip value)) (Kept-map (strip value))))
]

digit-is_kept : (c : ℕ) → IsDigit c → is_kept c ≡ true
digit-is_kept c h = ground arith

Kept-digits : (s : Text) → All IsDigit s → Kept s
Kept-digits [] h = tt
Kept-digits (c ∷ s) (h, hs) = (digit-is_kept c h, Kept-digits s hs)

-- The first and the last character are no dash.
abbrev pub NoDashFirst : Text → Type 0
NoDashFirst [] = Unit
NoDashFirst (c ∷ s) = (c == b'-') ≡ false

abbrev pub NoDashLast : Text → Type 0
NoDashLast [] = Unit
NoDashLast (c ∷ []) = (c == b'-') ≡ false
NoDashLast (c ∷ d ∷ s) = NoDashLast (d ∷ s)

lstrip_dash-NoDashFirst : (s : Text) → NoDashFirst (lstrip_dash s)
lstrip_dash-NoDashFirst [] = tt
lstrip_dash-NoDashFirst (c ∷ s) = elim (Bool-cases (c == b'-')) [
  | inl dash ↦ rw dash (lstrip_dash-NoDashFirst s)
  | inr other ↦ rw other other
]

NoDashFirst-rstrip_dash : (s : Text) → NoDashFirst s → NoDashFirst (rstrip_dash s)
NoDashFirst-rstrip_dash [] h = tt
NoDashFirst-rstrip_dash (c ∷ s) h = rw h h

-- A character before a text that is not empty, or that is no dash.
NoDashLast-cons :
    (c : ℕ) (s : Text) → (c == b'-' && is_empty s) ≡ false → NoDashLast s → NoDashLast (c ∷ s)
NoDashLast-cons c [] h k = elim (Bool-cases (c == b'-')) [
  | inl dash ↦ (let never : true ≡ false = sym (ap (λ b. b && true) dash) ∙ h in cc)
  | inr other ↦ other
]
NoDashLast-cons c (d ∷ s) h k = k

rstrip_dash-NoDashLast : (s : Text) → NoDashLast (rstrip_dash s)
rstrip_dash-NoDashLast [] = tt
rstrip_dash-NoDashLast (c ∷ s) = elim (Bool-cases (c == b'-' && is_empty (rstrip_dash s))) [
  | inl dash ↦ rw dash tt
  | inr other ↦ rw other (NoDashLast-cons c (rstrip_dash s) other (rstrip_dash-NoDashLast s))
]

digit-no_dash : (c : ℕ) → IsDigit c → (c == b'-') ≡ false
digit-no_dash c h = ground arith

NoDashFirst-digits : (s : Text) → All IsDigit s → NoDashFirst s
NoDashFirst-digits [] h = tt
NoDashFirst-digits (c ∷ s) (h, hs) = digit-no_dash c h

NoDashLast-digits : (s : Text) → All IsDigit s → NoDashLast s
NoDashLast-digits [] h = tt
NoDashLast-digits (c ∷ []) (h, hs) = digit-no_dash c h
NoDashLast-digits (c ∷ d ∷ s) (h, hs) = NoDashLast-digits (d ∷ s) hs

abbrev pub IsSegment : Text → Type 0
IsSegment s = Kept s × NoDashFirst s × NoDashLast s

sanitize_file_segment-IsSegment : (s : Text) → IsSegment (sanitize_file_segment s)
unfolding sanitize_file_segment
sanitize_file_segment-IsSegment s =
    let ends : NoDashFirst (sanitize_file_segment s) × NoDashLast (sanitize_file_segment s) =
      no_dash (is_empty (strip s)) in
    (Kept-sanitize_file_segment s, ends.0, ends.1)
  where
    mapped : Text
    mapped = lstrip_dash (map kept_or_dash (strip s))

    no_dash :
        (blank : Bool)
        → NoDashFirst (if blank then [] else rstrip_dash mapped)
          × NoDashLast (if blank then [] else rstrip_dash mapped)
    no_dash true = (tt, tt)
    no_dash false = (
      NoDashFirst-rstrip_dash mapped (lstrip_dash-NoDashFirst (map kept_or_dash (strip s))),
      rstrip_dash-NoDashLast mapped,
    )

-- The name of an auth file is `xai-`, a segment of letters, digits and `@`, `.`, `_`, `-` alone that
-- neither begins nor ends with `-`, and `.json`, whatever the address and the subject are.
pub credential_file_name-IsSegment :
    (now : ℕ) (email sub : Text)
    → (segment : Text) × (credential_file_name now email sub ≡ file_name segment)
      × IsSegment segment
unfolding credential_file_name
credential_file_name-IsSegment now email sub =
    elim (Bool-cases (not (is_empty (sanitize_file_segment email)))) [
      | inl by_email ↦
          (sanitize_file_segment email, rw by_email, sanitize_file_segment-IsSegment email)
      | inr no_email ↦ elim (Bool-cases (not (is_empty (sanitize_file_segment sub)))) [
        | inl by_sub ↦
            (sanitize_file_segment sub, rw (no_email, by_sub), sanitize_file_segment-IsSegment sub)
        | inr no_sub ↦
            let digits : All IsDigit (show_nat now) = show_nat-IsDigit now in
            (
              show_nat now,
              rw (no_email, no_sub),
              (
                Kept-digits (show_nat now) digits,
                NoDashFirst-digits (show_nat now) digits,
                NoDashLast-digits (show_nat now) digits,
              ),
            )
      ]
    ]
