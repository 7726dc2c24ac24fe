-- ===== src/Prelude/Strings.antt =====
-- What the program uses of Python's `str`: a text is the list of its code points. Case is changed
-- in the letters of ASCII; the other letters stay as they are. `int` reads the digits of ASCII.
use Prim.Native.Char.{code}
use Prim.Native.String.{String}
use Prim.Native.Nat.{ℕ, zero, suc, ◌+◌, ◌-◌, ◌*◌, ◌/◌, ◌%◌, ◌≤◌}
use mathlib.Core.Path.{◌≡◌, refl}
use mathlib.Core.Bool.{Bool, true, false, ◌&&◌, ◌||◌}
use mathlib.Core.Option.{Option, none, some}
use mathlib.Core.List.{List, [], ◌∷◌, map}
use mathlib.Core.Logic.{inl, inr}
use native.Mathlib.Omega.{arith}
use grok_build_auth.Prelude.Lists.{All}
use grok_build_auth.Prelude.Tests.{Bool-cases, leb, ◌==◌, if◌then◌else◌}
use grok_build_auth.Prelude.Int.{ℤ, pos, negsuc}

abbrev pub Text : Type 0
Text = List ℕ

abbrev pub codes : String → Text
codes String.[] = []
codes (String.◌∷◌ c s) = code c ∷ codes s

abbrev pub text_eq : Text → Text → Bool
text_eq [] [] = true
text_eq (c ∷ s) (d ∷ t) = c == d && text_eq s t
text_eq _ _ = false

pub text_eq_refl : (s : Text) → text_eq s s ≡ true
text_eq_refl [] = refl
text_eq_refl (c ∷ s) = ground (arith, text_eq_refl s)

pub eq_of_text_eq : (s t : Text) → text_eq s t ≡ true → s ≡ t
eq_of_text_eq [] [] h = refl
eq_of_text_eq [] (d ∷ t) h = cc
eq_of_text_eq (c ∷ s) [] h = cc
eq_of_text_eq (c ∷ s) (d ∷ t) h = ground (arith, eq_of_text_eq s t)

abbrev pub is_empty {ℓ} : {A : Type ℓ} → List A → Bool
is_empty [] = true
is_empty (_ ∷ _) = false

abbrev pub contains : ℕ → Text → Bool
contains c [] = false
contains c (d ∷ s) = c == d || contains c s

abbrev between : ℕ → ℕ → ℕ → Bool
between lo hi c = leb lo c && leb c hi

-- `str.isspace`
unfoldable pub is_space : ℕ → Bool
is_space c =
    between 9 13 c
    || between 28 32 c
    || c == 0x85
    || c == 0xa0
    || c == 0x1680
    || between 0x2000 0x200a c
    || between 0x2028 0x2029 c
    || c == 0x202f
    || c == 0x205f
    || c == 0x3000

unfoldable pub lstrip : Text → Text
unfolding is_space
lstrip [] = []
lstrip (c ∷ s) = let rest = lstrip s in if is_space c then rest else c ∷ s

unfoldable pub rstrip : Text → Text
unfolding is_space
rstrip [] = []
rstrip (c ∷ s) = let rest = rstrip s in if is_empty rest && is_space c then [] else c ∷ rest

unfoldable pub strip : Text → Text
unfolding lstrip rstrip
strip s = rstrip (lstrip s)

abbrev lower_char : ℕ → ℕ
lower_char c = if between b'A' b'Z' c then c + 32 else c

unfoldable pub lower : Text → Text
lower = map lower_char

-- `s.split(sep, 1)` where `sep` occurs: the texts before and behind its first occurrence.
unfoldable pub split_once : ℕ → Text → Option (Text × Text)
split_once c [] = none
split_once c (d ∷ s) =
    let rest = split_once c s in
    if c == d then some ([], s) else elim rest [ none ↦ none | some (a, b) ↦ some (d ∷ a, b) ]

-- The digits of `int`, with single `_` between them; the flag says that the last was a digit.
unfoldable pub int_digits : ℕ → Bool → Text → Option ℕ
int_digits n true [] = some n
int_digits n false [] = none
int_digits n after_digit (c ∷ s) = elim (between b'0' b'9' c) [
  | true ↦ int_digits (n * 10 + (c - b'0')) true s
  | false ↦ elim (c == b'_' && after_digit) [ true ↦ int_digits n false s | false ↦ none ]
]

abbrev neg : ℕ → ℤ
neg n = if n == 0 then pos 0 else negsuc (n - 1)

abbrev signed : Text → Option ℤ
signed [] = none
signed (c ∷ s) =
    if c == b'-'
    then elim (int_digits 0 false s) [ none ↦ none | some n ↦ some (neg n) ]
    else elim (if c == b'+' then int_digits 0 false s else int_digits 0 false (c ∷ s)) [
      | none ↦ none
      | some n ↦ some (pos n)
    ]

-- `int(s)`: `none` is the ValueError.
unfoldable pub parse_int : Text → Option ℤ
unfolding strip int_digits
parse_int s = signed (strip s)

-- Decimal digits, most significant first; the fuel is one more than the number.
digits_fuel : ℕ → ℕ → Text → Text
digits_fuel zero n out = out
digits_fuel (suc f) n out =
    let more = digits_fuel f (n / 10) ((b'0' + n % 10) ∷ out) in
    if n / 10 == 0 then (b'0' + n % 10) ∷ out else more

unfoldable pub show_nat : ℕ → Text
unfolding digits_fuel
show_nat n = digits_fuel (n + 1) n []

abbrev pub IsDigit : ℕ → Type 0
IsDigit c = (b'0' ≤ c) × (c ≤ b'9')

digits_fuel-IsDigit : (f n : ℕ) (out : Text) → All IsDigit out → All IsDigit (digits_fuel f n out)
unfolding digits_fuel
digits_fuel-IsDigit zero n out h = h
digits_fuel-IsDigit (suc f) n out h =
    let longer : All IsDigit ((b'0' + n % 10) ∷ out) = ((omega arith, omega arith), h) in
    elim (Bool-cases (n / 10 == 0)) [
      | inl last ↦ rw last longer
      | inr more ↦ rw more (digits_fuel-IsDigit f (n / 10) ((b'0' + n % 10) ∷ out) longer)
    ]

pub show_nat-IsDigit : (n : ℕ) → All IsDigit (show_nat n)
unfolding show_nat
show_nat-IsDigit n = digits_fuel-IsDigit (n + 1) n [] tt

unfoldable pub show_int : ℤ → Text
unfolding show_nat
show_int (pos n) = show_nat n
show_int (negsuc n) = b'-' ∷ show_nat (n + 1)

reads_signed : parse_int (codes " -1_0 ") ≡ some (negsuc 9)
unfolding parse_int
reads_signed = refl

rejects_words : parse_int (codes "1x") ≡ none
unfolding parse_int
rejects_words = refl

strips_both : lower (strip (codes "  GRPC Status\r ")) ≡ codes "grpc status"
unfolding lower strip
strips_both = refl

abbrev pub starts_with : Text → Text → Bool
starts_with [] s = true
starts_with (p ∷ ps) [] = false
starts_with (p ∷ ps) (c ∷ s) = p == c && starts_with ps s

-- `pattern in s`
unfoldable pub has_infix : Text → Text → Bool
has_infix p [] = is_empty p
has_infix p (c ∷ s) = starts_with p (c ∷ s) || has_infix p s

-- `s.endswith(pattern)`
unfoldable pub has_suffix : Text → Text → Bool
has_suffix p [] = is_empty p
has_suffix p (c ∷ s) = text_eq p (c ∷ s) || has_suffix p s

abbrev onto_head : ℕ → List Text → List Text
onto_head c [] = (c ∷ []) ∷ []
onto_head c (part ∷ parts) = (c ∷ part) ∷ parts

-- `s.split(c)` by one character.
unfoldable pub split_char : ℕ → Text → List Text
split_char sep [] = [] ∷ []
split_char sep (c ∷ s) =
    let rest = split_char sep s in if c == sep then [] ∷ rest else onto_head c rest
