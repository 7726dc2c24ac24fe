-- ===== src/Json.antt =====
-- JSON values as Python's dynamic values, with the operations that the program uses on them.
-- A float is a decimal, `m` over a power of ten; rounding to a double is not modelled. The text of a
-- list or a dict inside another value is written without escapes.
use grok_build_auth.Prelude.{
  pos_part, neg_part, int_eq, text_eq, is_empty, strip, parse_int, show_nat, show_int, ℤ, pos,
  negsuc, Text, codes, ℕ, zero, suc, ◌+◌, ◌-◌, ◌*◌, ◌/◌, ◌%◌, ◌^◌, ◌≡◌, refl, Bool, true, false,
  not, ◌&&◌, Option, none, some, [], ◌∷◌, ◌++◌, leb, ◌==◌, if◌then◌else◌, length,
}
use Prim.Native.String.{String}
use text.Mathlib.Text.{◌==◌ as str_eq}

mutual
  pub data Value : Type 0 where
    null : Value
    bool : Bool → Value
    int : ℤ → Value
    float : ℤ → ℕ → Value
    str : Text → Value
    arr : Items → Value
    obj : Fields → Value

  pub data Items : Type 0 where
    nil : Items
    item : Value → Items → Items

  pub data Fields : Type 0 where
    end : Fields
    field : String → Value → Fields → Fields

-- `key in d` and `d.get(key)`, which is None for a missing key.
unfoldable pub find : String → Fields → Option Value
find k end = none
find k (field j v d) = if str_eq j k then some v else find k d

unfoldable pub get : String → Fields → Value
unfolding find
get k d = elim (find k d) [ none ↦ null | some v ↦ v ]

unfoldable pub has : String → Fields → Bool
unfolding find
has k d = elim (find k d) [ none ↦ false | some _ ↦ true ]

abbrev pub is_zero : ℤ → Bool
is_zero n = int_eq n (pos 0)

-- `bool(v)`
unfoldable pub truthy : Value → Bool
truthy null = false
truthy (bool b) = b
truthy (int n) = not (is_zero n)
truthy (float m e) = not (is_zero m)
truthy (str s) = not (is_empty s)
truthy (arr nil) = false
truthy (arr (item _ _)) = true
truthy (obj end) = false
truthy (obj (field _ _ _)) = true

pad : ℕ → Text → Text
pad zero s = s
pad (suc n) s = if leb (suc n) (length s) then s else b'0' ∷ pad n s

show_float : ℤ → ℕ → Text
unfolding pad show_int show_nat
show_float m e =
    let size : ℕ = pos_part m + neg_part m in
    let sign : Text = if leb 1 (neg_part m) then b'-' ∷ [] else [] in
    let tail : Text = if e == 0 then b'0' ∷ [] else pad e (show_nat (size % 10 ^ e)) in
    sign ++ show_nat (size / 10 ^ e) ++ b'.' ∷ tail

-- `str(v)`; `quoted` asks for the quotes of `repr`.
mutual
  unfolding show_float show_int show_nat

  show : Bool → Value → Text
  show quoted null = codes "None"
  show quoted (bool true) = codes "True"
  show quoted (bool false) = codes "False"
  show quoted (int n) = show_int n
  show quoted (float m e) = show_float m e
  show quoted (str s) = if quoted then 39 ∷ (s ++ 39 ∷ []) else s
  show quoted (arr xs) = b'[' ∷ (show_items true xs ++ b']' ∷ [])
  show quoted (obj d) = b'{' ∷ (show_fields true d ++ b'}' ∷ [])

  show_items : Bool → Items → Text
  show_items first nil = []
  show_items first (item v xs) =
      (if first then [] else codes ", ") ++ show true v ++ show_items false xs

  show_fields : Bool → Fields → Text
  show_fields first end = []
  show_fields first (field k v d) =
      (if first then [] else codes ", ")
      ++ 39 ∷ (codes k ++ codes "': " ++ show true v ++ show_fields false d)

-- `str(v or "")`
unfoldable pub text_or_empty : Value → Text
unfolding truthy show
text_or_empty v = if truthy v then show false v else []

-- `as_int` of the egress tool, which other parts of the program share in shape.
abbrev whole : ℤ → ℕ → Option ℤ
whole (pos m) e = if m % 10 ^ e == 0 then some (pos (m / 10 ^ e)) else none
whole (negsuc m) e = if suc m % 10 ^ e == 0 then some (negsuc (suc m / 10 ^ e - 1)) else none

unfoldable pub as_int : Value → Option ℤ
unfolding parse_int strip
as_int null = none
as_int (bool _) = none
as_int (int n) = some n
as_int (float m e) = whole m e
as_int (str s) = if is_empty (strip s) then none else parse_int (strip s)
as_int (arr _) = none
as_int (obj _) = none

-- Numbers compare by value, and a bool is 0 or 1.
abbrev number : Value → Option (ℤ × ℕ)
number (bool true) = some (pos 1, 0)
number (bool false) = some (pos 0, 0)
number (int n) = some (n, 0)
number (float m e) = some (m, e)
number _ = none

abbrev same_number : ℤ × ℕ → Value → Bool
same_number (m, e) w = elim (number w) [
  | none ↦ false
  | some (n, f) ↦
      pos_part m * 10 ^ f == pos_part n * 10 ^ e && neg_part m * 10 ^ f == neg_part n * 10 ^ e
]

abbrev count_fields : Fields → ℕ
count_fields end = 0
count_fields (field _ _ d) = suc (count_fields d)

-- `v == w`; two dicts are equal when they have the same keys with equal values.
unfoldable mutual
  unfolding find

  pub value_eq : Value → Value → Bool
  value_eq null null = true
  value_eq (str s) (str t) = text_eq s t
  value_eq (arr xs) (arr ys) = items_eq xs ys
  value_eq (obj d) (obj d') = count_fields d == count_fields d' && fields_in d d'
  value_eq (bool true) w = same_number (pos 1, 0) w
  value_eq (bool false) w = same_number (pos 0, 0) w
  value_eq (int n) w = same_number (n, 0) w
  value_eq (float m e) w = same_number (m, e) w
  value_eq _ _ = false

  pub items_eq : Items → Items → Bool
  items_eq nil nil = true
  items_eq (item v xs) (item w ys) = value_eq v w && items_eq xs ys
  items_eq _ _ = false

  pub fields_in : Fields → Fields → Bool
  fields_in end d' = true
  fields_in (field k v d) d' =
      elim (find k d') [ none ↦ false | some w ↦ value_eq v w ] && fields_in d d'

shows :
    show false
      (arr (item (int (negsuc 11)) (item (str (codes "a")) (item (float (pos 105) 1) nil))))
    ≡ codes "[-12, 'a', 10.5]"
unfolding show
shows = refl

equal_numbers :
    (value_eq (float (pos 10) 1) (bool true) ≡ true)
    × (as_int (float (pos 4290) 1) ≡ some (pos 429))
unfolding value_eq as_int
equal_numbers = (refl, refl)

-- `v or w`
abbrev pub or_value : Value → Value → Value
or_value v w = if truthy v then v else w

-- `int(v)` of a number or a text; `none` is a TypeError or a ValueError.
unfoldable pub to_int : Value → Option ℤ
unfolding parse_int
to_int (bool true) = some (pos 1)
to_int (bool false) = some (pos 0)
to_int (int n) = some n
to_int (float (pos m) e) = some (pos (m / 10 ^ e))
to_int (float (negsuc m) e) = some (negated (suc m / 10 ^ e))
  where
    negated : ℕ → ℤ
    negated zero = pos 0
    negated (suc n) = negsuc n
to_int (str s) = parse_int s
to_int _ = none

-- `int(v or 0)`
abbrev pub int_or_0 : Value → Option ℤ
int_or_0 v = if truthy v then to_int v else some (pos 0)

-- `str(v)`
unfoldable pub show_text : Value → Text
unfolding show
show_text = show false

-- `dict(d)` with `d[key] = v`
unfoldable pub put : String → Value → Fields → Fields
put key v end = field key v end
put key v (field k w d) = if str_eq k key then field k v d else field k w (put key v d)

-- `d.get(key) == text`
abbrev pub field_equals : String → Text → Fields → Bool
field_equals key text d = value_eq (get key d) (str text)
