-- ===== src/Prelude/Errors.antt =====
-- A Python call that returns a value or raises an exception, as a value.
use mathlib.Core.Path.{◌≡◌, refl}
use mathlib.Core.Logic.{dite, ◌⊎◌, inl, inr}

-- To show `Q` of a branch on a decision, show it of both branches.
pub dite_ind {ℓ κ μ} :
    {A : Type ℓ} {B : Type κ} (Q : B → Type μ) (d : Dec A) {x : A → B} {y : ¬ A → B}
    → ((a : A) → Q (x a))
    → ((n : ¬ A) → Q (y n))
    → Q (dite d x y)
dite_ind Q (yes a) qx qy = qx a
dite_ind Q (no n) qx qy = qy n

pub data Result {ℓ κ} (E : Type ℓ) (A : Type κ) : Type (ℓ ⊔ κ) where
  ok : A → Result E A
  err : E → Result E A

pub ok-injective {ℓ κ} :
    {E : Type ℓ} {A : Type κ} {a b : A} → ◌≡◌ {A = Result E A} (ok a) (ok b) → a ≡ b
ok-injective h = cc

module _ {ℓ κ μ} {E : Type ℓ} {A : Type κ} {B : Type μ} where
  infixl 5 ◌>>=◌ ◌>>◌
  abbrev pub ◌>>=◌ : Result E A → (A → Result E B) → Result E B
  err raised >>= next = err raised
  ok value >>= next = next value

  -- A statement of a block whose value is not used.
  abbrev pub ◌>>◌ : Result E A → Result E B → Result E B
  err raised >> next = err raised
  ok value >> next = next

  pub bind_ext :
      (first : Result E A) (next other : A → Result E B)
      → ((value : A) → next value ≡ other value)
      → (first >>= next) ≡ (first >>= other)
  bind_ext (err raised) next other same = refl
  bind_ext (ok value) next other same = same value

  -- Where a block that raised did so.
  pub bind-err :
      (first : Result E A) (next : A → Result E B) {raised : E}
      → (first >>= next) ≡ err raised
      → (first ≡ err raised) ⊎ ((value : A) × (first ≡ ok value) × (next value ≡ err raised))
  bind-err (err other) next failed = inl (cc)
  bind-err (ok value) next failed = inr (value, refl, failed)

  -- What a block that returned did first.
  pub bind-ok :
      (first : Result E A) (next : A → Result E B) {result : B}
      → (first >>= next) ≡ ok result
      → (value : A) × (first ≡ ok value) × (next value ≡ ok result)
  bind-ok (err raised) next done = cc
  bind-ok (ok value) next done = (value, refl, done)
