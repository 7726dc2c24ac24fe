-- ===== src/Effect/Returned.antt =====
-- What holds of the value that a call returns, if it returns one.
use grok_build_auth.Prelude.{
  Bool, true, false, if◌then◌else◌, Result, Result, ok-injective, ◌≡◌, refl, ok, err,
}
use grok_build_auth.Effect.{pure, Effect, lift, ◌>>>=◌, continue, Effect}
use mathlib.Core.Path.{subst}

abbrev pub WhenOk : {E A W : Type 0} → (A → Type 0) → Result E A × W → Type 0
WhenOk P (ok a, w) = P a
WhenOk P (err e, w) = Unit

module _ {E A B W : Type 0} (P : B → Type 0) where
  pub WhenOk-continue :
      (r : Result E A) (f : A → Effect E W B) (w : W)
      → ((a : A) → r ≡ ok a → WhenOk P (f a w))
      → WhenOk P (continue r f w)
  WhenOk-continue (ok a) f w h = h a refl
  WhenOk-continue (err e) f w h = tt

  pub WhenOk-bind :
      (m : Effect E W A) (f : A → Effect E W B) (w : W)
      → ((a : A) (w1 : W) → WhenOk P (f a w1))
      → WhenOk P ((m >>>= f) w)
  WhenOk-bind m f w h = WhenOk-continue (m w).0 f (m w).1 (λ a _. h a (m w).1)

pub WhenOk-ok :
    {E A W : Type 0} (P : A → Type 0) (r : Result E A × W) (a : A) → WhenOk P r → r.0 ≡ ok a → P a
WhenOk-ok P (ok b, w) a h e = subst P (ok-injective e) h
WhenOk-ok P (err b, w) a h e = cc

pub WhenOk-lift :
    {E A W : Type 0} (P : A → Type 0) (r : Result E A) (w : W)
    → ((a : A) → r ≡ ok a → P a)
    → WhenOk P (lift r w)
WhenOk-lift P (ok a) w h = h a refl
WhenOk-lift P (err e) w h = tt

-- What holds of the exception that a call raises, if it raises one.
abbrev pub WhenErr : {E A W : Type 0} → (E → Type 0) → Result E A × W → Type 0
WhenErr P (ok a, w) = Unit
WhenErr P (err e, w) = P e

-- A call that raises no exception but those with `P`.
pub record Raises {E A W : Type 0} (P : E → Type 0) (m : Effect E W A) : Type 0 where
  pub at : (w : W) → WhenErr P (m w)

pub Raises-bind :
    {E A B W : Type 0} {P : E → Type 0} {m : Effect E W A} {f : A → Effect E W B}
    → Raises P m
    → ((a : A) → Raises P (f a))
    → Raises P (m >>>= f)
Raises-bind {E} {A} {B} {W} {P} {m} {f} first later = record { at = λ w. go (m w) (first.at w) }
  where
    go : (r : Result E A × W) → WhenErr P r → WhenErr P (continue r.0 f r.1)
    go (ok a, w1) h = (later a).at w1
    go (err e, w1) h = h

pub Raises-pure : {E A W : Type 0} {P : E → Type 0} {a : A} → Raises {W = W} P (pure a)
Raises-pure = record { at = λ w. tt }

pub WhenErr-all :
    {E A W : Type 0} (P : E → Type 0) (r : Result E A × W)
    → ((e : E) → r.0 ≡ err e → P e)
    → WhenErr P r
WhenErr-all P (ok a, w) h = tt
WhenErr-all P (err e, w) h = h e refl

pub Raises-if :
    {E A W : Type 0} {P : E → Type 0} (test : Bool) {m n : Effect E W A}
    → Raises P m
    → Raises P n
    → Raises P (if test then m else n)
Raises-if true first second = first
Raises-if false first second = second

-- A call whose value has `P`, if it returns one.
pub record Returns {E A W : Type 0} (P : A → Type 0) (m : Effect E W A) : Type 0 where
  pub at : (w : W) → WhenOk P (m w)

pub Returns-bind :
    {E A B W : Type 0} {P : A → Type 0} {Q : B → Type 0} {m : Effect E W A} {f : A → Effect E W B}
    → Returns P m
    → ((a : A) → P a → Returns Q (f a))
    → Returns Q (m >>>= f)
Returns-bind {E} {A} {B} {W} {P} {Q} {m} {f} first later = record {
  at = λ w. go (m w) (first.at w);
}
  where
    go : (r : Result E A × W) → WhenOk P r → WhenOk Q (continue r.0 f r.1)
    go (ok a, w1) h = (later a h).at w1
    go (err e, w1) h = tt

pub Returns-pure :
    {E A W : Type 0} {P : A → Type 0} {a : A} → P a → Returns {E = E} {W = W} P (pure a)
Returns-pure p = record { at = λ w. p }

pub WhenOk-any : {E A W : Type 0} (r : Result E A × W) → WhenOk (λ a. Unit {0}) r
WhenOk-any (ok a, w) = tt
WhenOk-any (err e, w) = tt

pub Returns-any : {E A W : Type 0} (m : Effect E W A) → Returns (λ a. Unit {0}) m
Returns-any m = record { at = λ w. WhenOk-any (m w) }

pub Returns-if :
    {E A W : Type 0} {P : A → Type 0} (test : Bool) {m n : Effect E W A}
    → (test ≡ true → Returns P m)
    → (test ≡ false → Returns P n)
    → Returns P (if test then m else n)
Returns-if true first second = first refl
Returns-if false first second = second refl
