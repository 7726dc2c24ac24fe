-- ===== src/Effect.antt =====
-- Calls that may raise an exception of type `E` and change the world outside: what was done before an
-- exception stays done, so the world comes back with it too.
pub mod Returned
pub mod Keeps
use grok_build_auth.Prelude.{Bool, true, false, ok, err, Result}

abbrev pub Effect : Type 0 → Type 0 → Type 0 → Type 0
Effect E W A = W → Result E A × W

abbrev pub went_through : {E A : Type 0} → Result E A → Bool
went_through (ok a) = true
went_through (err e) = false

module _ {E W A B : Type 0} where
  abbrev pub continue : Result E A → (A → Effect E W B) → Effect E W B
  continue (ok a) f w = f a w
  continue (err e) f w = (err e, w)

  infixl 5 ◌>>>=◌
  abbrev pub ◌>>>=◌ : Effect E W A → (A → Effect E W B) → Effect E W B
  ◌>>>=◌ m f w = let (r, w') = m w in continue r f w'

module _ {E W A : Type 0} where
  abbrev pub pure : A → Effect E W A
  pure a w = (ok a, w)

  abbrev pub raise : E → Effect E W A
  raise e w = (err e, w)

  abbrev pub lift : Result E A → Effect E W A
  lift r w = (r, w)

  abbrev pub handled : (E → Effect E W A) → Result E A → Effect E W A
  handled handler (ok a) w = (ok a, w)
  handled handler (err e) w = handler e w

  -- `try: m; except Exception as exc: handler(exc)`
  abbrev pub try_except : Effect E W A → (E → Effect E W A) → Effect E W A
  try_except m handler w = let (r, w') = m w in handled handler r w'

  -- Whether the call went through; an error is dropped.
  abbrev pub attempt : Effect E W A → Effect E W Bool
  attempt m w = let (r, w') = m w in (ok (went_through r), w')
