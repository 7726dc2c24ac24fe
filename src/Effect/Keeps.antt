-- ===== src/Effect/Keeps.antt =====
-- Relations between the world before a call and the world after it that hold of every call of a
-- program.
use grok_build_auth.Prelude.{ok, err, Result}
use grok_build_auth.Effect.{◌>>>=◌, Effect, continue, handled, try_except, lift}

-- A relation that holds of a run, whatever it returns or raises.
unfoldable pub Keeps : {E W A : Type 0} → (W → W → Type 0) → Effect E W A → Type 0
Keeps {W = W} R m = (w : W) → R w (m w).1

module _ {W : Type 0} (R : W → W → Type 0) (reflexive : (w : W) → R w w)
    (transitive : (a b c : W) → R a b → R b c → R a c) where
  pub Keeps-lift : {E A : Type 0} (r : Result E A) → Keeps R (lift {W = W} r)
  unfolding Keeps
  Keeps-lift r w = reflexive w

  pub Keeps-bind :
      {E A B : Type 0} (m : Effect E W A) (f : A → Effect E W B)
      → Keeps R m
      → ((a : A) → Keeps R (f a))
      → Keeps R (m >>>= f)
  unfolding Keeps
  Keeps-bind {E} {A} m f h k w = go (m w) (h w)
    where
      go : (r : Result E A × W) → R w r.1 → R w (continue r.0 f r.1).1
      go (ok a, w1) kept = transitive w w1 (f a w1).1 kept (k a w1)
      go (err e, w1) kept = kept

  pub Keeps-try_except :
      {E A : Type 0} (m : Effect E W A) (handler : E → Effect E W A)
      → Keeps R m
      → ((e : E) → Keeps R (handler e))
      → Keeps R (try_except m handler)
  unfolding Keeps
  Keeps-try_except {E} {A} m handler h k w = go (m w) (h w)
    where
      go : (r : Result E A × W) → R w r.1 → R w (handled handler r.0 r.1).1
      go (ok a, w1) kept = kept
      go (err e, w1) kept = transitive w w1 (handler e w1).1 kept (k e w1)
