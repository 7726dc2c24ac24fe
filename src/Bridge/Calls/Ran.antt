-- ===== src/Bridge/Calls/Ran.antt =====
-- What a run of bridge/bridge.py logged, returned or raised, and left of the services.
use grok_build_auth.Prelude.{
  if◌then◌else◌, false, true, Bool, ◌>>=◌, ◌≡◌, refl, sym, ap, ◌∙◌, List, [], ◌∷◌, ◌++◌, ok, err,
  append-nil, append_assoc,
}
use grok_build_auth.Effect.{raise, ◌>>>=◌, continue, handled, lift, pure, try_except}
use grok_build_auth.Bridge.Auth.{Exc, Try}
use grok_build_auth.Bridge.Calls.{Bridge, Call, Env, Reply, World, call}
use mathlib.Core.Path.{subst}

module _ {S : Type 0} where
  -- What a run of `m` from the world `w` logged behind what stood there, and `P` of its result, of
  -- the calls that it logged and of the world after them.
  pub record Ran {A : Type 0} (w : World S) (P : Try A → List Call → World S → Type 0)
      (m : Bridge S A) : Type 0 where
    pub run : (cs : List Call) × ((m w).1.calls ≡ w.calls ++ cs) × P (m w).0 cs (m w).1

  -- `P`, with the calls `cs` before.
  abbrev pub Behind :
      {A : Type 0}
      → List Call
      → (Try A → List Call → World S → Type 0)
      → Try A
      → List Call
      → World S
      → Type 0
  Behind cs P r ds w = P r (cs ++ ds) w

  abbrev Logged :
      {A : Type 0} → (Try A → List Call → World S → Type 0) → World S → Try A × World S → Type 0
  Logged P w x = (cs : List Call) × (x.1.calls ≡ w.calls ++ cs) × P x.0 cs x.1

  behind :
      {A : Type 0} (Q : Try A → List Call → World S → Type 0) (w w1 : World S) (cs : List Call)
      (x : Try A × World S)
      → w1.calls ≡ w.calls ++ cs
      → Logged (Behind cs Q) w1 x
      → Logged Q w x
  behind Q w w1 cs x logged (ds, later, q) =
      (cs ++ ds, later ∙ ap (λ l. l ++ ds) logged ∙ append_assoc w.calls cs ds, q)

  module _ {A : Type 0} {P Q : Try A → List Call → World S → Type 0} {w : World S}
      {m : Bridge S A} where
    pub Ran-mono :
        Ran w P m
        → ((r : Try A) (cs : List Call) (w1 : World S) → P r cs w1 → Q r cs w1)
        → Ran w Q m
    Ran-mono ran h = record {
      run = let (cs, logged, p) = ran.run in (cs, logged, h (m w).0 cs (m w).1 p);
    }

    pub Ran-try_except :
        {handler : Exc → Bridge S A}
        → Ran w P m
        → ((a : A) (cs : List Call) (w1 : World S) → P (ok a) cs w1 → Q (ok a) cs w1)
        → ((e : Exc) (cs : List Call) (w1 : World S)
            → P (err e) cs w1
            → Ran w1 (Behind cs Q) (handler e))
        → Ran w Q (try_except m handler)
    Ran-try_except {handler} ran done next = record { run = go (m w) ran.run }
      where
        go : (x : Try A × World S) → Logged P w x → Logged Q w (handled handler x.0 x.1)
        go (ok a, w1) (cs, logged, p) = (cs, logged, done a cs w1 p)
        go (err e, w1) (cs, logged, p) = behind Q w w1 cs (handler e w1) logged (next e cs w1 p).run

  module _ {A B : Type 0} {P : Try A → List Call → World S → Type 0}
      {Q : Try B → List Call → World S → Type 0} {w : World S} {m : Bridge S A}
      {f : A → Bridge S B} where
    pub Ran-bind :
        Ran w P m
        → ((a : A) (cs : List Call) (w1 : World S) → P (ok a) cs w1 → Ran w1 (Behind cs Q) (f a))
        → ((e : Exc) (cs : List Call) (w1 : World S) → P (err e) cs w1 → Q (err e) cs w1)
        → Ran w Q (m >>>= f)
    Ran-bind ran next failed = record { run = go (m w) ran.run }
      where
        go : (x : Try A × World S) → Logged P w x → Logged Q w (continue x.0 f x.1)
        go (ok a, w1) (cs, logged, p) = behind Q w w1 cs (f a w1) logged (next a cs w1 p).run
        go (err e, w1) (cs, logged, p) = (cs, logged, failed e cs w1 p)

  module _ {A : Type 0} {Q : Try A → List Call → World S → Type 0} {w : World S} where
    pub Ran-lift : {r : Try A} → Q r [] w → Ran w Q (lift r)
    Ran-lift q = record { run = ([], sym (append-nil w.calls), q) }

    pub Ran-pure : {a : A} → Q (ok a) [] w → Ran w Q (pure a)
    Ran-pure q = record { run = ([], sym (append-nil w.calls), q) }

    pub Ran-raise : {e : Exc} → Q (err e) [] w → Ran w Q (raise e)
    Ran-raise q = record { run = ([], sym (append-nil w.calls), q) }

    pub Ran-if :
        (test : Bool) {m n : Bridge S A}
        → (test ≡ true → Ran w Q m)
        → (test ≡ false → Ran w Q n)
        → Ran w Q (if test then m else n)
    Ran-if test {m} {n} first second = go test first second
      where
        go :
            (b : Bool)
            → (b ≡ true → Ran w Q m)
            → (b ≡ false → Ran w Q n)
            → Ran w Q (if b then m else n)
        go true first second = first refl
        go false first second = second refl

  -- A value or an exception, with no call.
  pub Ran-lift_then :
      {A B : Type 0} {Q : Try B → List Call → World S → Type 0} {w : World S} {r : Try A}
      {f : A → Bridge S B}
      → ((a : A) → r ≡ ok a → Ran w Q (f a))
      → ((e : Exc) → Q (err e) [] w)
      → Ran w Q (lift r >>>= f)
  Ran-lift_then {A} {B} {Q} {w} {r} {f} next failed = record { run = go r (λ a h. (next a h).run) }
    where
      go : (r' : Try A) → ((a : A) → r' ≡ ok a → Logged Q w (f a w)) → Logged Q w (continue r' f w)
      go (ok a) h = h a refl
      go (err e) h = ([], sym (append-nil w.calls), failed e)

-- `P` of the world, if the run returned True.
abbrev pub IfTrue : {S : Type 0} → (World S → Type 0) → Try Bool → List Call → World S → Type 0
IfTrue P (ok true) cs w = P w
IfTrue P (ok false) cs w = Unit
IfTrue P (err e) cs w = Unit

pub IfTrue-ok :
    {S : Type 0} (P : World S → Type 0) (cs : List Call) (w : World S) (r : Try Bool)
    → (r ≡ ok true → P w)
    → IfTrue P r cs w
IfTrue-ok P cs w (ok true) h = h refl
IfTrue-ok P cs w (ok false) h = tt
IfTrue-ok P cs w (err e) h = tt

module _ {S : Type 0} (env : Env) (serve : Call → S → Reply × S) where
  -- The last thing that the services were asked is `c`, and `P` holds of the answer.
  abbrev pub Told : Call → (Reply → Type 0) → World S → Type 0
  Told c P w = (s : S) × P (serve c s).0 × ((serve c s).1 ≡ w.server)

  -- One call, and the result is what `read` makes of its answer.
  abbrev pub Heard : {A : Type 0} → (Reply → Try A) → Call → Try A → List Call → World S → Type 0
  Heard read c r cs w = (cs ≡ c ∷ []) × Told c (λ reply. r ≡ read reply) w

  pub Ran-call :
      {A : Type 0} (read : Reply → Try A) (c : Call) (w : World S)
      → Ran w (Heard read c) (call env serve read c)
  unfolding call
  Ran-call read c w = record { run = (c ∷ [], refl, (refl, (w.server, refl, refl))) }

  pub Ran-call-lift :
      {A B : Type 0} (read : Reply → Try A) (f : A → Try B) (c : Call) (w : World S)
      → Ran w (Heard (λ reply. read reply >>= f) c) (call env serve read c >>>= λ a. lift (f a))
  Ran-call-lift read f c w =
      Ran-bind (Ran-call read c w)
        (λ a cs w1 (logged, (s, said, left)).
          Ran-lift (append-nil cs ∙ logged, (s, ap (λ r. r >>= f) said, left)))
        (λ e cs w1 (logged, (s, said, left)). (logged, (s, ap (λ r. r >>= f) said, left)))

  -- A call whose answer does not matter for what is shown.
  pub Ran-call_then :
      {A B : Type 0} {Q : Try B → List Call → World S → Type 0} (read : Reply → Try A) (c : Call)
      {f : A → Bridge S B} {w : World S}
      → ((a : A) (w1 : World S) → Ran w1 (Behind (c ∷ []) Q) (f a))
      → ((e : Exc) (w1 : World S) → Q (err e) (c ∷ []) w1)
      → Ran w Q (call env serve read c >>>= f)
  Ran-call_then {Q = Q} read c {f = f} {w = w} next failed =
      Ran-bind (Ran-call read c w)
        (λ a cs w1 (logged, told). subst (λ l. Ran w1 (Behind l Q) (f a)) (sym logged) (next a w1))
        (λ e cs w1 (logged, told). subst (λ l. Q (err e) l w1) (sym logged) (failed e w1))
