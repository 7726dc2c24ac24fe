-- ===== src/Egress/Apply/Trace.antt =====
-- The calls that `apply_one_account` makes, on every way out.
use grok_build_auth.Prelude.{
  ℤ, pos, ℕ, ◌≡◌, refl, sym, ap, ◌∙◌, Bool, List, [], ◌∷◌, ◌++◌, ok, err, append-nil, append_assoc,
}
use grok_build_auth.Egress.Base.{Try}
use grok_build_auth.Egress.Client.{
  dict_or_raise, get_request, dict_or_empty, schedulable_request, set_schedulable, get_account,
  request, proxy_request, set_proxy_id, Reply, Request, World,
}
use grok_build_auth.Egress.Monad.{◌>>>=◌, continue, Tool, pure, lift}
use grok_build_auth.Json.{Value}
use grok_build_auth.Egress.Client.Paths.{
  request-get_request, request-schedulable_request, request-proxy_request,
}

module _ {S : Type 0} where
  -- A run that logs `requests` if it returns, and the first of them if it raises.
  abbrev pub Runs : {A : Type 0} → List Request → World S → Try A × World S → Type 0
  Runs requests w (ok a, w') = w'.calls ≡ w.calls ++ requests
  Runs requests w (err e, w') =
      (tried : List Request) × (rest : List Request) × (tried ++ rest ≡ requests)
      × (w'.calls ≡ w.calls ++ tried)

  pub Runs-continue :
      {A B : Type 0} (first second : List Request) (w : World S) (r : Try A) (w1 : World S)
      (f : A → Tool (World S) B)
      → Runs first w (r, w1)
      → ((a : A) → Runs second w1 (f a w1))
      → Runs (first ++ second) w (continue r f w1)
  Runs-continue first second w (ok a) w1 f h k = go (f a w1).0 (f a w1).1 (k a)
    where
      go :
          {B : Type 0} (r : Try B) (w2 : World S)
          → Runs second w1 (r, w2)
          → Runs (first ++ second) w (r, w2)
      go (ok b) w2 e = e ∙ ap (λ l. l ++ second) h ∙ append_assoc w.calls first second
      go (err x) w2 (tried, rest, split, e) = (
        first ++ tried,
        rest,
        append_assoc first tried rest ∙ ap (λ l. first ++ l) split,
        e ∙ ap (λ l. l ++ tried) h ∙ append_assoc w.calls first tried,
      )
  Runs-continue first second w (err e) w1 f (tried, rest, split, h) k =
      (tried, rest ++ second, sym (append_assoc tried rest second) ∙ ap (λ l. l ++ second) split, h)

  pub Runs-pure : {A : Type 0} (w : World S) (a : A) → Runs [] w (pure a w)
  Runs-pure w a = sym (append-nil w.calls)

  pub Runs-lift : {A : Type 0} (w : World S) (r : Try A) → Runs [] w (lift r w)
  Runs-lift w (ok a) = sym (append-nil w.calls)
  Runs-lift w (err e) = ([], [], refl, sym (append-nil w.calls))

  pub Runs-bind :
      {A B : Type 0} (first second : List Request) (w : World S) (m : Tool (World S) A)
      (f : A → Tool (World S) B)
      → Runs first w (m w)
      → ((a : A) (w1 : World S) → Runs second w1 (f a w1))
      → Runs (first ++ second) w ((m >>>= f) w)
  Runs-bind first second w m f h k =
      Runs-continue first second w (m w).0 (m w).1 f h (λ a. k a (m w).1)

  -- A request that is sent is logged, whatever its reply.
  Runs-sent :
      (r : Request) (w : World S) (x : Try Value) (server' : S)
      → Runs (r ∷ []) w (x, record { server = server'; calls = w.calls ++ r ∷ [] })
  Runs-sent r w (ok v) server' = refl
  Runs-sent r w (err e) server' = (r ∷ [], [], refl, refl)

module _ {S : Type 0} (serve : Request → S → Reply × S) (n : ℕ) (w : World S) where
  pub set_proxy_id-Runs :
      (p : ℤ) → Runs (proxy_request (pos n) p ∷ []) w (set_proxy_id serve (pos n) p w)
  unfolding set_proxy_id
  set_proxy_id-Runs p =
      Runs-bind (proxy_request (pos n) p ∷ []) [] w (request serve (proxy_request (pos n) p))
        (λ v. pure (dict_or_empty v)) (rw (request-proxy_request serve n w p) (Runs-sent _ w _ _))
        (λ v w1. Runs-pure w1 (dict_or_empty v))

  pub set_schedulable-Runs :
      (b : Bool) → Runs (schedulable_request (pos n) b ∷ []) w (set_schedulable serve (pos n) b w)
  unfolding set_schedulable
  set_schedulable-Runs b =
      Runs-bind (schedulable_request (pos n) b ∷ []) [] w
        (request serve (schedulable_request (pos n) b)) (λ v. pure (dict_or_empty v))
        (rw (request-schedulable_request serve n w b) (Runs-sent _ w _ _))
        (λ v w1. Runs-pure w1 (dict_or_empty v))

  pub get_account-Runs : Runs (get_request (pos n) ∷ []) w (get_account serve (pos n) w)
  unfolding get_account
  get_account-Runs =
      Runs-bind (get_request (pos n) ∷ []) [] w (request serve (get_request (pos n)))
        (λ v. lift (dict_or_raise v)) (rw (request-get_request serve n w) (Runs-sent _ w _ _))
        (λ v w1. Runs-lift w1 (dict_or_raise v))

  -- A write that is dropped on an error is logged all the same.
  continue-pure_world :
      {A B : Type 0} (f : A → B) (r : Try A) (w1 : World S)
      → (continue r (λ v. pure (f v)) w1).1 ≡ w1
  continue-pure_world f (ok a) w1 = refl
  continue-pure_world f (err e) w1 = refl

  pub set_proxy_id-calls :
      (p : ℤ) → (set_proxy_id serve (pos n) p w).1.calls ≡ w.calls ++ proxy_request (pos n) p ∷ []
  unfolding set_proxy_id
  set_proxy_id-calls p =
      rw (request-proxy_request serve n w p)
        (ap (λ v. v.calls) (continue-pure_world dict_or_empty _ _))

  pub set_schedulable-calls :
      (b : Bool)
      → (set_schedulable serve (pos n) b w).1.calls ≡ w.calls ++ schedulable_request (pos n) b ∷ []
  unfolding set_schedulable
  set_schedulable-calls b =
      rw (request-schedulable_request serve n w b)
        (ap (λ v. v.calls) (continue-pure_world dict_or_empty _ _))

  continue-lift_world :
      {A B : Type 0} (f : A → Try B) (r : Try A) (w1 : World S)
      → (continue r (λ v. lift (f v)) w1).1 ≡ w1
  continue-lift_world f (ok a) w1 = refl
  continue-lift_world f (err e) w1 = refl

  pub get_account-calls :
      (get_account serve (pos n) w).1.calls ≡ w.calls ++ get_request (pos n) ∷ []
  unfolding get_account
  get_account-calls =
      rw (request-get_request serve n w) (ap (λ v. v.calls) (continue-lift_world dict_or_raise _ _))
