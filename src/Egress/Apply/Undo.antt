-- ===== src/Egress/Apply/Undo.antt =====
-- The writes of `apply_one_account`: what is written, and what is written back when it fails.
use grok_build_auth.Prelude.{
  some, refl, Bool-cases, inr, inl, Bool, Option, ℤ, pos, ℕ, ◌≡◌, ap, ◌∙◌, ◌⊎◌, true, false, none,
  List, [], ◌∷◌, ◌++◌, arith, ok, err, append_assoc,
}
use grok_build_auth.Egress.Base.{Reason, ToolError, Try}
use grok_build_auth.Egress.Client.{
  set_proxy_id, get_account, set_schedulable, get_request, proxy_request, schedulable_request,
  Reply, Request, World,
}
use grok_build_auth.Egress.Account.{already_applied, Account, is_schedulable, candidate_reason}
use grok_build_auth.Egress.Apply.{
  drifted, bound, proceed, bind_account, decide, apply_one_account, verify, roll_back, applied,
  mutate, Applied, already_bound, rollback_proxy, Status,
}
use grok_build_auth.Json.{Fields, get, truthy}
use grok_build_auth.Egress.Apply.Trace.{
  get_account-calls, Runs-pure, Runs-lift, get_account-Runs, set_proxy_id-Runs,
  set_schedulable-Runs, set_proxy_id-calls, Runs-bind, set_schedulable-calls, Runs,
}
use grok_build_auth.Egress.Monad.{continue, handled, pure, ◌>>>=◌, lift, Tool}
use grok_build_auth.Egress.Snapshot.{preserved_status_state}
use grok_build_auth.Egress.Account.Truthy.{truthy-is_true}

-- The calls of the `try` block.
abbrev pub mutation : ℕ → ℤ → List Request
mutation n p =
    schedulable_request (pos n) false
    ∷ proxy_request (pos n) p
    ∷ schedulable_request (pos n) true
    ∷ get_request (pos n)
    ∷ []

-- The calls of the `except` block for an account that was free and schedulable.
abbrev pub restoration : ℕ → List Request
restoration n = proxy_request (pos n) (pos 0) ∷ schedulable_request (pos n) true ∷ []

abbrev pub written : ℕ → ℤ → Status → List Request
written n p already_bound = []
written n p applied = mutation n p

-- The calls of a run on account `n`: it reads only, it writes the whole mutation, or it stops in
-- the mutation and restores.
abbrev pub Traced : {S : Type 0} → ℕ → ℤ → World S → Try Applied × World S → Type 0
Traced n p w (ok x, w') = w'.calls ≡ w.calls ++ get_request (pos n) ∷ written n p x.status
Traced n p w (err e, w') =
    (w'.calls ≡ w.calls ++ get_request (pos n) ∷ [])
    ⊎ ((tried : List Request) × (rest : List Request) × (tried ++ rest ≡ mutation n p)
        × (w'.calls ≡ w.calls ++ get_request (pos n) ∷ (tried ++ restoration n)))

-- An account that is a candidate has no proxy and is schedulable.
pub candidate-restores :
    (live : Account) (g : ℤ)
    → candidate_reason live g ≡ none
    → (rollback_proxy live ≡ pos 0) × (truthy (get "schedulable" live) ≡ true)
unfolding candidate_reason rollback_proxy is_schedulable
candidate-restores live g h = (ground arith, truthy-is_true (get "schedulable" live) (ground arith))

module _ {S : Type 0} (serve : Request → S → Reply × S) (n : ℕ) (p g : ℤ) (live : Account) where
  -- The `try` block from its last call on, and from the calls before.
  abbrev read_back : Tool (World S) Account
  read_back = get_account serve (pos n) >>>= λ after.
      lift (verify after (preserved_status_state live) p g) >>>= λ _. pure after

  abbrev reopen : Tool (World S) Account
  reopen = set_schedulable serve (pos n) true >>>= λ _. read_back

  abbrev rebind : Tool (World S) Account
  rebind = set_proxy_id serve (pos n) p >>>= λ _. reopen

  checked-Runs :
      (after : Account) (w : World S)
      → Runs [] w (
          (lift (verify after (preserved_status_state live) p g) >>>= λ _. pure {A = Account} after)
            w)
  checked-Runs after w =
      Runs-bind [] [] w (lift (verify after (preserved_status_state live) p g)) (λ _. pure after)
        (Runs-lift w (verify after (preserved_status_state live) p g)) (λ _ w1. Runs-pure w1 after)

  read_back-Runs : (w : World S) → Runs (get_request (pos n) ∷ []) w (read_back w)
  read_back-Runs w =
      Runs-bind (get_request (pos n) ∷ []) [] w (get_account serve (pos n))
        (λ after. lift (verify after (preserved_status_state live) p g) >>>= λ _. pure after)
        (get_account-Runs serve n w) checked-Runs

  mutate-Runs : (w : World S) → Runs (mutation n p) w (mutate serve (pos n) p g live w)
  unfolding mutate
  mutate-Runs w =
      Runs-bind (schedulable_request (pos n) false ∷ []) _ w (set_schedulable serve (pos n) false)
        (λ _. rebind) (set_schedulable-Runs serve n w false)
        (λ _ w1.
          Runs-bind (proxy_request (pos n) p ∷ []) _ w1 (set_proxy_id serve (pos n) p) (λ _. reopen)
            (set_proxy_id-Runs serve n w1 p)
            (λ _ w2.
              Runs-bind (schedulable_request (pos n) true ∷ []) _ w2
                (set_schedulable serve (pos n) true) (λ _. read_back)
                (set_schedulable-Runs serve n w2 true) (λ _. read_back-Runs)))

  roll_back-calls :
      (exc : ToolError) (w : World S)
      → candidate_reason live g ≡ none
      → (roll_back serve (pos n) p g live exc w).1.calls ≡ w.calls ++ restoration n
  unfolding roll_back
  roll_back-calls exc w free =
      let restores = candidate-restores live g free in
      rw (restores.0, restores.1)
        (set_schedulable-calls serve n _ true
          ∙ ap (λ l. l ++ schedulable_request (pos n) true ∷ [])
              (set_proxy_id-calls serve n w (pos 0))
          ∙ append_assoc w.calls (proxy_request (pos n) (pos 0) ∷ [])
              (schedulable_request (pos n) true ∷ []))

  -- From a world in which the account was read.
  module _ (w w1 : World S) (read : w1.calls ≡ w.calls ++ get_request (pos n) ∷ []) where
    after_read : (tail : List Request) → w1.calls ++ tail ≡ w.calls ++ get_request (pos n) ∷ tail
    after_read tail =
        ap (λ l. l ++ tail) read ∙ append_assoc w.calls (get_request (pos n) ∷ []) tail

    bind_account-Traced :
        (before : Option Fields)
        → candidate_reason live g ≡ none
        → Traced n p w (bind_account serve (pos n) p g before live w1)
    unfolding bind_account roll_back
    bind_account-Traced before free = go (mutate serve (pos n) p g live w1) (mutate-Runs w1)
      where
        go :
            (r : Try Account × World S)
            → Runs (mutation n p) w1 r
            → Traced n p w (
                ((λ _. handled (roll_back serve (pos n) p g live) r.0 r.1) >>>= λ after.
                pure (bound serve (pos n) p g before live after))
                  w1)
        go (ok after, w2) h = h ∙ after_read (mutation n p)
        go (err e, w2) (tried, rest, split, h) = inr (
          tried,
          rest,
          split,
          roll_back-calls e w2 free
              ∙ ap (λ l. l ++ restoration n) h
              ∙ append_assoc w1.calls tried (restoration n)
              ∙ after_read (tried ++ restoration n),
        )

    proceed-Traced :
        (before : Option Fields) (reason : Option Reason)
        → candidate_reason live g ≡ reason
        → Traced n p w (proceed serve (pos n) p g before live reason w1)
    unfolding proceed
    proceed-Traced before none free = bind_account-Traced before free
    proceed-Traced before (some reason) found = inl read

    decide-Traced :
        (before : Option Fields) (drift : Bool)
        → Traced n p w (decide serve (pos n) p g before live drift w1)
    unfolding decide
    decide-Traced before true = inl read
    decide-Traced before false = elim (Bool-cases (already_applied live p g)) [
      | inl bound_already ↦ rw bound_already read
      | inr unbound ↦ rw unbound (proceed-Traced before (candidate_reason live g) refl)
    ]

-- On a server of any behaviour, `apply_one_account` makes one of three runs of calls. It reads the
-- account and writes nothing, or it makes the whole mutation (out of scheduling, the proxy, back
-- into scheduling, read back), or it stops after some calls of the mutation and then writes the
-- empty proxy and `schedulable` back. It returns `already_bound` after the first and `applied` after
-- the second, and an error after the first or the third, for an account id that is not negative.
pub apply_one_account-Traced :
    {S : Type 0} (serve : Request → S → Reply × S) (n : ℕ) (p g : ℤ) (before : Option Fields)
    (w : World S)
    → Traced n p w (apply_one_account serve (pos n) p g before w)
unfolding apply_one_account
apply_one_account-Traced {S} serve n p g before w =
    go (get_account serve (pos n) w) (get_account-calls serve n w)
  where
    drift_go :
        (live : Account) (w1 : World S) (read : w1.calls ≡ w.calls ++ get_request (pos n) ∷ [])
        (d : Try Bool)
        → Traced n p w (continue d (decide serve (pos n) p g before live) w1)
    drift_go live w1 read (ok drift) = decide-Traced serve n p g live w w1 read before drift
    drift_go live w1 read (err e) = inl read

    go :
        (r : Try Account × World S)
        → r.1.calls ≡ w.calls ++ get_request (pos n) ∷ []
        → Traced n p w (
            continue r.0
              (λ live.
                lift (drifted before live p (already_applied live p g))
                >>>= decide serve (pos n) p g before live)
              r.1)
    go (ok live, w1) read = drift_go live w1 read (drifted before live p (already_applied live p g))
    go (err e, w1) read = inl read
