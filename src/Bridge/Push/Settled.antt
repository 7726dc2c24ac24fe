-- ===== src/Bridge/Push/Settled.antt =====
-- How the push of bridge/bridge.py answers for a candidate that was written.
use grok_build_auth.Prelude.{
  refl, sym, none, some, Option, ◌>>=◌, ◌∙◌, append-nil, [], inr, inl, ◌⊎◌, err, true, ◌∷◌, ok,
  false, Bool, List, ℤ, Text, ◌≡◌,
}
use grok_build_auth.Bridge.Calls.{
  value_of, sub2api_api, text_of, test_sub2api_account_result, test_account, set_schedulable, World,
  Reply, Call, Env,
}
use grok_build_auth.Json.{Fields}
use grok_build_auth.Bridge.Push.{
  test_unless, then_promote, give_up_promotion, isolate, promote, true_or_raise, roll_back, tested,
  rollback_failed, candidate_write_unknown, promotion_failed, candidate_write_failed, code_if,
  postimport_probe_error, refused, is_usable, postimport_probe_failed, imported_ok,
  candidate_isolation_failed, Response, give_up, ErrorCode, Candidate,
}
use grok_build_auth.Bridge.Calls.Ran.{
  Ran-call_then, Ran-raise, Ran-mono, Ran-call-lift, Heard, Ran-if, Ran-try_except, Ran-pure,
  Ran-bind, Behind, Ran,
}
use grok_build_auth.Bridge.Auth.{runtime_error, Try}
use grok_build_auth.Bridge.Rollback.{unknown, Imported}
use grok_build_auth.Bridge.Rollback.Undone.{Ran-quarantine_sub2api_account, RolledBack}
use grok_build_auth.Bridge.Rollback.Settled.{
  Ran-promote_sub2api_account, Promotion, Gives, promotion, Promoted, Ran-rollback_import_candidate,
}
use grok_build_auth.Bridge.Probe.{account_test_result, TestResult}
use grok_build_auth.Effect.{pure, ◌>>>=◌, lift}
use mathlib.Core.Path.{subst}

module _ {S : Type 0} (env : Env) (serve : Call → S → Reply × S) (name : Text)
    (auth_data : Fields) where
  abbrev pub Undone : Candidate → Bool → Imported → World S → Type 0
  Undone c preserve state w =
      RolledBack env serve c.account_id c.action c.snapshot auth_data preserve (true, state) w

  -- The calls from the isolation of the candidate to its promotion.
  abbrev pub isolated_promotion : ℤ → List Call
  isolated_promotion account_id =
      set_schedulable account_id false ∷ test_account account_id ∷ promotion env serve account_id

  -- What a refusal says of the candidate: it was taken back as reported, or is reported as unknown.
  abbrev pub Refusal : Candidate → ErrorCode → Imported → World S → Type 0
  Refusal c candidate_write_failed state w = Undone c false state w
  Refusal c candidate_isolation_failed state w = Undone c false state w
  Refusal c postimport_probe_failed state w = Undone c true state w
  Refusal c postimport_probe_error state w = Undone c true state w
  Refusal c promotion_failed state w = Undone c true state w
  Refusal c candidate_write_unknown state w = state ≡ unknown
  Refusal c rollback_failed state w = state ≡ unknown
  Refusal c _ state w = ⊥

  abbrev pub Settled : Candidate → Response → List Call → World S → Type 0
  Settled c (imported_ok account_id action account_probe) cs w =
      (account_id ≡ c.account_id)
      × (action ≡ c.action)
      × (is_usable account_probe ≡ true)
      × (cs ≡ isolated_promotion c.account_id)
      × Promoted env serve c.account_id w
  Settled c (refused code state) cs w = Refusal c code state w

  -- The candidate is settled, if nothing was raised.
  abbrev pub Settles : Candidate → Try Response → List Call → World S → Type 0
  Settles c (ok response) cs w = Settled c response cs w
  Settles c (err e) cs w = Unit

  abbrev Refuses : Candidate → Try Response → List Call → World S → Type 0
  Refuses c (ok (imported_ok account_id action account_probe)) cs w = ⊥
  Refuses c (ok (refused code state)) cs w = Refusal c code state w
  Refuses c (err e) cs w = Unit

  abbrev Tests : Candidate → Try (Response ⊎ TestResult) → List Call → World S → Type 0
  Tests c (ok (inl response)) cs w = Refuses c (ok response) cs w
  Tests c (ok (inr account_probe)) cs w =
      (is_usable account_probe ≡ true) × (cs ≡ test_account c.account_id ∷ [])
  Tests c (err e) cs w = Unit

  abbrev Isolates : Candidate → Try (Option Response) → List Call → World S → Type 0
  Isolates c (ok none) cs w = cs ≡ set_schedulable c.account_id false ∷ []
  Isolates c (ok (some response)) cs w = Refuses c (ok response) cs w
  Isolates c (err e) cs w = Unit

  -- The codes of a failure, with whether its rollback keeps credentials that went on.
  data GivenUp : ErrorCode → Bool → Type 0 where
    isolation : GivenUp candidate_isolation_failed false
    probe_failed_after : GivenUp postimport_probe_failed true
    probe_error_after : GivenUp postimport_probe_error true

  module _ (c : Candidate) where
    given_up :
        (preserve : Bool) (code : ErrorCode) (w : World S)
        → GivenUp code preserve
        → (done : Bool) (state : Imported)
        → RolledBack env serve c.account_id c.action c.snapshot auth_data preserve (done, state) w
        → Refusal c (code_if done code) state w
    given_up preserve code w isolation true state rolled = rolled
    given_up preserve code w probe_failed_after true state rolled = rolled
    given_up preserve code w probe_error_after true state rolled = rolled
    given_up preserve code w g false state rolled = rolled

    Ran-roll_back :
        (preserve : Bool) (w : World S)
        → Ran w
            (Gives env serve
              (RolledBack env serve c.account_id c.action c.snapshot auth_data preserve))
            (roll_back env serve name auth_data c preserve)
    Ran-roll_back preserve w =
        Ran-rollback_import_candidate env serve c.account_id c.action c.snapshot auth_data preserve
          w

    Ran-give_up :
        (preserve : Bool) (code : ErrorCode) (w : World S)
        → GivenUp code preserve
        → Ran w (Refuses c) (give_up env serve name auth_data c preserve code)
    unfolding give_up
    Ran-give_up preserve code w g =
        Ran-bind (Ran-roll_back preserve w)
          (λ (done, state) cs w1 rolled. Ran-pure (given_up preserve code w1 g done state rolled))
          (λ e cs w1 rolled. tt)

    refuses :
        (response : Response) (cs ds : List Call) (w : World S)
        → Refuses c (ok response) cs w
        → Refuses c (ok response) ds w
    refuses (imported_ok account_id action account_probe) cs ds w refusal = refusal
    refuses (refused code state) cs ds w refusal = refusal

    Ran-test_sub2api_account_result :
        (w : World S)
        → Ran w
            (Heard env serve
              (λ reply. text_of reply >>= λ text. ok (account_test_result env.loads text))
              (test_account c.account_id))
            (test_sub2api_account_result env serve c.account_id)
    unfolding test_sub2api_account_result
    Ran-test_sub2api_account_result w =
        Ran-call-lift env serve text_of (λ text. ok (account_test_result env.loads text))
          (test_account c.account_id) w

    Ran-tested : (w : World S) → Ran w (Tests c) (tested env serve name auth_data c)
    unfolding tested
    Ran-tested w =
        Ran-try_except {P = Tests c}
          (Ran-bind (Ran-test_sub2api_account_result w)
            (λ account_probe cs w1 (logged, told).
              Ran-if (is_usable account_probe) (λ good. Ran-pure (good, append-nil cs ∙ logged))
                (λ _.
                  Ran-bind (Ran-give_up true postimport_probe_failed w1 probe_failed_after)
                    (λ response ds w2 refusal. Ran-pure (refuses response ds _ w2 refusal))
                    (λ e ds w2 refusal. tt)))
            (λ e cs w1 once. tt))
          (λ result cs w1 q. q)
          (λ e cs w1 q.
            Ran-bind (Ran-give_up true postimport_probe_error w1 probe_error_after)
              (λ response ds w2 refusal. Ran-pure (refuses response ds _ w2 refusal))
              (λ e' ds w2 refusal. tt))

    in_use :
        (account_probe : TestResult) (done : Bool) (cs : List Call) (w : World S)
        → is_usable account_probe ≡ true
        → Promotion env serve c.account_id (ok done) cs w
        → Ran w
            (Behind
              (set_schedulable c.account_id false ∷ test_account c.account_id ∷ cs)
              (Settles c))
            (lift (true_or_raise done) >>>= λ _.
              pure (imported_ok c.account_id c.action account_probe))
    in_use account_probe true cs w good (logged, seen) =
        Ran-pure {a = imported_ok c.account_id c.action account_probe}
          (refl, refl, good, rw (append-nil, logged), seen)
    in_use account_probe false cs w good seen = Ran-raise {e = runtime_error} tt

    refused_promotion :
        (done : Bool) (state : Imported) (w : World S)
        → RolledBack env serve c.account_id c.action c.snapshot auth_data true (done, state) w
        → done ≡ true
        → Refusal c promotion_failed state w
    refused_promotion true state w rolled h = rolled
    refused_promotion false state w rolled h = cc

    unknown_promotion :
        (done : Bool) (state : Imported) (w : World S)
        → RolledBack env serve c.account_id c.action c.snapshot auth_data true (done, state) w
        → done ≡ false
        → state ≡ unknown
    unknown_promotion false state w rolled h = rolled
    unknown_promotion true state w rolled h = cc

    Ran-give_up_promotion :
        (w : World S) → Ran w (Refuses c) (give_up_promotion env serve name auth_data c)
    unfolding give_up_promotion
    Ran-give_up_promotion w =
        Ran-bind (Ran-roll_back true w)
          (λ (done, state) cs w1 rolled.
            Ran-if done (λ h. Ran-pure (refused_promotion done state w1 rolled h))
              (λ h.
                Ran-bind (Ran-quarantine_sub2api_account env serve c.account_id w1)
                  (λ isolated ds w2 seen. Ran-pure (unknown_promotion done state w1 rolled h))
                  (λ e ds w2 seen. tt)))
          (λ e cs w1 rolled. tt)

    settles :
        (r : Try Response) (cs ds : List Call) (w : World S) → Refuses c r cs w → Settles c r ds w
    settles (ok (imported_ok account_id action account_probe)) cs ds w refusal = absurd refusal
    settles (ok (refused code state)) cs ds w refusal = refusal
    settles (err e) cs ds w refusal = tt

    Ran-promote :
        (account_probe : TestResult) (w : World S)
        → is_usable account_probe ≡ true
        → Ran w
            (Behind
              (set_schedulable c.account_id false ∷ test_account c.account_id ∷ [])
              (Settles c))
            (promote env serve name auth_data c account_probe)
    unfolding promote
    Ran-promote account_probe w good =
        Ran-try_except
          {P = Behind (set_schedulable c.account_id false ∷ test_account c.account_id ∷ [])
            (Settles c)}
          (Ran-bind (Ran-promote_sub2api_account env serve c.account_id w)
            (λ done cs w1 seen. in_use account_probe done cs w1 good seen) (λ e cs w1 seen. tt))
          (λ response cs w1 q. q)
          (λ e cs w1 q.
            Ran-mono (Ran-give_up_promotion w1) (λ r ds w2 refusal. settles r ds _ w2 refusal))

    Ran-tested_then :
        (result : Response ⊎ TestResult) (cs : List Call) (w : World S)
        → Tests c (ok result) cs w
        → Ran w
            (Behind (set_schedulable c.account_id false ∷ cs) (Settles c))
            (then_promote env serve name auth_data c result)
    Ran-tested_then (inl response) cs w refusal = Ran-pure (settles (ok response) cs _ w refusal)
    Ran-tested_then (inr account_probe) cs w (good, logged) =
        subst
          (λ l.
            Ran w (Behind (set_schedulable c.account_id false ∷ l) (Settles c))
              (promote env serve name auth_data c account_probe))
          (sym logged) (Ran-promote account_probe w good)

    Ran-test_unless :
        (failure : Option Response) (cs : List Call) (w : World S)
        → Isolates c (ok failure) cs w
        → Ran w (Behind cs (Settles c)) (test_unless env serve name auth_data c failure)
    Ran-test_unless (some response) cs w refusal = Ran-pure (settles (ok response) cs _ w refusal)
    Ran-test_unless none cs w logged =
        subst (λ l. Ran w (Behind l (Settles c)) (test_unless env serve name auth_data c none))
          (sym logged)
          (Ran-bind (Ran-tested w) (λ result ds w1 tests. Ran-tested_then result ds w1 tests)
            (λ e ds w1 tests. tt))

    -- Where `isolate` returns an answer, a success names the candidate and comes of its isolation, a
    -- test that it passed and its promotion alone, and the last answer shows it promoted. A failure
    -- whose rollback is reported as done has a last answer that shows the account gone, kept out of
    -- use, or restored from its snapshot, with later credentials in it only where the failure came
    -- after the isolation; a failure of any other kind reports the account as unknown.
    pub isolate-Settles : (w : World S) → Ran w (Settles c) (isolate env serve name auth_data c)
    unfolding isolate sub2api_api
    isolate-Settles w =
        Ran-bind
          (Ran-try_except {P = Isolates c} {Q = Isolates c}
            (Ran-call_then env serve value_of (set_schedulable c.account_id false)
              (λ _ w1. Ran-pure refl) (λ e w1. tt))
            (λ failure cs w1 q. q)
            (λ e cs w1 q.
              Ran-bind (Ran-give_up false candidate_isolation_failed w1 isolation)
                (λ response ds w2 refusal. Ran-pure (refuses response ds _ w2 refusal))
                (λ e' ds w2 refusal. tt)))
          (λ failure cs w1 isolates. Ran-test_unless failure cs w1 isolates)
          (λ e cs w1 isolates. tt)
