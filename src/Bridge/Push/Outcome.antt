-- ===== src/Bridge/Push/Outcome.antt =====
-- What the answers of the push of bridge/bridge.py say of the calls that were made.
use grok_build_auth.Prelude.{
  suc, not, ◌++◌, strip, arith, ◌≤◌, lower, ℕ, if◌then◌else◌, inr, refl, inl, ◌⊎◌, none, some, sym,
  [], Option, true, err, ◌∷◌, ok, List, ℤ, Text, ◌≡◌,
}
use grok_build_auth.Bridge.Calls.{
  find_account_snapshot, probe_account, find_accounts, World, Reply, Call, Env,
}
use grok_build_auth.Json.{Fields}
use grok_build_auth.Bridge.Auth.{auth_subject, auth_is_stale, auth_subject_mismatch, Try}
use grok_build_auth.Bridge.Push.{
  is_usable_probe, import_auth, push_auth, check_existing, refuse_existing, import_checked,
  ErrorCode, import_failed, stale_auth, subject_mismatch, probe_failed, is_usable, refused,
  imported_ok, Response,
}
use grok_build_auth.Bridge.Rollback.{id_of, not_imported}
use grok_build_auth.Bridge.Push.Settled.{isolated_promotion}
use grok_build_auth.Bridge.Rollback.Settled.{Promoted}
use mathlib.Core.Path.{subst}
use grok_build_auth.Bridge.Calls.Ran.{
  Ran-raise, Ran-try_except, Ran-mono, Ran-if, Behind, Ran-lift_then, Ran-pure, Ran-bind, Ran,
}
use grok_build_auth.Bridge.Calls.Probes.{
  Reads-copies, Reads-append, copies, probe_auth_direct-Probed, Reads, Ran-find_account_snapshot,
}
use grok_build_auth.Effect.{◌>>>=◌, pure}
use grok_build_auth.Bridge.Push.Writes.{Ran-import_update, Ran-import_new, is_late, Answers, Writes}

module _ {S : Type 0} (env : Env) (serve : Call → S → Reply × S) (name : Text)
    (auth_data : Fields) where
  -- An answer, of the endpoint or of a part of it: the trace of a success, or a refusal that comes
  -- late or of which every call was a read.
  abbrev pub Outcome : Try Response → List Call → World S → Type 0
  Outcome (ok (imported_ok account_id action account_probe)) cs w =
      Answers env serve name auth_data (ok (imported_ok account_id action account_probe)) cs w
  Outcome (ok (refused code state)) cs w =
      (is_late code ≡ true) ⊎ ((state ≡ not_imported) × Reads cs)
  Outcome (err e) cs w = Unit

  outcome_of_answers :
      (r : Try Response) (cs : List Call) (w : World S)
      → Answers env serve name auth_data r cs w
      → Outcome r cs w
  outcome_of_answers (ok (imported_ok account_id action account_probe)) cs w h = h
  outcome_of_answers (ok (refused code state)) cs w h = inl h
  outcome_of_answers (err e) cs w h = tt

  Ran-refuse_existing :
      (snapshot : Option Fields) (code : ErrorCode) (w : World S)
      → Ran w Outcome (refuse_existing env serve name auth_data snapshot code)
  unfolding refuse_existing
  Ran-refuse_existing none code w = Ran-raise tt
  Ran-refuse_existing (some snapshot) code w =
      Ran-lift_then {r = id_of snapshot} {f = λ _. pure (refused code not_imported)}
        (λ _ _. Ran-pure {a = refused code not_imported} (inr (refl, tt))) (λ e. tt)

  Ran-import_checked :
      (snapshot : Option Fields) (w : World S)
      → Ran w (Answers env serve name auth_data) (import_checked env serve name auth_data snapshot)
  unfolding import_checked
  Ran-import_checked none w = Ran-import_new env serve name auth_data w
  Ran-import_checked (some snapshot) w = Ran-import_update env serve name auth_data snapshot w

  Ran-check_existing :
      (snapshot : Option Fields) (w : World S)
      → Ran w (λ r cs w1. Outcome r cs w1) (check_existing env serve name auth_data snapshot)
  unfolding check_existing
  Ran-check_existing snapshot w =
      Ran-lift_then {r = auth_subject_mismatch env.decode_segment snapshot auth_data}
        (λ mismatch _.
          Ran-if mismatch (λ _. Ran-refuse_existing snapshot subject_mismatch w)
            (λ _.
              Ran-lift_then {r = auth_is_stale env.decode_segment snapshot auth_data}
                (λ stale _.
                  Ran-if stale (λ _. Ran-refuse_existing snapshot stale_auth w)
                    (λ _.
                      Ran-mono (Ran-import_checked snapshot w)
                        (λ r cs w1 h. outcome_of_answers r cs w1 h)))
                (λ e. tt)))
        (λ e. tt)

  module _ (email_addr : Text) where
    abbrev search : Call
    search =
        find_accounts name (lower (strip email_addr))
          (strip (auth_subject env.decode_segment auth_data))

    -- All the calls of a push that succeeds.
    abbrev pub successful_push : ℕ → Call → ℤ → List Call
    successful_push made write account_id =
        copies made (probe_account auth_data)
        ++ search ∷ write ∷ isolated_promotion env serve name auth_data account_id

    abbrev pub Pushed : Try Response → List Call → World S → Type 0
    Pushed (ok (imported_ok account_id action account_probe)) cs w =
        (made : ℕ) × (write : Call) × (1 ≤ made)
        × (made ≤ 3)
        × Writes env serve name auth_data write account_id action
        × (cs ≡ successful_push made write account_id)
        × (is_usable account_probe ≡ true)
        × Promoted env serve account_id w
    Pushed (ok (refused code state)) cs w =
        (is_late code ≡ true) ⊎ ((state ≡ not_imported) × Reads cs)
    Pushed (err e) cs w = ⊥

    abbrev AuthPushed : Try Response → List Call → World S → Type 0
    AuthPushed (ok response) cs w = Pushed (ok response) cs w
    AuthPushed (err e) cs w = Unit

    pushed :
        (made : ℕ) (r : Try Response) (es : List Call) (w : World S)
        → 1 ≤ made
        → made ≤ 3
        → Outcome r es w
        → AuthPushed r (copies made (probe_account auth_data) ++ search ∷ es) w
    pushed made (ok (imported_ok account_id action account_probe)) es w least bound
          (write, written, logged, good, seen) =
        (made, write, least, bound, written, rw logged, good, seen)
    pushed made (ok (refused code state)) es w least bound (inl h) = inl h
    pushed made (ok (refused code state)) es w least bound (inr (state_kept, reads)) = inr (
      state_kept,
      Reads-append (copies made (probe_account auth_data)) (search ∷ es)
          (Reads-copies made (probe_account auth_data) refl) (refl, reads),
    )
    pushed made (err e) es w least bound h = tt

    Ran-searched :
        (made : ℕ) (w : World S)
        → 1 ≤ made
        → made ≤ 3
        → Ran w (Behind (copies made (probe_account auth_data)) AuthPushed) (
            find_account_snapshot env serve name email_addr
              (auth_subject env.decode_segment auth_data)
            >>>= check_existing env serve name auth_data)
    Ran-searched made w least bound =
        Ran-bind
          (Ran-find_account_snapshot env serve name email_addr
            (auth_subject env.decode_segment auth_data) w)
          (λ snapshot cs w1 logged. Ran-mono (Ran-check_existing snapshot w1) (λ r es w2 h.
            subst (λ l. AuthPushed r (copies made (probe_account auth_data) ++ (l ++ es)) w2)
              (sym logged) (pushed made r es w2 least bound h)))
          (λ e cs w1 logged. tt)

    Ran-import_auth :
        (w : World S) → Ran w AuthPushed (import_auth env serve name auth_data email_addr)
    unfolding import_auth
    Ran-import_auth w =
        Ran-bind (probe_auth_direct-Probed env serve auth_data 3 w (omega arith))
          (λ probe cs w1 (earlier, returned, logged, bound, before, ended).
            subst
              (λ l. Ran w1 (Behind l AuthPushed) (
                if not (is_usable_probe probe)
                then pure (refused (probe_failed probe.error_code) not_imported)
                else (find_account_snapshot env serve name email_addr
                      (auth_subject env.decode_segment auth_data)
                    >>>= check_existing env serve name auth_data)))
              (sym logged)
              (Ran-if (not (is_usable_probe probe))
                (λ _. Ran-pure {a = refused (probe_failed probe.error_code) not_imported} (
                  inr (
                    refl,
                    Reads-append (copies (suc earlier) (probe_account auth_data)) []
                        (Reads-copies (suc earlier) (probe_account auth_data) refl) tt,
                  )))
                (λ _. Ran-searched (suc earlier) w1 (omega arith) bound)))
          (λ e cs w1 probed. tt)

    -- The push always answers. It answers with success only after one to three probes, the search,
    -- the write of the candidate out of use, its isolation, a test that it passed and its promotion,
    -- with no other call between, and with a last answer that shows the account promoted; it refuses
    -- by the probe, the subject or the age of the candidate only after reads, with the account not
    -- imported. Of the later refusals nothing more is said here.
    pub push_auth-Pushed :
        (w : World S) → Ran w Pushed (push_auth env serve name auth_data email_addr)
    unfolding push_auth
    push_auth-Pushed w =
        Ran-try_except (Ran-import_auth w) (λ response cs w1 h. h)
          (λ e cs w1 h. Ran-pure {a = refused import_failed not_imported} (inl refl))
