-- ===== src/Cpa/Reprobe/Branches.antt =====
-- Each branch of `process_locked` of clients/windows/cpa_reprobe.py counts its path once.
use grok_build_auth.Prelude.{
  ◌-◌, not, codes, ok, true, false, refl, inr, inl, zero, arith, err, suc, ℕ, Text, Bool, ◌≡◌,
}
use grok_build_auth.Cpa.Reprobe.{
  push_fingerprint, save, count, read_push, Stats, NetCall, Args, Env,
}
use grok_build_auth.Cpa.Preprobe.{
  retry, reject, cool_down, refresh, pass, Decision, read_answer, is_malformed, Answer,
}
use grok_build_auth.Cpa.Names.{fingerprint, Try, push_error, Fault}
use grok_build_auth.Cpa.Reprobe.Process.{
  classified, set_passed, skipped, process_verified, process_open, process_known, process_body,
  push_exhausted, process_decision, process_probed, try_refresh_access_token, process_refreshed,
  process_pending, process_refresh, process_exhausted, process_cooldown, when, push_counted,
  process_cooling, probe_auth, probe_loop, promote_path, push_auth_file, process_pass, move_unless,
  push_passed,
}
use grok_build_auth.Json.{get, Value, Fields}
use grok_build_auth.Cpa.Reprobe.Counts.{
  Quiet-old_record, Quiet-read_path, Counts-pure, Counts-keep, Counts-save, Counts-if, Counts-count,
  Counts-bind, Quiet-ask, Quiet-on_files, Quiet-bind, PassedOnce, Counts-then, Quiet-raise,
  Quiet-pure, Counts, Done, Quiet-if, Fresh, Quiet,
}
use grok_build_auth.Cpa.State.{FilePath}
use grok_build_auth.Effect.{◌>>>=◌}
use grok_build_auth.Cpa.Refresh.{
  invalid_response, refresh_failed, probe_network_error, malformed, token_invalid, not_refreshed,
  refreshed, Refreshed, read_refresh,
}

module _ {S : Type 0} (env : Env) (args : Args) (serve : NetCall → S → Answer × S) where
  -- An exception before anything was counted.
  none_counted : (e : Fault) (s : Stats) → Fresh s → Done (err e) s
  none_counted e s fresh = (omega arith, inl (omega arith))

  Quiet-push_auth_file :
      (filename : Text) (payload : Fields) → Quiet (push_auth_file env args serve filename payload)
  unfolding push_auth_file
  Quiet-push_auth_file filename payload =
      Quiet-if _ (Quiet-raise push_error) (Quiet-ask serve _ read_push)

  Quiet-probe_auth : (payload : Fields) → Quiet (probe_auth env args serve payload)
  unfolding probe_auth
  Quiet-probe_auth payload =
      Quiet-if (is_malformed payload) (Quiet-pure _) (Quiet-ask serve _ (read_answer env.marker))

  Quiet-probe_loop : (payload : Fields) (left : ℕ) → Quiet (probe_loop env args serve payload left)
  unfolding probe_loop
  Quiet-probe_loop payload zero = Quiet-probe_auth payload
  Quiet-probe_loop payload (suc left) =
      Quiet-bind (Quiet-probe_auth payload)
        (λ probe. Quiet-if _ (Quiet-probe_loop payload left) (Quiet-pure probe))

  Quiet-promote_path :
      (is_verified : Bool) (payload : Fields) (path : FilePath) (fp : Text)
      → Quiet (promote_path env args serve is_verified payload path fp)
  unfolding promote_path
  Quiet-promote_path is_verified payload path fp =
      Quiet-if is_verified (Quiet-pure path) (Quiet-on_files _)

  Quiet-move_unless :
      (is_verified : Bool) (payload : Fields) (target : Text) (path : FilePath) (fp : Text)
      → Quiet (move_unless env args serve is_verified payload target path fp)
  unfolding move_unless
  Quiet-move_unless is_verified payload target path fp =
      Quiet-if is_verified (Quiet-pure tt) (Quiet-bind (Quiet-on_files _) (λ _. Quiet-pure tt))

  push_counted-PassedOnce :
      (is_pushed : Bool) (s : Stats)
      → PassedOnce s
      → PassedOnce (push_counted env args serve is_pushed s)
  push_counted-PassedOnce true s once = once
  push_counted-PassedOnce false s once = once

  Counts-when :
      {P : Stats → Type 0} (test : Bool) (f : Stats → Stats)
      → ((s : Stats) → P s → P (f s))
      → Counts P (λ r s. P s) (when env args serve test f)
  Counts-when test f h = Counts-if test (Counts-keep f h) (Counts-pure (λ s p. p))

  Counts-push_passed :
      (payload : Fields) (promoted : FilePath)
      → Counts PassedOnce (λ r s. PassedOnce s) (push_passed env args serve payload promoted)
  unfolding push_passed
  Counts-push_passed payload promoted =
      Counts-if _
        (Counts-then (Quiet-push_auth_file promoted.name payload)
          (λ (is_done, status, body).
            Counts-bind {R = λ r s. PassedOnce s}
              (Counts-keep (push_counted env args serve _) (push_counted-PassedOnce _))
              (λ _.
                Counts-bind {R = λ r s. PassedOnce s}
                  (Counts-when _ (λ s. record s { stale_rejected = 1 }) (λ s once. once))
                  (λ _. Counts-pure (λ s once. once)) (λ e s once. once))
              (λ e s once. once))
          (λ e s once. once))
        (Counts-bind {R = λ r s. PassedOnce s}
          (Counts-keep (λ s. record s { push_skipped = 1 }) (λ s once. once))
          (λ _. Counts-pure (λ s once. once)) (λ e s once. once))

  Counts-process_pass :
      (is_verified : Bool) (payload : Fields) (path : FilePath) (fp : Text)
      → Counts Fresh Done (process_pass env args serve is_verified payload path fp)
  unfolding process_pass
  Counts-process_pass is_verified payload path fp =
      Counts-then (Quiet-promote_path is_verified payload path fp)
        (λ promoted.
          Counts-bind {R = λ r s. PassedOnce s}
            (Counts-count _ (λ s fresh. (omega arith, refl, omega arith)))
            (λ _.
              Counts-bind (Counts-push_passed payload promoted)
                (λ (is_pushed, terminal_error, meta). Counts-save _ _ (λ s once. omega arith))
                (λ e s once. (once.2, inr once)))
            (λ e s once. (once.2, inr once)))
        none_counted

  Counts-push_exhausted :
      (payload : Fields) (path : FilePath)
      → Counts Fresh (λ r s. Fresh s) (push_exhausted env args serve payload path)
  unfolding push_exhausted
  Counts-push_exhausted payload path =
      Counts-if _
        (Counts-then (Quiet-push_auth_file path.name payload)
          (λ (is_done, status, body).
            Counts-bind {R = λ r s. Fresh s}
              (Counts-when _ (λ s. record s { stale_rejected = 1 }) (λ s fresh. fresh))
              (λ _. Counts-pure (λ s fresh. fresh)) (λ e s fresh. fresh))
          (λ e s fresh. fresh))
        (Counts-pure (λ s fresh. fresh))

  Counts-process_exhausted :
      (payload : Fields) (path : FilePath) (fp : Text)
      → Counts Fresh Done (process_exhausted env args serve payload path fp)
  unfolding process_exhausted
  Counts-process_exhausted payload path fp =
      Counts-then (Quiet-on_files _)
        (λ promoted.
          Counts-bind {R = λ r s. PassedOnce s}
            (Counts-count _ (λ s fresh. (omega arith, refl, omega arith)))
            (λ _. Counts-save _ _ (λ s once. omega arith)) (λ e s once. (once.2, inr once)))
        none_counted

  -- In one class, and no exception after it.
  abbrev Classed : Stats → Type 0
  Classed s = classified s ≡ 1

  abbrev Classing : Try (Unit {0}) → Stats → Type 0
  Classing (ok _) s = Classed s
  Classing (err e) s = ⊥

  Counts-process_cooling :
      (is_verified : Bool) (payload : Fields) (path : FilePath) (fp terminal_error : Text)
      → Counts Fresh Done
          (process_cooling env args serve is_verified payload path fp terminal_error)
  unfolding process_cooling
  Counts-process_cooling is_verified payload path fp terminal_error =
      Counts-then (Quiet-move_unless is_verified payload (codes "cooldown") path fp)
        (λ _.
          Counts-bind {R = Classing} (Counts-count _ (λ s fresh. omega arith))
            (λ _.
              Counts-bind {R = Classing}
                (Counts-if _ (Counts-count _ (λ s classed. classed))
                  (Counts-pure (λ s classed. classed)))
                (λ _. Counts-save _ _ (λ s classed. classed)) (λ e s h. absurd h))
            (λ e s h. absurd h))
        none_counted

  Counts-process_cooldown :
      (is_verified : Bool) (payload : Fields) (path : FilePath) (fp : Text)
      → Counts Fresh Done (process_cooldown env args serve is_verified payload path fp)
  unfolding process_cooldown
  Counts-process_cooldown is_verified payload path fp =
      Counts-bind (Counts-push_exhausted payload path)
        (λ (is_pushed, terminal_error).
          Counts-if is_pushed (Counts-process_exhausted payload path fp)
            (Counts-process_cooling is_verified payload path fp terminal_error))
        none_counted

  Counts-process_pending :
      (is_verified : Bool) (old_pushed : Value) (payload : Fields) (path : FilePath) (fp : Text)
      → Counts Fresh Done (process_pending env args serve is_verified old_pushed payload path fp)
  unfolding process_pending
  Counts-process_pending is_verified old_pushed payload path fp =
      Counts-then (Quiet-move_unless is_verified payload (codes "pending") path fp)
        (λ _.
          Counts-bind {R = Classing} (Counts-count _ (λ s fresh. omega arith))
            (λ _. Counts-save _ _ (λ s classed. classed)) (λ e s h. absurd h))
        none_counted

  Counts-process_decision :
      (is_verified : Bool) (old_pushed : Value) (decision : Decision) (payload : Fields)
      (path : FilePath) (fp : Text)
      → Counts Fresh Done
          (process_decision env args serve is_verified old_pushed decision payload path fp)
  unfolding process_decision
  Counts-process_decision is_verified old_pushed pass payload path fp =
      Counts-process_pass is_verified payload path fp
  Counts-process_decision is_verified old_pushed cool_down payload path fp =
      Counts-process_cooldown is_verified payload path fp
  Counts-process_decision is_verified old_pushed reject payload path fp =
      Counts-process_pending is_verified old_pushed payload path fp
  Counts-process_decision is_verified old_pushed retry payload path fp =
      Counts-process_pending is_verified old_pushed payload path fp
  Counts-process_decision is_verified old_pushed refresh payload path fp =
      Counts-process_pending is_verified old_pushed payload path fp

  -- One counter is set, and a record is saved.
  Counts-class :
      (f : Stats → Stats) (path : FilePath) (d : Fields)
      → ((s : Stats) → Fresh s → Classed (f s))
      → Counts {S = S} Fresh Done (count f >>>= λ _. save path d)
  Counts-class f path d h =
      Counts-bind {R = Classing} (Counts-count f h) (λ _. Counts-save _ _ (λ s classed. classed))
        (λ e s never. absurd never)

  Counts-process_refreshed :
      (is_verified : Bool) (old_pushed : Value) (path : FilePath) (fp : Text) (new_payload : Fields)
      → Counts Fresh Done
          (process_refreshed env args serve is_verified old_pushed path fp new_payload)
  unfolding process_refreshed
  Counts-process_refreshed is_verified old_pushed path fp new_payload =
      Counts-then (Quiet-on_files _)
        (λ replaced.
          Counts-if (not replaced)
            (Counts-class (λ s. record s { errors = 1 }) path _ (λ s fresh. omega arith))
            (Counts-then (Quiet-probe_auth new_payload)
              (λ probe.
                Counts-process_decision is_verified old_pushed probe.decision new_payload path
                  (fingerprint env.sha256 new_payload))
              none_counted))
        none_counted

  Counts-process_refresh :
      (is_verified : Bool) (old_pushed : Value) (payload : Fields) (path : FilePath)
      (fp push_fp : Text) (r : Refreshed)
      → Counts Fresh Done
          (process_refresh env args serve is_verified old_pushed payload path fp push_fp r)
  unfolding process_refresh
  Counts-process_refresh is_verified old_pushed payload path fp push_fp (refreshed new_payload) =
      Counts-process_refreshed is_verified old_pushed path fp new_payload
  Counts-process_refresh is_verified old_pushed payload path fp push_fp
        (not_refreshed token_invalid) =
      Counts-class (λ s. record s { revoked_preserved = 1 }) path _ (λ s fresh. omega arith)
  Counts-process_refresh is_verified old_pushed payload path fp push_fp (not_refreshed malformed) =
      Counts-process_decision is_verified old_pushed refresh payload path fp
  Counts-process_refresh is_verified old_pushed payload path fp push_fp
        (not_refreshed probe_network_error) =
      Counts-process_decision is_verified old_pushed refresh payload path fp
  Counts-process_refresh is_verified old_pushed payload path fp push_fp
        (not_refreshed refresh_failed) =
      Counts-process_decision is_verified old_pushed refresh payload path fp
  Counts-process_refresh is_verified old_pushed payload path fp push_fp
        (not_refreshed invalid_response) =
      Counts-process_decision is_verified old_pushed refresh payload path fp

  Quiet-try_refresh_access_token :
      (payload : Fields) → Quiet (try_refresh_access_token env args serve payload)
  unfolding try_refresh_access_token
  Quiet-try_refresh_access_token payload =
      Quiet-if _ (Quiet-pure _) (Quiet-ask serve _ (read_refresh env.clock payload))

  Counts-process_probed :
      (is_verified : Bool) (old_pushed : Value) (payload : Fields) (path : FilePath)
      (fp push_fp : Text) (decision : Decision)
      → Counts Fresh Done
          (process_probed env args serve is_verified old_pushed payload path fp push_fp decision)
  unfolding process_probed
  Counts-process_probed is_verified old_pushed payload path fp push_fp refresh =
      Counts-then (Quiet-try_refresh_access_token payload)
        (λ r. Counts-process_refresh is_verified old_pushed payload path fp push_fp r) none_counted
  Counts-process_probed is_verified old_pushed payload path fp push_fp pass =
      Counts-process_decision is_verified old_pushed pass payload path fp
  Counts-process_probed is_verified old_pushed payload path fp push_fp cool_down =
      Counts-process_decision is_verified old_pushed cool_down payload path fp
  Counts-process_probed is_verified old_pushed payload path fp push_fp reject =
      Counts-process_decision is_verified old_pushed reject payload path fp
  Counts-process_probed is_verified old_pushed payload path fp push_fp retry =
      Counts-process_decision is_verified old_pushed retry payload path fp

  Counts-process_open :
      (is_verified : Bool) (old_pushed : Value) (payload : Fields) (path : FilePath)
      (fp push_fp : Text)
      → Counts Fresh Done
          (process_open env args serve is_verified old_pushed payload path fp push_fp)
  unfolding process_open
  Counts-process_open is_verified old_pushed payload path fp push_fp =
      Counts-then (Quiet-probe_loop payload (args.attempts - 1))
        (λ probe.
          Counts-process_probed is_verified old_pushed payload path fp push_fp probe.decision)
        none_counted

  Counts-skipped :
      (f : Stats → Stats)
      → ((s : Stats) → Fresh s → Classed (f (record s { push_skipped = 1 })))
      → Counts Fresh Done (skipped env args serve f)
  unfolding skipped
  Counts-skipped f h = Counts-count _ h

  Counts-process_verified :
      (is_same : Bool) (old_pushed : Value) (payload : Fields) (path : FilePath) (fp push_fp : Text)
      → Counts Fresh Done
          (process_verified env args serve is_same old_pushed payload path fp push_fp)
  unfolding process_verified
  Counts-process_verified is_same old_pushed payload path fp push_fp =
      Counts-if _ (Counts-skipped set_passed (λ s fresh. omega arith)) (
        Counts-if _
          (Counts-skipped (λ s. record s { verified_skipped = 1 }) (λ s fresh. omega arith))
          (Counts-process_open true old_pushed payload path fp push_fp))

  Counts-process_known :
      (old payload : Fields) (path : FilePath) (fp push_fp : Text)
      → Counts Fresh Done (process_known env args serve old payload path fp push_fp)
  unfolding process_known
  Counts-process_known old payload path fp push_fp =
      Counts-if _ (Counts-skipped (λ s. record s { terminal_skipped = 1 }) (λ s fresh. omega arith))
        (Counts-if _ (Counts-process_verified _ (get "pushed" old) payload path fp push_fp)
          (Counts-process_open false (get "pushed" old) payload path fp push_fp))

  pub Counts-process_body : (path : FilePath) → Counts Fresh Done (process_body env args serve path)
  unfolding process_body
  Counts-process_body path =
      Counts-then (Quiet-read_path path)
        (λ payload.
          Counts-then (Quiet-old_record path)
            (λ old.
              Counts-process_known old payload path (fingerprint env.sha256 payload)
                (push_fingerprint env payload))
            none_counted)
        none_counted
