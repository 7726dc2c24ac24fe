-- ===== src/Cpa/Reprobe/Process.antt =====
-- `process_locked` of clients/windows/cpa_reprobe.py, one function for each of its branches. Of a record
-- of the checkpoint the fields that are read again are kept. The codes of a probe that is to be tried
-- again are all among those that the loop goes on with.
use grok_build_auth.Prelude.{
  err, ok, length, ◌==◌, map, ◌∷◌, List, ◌+◌, ◌-◌, some, [], zero, none, has_infix, suc, ◌||◌, ◌++◌,
  ◌&&◌, has_suffix, strip, text_eq, if◌then◌else◌, is_empty, Text, codes, ℕ, Bool, true, false, not,
}
use grok_build_auth.Cpa.Reprobe.{
  new_result, old_record, read_path, World, read_push, refresh_call, push_call, probe_call, ask,
  push_fingerprint, bridge_metadata, save, on_files, count, push_error_code, Step, NetCall, Args,
  Stats, Env,
}
use grok_build_auth.Cpa.Preprobe.{
  cool_down, refresh, pass, read_answer, malformed_auth, reject, result_of, is_malformed, retry,
  ProbeResult, Decision, Answer,
}
use grok_build_auth.Cpa.Schema.{rstrip_slash}
use grok_build_auth.Json.{
  or_value, truthy, end, bool, get, str, value_eq, field, null, Fields, Value,
}
use grok_build_auth.Cpa.Refresh.{
  token_invalid, refreshed, read_refresh, malformed, not_refreshed, Refreshed,
}
use grok_build_auth.Cpa.State.{replace_if_fingerprint, transition, Move, FilePath}
use grok_build_auth.Effect.{try_except, raise, pure, ◌>>>=◌}
use grok_build_auth.Cpa.Names.{invariant_failed, Try, push_error, fingerprint, text_field}

abbrev pub set_passed : Stats → Stats
set_passed s = record s { passed = 1 }

-- `push_auth_file`: its own checks, the call and what is made of the answer.
module _ {S : Type 0} (env : Env) (args : Args) (serve : NetCall → S → Answer × S) where
  abbrev pub base_of : Text
  base_of =
      let base = rstrip_slash (strip args.remote_base) in
      if has_infix (codes "://") base then base else codes "http://" ++ base

  abbrev pub json_name : Text → Text
  json_name filename =
      if has_suffix (codes ".json") filename then filename else filename ++ codes ".json"

  unfoldable pub push_auth_file : Text → Fields → Step S (Bool × ℕ × Text)
  push_auth_file filename payload =
      if is_empty (rstrip_slash (strip args.remote_base)) || is_empty args.remote_secret
      then raise push_error
      else ask serve (push_call base_of (json_name filename) payload) read_push

  unfoldable pub probe_auth : Fields → Step S ProbeResult
  probe_auth payload =
      if is_malformed payload
      then pure (result_of reject malformed_auth 0)
      else ask serve (probe_call payload) (read_answer env.marker)

  abbrev pub is_retry : Decision → Bool
  is_retry retry = true
  is_retry _ = false

  -- The probes, with the attempts that are left after this one.
  unfoldable pub probe_loop : Fields → ℕ → Step S ProbeResult
  probe_loop payload zero = probe_auth payload
  probe_loop payload (suc left) = probe_auth payload >>>= λ probe.
      if is_retry probe.decision then probe_loop payload left else pure probe

  unfoldable pub try_refresh_access_token : Fields → Step S Refreshed
  try_refresh_access_token payload =
      if is_empty (strip (text_field "refresh_token" payload))
      then pure (not_refreshed malformed)
      else ask serve (refresh_call payload) (read_refresh env.clock payload)

  abbrev pub move_of : Fields → Text → FilePath → Text → Move
  move_of payload target path fp = record {
    root = args.root;
    payload = payload;
    target = target;
    verified_dir = none;
    source_path = some path;
    expected_source_fingerprint = some fp;
    now = env.now;
    now_ms = env.now_ms;
    write_fails = env.write_fails;
    unlink_fails = env.unlink_fails;
  }

  abbrev pub has_remote : Bool
  has_remote = not (is_empty args.remote_base) && not (is_empty args.remote_secret)

  abbrev pub fingerprints : Fields → Fields → Fields
  fingerprints payload rest =
      field "fingerprint" (str (fingerprint env.sha256 payload))
        (field "push_fingerprint" (str (push_fingerprint env payload)) rest)

  abbrev pub text_or_none : Text → Value
  text_or_none text = if is_empty text then null else str text

  abbrev pub when : Bool → (Stats → Stats) → Step S (Unit {0})
  when test f = if test then count f else pure tt

  abbrev pub is_stale : Text → Bool
  is_stale code = text_eq code (codes "STALE_AUTH")

  abbrev pub not_created : Bool → Fields → Bool
  not_created done meta =
      done && args.require_created && not (value_eq (get "action" meta) (str (codes "created")))

  abbrev pub error_of : Bool → Text → Text
  error_of is_refused body =
      if is_refused then codes "BRIDGE_ACTION_NOT_CREATED" else push_error_code env body

  abbrev pub push_counted : Bool → Stats → Stats
  push_counted true s = record s { pushed = 1 }
  push_counted false s = record s { push_failed = 1 }

  -- What is recorded of a push after a passed probe: whether it was made, its error and the answer.
  abbrev pub PushRecord : Type 0
  PushRecord = Value × Text × Fields

  unfoldable pub push_passed : Fields → FilePath → Step S PushRecord
  push_passed payload promoted =
      if has_remote
      then (push_auth_file promoted.name payload >>>= λ (is_done, status, body).
          let meta = bridge_metadata env body in
          let is_refused = not_created is_done meta in
          let terminal_error = error_of is_refused body in
          count (push_counted (is_done && not is_refused)) >>>= λ _.
          when (is_stale terminal_error) (λ s. record s { stale_rejected = 1 }) >>>= λ _.
          pure (bool (is_done && not is_refused), terminal_error, meta))
      else (count (λ s. record s { push_skipped = 1 }) >>>= λ _. pure (null, [], end))

  unfoldable pub promote_path : Bool → Fields → FilePath → Text → Step S FilePath
  promote_path is_verified payload path fp =
      if is_verified
      then pure path
      else on_files (transition env.sha256 (move_of payload (codes "verified") path fp))

  -- The branch of a passed probe.
  unfoldable pub process_pass : Bool → Fields → FilePath → Text → Step S (Unit {0})
  process_pass is_verified payload path fp =
      promote_path is_verified payload path fp >>>= λ promoted. count set_passed >>>= λ _.
      push_passed payload promoted >>>= λ (is_pushed, terminal_error, meta). save promoted (
        fingerprints payload
          (field "pushed" is_pushed (field "terminal_error" (text_or_none terminal_error) meta)))

  unfoldable pub push_exhausted : Fields → FilePath → Step S (Bool × Text)
  push_exhausted payload path =
      if args.push_cooldown && has_remote
      then (push_auth_file path.name payload >>>= λ (is_done, status, body).
          when (is_stale (push_error_code env body)) (λ s. record s { stale_rejected = 1 })
          >>>= λ _. pure (is_done, push_error_code env body))
      else pure (false, [])

  unfoldable pub process_exhausted : Fields → FilePath → Text → Step S (Unit {0})
  process_exhausted payload path fp =
      on_files (transition env.sha256 (move_of payload (codes "verified") path fp)) >>>= λ promoted.
      count (λ s. record s { passed = 1; pushed = 1 }) >>>= λ _.
      save promoted (fingerprints payload (field "pushed" (bool true) end))

  unfoldable pub move_unless : Bool → Fields → Text → FilePath → Text → Step S (Unit {0})
  move_unless is_verified payload target path fp =
      if is_verified
      then pure tt
      else (on_files (transition env.sha256 (move_of payload target path fp)) >>>= λ _. pure tt)

  unfoldable pub process_cooling : Bool → Fields → FilePath → Text → Text → Step S (Unit {0})
  process_cooling is_verified payload path fp terminal_error =
      move_unless is_verified payload (codes "cooldown") path fp >>>= λ _.
      count (λ s. record s { cooldown = 1 }) >>>= λ _.
      when (args.push_cooldown && has_remote) (λ s. record s { push_failed = 1 }) >>>= λ _.
      save path (
        fingerprints payload (
          field "pushed" (if args.push_cooldown then bool false else null)
            (field "terminal_error" (text_or_none terminal_error) end)))

  unfoldable pub process_cooldown : Bool → Fields → FilePath → Text → Step S (Unit {0})
  process_cooldown is_verified payload path fp =
      push_exhausted payload path >>>= λ (is_pushed, terminal_error).
      if is_pushed
      then process_exhausted payload path fp
      else process_cooling is_verified payload path fp terminal_error

  -- The branch of every other decision.
  unfoldable pub process_pending : Bool → Value → Fields → FilePath → Text → Step S (Unit {0})
  process_pending is_verified old_pushed payload path fp =
      move_unless is_verified payload (codes "pending") path fp >>>= λ _.
      count (λ s. record s { pending = 1 }) >>>= λ _.
      save path
        (fingerprints payload (field "pushed" (if is_verified then old_pushed else null) end))

  -- The three decisions that end in a class of their own.
  unfoldable pub process_decision :
      Bool → Value → Decision → Fields → FilePath → Text → Step S (Unit {0})
  process_decision is_verified old_pushed pass payload path fp =
      process_pass is_verified payload path fp
  process_decision is_verified old_pushed cool_down payload path fp =
      process_cooldown is_verified payload path fp
  process_decision is_verified old_pushed reject payload path fp =
      process_pending is_verified old_pushed payload path fp
  process_decision is_verified old_pushed retry payload path fp =
      process_pending is_verified old_pushed payload path fp
  process_decision is_verified old_pushed refresh payload path fp =
      process_pending is_verified old_pushed payload path fp

  unfoldable pub process_refreshed : Bool → Value → FilePath → Text → Fields → Step S (Unit {0})
  process_refreshed is_verified old_pushed path fp new_payload =
      on_files (replace_if_fingerprint env.sha256 env.write_fails path fp new_payload env.now)
      >>>= λ replaced.
          if not replaced
          then (count (λ s. record s { errors = 1 }) >>>= λ _.
              save path (field "fingerprint" (str fp) end))
          else (probe_auth new_payload >>>= λ probe.
              process_decision is_verified old_pushed probe.decision new_payload path
                (fingerprint env.sha256 new_payload))

  unfoldable pub process_refresh :
      Bool → Value → Fields → FilePath → Text → Text → Refreshed → Step S (Unit {0})
  process_refresh is_verified old_pushed payload path fp push_fp (refreshed new_payload) =
      process_refreshed is_verified old_pushed path fp new_payload
  process_refresh is_verified old_pushed payload path fp push_fp (not_refreshed token_invalid) =
      count (λ s. record s { revoked_preserved = 1 }) >>>= λ _. save path (
        field "fingerprint" (str fp)
          (field "push_fingerprint" (str push_fp) (field "pushed" old_pushed end)))
  process_refresh is_verified old_pushed payload path fp push_fp (not_refreshed _) =
      process_decision is_verified old_pushed refresh payload path fp

  unfoldable pub process_probed :
      Bool → Value → Fields → FilePath → Text → Text → Decision → Step S (Unit {0})
  process_probed is_verified old_pushed payload path fp push_fp refresh =
      try_refresh_access_token payload
      >>>= process_refresh is_verified old_pushed payload path fp push_fp
  process_probed is_verified old_pushed payload path fp push_fp decision =
      process_decision is_verified old_pushed decision payload path fp

  unfoldable pub process_open : Bool → Value → Fields → FilePath → Text → Text → Step S (Unit {0})
  process_open is_verified old_pushed payload path fp push_fp =
      probe_loop payload (args.attempts - 1) >>>= λ probe.
      process_probed is_verified old_pushed payload path fp push_fp probe.decision

  abbrev pub is_bool : Bool → Value → Bool
  is_bool true (bool true) = true
  is_bool false (bool false) = true
  is_bool _ _ = false

  unfoldable pub skipped : (Stats → Stats) → Step S (Unit {0})
  skipped f = count (λ s. f (record s { push_skipped = 1 }))

  -- A verified file is probed only to resume a push that failed.
  unfoldable pub process_verified :
      Bool → Value → Fields → FilePath → Text → Text → Step S (Unit {0})
  unfolding skipped
  process_verified is_same old_pushed payload path fp push_fp =
      if is_same && is_bool true old_pushed
      then skipped set_passed
      else if not is_same || not (is_bool false old_pushed)
      then skipped (λ s. record s { verified_skipped = 1 })
      else process_open true old_pushed payload path fp push_fp

  abbrev pub is_same_push : Fields → Text → Bool
  is_same_push old push_fp =
      value_eq (or_value (get "push_fingerprint" old) (get "fingerprint" old)) (str push_fp)

  unfoldable pub process_known : Fields → Fields → FilePath → Text → Text → Step S (Unit {0})
  unfolding skipped
  process_known old payload path fp push_fp =
      if truthy (get "terminal_error" old) && is_same_push old push_fp
      then skipped (λ s. record s { terminal_skipped = 1 })
      else if has_suffix (codes "/cpa_auths") path.dir
      then process_verified (is_same_push old push_fp) (get "pushed" old) payload path fp push_fp
      else process_open false (get "pushed" old) payload path fp push_fp

  unfoldable pub process_body : FilePath → Step S (Unit {0})
  process_body path = read_path path >>>= λ payload. old_record path >>>= λ old.
      process_known old payload path (fingerprint env.sha256 payload) (push_fingerprint env payload)

  -- The counters of the path, whatever was raised.
  unfoldable pub process_locked : FilePath → World S → Stats
  process_locked path w =
      (try_except (process_body path)
        (λ exc. count (λ s. record s { errors = 1 }) >>>= λ _. save path end)
        (record w { result = new_result })).1.result

abbrev pub add_stats : Stats → Stats → Stats
add_stats s t = record {
  passed = s.passed + t.passed;
  cooldown = s.cooldown + t.cooldown;
  pending = s.pending + t.pending;
  revoked_deleted = s.revoked_deleted + t.revoked_deleted;
  revoked_preserved = s.revoked_preserved + t.revoked_preserved;
  verified_skipped = s.verified_skipped + t.verified_skipped;
  errors = s.errors + t.errors;
  pushed = s.pushed + t.pushed;
  push_failed = s.push_failed + t.push_failed;
  push_skipped = s.push_skipped + t.push_skipped;
  stale_rejected = s.stale_rejected + t.stale_rejected;
  terminal_skipped = s.terminal_skipped + t.terminal_skipped;
}

abbrev pub total : List Stats → Stats
total [] = new_result
total (s ∷ results) = add_stats s (total results)

-- The classes that the check of `run` adds up.
abbrev pub others : Stats → ℕ
others s =
    s.passed + s.cooldown + s.pending + s.revoked_deleted + s.revoked_preserved + s.verified_skipped
    + s.terminal_skipped

abbrev pub classified : Stats → ℕ
classified s = others s + s.errors

-- The end of `run`: the results are added up and checked.
unfoldable pub collect_stats : List Stats → Try Stats
collect_stats results =
    if classified (total results) == length results
    then ok (total results)
    else err invariant_failed

-- A batch: each path with the world in which its turn comes, whatever the other threads did before.
unfoldable pub run :
    {S : Type 0} → Env → Args → (NetCall → S → Answer × S) → List (FilePath × World S) → Try Stats
unfolding collect_stats
run env args serve jobs =
    collect_stats (map (λ job. process_locked env args serve job.0 job.1) jobs)
