-- ===== src/Bridge/Push.antt =====
-- The endpoint of bridge/bridge.py that an auth is pushed to: the branch of `handle_request` for
-- `/v0/management/auth-files`, from the validated body on.
pub mod Settled
pub mod Writes
pub mod Outcome
use grok_build_auth.Prelude.{
  ℤ, pos, Text, ◌⊎◌, inl, inr, Bool, true, false, not, ◌||◌, Option, none, some, [], if◌then◌else◌,
  ok, err,
}
use grok_build_auth.Bridge.Rollback.{
  id_of, Action, created, updated, Imported, not_imported, unknown, rollback_import_candidate,
  promote_sub2api_account, quarantine_sub2api_account, build_account_payload,
}
use grok_build_auth.Bridge.Calls.{
  set_schedulable, create_account, update_account, Bridge, Call, Env, Reply, probe_auth_direct,
  find_account_snapshot, sub2api_api, test_sub2api_account_result,
}
use grok_build_auth.Effect.{◌>>>=◌, pure, raise, lift, try_except}
use grok_build_auth.Bridge.Probe.{
  failed, Probe, Category, Code, TestResult, usable, usable_exhausted, rate_limited,
}
use grok_build_auth.Bridge.Auth.{
  runtime_error, key_error, value_error, Try, auth_subject, auth_subject_mismatch, auth_is_stale,
}
use grok_build_auth.Json.{Value, Fields, obj, get, find, put, to_int, truthy, show_text, int, nil}

pub data ErrorCode : Type 0 where
  probe_failed : Code → ErrorCode
  subject_mismatch stale_auth candidate_write_failed candidate_write_unknown : ErrorCode
  candidate_isolation_failed rollback_failed postimport_probe_failed : ErrorCode
  postimport_probe_error promotion_failed import_failed : ErrorCode

-- The answer: the account with what the probe of it gave, or an error with what is reported of the
-- account.
pub data Response : Type 0 where
  imported_ok : ℤ → Action → TestResult → Response
  refused : ErrorCode → Imported → Response

-- `int(result["data"]["id"])`
abbrev created_id : Value → Try ℤ
created_id (obj d) = elim (find "data" d) [ none ↦ err key_error | some v ↦ inner v ]
  where
    inner : Value → Try ℤ
    inner (obj e) = id_of e
    inner _ = err value_error
created_id _ = err value_error

abbrev is_usable_probe : Probe → Bool
is_usable_probe probe = probe.is_ok || is_limited probe.category
  where
    is_limited : Category → Bool
    is_limited rate_limited = true
    is_limited _ = false

abbrev pub is_usable : TestResult → Bool
is_usable usable = true
is_usable usable_exhausted = true
is_usable failed = false

abbrev pub code_if : Bool → ErrorCode → ErrorCode
code_if true code = code
code_if false code = rollback_failed

-- An account as the push knows it: its id, and what stood there before.
pub record Candidate : Type 0 where
  pub account_id : ℤ
  pub action : Action
  pub snapshot : Option Fields

abbrev pub true_or_raise : Bool → Try (Unit {0})
true_or_raise true = ok tt
true_or_raise false = err runtime_error

abbrev pub write_code : Bool → ErrorCode
write_code true = candidate_write_failed
write_code false = candidate_write_unknown

module _ {S : Type 0} (env : Env) (serve : Call → S → Reply × S) (name : Text)
    (auth_data : Fields) where
  abbrev pub roll_back : Candidate → Bool → Bridge S (Bool × Imported)
  roll_back c preserve_rotated =
      rollback_import_candidate env serve c.account_id c.action c.snapshot auth_data
        preserve_rotated

  -- A failure with its rollback: `code` if that went through.
  unfoldable pub give_up : Candidate → Bool → ErrorCode → Bridge S Response
  give_up c preserve_rotated code =
      roll_back c preserve_rotated >>>= λ (rollback_ok, rollback_state).
      pure (refused (code_if rollback_ok code) rollback_state)

  -- `promote_sub2api_account` failed: after a rollback that failed too, the account is kept out of
  -- use.
  unfoldable pub give_up_promotion : Candidate → Bridge S Response
  give_up_promotion c = roll_back c true >>>= λ (rollback_ok, rollback_state).
      if rollback_ok
      then pure (refused promotion_failed rollback_state)
      else (quarantine_sub2api_account env serve c.account_id >>>= λ _.
          pure (refused rollback_failed rollback_state))

  unfoldable pub promote : Candidate → TestResult → Bridge S Response
  promote c account_probe =
      try_except
        (promote_sub2api_account env serve c.account_id >>>= λ promoted.
          lift (true_or_raise promoted) >>>= λ _.
          pure (imported_ok c.account_id c.action account_probe))
        (λ exc. give_up_promotion c)

  -- The test of the isolated account; an exception of it, or of the rollback, is caught by the same
  -- handler.
  unfoldable pub tested : Candidate → Bridge S (Response ⊎ TestResult)
  tested c =
      try_except
        (test_sub2api_account_result env serve c.account_id >>>= λ account_probe.
          if is_usable account_probe
          then pure (inr account_probe)
          else (give_up c true postimport_probe_failed >>>= λ response. pure (inl response)))
        (λ exc. give_up c true postimport_probe_error >>>= λ response. pure (inl response))

  abbrev then_promote : Candidate → Response ⊎ TestResult → Bridge S Response
  then_promote c (inl response) = pure response
  then_promote c (inr account_probe) = promote c account_probe

  abbrev test_unless : Candidate → Option Response → Bridge S Response
  test_unless c (some response) = pure response
  test_unless c none = tested c >>>= then_promote c

  -- The candidate is taken out of scheduling, tested and promoted.
  unfoldable pub isolate : Candidate → Bridge S Response
  isolate c =
      try_except (sub2api_api env serve (set_schedulable c.account_id false) >>>= λ _. pure none)
        (λ exc. give_up c false candidate_isolation_failed >>>= λ response. pure (some response))
      >>>= test_unless c

  -- The write of the candidate failed.
  unfoldable pub write_failed_update : Candidate → Bridge S Response
  write_failed_update c = roll_back c false >>>= λ (rollback_ok, rollback_state).
      pure (refused (write_code rollback_ok) rollback_state)

  abbrev write_failed_row : Option Fields → Bridge S Response
  write_failed_row none = pure (refused candidate_write_unknown unknown)
  write_failed_row (some row) = lift (id_of row) >>>= λ account_id.
      write_failed_update (record { account_id = account_id; action = created; snapshot = none })

  -- The account that the failed call may have left, unless it is of another subject.
  unfoldable pub write_failed_create : Bridge S Response
  write_failed_create = find_account_snapshot env serve name [] [] >>>= λ ambiguous.
      lift (auth_subject_mismatch env.decode_segment ambiguous auth_data) >>>= λ mismatch.
      if mismatch
      then pure (refused candidate_write_unknown unknown)
      else write_failed_row ambiguous

  abbrev priority_of : Fields → Try Value
  priority_of snapshot =
      if truthy (get "priority" snapshot)
      then elim (to_int (get "priority" snapshot)) [ none ↦ err value_error | some n ↦ ok (int n) ]
      else ok (int (pos 1))

  -- `str(snapshot.get("name") or name)`
  abbrev candidate_name : Fields → Text
  candidate_name snapshot =
      if truthy (get "name" snapshot) then show_text (get "name" snapshot) else name

  abbrev isolate_created : Response ⊎ ℤ → Bridge S Response
  isolate_created (inl response) = pure response
  isolate_created (inr account_id) =
      isolate (record { account_id = account_id; action = created; snapshot = none })

  unfoldable pub import_new : Bridge S Response
  import_new =
      try_except
        (sub2api_api env serve (create_account (build_account_payload env name auth_data nil false))
          >>>= λ result. lift (created_id result) >>>= λ account_id. pure (inr account_id))
        (λ exc. write_failed_create >>>= λ response. pure (inl response))
      >>>= isolate_created

  abbrev isolate_unless : Candidate → Option Response → Bridge S Response
  isolate_unless c (some response) = pure response
  isolate_unless c none = isolate c

  -- The update of the account by the candidate, and what follows it.
  unfoldable pub write_update : Candidate → Fields → Bridge S Response
  write_update c candidate =
      try_except (sub2api_api env serve (update_account c.account_id candidate) >>>= λ _. pure none)
        (λ exc. write_failed_update c >>>= λ response. pure (some response))
      >>>= isolate_unless c

  abbrev candidate_of : Fields → Value → Fields
  candidate_of snapshot priority =
      put "priority" priority
        (build_account_payload env (candidate_name snapshot) auth_data nil false)

  unfoldable pub import_update : Fields → Bridge S Response
  import_update snapshot = lift (id_of snapshot) >>>= λ account_id.
      lift (priority_of snapshot) >>>= λ priority.
      write_update (record { account_id = account_id; action = updated; snapshot = some snapshot })
        (candidate_of snapshot priority)

  unfoldable pub import_checked : Option Fields → Bridge S Response
  import_checked none = import_new
  import_checked (some snapshot) = import_update snapshot

  -- The two refusals need the id of the account for their answer.
  unfoldable pub refuse_existing : Option Fields → ErrorCode → Bridge S Response
  refuse_existing none code = raise value_error
  refuse_existing (some snapshot) code =
      lift (id_of snapshot) >>>= λ _. pure (refused code not_imported)

  unfoldable pub check_existing : Option Fields → Bridge S Response
  check_existing snapshot =
      lift (auth_subject_mismatch env.decode_segment snapshot auth_data) >>>= λ mismatch.
      if mismatch
      then refuse_existing snapshot subject_mismatch
      else (lift (auth_is_stale env.decode_segment snapshot auth_data) >>>= λ stale.
          if stale then refuse_existing snapshot stale_auth else import_checked snapshot)

  unfoldable pub import_auth : Text → Bridge S Response
  import_auth email_addr = probe_auth_direct env serve auth_data 3 >>>= λ probe.
      if not (is_usable_probe probe)
      then pure (refused (probe_failed probe.error_code) not_imported)
      else (find_account_snapshot env serve name email_addr
            (auth_subject env.decode_segment auth_data)
          >>>= check_existing)

  -- The outermost `except`.
  unfoldable pub push_auth : Text → Bridge S Response
  push_auth email_addr =
      try_except (import_auth email_addr) (λ exc. pure (refused import_failed not_imported))
