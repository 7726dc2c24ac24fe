-- ===== src/Egress/Run.antt =====
-- `validate_plan_for_apply` and `apply_plan` of bind_quota_egress.py. The digest of the plan with
-- its files, the origin of the client's URL, the database backup and the file system are parameters;
-- every write of a file may raise.
pub mod Tally
pub mod Failure
pub mod Reads
use grok_build_auth.Egress.Plan.{Valid, Assignment, check_plan}
use grok_build_auth.Prelude.{
  ltb_ℤ, ℤ, pos, Text, ℕ, suc, ◌+◌, Bool, true, false, not, ◌&&◌, ◌||◌, Option, none, some, List,
  [], ◌∷◌, ◌++◌, leb, if◌then◌else◌, length, ok, err, ◌>>=◌,
}
use grok_build_auth.Egress.Base.{
  precheck_drift, precheck_failed, bad_failure_limit, Reason, no_confirmation, ToolError, Try,
}
use grok_build_auth.Egress.Pages.{verify_proxies_active}
use grok_build_auth.Egress.Apply.{already_bound, applied, Status, apply_one_account, Applied}
use grok_build_auth.Egress.Monad.{Tool, pure, raise, lift, ◌>>>=◌}
use grok_build_auth.Json.{Fields}
use grok_build_auth.Egress.Account.{candidate_reason, already_applied, Account}
use grok_build_auth.Egress.Client.{get_account, World, Reply, Request}
use grok_build_auth.Egress.Snapshot.{frozen_state_matches, non_secret_before}

-- A row that is ready to be applied, or is `skip`ped as applied already.
pub record Prepared : Type 0 where
  pub account_id : ℤ
  pub proxy_id : ℤ
  pub before : Fields
  pub live_before : Fields
  pub skip : Bool

-- A line of the results.
pub data Item : Type 0 where
  skipped : Prepared → Item
  done : Applied → Item
  failed : ℤ → ℤ → ToolError → Item

pub data Outcome : Type 0 where
  binding_applied binding_failed binding_partial_failure no_candidates : Outcome

pub record Summary : Type 0 where
  pub total : ℕ
  pub applied : ℕ
  pub already_applied : ℕ
  pub failed : ℕ
  pub stopped_early : Bool
  pub outcome : Outcome

abbrev pub is_failed : Item → Bool
is_failed (failed _ _ _) = true
is_failed _ = false

abbrev was_applied : Status → Bool
was_applied applied = true
was_applied already_bound = false

abbrev pub is_applied : Item → Bool
is_applied (done x) = was_applied x.status
is_applied _ = false

abbrev pub is_already_applied : Item → Bool
is_already_applied (done x) = not (was_applied x.status)
is_already_applied (skipped _) = true
is_already_applied (failed _ _ _) = false

abbrev pub count_if : (Item → Bool) → List Item → ℕ
count_if p [] = 0
count_if p (x ∷ xs) = (if p x then 1 else 0) + count_if p xs

-- `failure_limit > 0 and failures >= failure_limit`
abbrev pub at_limit : ℤ → ℕ → Bool
at_limit failure_limit failures =
    ltb_ℤ (pos 0) failure_limit && not (ltb_ℤ (pos failures) failure_limit)

unfoldable pub outcome_of : ℕ → ℕ → ℕ → ℕ → Outcome
outcome_of failed_count applied_count already_count prepared_count =
    if leb 1 failed_count
    then (if leb 1 applied_count || leb 1 already_count
        then binding_partial_failure
        else binding_failed)
    else if leb 1 prepared_count
    then binding_applied
    else no_candidates

unfoldable pub summarise : ℤ → ℕ → List Item → ℕ → Summary
unfolding outcome_of
summarise failure_limit prepared_count results failures =
    let failed_count = count_if is_failed results in
    let applied_count = count_if is_applied results in
    let already_count = count_if is_already_applied results in
    record {
      total = prepared_count;
      applied = applied_count;
      already_applied = already_count;
      failed = failed_count;
      stopped_early = at_limit failure_limit failures;
      outcome = outcome_of failed_count applied_count already_count prepared_count;
    }

-- The results so far of the loop and the failures that it counted.
pub record Results : Type 0 where
  pub items : List Item
  pub failures : ℕ

pub record Report : Type 0 where
  pub results : List Item
  pub summary : Summary

-- What `apply_plan` writes: `backup.json`, a line of `apply-results.jsonl`, `apply-summary.json`; and
-- the directory of the three.
pub data FileWrite : Type 0 where
  result_dir backup_json : FileWrite
  results_line : Item → FileWrite
  summary_json : Summary → FileWrite

-- What a row adds to the results, with the failures counted so far and whether the loop breaks.
pub record Tried : Type 0 where
  pub items : List Item
  pub failures : ℕ
  pub stop : Bool

module _ {S : Type 0} (serve : Request → S → Reply × S) (verify_digest : Try (Unit {0}))
    (client_origin : Try Text) (create_backup : S → Try (Unit {0}) × S)
    (write_file : FileWrite → S → Try (Unit {0}) × S) where
  unfoldable pub validate_plan_for_apply : Fields → Tool (World S) Valid
  validate_plan_for_apply plan = lift (check_plan client_origin plan) >>>= λ valid.
      verify_proxies_active serve valid.proxy_ids >>>= λ _. pure valid

  -- What is known of an account that was read, before the backup.
  unfoldable pub judge : ℤ → Assignment → Account → Try Prepared
  judge group_id a live =
      let bound_already = already_applied live a.proxy_id group_id in
      do
        same ← frozen_state_matches a.before live a.proxy_id bound_already
        if not same
            then err (precheck_drift a.account_id)
            else judged group_id a live bound_already (candidate_reason live group_id)
    where
      prepared : Assignment → Account → Bool → Prepared
      prepared a live skip = record {
        account_id = a.account_id;
        proxy_id = a.proxy_id;
        before = a.before;
        live_before = non_secret_before live;
        skip = skip;
      }

      judged : ℤ → Assignment → Account → Bool → Option Reason → Try Prepared
      judged group_id a live true reason = ok (prepared a live true)
      judged group_id a live false none = ok (prepared a live false)
      judged group_id a live false (some reason) = err (precheck_failed a.account_id reason)

  -- `for row in assignments`
  unfoldable pub prepare : ℤ → List Assignment → Tool (World S) (List Prepared)
  prepare group_id [] = pure []
  prepare group_id (a ∷ rows) = get_account serve a.account_id >>>= λ live.
      lift (judge group_id a live) >>>= λ row. prepare group_id rows >>>= λ rest. pure (row ∷ rest)

  abbrev pub any_mutating : List Prepared → Bool
  any_mutating [] = false
  any_mutating (row ∷ rows) = not row.skip || any_mutating rows

  -- What is done outside the Admin API changes the state of the server at most, and is no call of it.
  abbrev pub outside : (S → Try (Unit {0}) × S) → Tool (World S) (Unit {0})
  outside act w =
      let (r, server') = act w.server in (r, record { server = server'; calls = w.calls })

  unfoldable pub write_out : FileWrite → Tool (World S) (Unit {0})
  write_out file = outside (write_file file)

  -- The backup, if a row is to be applied.
  unfoldable pub backup_if : Bool → Tool (World S) (Unit {0})
  backup_if true = outside create_backup >>>= λ _. write_out backup_json
  backup_if false = pure tt

  module _ (group_id failure_limit : ℤ) where
    -- The handler of a row; `items` are the results that the row has already.
    unfoldable pub record_failure : Prepared → ℕ → List Item → ToolError → Tool (World S) Tried
    record_failure row failures items exc =
        let item' : Item = failed row.account_id row.proxy_id exc in
        write_out (results_line item') >>>= λ _. pure (record {
          items = items ++ item' ∷ [];
          failures = suc failures;
          stop = at_limit failure_limit (suc failures);
        })

    unfoldable pub after_line :
        Prepared → ℕ → Applied → Try (Unit {0}) × World S → Try Tried × World S
    after_line row failures x (ok _, w) =
        (ok (record { items = done x ∷ []; failures = failures; stop = false }), w)
    after_line row failures x (err exc, w) = record_failure row failures (done x ∷ []) exc w

    -- The end of the `try`: the result is recorded before its line is written.
    unfoldable pub after_try : Prepared → ℕ → Try Applied × World S → Try Tried × World S
    after_try row failures (ok x, w) =
        after_line row failures x (write_out (results_line (done x)) w)
    after_try row failures (err exc, w) = record_failure row failures [] exc w

    unfoldable pub run_row : Prepared → ℕ → Tool (World S) Tried
    run_row row failures =
        if row.skip
        then (write_out (results_line (skipped row)) >>>= λ _.
            pure (record { items = skipped row ∷ []; failures = failures; stop = false }))
        else λ w.
            after_try row failures
              (apply_one_account serve row.account_id row.proxy_id group_id (some row.before) w)

    abbrev pub put_before : List Item → Results → Results
    put_before items rest = record { items = items ++ rest.items; failures = rest.failures }

    -- The rows behind one that was tried.
    abbrev pub go_on : Tried → (ℕ → Tool (World S) Results) → Tool (World S) Results
    go_on tried rest =
        if tried.stop
        then pure (record { items = tried.items; failures = tried.failures })
        else (rest tried.failures >>>= λ later. pure (put_before tried.items later))

    -- `for row in prepared`
    unfoldable pub run_rows : List Prepared → ℕ → Tool (World S) Results
    run_rows [] failures = pure (record { items = []; failures = failures })
    run_rows (row ∷ rows) failures =
        let rest = run_rows rows in run_row row failures >>>= λ tried. go_on tried rest

  abbrev pub report_of : ℤ → List Prepared → Results → Report
  report_of failure_limit rows results = record {
    results = results.items;
    summary = summarise failure_limit (length rows) results.items results.failures;
  }

  unfoldable pub run_prepared : ℤ → Valid → List Prepared → Tool (World S) Report
  run_prepared failure_limit valid rows =
      run_rows valid.group_id failure_limit rows 0 >>>= λ results.
      write_out (summary_json (report_of failure_limit rows results).summary) >>>= λ _.
      pure (report_of failure_limit rows results)

  -- The backup and the loop.
  unfoldable pub carry_out : ℤ → Valid → List Prepared → Tool (World S) Report
  carry_out failure_limit valid rows =
      backup_if (any_mutating rows) >>>= λ _. run_prepared failure_limit valid rows

  unfoldable pub prepare_plan : Fields → Tool (World S) (Valid × List Prepared)
  prepare_plan plan = lift verify_digest >>>= λ _. validate_plan_for_apply plan >>>= λ valid.
      write_out result_dir >>>= λ _.
      prepare valid.group_id valid.assignments >>>= λ rows. pure (valid, rows)

  unfoldable pub apply_plan : Bool → ℤ → Fields → Tool (World S) Report
  apply_plan confirm_production_write failure_limit plan =
      if not confirm_production_write
      then raise no_confirmation
      else if ltb_ℤ failure_limit (pos 0)
      then raise bad_failure_limit
      else prepare_plan plan >>>= λ prepared. carry_out failure_limit prepared.0 prepared.1
