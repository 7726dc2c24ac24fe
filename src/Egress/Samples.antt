-- ===== src/Egress/Samples.antt =====
-- The theorems about the lists and the plan of the egress tool at concrete inputs.
use grok_build_auth.Prelude.{
  ◌⊎◌, has_infix, has_suffix, rstrip, lstrip, is_space, int_digits, text_eq, strip, lower,
  parse_int, show_nat, show_int, ℤ, pos, Text, codes, ◌≡◌, refl, true, false, none, some, List, [],
  ◌∷◌, ◌++◌, map, if◌then◌else◌, All, ok, err,
}
use grok_build_auth.Egress.Pages.{
  Proxy, iter_accounts, verify_proxies_active, collect, read_page, set_found, note_rows, all_found,
  all_active, check_found, accounts_loop, proxies_loop, find_proxies,
}
use grok_build_auth.Json.{
  bool, as_int, value_eq, truthy, text_or_empty, has, has, get, find, nil, item, int, end, str, arr,
  null, obj, field, Fields, Value,
}
use grok_build_auth.Egress.Client.{
  is_write, outcome, is_refused, send, request, get_account, set_schedulable, set_proxy_id,
  is_error_code, answer, Reply, Request, World,
}
use grok_build_auth.Egress.Account.{
  candidate_reason, is_schedulable, field_is, already_applied, snapshot_status_code,
  rate_limit_reset_present, pick_keys, non_secret_grok_snapshot, item_ids, is_proxy_empty,
  is_parent_empty, group_item_ids, grok_snapshot, candidate, dedupe, account_group_ids, Account,
  in_group,
}
use grok_build_auth.Egress.Pages.Accounts.{iter_accounts-ok, IsDistinct, id_of}
use grok_build_auth.Egress.Base.{backup_failed, Try, sorted_set, insert_sorted, mem}
use grok_build_auth.Egress.Pages.Proxies.{proxy_ids, verify_proxies_active-ok, IsActive}
use grok_build_auth.Egress.Apply.{
  applied, proceed, proceed, decide, drifted, verify, rollback_proxy, roll_back, mutate,
  bind_account, apply_one_account,
}
use grok_build_auth.Egress.Snapshot.{
  preserved_status_state, preserved_eq, non_secret_before, lower_field, iterate,
  frozen_state_matches, frozen_of, frozen_match, frozen_eq, frozen_before_fields,
}
use grok_build_auth.Egress.Run.Tally.{apply_plan-ok, Adds}
use grok_build_auth.Egress.Run.{
  results_line, failed, binding_partial_failure, record_failure, run_row, after_line, FileWrite,
  write_out, prepare_plan, carry_out, run_prepared, run_rows, after_try, backup_if, prepare, judge,
  validate_plan_for_apply, summarise, outcome_of, binding_applied, done, apply_plan, Report,
}
use grok_build_auth.Egress.Plan.{check_plan, check_rows, check_row, all_distinct, pool_ids, Valid}
use grok_build_auth.Egress.Plan.Checked.{check_plan-ok, IsSound}
use grok_build_auth.Egress.Run.Failure.{WriteFailed, apply_plan-err}

-- An Admin API of one account and one proxy, on which a write sets the fields of its body.
abbrev answers : Value → Reply
answers data' = answer 200 (field "code" (int (pos 0)) (field "data" data' end))

abbrev proxy_row : Value
proxy_row = obj (field "id" (int (pos 3)) (field "status" (str (codes "Active")) end))

abbrev put_fields : Fields → Account → Account
put_fields end account = account
put_fields (field k v d) account = field k v (put_fields d account)

abbrev with_id : Account
with_id = field "id" (int (pos 11)) candidate

abbrev api : Request → Account → Reply × Account
api r account =
    if text_eq r.path (codes "/api/v1/admin/proxies/all")
    then (answers (arr (item proxy_row nil)), account)
    else if text_eq r.path (codes "/api/v1/admin/accounts")
    then (
      answers
          (obj (field "items" (arr (item (obj account) nil)) (field "total" (int (pos 1)) end))),
      account,
    )
    else elim r.body [
      | none ↦ (answers (obj account), account)
      | some body ↦ (answers null, put_fields body account)
    ]

abbrev start : World Account
start = record { server = with_id; calls = [] }

lists : (iter_accounts api (codes "grok") (codes "oauth") (pos 5) 100 start).0 ≡ ok (with_id ∷ [])
unfolding in_group account_group_ids dedupe grok_snapshot group_item_ids is_parent_empty
    is_proxy_empty item_ids non_secret_grok_snapshot pick_keys rate_limit_reset_present
    snapshot_status_code already_applied field_is is_schedulable candidate_reason apply_one_account
    bind_account mutate roll_back rollback_proxy verify drifted decide proceed insert_sorted
    sorted_set is_error_code set_proxy_id set_schedulable get_account request send is_refused
    has_suffix has_infix outcome frozen_before_fields frozen_eq frozen_match frozen_of
    frozen_state_matches iterate lower_field non_secret_before preserved_eq preserved_status_state
    find get has text_or_empty truthy value_eq as_int int_digits is_space lstrip parse_int rstrip
    show_nat strip lower show_int collect read_page set_found note_rows all_found all_active
    check_found accounts_loop iter_accounts proxies_loop find_proxies verify_proxies_active
lists = refl

iter_accounts-ok_example :
    (ids : List ℤ) × (map id_of (with_id ∷ []) ≡ map some ids) × IsDistinct ids
iter_accounts-ok_example =
    iter_accounts-ok api (codes "grok") (codes "oauth") (pos 5) 100 start (with_id ∷ []) lists

abbrev active : Proxy
active = record { id = pos 3; name = null; status = str (codes "Active"); protocol = null }

finds : (verify_proxies_active api (pos 3 ∷ pos 3 ∷ []) start).0 ≡ ok (active ∷ [])
unfolding in_group account_group_ids dedupe grok_snapshot group_item_ids is_parent_empty
    is_proxy_empty item_ids non_secret_grok_snapshot pick_keys rate_limit_reset_present
    snapshot_status_code already_applied field_is is_schedulable candidate_reason apply_one_account
    bind_account mutate roll_back rollback_proxy verify drifted decide proceed insert_sorted
    sorted_set is_error_code set_proxy_id set_schedulable get_account request send is_refused
    has_suffix has_infix outcome frozen_before_fields frozen_eq frozen_match frozen_of
    frozen_state_matches iterate lower_field non_secret_before preserved_eq preserved_status_state
    find get has text_or_empty truthy value_eq as_int int_digits is_space lstrip parse_int rstrip
    show_nat strip lower show_int collect read_page set_found note_rows all_found all_active
    check_found accounts_loop iter_accounts proxies_loop find_proxies verify_proxies_active
finds = refl

verify_proxies_active-ok_example :
    All (λ pid. mem pid (proxy_ids (active ∷ [])) ≡ true) (pos 3 ∷ pos 3 ∷ [])
    × All IsActive (active ∷ [])
verify_proxies_active-ok_example =
    verify_proxies_active-ok api (pos 3 ∷ pos 3 ∷ []) start (active ∷ []) finds

abbrev plan_row : ℤ → Fields → Value
plan_row proxy_id before = obj (
    field "account_id" (int (pos 11))
      (field "proxy_id" (int proxy_id) (field "before" (obj before) end)))

abbrev plan : ℤ → Fields
plan proxy_id = field "tool" (str (codes "bind_quota_egress")) (
    field "version" (int (pos 1)) (
      field "platform" (str (codes "grok")) (
        field "type" (str (codes "oauth")) (
          field "base_url_origin" (str (codes "https://a:443")) (
            field "group_id" (int (pos 5)) (
              field "proxy_pool" (arr (item (obj (field "id" (int (pos 3)) end)) nil)) (
                field "candidate_count" (int (pos 1)) (
                  field "assignments"
                    (arr (item (plan_row proxy_id (non_secret_before with_id)) nil)) end))))))))

abbrev origin : Try Text
origin = ok (codes "https://a:443")

abbrev valid : Valid
valid = record {
  group_id = pos 5;
  assignments =
      record { account_id = pos 11; proxy_id = pos 3; before = non_secret_before with_id } ∷ [];
  proxy_ids = pos 3 ∷ [];
}

checks : check_plan origin (plan (pos 3)) ≡ ok valid
unfolding in_group account_group_ids dedupe grok_snapshot group_item_ids is_parent_empty
    is_proxy_empty item_ids non_secret_grok_snapshot pick_keys rate_limit_reset_present
    snapshot_status_code already_applied field_is is_schedulable candidate_reason apply_one_account
    bind_account mutate roll_back rollback_proxy verify drifted decide proceed insert_sorted
    sorted_set is_error_code set_proxy_id set_schedulable get_account request send is_refused
    has_suffix has_infix outcome frozen_before_fields frozen_eq frozen_match frozen_of
    frozen_state_matches iterate lower_field non_secret_before preserved_eq preserved_status_state
    find get has text_or_empty truthy value_eq as_int int_digits is_space lstrip parse_int rstrip
    show_nat strip lower show_int collect read_page set_found note_rows all_found all_active
    check_found accounts_loop iter_accounts proxies_loop find_proxies verify_proxies_active pool_ids
    all_distinct check_row check_rows check_plan outcome_of summarise validate_plan_for_apply judge
    prepare backup_if write_out after_line after_try run_row run_rows run_prepared carry_out
    prepare_plan apply_plan
checks = refl

check_plan-ok_example : IsSound valid
check_plan-ok_example = check_plan-ok origin (plan (pos 3)) valid checks

abbrev writes_files : FileWrite → Account → Try (Unit {0}) × Account
writes_files file account = (ok tt, account)

abbrev no_backup : Account → Try (Unit {0}) × Account
no_backup account = (err backup_failed, account)

-- The backup fails, so the account stays as it is.
refuses :
    (apply_plan api (ok tt) origin no_backup writes_files true (pos 1) (plan (pos 3)) start).0
    ≡ err backup_failed
unfolding in_group account_group_ids dedupe grok_snapshot group_item_ids is_parent_empty
    is_proxy_empty item_ids non_secret_grok_snapshot pick_keys rate_limit_reset_present
    snapshot_status_code already_applied field_is is_schedulable candidate_reason apply_one_account
    bind_account mutate roll_back rollback_proxy verify drifted decide proceed insert_sorted
    sorted_set is_error_code set_proxy_id set_schedulable get_account request send is_refused
    has_suffix has_infix outcome frozen_before_fields frozen_eq frozen_match frozen_of
    frozen_state_matches iterate lower_field non_secret_before preserved_eq preserved_status_state
    find get has text_or_empty truthy value_eq as_int int_digits is_space lstrip parse_int rstrip
    show_nat strip lower show_int collect read_page set_found note_rows all_found all_active
    check_found accounts_loop iter_accounts proxies_loop find_proxies verify_proxies_active pool_ids
    all_distinct check_row check_rows check_plan outcome_of summarise validate_plan_for_apply judge
    prepare backup_if write_out after_line after_try run_row run_rows run_prepared carry_out
    prepare_plan apply_plan
refuses = refl

apply_plan-err_example :
    ((tried : List Request) × All (λ q. is_write q.method ≡ false) tried
      × ((apply_plan api
            (ok tt)
            origin
            no_backup
            writes_files
            true
            (pos 1)
            (plan (pos 3))
            start).1.calls
          ≡ [] ++ tried))
    ⊎ WriteFailed writes_files backup_failed
apply_plan-err_example =
    apply_plan-err api (ok tt) origin no_backup writes_files true (pos 1) (plan (pos 3)) start
      backup_failed refuses

abbrev a_backup : Account → Try (Unit {0}) × Account
a_backup account = (ok tt, account)

-- The account as it is read back, and the report.
abbrev bound_account : Account
bound_account =
    field "schedulable" (bool true)
      (field "proxy_id" (int (pos 3)) (field "schedulable" (bool false) with_id))

abbrev report : Report
report = record {
  results =
      done (record {
        account_id = pos 11;
        status = applied;
        proxy_id = pos 3;
        planned_before = non_secret_before with_id;
        live_before = non_secret_before with_id;
        after = non_secret_before bound_account;
      })
      ∷ [];
  summary = record {
    total = 1;
    applied = 1;
    already_applied = 0;
    failed = 0;
    stopped_early = false;
    outcome = binding_applied;
  };
}

applies_plan :
    (apply_plan api (ok tt) origin a_backup writes_files true (pos 1) (plan (pos 3)) start).0
    ≡ ok report
unfolding in_group account_group_ids dedupe grok_snapshot group_item_ids is_parent_empty
    is_proxy_empty item_ids non_secret_grok_snapshot pick_keys rate_limit_reset_present
    snapshot_status_code already_applied field_is is_schedulable candidate_reason apply_one_account
    bind_account mutate roll_back rollback_proxy verify drifted decide proceed insert_sorted
    sorted_set is_error_code set_proxy_id set_schedulable get_account request send is_refused
    has_suffix has_infix outcome frozen_before_fields frozen_eq frozen_match frozen_of
    frozen_state_matches iterate lower_field non_secret_before preserved_eq preserved_status_state
    find get has text_or_empty truthy value_eq as_int int_digits is_space lstrip parse_int rstrip
    show_nat strip lower show_int collect read_page set_found note_rows all_found all_active
    check_found accounts_loop iter_accounts proxies_loop find_proxies verify_proxies_active pool_ids
    all_distinct check_row check_rows check_plan outcome_of summarise validate_plan_for_apply judge
    prepare backup_if write_out after_line after_try run_row run_rows run_prepared carry_out
    prepare_plan apply_plan
applies_plan = refl

-- The line of an applied row cannot be written: the row has a result that is applied and one that
-- failed.
abbrev writes_no_result : FileWrite → Account → Try (Unit {0}) × Account
writes_no_result (results_line (done _)) account = (err backup_failed, account)
writes_no_result _ account = (ok tt, account)

abbrev double_report : Report
double_report = record {
  results = report.results ++ failed (pos 11) (pos 3) backup_failed ∷ [];
  summary = record {
    total = 1;
    applied = 1;
    already_applied = 0;
    failed = 1;
    stopped_early = true;
    outcome = binding_partial_failure;
  };
}

counts_row_twice :
    (apply_plan api (ok tt) origin a_backup writes_no_result true (pos 1) (plan (pos 3)) start).0
    ≡ ok double_report
unfolding in_group account_group_ids dedupe grok_snapshot group_item_ids is_parent_empty
    is_proxy_empty item_ids non_secret_grok_snapshot pick_keys rate_limit_reset_present
    snapshot_status_code already_applied field_is is_schedulable candidate_reason apply_one_account
    bind_account mutate roll_back rollback_proxy verify drifted decide proceed insert_sorted
    sorted_set is_error_code set_proxy_id set_schedulable get_account request send is_refused
    has_suffix has_infix outcome frozen_before_fields frozen_eq frozen_match frozen_of
    frozen_state_matches iterate lower_field non_secret_before preserved_eq preserved_status_state
    find get has text_or_empty truthy value_eq as_int int_digits is_space lstrip parse_int rstrip
    show_nat strip lower show_int collect read_page set_found note_rows all_found all_active
    check_found accounts_loop iter_accounts proxies_loop find_proxies verify_proxies_active pool_ids
    all_distinct check_row check_rows check_plan outcome_of summarise validate_plan_for_apply judge
    prepare backup_if write_out after_line after_try record_failure run_row run_rows run_prepared
    carry_out prepare_plan apply_plan
counts_row_twice = refl

apply_plan-ok_example : Adds writes_no_result (pos 1) double_report
apply_plan-ok_example =
    apply_plan-ok api (ok tt) origin a_backup writes_no_result true (pos 1) (plan (pos 3)) start
      double_report counts_row_twice
