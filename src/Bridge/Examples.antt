-- ===== src/Bridge/Examples.antt =====
-- The theorems about the bridge at concrete inputs.
use grok_build_auth.Bridge.Push.{
  import_auth, check_existing, give_up, give_up_promotion, import_checked, import_new,
  import_update, promote, refuse_existing, tested, write_failed_create, write_failed_update,
  write_update,
}
use grok_build_auth.Bridge.Calls.{
  probe_loop, probe_auth_once, call, probe_of, find_account_snapshot, is_account_name, sub2api_api,
  only_match, find_account_snapshot_by_id, has_name_tail, sub2api_api_status,
  test_sub2api_account_result,
}
use grok_build_auth.Json.{value_eq, put, show_text, text_or_empty, to_int, truthy}
use grok_build_auth.Prelude.{
  strip, lower, has_infix, int_digits, is_space, lstrip, parse_int, rstrip, show_int, show_nat,
  split_char, split_once,
}
use grok_build_auth.Bridge.Probe.{
  extract_assistant_text, account_test_result, account_test_succeeded, any_complete,
  classify_probe_payload, content_texts, message_texts, says_denied, says_exhausted, says_limited,
  says_revoked, splitlines,
}
use grok_build_auth.Bridge.Auth.{
  is_address, auth_is_stale, auth_subject, auth_subject_mismatch, claims_of, decode_jwt_payload,
  is_domain, is_local_part, pad_segment,
}
use grok_build_auth.Bridge.Rollback.{
  account_state_fingerprint, build_account_payload, delete_sub2api_account, newer_snapshot,
  promote_sub2api_account, quarantine_sub2api_account, restore_sub2api_account, restore_writes,
  rollback_import_candidate, snapshot_restore_payload,
}
use grok_build_auth.Prelude.{
  arith, true, text_eq, none, if◌then◌else◌, [], codes, pos, false, Option, some, Bool, Text, ◌≡◌,
  refl, ok,
}
use grok_build_auth.Bridge.Push.{isolate, imported_ok, push_auth, Candidate}
use grok_build_auth.Json.{
  nil, item, null, arr, int, bool, end, find, str, obj, get, Value, field, Fields,
}
use grok_build_auth.Bridge.Calls.{
  find_accounts, read_state, find_by_id, test_account, get_account, http_error, delete_account,
  set_schedulable, update_account, create_account, answered, probe_account, probe_auth_direct,
  Reply, Env, Call, World,
}
use grok_build_auth.Bridge.Auth.{is_stale, token_times, credentials_advanced_after_candidate}
use grok_build_auth.Bridge.Calls.Ran.{Ran}
use grok_build_auth.Bridge.Calls.Probes.{probe_auth_direct-Probed, Probed}
use grok_build_auth.Bridge.Push.Settled.{isolate-Settles, Settles}
use grok_build_auth.Bridge.Push.Outcome.{push_auth-Pushed, Pushed}
use grok_build_auth.Bridge.Rollback.{created}
use grok_build_auth.Bridge.Probe.{usable}

-- A token is its payload's segment between two dots; the payload `a` was issued at 5, all others at 9.
abbrev segment : Text → Option Value
segment part =
    some (obj (field "iat" (int (if text_eq part (codes "a===") then pos 5 else pos 9)) end))

-- An answer to a probe, and an answer to a test.
abbrev load : Text → Option Value
load text =
    if text_eq text (codes "probe")
    then some (
        obj (
          field "status" (str (codes "completed")) (field "output_text" (str (codes "hello")) end)))
    else some (obj (field "success" (bool true) end))

abbrev bridge : Env
bridge = record {
  decode_segment = segment;
  loads = load;
  sha256 = λ text. text;
  to_float = λ v. some v;
  now = pos 0;
  group_id = pos 5;
  marker = codes "hello";
}

abbrev row : Bool → Value
row in_use = obj (
    field "access_token" (str (codes "x.b.y")) (
      field "refresh_token" (str (codes "r"))
        (field "schedulable" (bool in_use) (field "group_ids" (arr (item (int (pos 5)) nil)) end))))

-- A service without accounts: the account that is created is put to use by an update.
abbrev service : Call → Bool → Reply × Bool
service (probe_account auth_data) in_use = (answered 200 null (codes "probe"), in_use)
service (create_account payload) in_use =
    (answered 200 (obj (field "data" (obj (field "id" (int (pos 7)) end)) end)) [], in_use)
service (update_account account_id payload) in_use = (answered 200 null [], true)
service (set_schedulable account_id schedulable) in_use = (answered 200 null [], in_use)
service (delete_account account_id) in_use = (http_error 404 [], in_use)
service (get_account account_id) in_use = (http_error 404 [], in_use)
service (test_account account_id) in_use = (answered 200 null (codes "test"), in_use)
service (find_by_id account_id) in_use = (answered 200 null [], in_use)
service (read_state account_id) in_use = (answered 200 (row in_use) [], in_use)
service (find_accounts name email_addr subject) in_use = (answered 200 (arr nil) [], in_use)

abbrev fresh : World Bool
fresh = record { server = false; calls = [] }

abbrev auth : Text → Text → Fields
auth access refresh = field "access_token" (str access) (field "refresh_token" (str refresh) end)

abbrev older : Fields
older = auth (codes "x.a.y") (codes "r")

abbrev newer : Fields
newer = auth (codes "x.b.y") (codes "s")

abbrev account : Text
account = codes "grok_u_example.org"

push_imports :
    (push_auth bridge service account older (codes "u@example.org") fresh).0
    ≡ ok (imported_ok (pos 7) created usable)
unfolding push_auth import_auth probe_auth_direct probe_loop probe_auth_once call probe_of value_eq
    get strip extract_assistant_text find_account_snapshot is_account_name lower is_address
    sub2api_api only_match check_existing auth_is_stale auth_subject auth_subject_mismatch claims_of
    credentials_advanced_after_candidate decode_jwt_payload is_domain is_local_part is_stale
    pad_segment token_times find_account_snapshot_by_id has_name_tail sub2api_api_status
    test_sub2api_account_result account_test_result account_test_succeeded any_complete
    classify_probe_payload content_texts message_texts says_denied says_exhausted says_limited
    says_revoked splitlines give_up give_up_promotion import_checked import_new import_update
    isolate promote refuse_existing tested write_failed_create write_failed_update write_update
    account_state_fingerprint build_account_payload delete_sub2api_account newer_snapshot
    promote_sub2api_account quarantine_sub2api_account restore_sub2api_account restore_writes
    rollback_import_candidate snapshot_restore_payload find put show_text text_or_empty to_int
    truthy has_infix int_digits is_space lstrip parse_int rstrip show_int show_nat split_char
    split_once
push_imports = refl

push_auth-Pushed_example :
    Ran fresh
      (Pushed bridge service account older (codes "u@example.org"))
      (push_auth bridge service account older (codes "u@example.org"))
push_auth-Pushed_example =
    push_auth-Pushed bridge service account older (codes "u@example.org") fresh

abbrev candidate : Candidate
candidate = record { account_id = pos 7; action = created; snapshot = none }

isolate-Settles_example :
    Ran fresh
      (Settles bridge service account older candidate)
      (isolate bridge service account older candidate)
isolate-Settles_example = isolate-Settles bridge service account older candidate fresh

probe_auth_direct-Probed_example :
    Ran fresh
      (Probed bridge service older fresh.server 3)
      (probe_auth_direct bridge service older 3)
probe_auth_direct-Probed_example =
    probe_auth_direct-Probed bridge service older 3 fresh (omega arith)
