-- ===== src/Cpa/Examples.antt =====
-- The theorems about the auth files at concrete inputs.

use grok_build_auth.Prelude.{
  split_char, show_nat, show_int, rstrip, parse_int, lstrip, lower, is_space, int_digits,
  has_suffix, has_infix, ◌-ℤ◌, strip, ◌∷◌, false, ℕ, List, some, refl, [], ok, codes, none, Text,
  ◌≡◌,
}
use grok_build_auth.Json.{
  value_eq, to_int, show_text, find, get, truthy, Value, text_or_empty, obj, end, str, field,
  Fields,
}
use grok_build_auth.Cpa.State.{
  settle, replace_if_fingerprint, prepare, is_expected, check_source, read_json, any_newer, clear,
  file_name_of, state_named, write, AuthState, Files, FilePath, Move, transition,
}
use grok_build_auth.Cpa.Schema.{
  token_storage, normalised_base_url, expired_from_access_token, build_cpa_xai_auth,
}
use grok_build_auth.Cpa.Names.{
  sanitize_file_segment, text_field, identity, fingerprint, file_name, credential_file_name,
}
use grok_build_auth.Cpa.State.Moved.{transition-Moved, Moved}
use grok_build_auth.Cpa.State.Lifecycle.{transition-Implements, set_state, Implements}
use grok_build_auth.Cpa.Names.Safe.{credential_file_name-IsSegment, IsSegment}
use grok_build_auth.Cpa.Reprobe.{
  push_fingerprint, push_error_code, bridge_metadata, save, read_push, count, on_files, ask,
  old_record, read_path, push_call, refresh_call, probe_call, new_result, NetCall, World, Env, Args,
}
use grok_build_auth.Cpa.Reprobe.Process.{
  try_refresh_access_token, skipped, push_exhausted, process_verified, process_refreshed,
  process_refresh, process_pending, process_exhausted, process_cooling, process_cooldown,
  move_unless, push_auth_file, push_passed, promote_path, process_pass, process_decision,
  process_probed, probe_auth, probe_loop, process_open, process_known, process_body, process_locked,
}
use grok_build_auth.Cpa.Preprobe.{
  texts_of_items, texts_of_contents, is_token_invalid, is_rate_limited, is_denied, classify,
  assistant_output_texts, is_completed, read_completion, read_answer, is_malformed, no_answer,
  answered, Answer,
}
use grok_build_auth.Cpa.Refresh.{rebuild_refreshed_auth, read_token, read_refresh}

abbrev payload : Fields
payload = field "email" (str (codes " A@b.c ")) (field "refresh_token" (str (codes "r")) end)

abbrev pending_path : FilePath
pending_path = record { dir = codes "/r/cpa_pending"; name = codes "xai-A@b.c.json" }

abbrev verified_path : FilePath
verified_path = record { dir = codes "/r/cpa_auths"; name = codes "xai-A@b.c.json" }

abbrev no_files : Files
no_files p = none

abbrev one_pending : Files
one_pending = write pending_path (record { content = some (obj payload); mtime = 3 }) no_files

abbrev promote : Move
promote = record {
  root = codes "/r";
  payload = payload;
  target = codes "verified";
  verified_dir = none;
  source_path = some pending_path;
  expected_source_fingerprint = some (codes "r");
  now = 8;
  now_ms = 0;
  write_fails = λ p. false;
  unlink_fails = λ p. false;
}

promotes :
    ((transition (λ text. text) promote one_pending).0 ≡ ok verified_path)
    × ((transition (λ text. text) promote one_pending).1 pending_path ≡ none)
unfolding transition state_named identity text_or_empty check_source read_json fingerprint any_newer
    credential_file_name clear
promotes = (refl, refl)

transition-Moved_example : Moved promote one_pending (transition (λ text. text) promote one_pending)
transition-Moved_example = transition-Moved (λ text. text) promote one_pending

abbrev take_in : Move
take_in = record promote { source_path = none; expected_source_fingerprint = none }

transition-Implements_example :
    (state : AuthState) × (state_named (codes "verified") ≡ ok state)
    × Implements
        (codes "/r")
        (transition (λ text. text) take_in no_files).1
        (set_state (file_name_of 0 payload) state (obj payload) (λ name. none))
unfolding transition state_named identity text_or_empty check_source credential_file_name clear
transition-Implements_example =
    transition-Implements (λ text. text) take_in no_files (λ name. none) refl (λ name state. refl)
      verified_path refl

credential_file_name-IsSegment_example :
    (segment : Text) × (credential_file_name 0 (codes "../../x@y") [] ≡ file_name segment)
    × IsSegment segment
credential_file_name-IsSegment_example = credential_file_name-IsSegment 0 (codes "../../x@y") []

abbrev settings : Args
settings = record {
  root = codes "/r";
  attempts = 2;
  remote_base = codes "bridge";
  remote_secret = codes "s";
  require_created = false;
  push_cooldown = false;
}

abbrev outside : Env
outside = record {
  clock = record { decode_segment = λ part. none; rfc3339 = λ n. none; now_text = [] };
  sha256 = λ text. text;
  dumps = λ d. text_field "refresh_token" d;
  loads = λ text. none;
  marker = codes "m";
  now = 9;
  now_ms = 0;
  write_fails = λ p. false;
  unlink_fails = λ p. false;
}

abbrev completion : Value
completion =
    obj (field "status" (str (codes "completed")) (field "output_text" (str (codes "m")) end))

-- Services of which the probe passes and the bridge cannot be reached.
abbrev unreachable : NetCall → ℕ → Answer × ℕ
unreachable (probe_call auth) n = (answered 200 [] (some completion), n)
unreachable (refresh_call auth) n = (no_answer, n)
unreachable (push_call base name auth) n = (no_answer, n)

abbrev whole_payload : Fields
whole_payload = field "access_token" (str (codes "a")) payload

abbrev at_start : World ℕ
at_start = record {
  server = 0;
  files = write pending_path (record { content = some (obj whole_payload); mtime = 3 }) no_files;
  checkpoint = λ p. end;
  result = new_result;
}

-- The path is counted as passed and as an error.
counted_twice :
    ((process_locked outside settings unreachable pending_path at_start).passed ≡ 1)
    × ((process_locked outside settings unreachable pending_path at_start).errors ≡ 1)
unfolding process_locked process_body read_path old_record process_known truthy get process_open
    probe_loop probe_auth is_malformed strip text_or_empty ask read_answer read_completion
    is_completed process_probed process_decision process_pass promote_path on_files transition
    state_named identity check_source fingerprint any_newer credential_file_name count push_passed
    push_auth_file read_push save sanitize_file_segment assistant_output_texts classify is_denied
    is_rate_limited is_token_invalid texts_of_contents texts_of_items read_refresh read_token
    rebuild_refreshed_auth move_unless process_cooldown process_cooling process_exhausted
    process_pending process_refresh process_refreshed process_verified push_exhausted skipped
    try_refresh_access_token bridge_metadata push_error_code push_fingerprint build_cpa_xai_auth
    expired_from_access_token normalised_base_url token_storage clear is_expected prepare read_json
    replace_if_fingerprint settle find show_text to_int value_eq ◌-ℤ◌ has_infix has_suffix
    int_digits is_space lower lstrip parse_int rstrip show_int show_nat split_char
counted_twice = (refl, refl)

abbrev one_job : List (FilePath × World ℕ)
one_job = (pending_path, at_start) ∷ []
