-- ===== src/Bridge/Calls.antt =====
-- The calls that bridge/bridge.py makes of the Sub2API service, of its database and of the probed
-- service, which are not part of the program: the parameter `serve` answers them.
pub mod Ran
pub mod Probes
use grok_build_auth.Prelude.{
  starts_with, contains, text_eq, is_empty, strip, lower, ℤ, Text, codes, ℕ, zero, suc, ◌-◌, Bool,
  true, false, not, ◌&&◌, ◌||◌, Option, none, some, List, [], ◌∷◌, ◌++◌, ◌==◌, if◌then◌else◌, drop,
  ok, err, ◌>>=◌,
}
use grok_build_auth.Effect.{Effect, ◌>>>=◌, pure, raise, lift}
use grok_build_auth.Json.{value_eq, null, truthy, Value, Fields, obj, arr, str, get, item, nil}
use grok_build_auth.Bridge.Auth.{
  runtime_error, is_address, attribute_error, is_domain, api_error, is_lower_or_digit, value_error,
  Try, Exc,
}
use grok_build_auth.Bridge.Probe.{
  forbidden, invalid_probe_response, upstream_error, invalid_response, probe_network_error, Code,
  no_code, network_error, extract_assistant_text, Category, classify_probe_payload, passed,
  TestResult, account_test_result, Probe,
}

pub data Call : Type 0 where
  probe_account : Fields → Call
  create_account : Fields → Call
  update_account : ℤ → Fields → Call
  set_schedulable : ℤ → Bool → Call
  delete_account get_account test_account find_by_id read_state : ℤ → Call
  find_accounts : Text → Text → Text → Call

-- An answer with its status, an answer with an error status, or no answer.
pub data Reply : Type 0 where
  answered : ℕ → Value → Text → Reply
  http_error : ℕ → Text → Reply
  no_answer : Reply

-- The services with their state, and the calls that were made of them.
pub record World (S : Type 0) : Type 0 where
  pub server : S
  pub calls : List Call

-- What the program takes from its settings and from the libraries.
pub record Env : Type 0 where
  pub decode_segment : Text → Option Value
  pub loads : Text → Option Value
  pub sha256 : Text → Text
  pub to_float : Value → Option Value
  pub now : ℤ
  pub group_id : ℤ
  pub marker : Text

abbrev pub Bridge : Type 0 → Type 0 → Type 0
Bridge S A = Effect Exc (World S) A

-- `sub2api_api` and `_psql_json`: an error status is an exception.
abbrev pub value_of : Reply → Try Value
value_of (answered status v text) = ok v
value_of (http_error status text) = err api_error
value_of no_answer = err api_error

-- `sub2api_api_status`: an error status is a status.
abbrev pub status_of : Reply → Try ℕ
status_of (answered status v text) = ok status
status_of (http_error status text) = ok status
status_of no_answer = err api_error

abbrev pub text_of : Reply → Try Text
text_of (answered status v text) = ok text
text_of (http_error status text) = err api_error
text_of no_answer = err api_error

-- The full match of `grok_[a-z0-9._+-]+_[a-z0-9.-]+` behind its first word.
abbrev is_name_char : ℕ → Bool
is_name_char c = is_lower_or_digit c || contains c (codes "._+-")

unfoldable pub has_name_tail : Text → Bool
unfolding is_domain
has_name_tail [] = false
has_name_tail (c ∷ s) = (c == b'_' && is_domain s) || (is_name_char c && has_name_tail s)

abbrev is_name_rest : Text → Bool
is_name_rest [] = false
is_name_rest (c ∷ s) = is_name_char c && has_name_tail s

unfoldable pub is_account_name : Text → Bool
unfolding has_name_tail
is_account_name name = starts_with (codes "grok_") name && is_name_rest (drop 5 name)

-- A row of the database as it is used: a falsy one counts as none, and only a dict has `get`.
abbrev pub row_of : Value → Try (Option Fields)
row_of v = if truthy v then dict_or_raise v else ok none
  where
    dict_or_raise : Value → Try (Option Fields)
    dict_or_raise (obj d) = ok (some d)
    dict_or_raise _ = err attribute_error

-- `matches[0] if matches else None`
unfoldable pub only_match : Value → Try (Option Fields)
unfolding truthy
only_match (arr nil) = ok none
only_match (arr (item v nil)) = row_of v
only_match (arr (item v (item _ _))) = err runtime_error
only_match _ = err runtime_error

module _ {S : Type 0} (env : Env) (serve : Call → S → Reply × S) where
  -- A call is logged, whatever its answer.
  unfoldable pub call : {A : Type 0} → (Reply → Try A) → Call → Bridge S A
  call read c w =
      let (reply, server') = serve c w.server in
      (read reply, record { server = server'; calls = w.calls ++ c ∷ [] })

  unfoldable pub sub2api_api : Call → Bridge S Value
  sub2api_api = call value_of

  unfoldable pub sub2api_api_status : Call → Bridge S ℕ
  sub2api_api_status = call status_of

  -- The two searches of the database.
  unfoldable pub find_account_snapshot : Text → Text → Text → Bridge S (Option Fields)
  find_account_snapshot name email_addr subject =
      if not (is_account_name name)
      then raise value_error
      else if not (is_empty (lower (strip email_addr)))
          && not (is_address (lower (strip email_addr)))
      then raise value_error
      else if contains 0 (strip subject)
      then raise value_error
      else (sub2api_api (find_accounts name (lower (strip email_addr)) (strip subject))
          >>>= λ matches. lift (only_match matches))

  unfoldable pub find_account_snapshot_by_id : ℤ → Bridge S (Option Fields)
  find_account_snapshot_by_id account_id =
      sub2api_api (find_by_id account_id) >>>= λ row. lift (row_of row)

  unfoldable pub test_sub2api_account_result : ℤ → Bridge S TestResult
  test_sub2api_account_result account_id = call text_of (test_account account_id) >>>= λ raw_body.
      pure (account_test_result env.loads raw_body)

  -- One probe, which raises nothing.
  abbrev completed : Value → Text → Try Bool
  completed (obj d) marker =
      if value_eq (get "status" d) (str (codes "completed"))
      then (extract_assistant_text (obj d) >>= λ text. ok (text_eq (strip text) marker))
      else ok false
  completed _ marker = ok false

  abbrev parsed : Option Value → Value
  parsed none = null
  parsed (some v) = v

  abbrev probed : ℕ → Bool → Probe
  probed status true = record {
    is_ok = true;
    category = passed;
    error_code = no_code;
    http_status = status;
  }
  probed status false = record {
    is_ok = false;
    category = invalid_response;
    error_code = invalid_probe_response;
    http_status = status;
  }

  abbrev classified : ℕ → Category × Code → Probe
  classified status (category, code) = record {
    is_ok = false;
    category = category;
    error_code = code;
    http_status = status;
  }

  -- `passed` of an answer with a status
  abbrev passed_of : ℕ → Text → Try Bool
  passed_of status text =
      if status == 200 then completed (parsed (env.loads text)) env.marker else ok false

  -- An exception counts as a network error.
  abbrev probed_or_error : ℕ → Try Bool → Probe
  probed_or_error status (ok is_passed) = probed status is_passed
  probed_or_error status (err exc) = classified 0 (network_error, probe_network_error)

  unfoldable pub probe_of : Reply → Probe
  probe_of (answered status v text) = probed_or_error status (passed_of status text)
  probe_of (http_error status text) = classified status (classify_probe_payload status text)
  probe_of no_answer = classified 0 (network_error, probe_network_error)

  unfoldable pub probe_auth_once : Fields → Bridge S Probe
  probe_auth_once auth_data = call (λ reply. ok (probe_of reply)) (probe_account auth_data)

  -- The categories after which the probe is made again.
  abbrev pub is_retryable : Category → Bool
  is_retryable network_error = true
  is_retryable upstream_error = true
  is_retryable forbidden = true
  is_retryable invalid_response = true
  is_retryable _ = false

  abbrev pub is_final : Probe → Bool
  is_final result =
      result.is_ok
      || result.http_status == 402
      || result.http_status == 429
      || not (is_retryable result.category)

  -- The loop, with the attempts that are left after this one.
  unfoldable pub probe_loop : Fields → ℕ → Bridge S Probe
  probe_loop auth_data zero = probe_auth_once auth_data
  probe_loop auth_data (suc left) = probe_auth_once auth_data >>>= λ result.
      if is_final result then pure result else probe_loop auth_data left

  unfoldable pub probe_auth_direct : Fields → ℕ → Bridge S Probe
  probe_auth_direct auth_data attempts = probe_loop auth_data (attempts - 1)
