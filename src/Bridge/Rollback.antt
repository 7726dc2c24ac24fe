-- ===== src/Bridge/Rollback.antt =====
-- What bridge/bridge.py writes to an account and how it takes it back: `build_account_payload`,
-- `snapshot_restore_payload`, `account_state_fingerprint`, `delete_sub2api_account`,
-- `quarantine_sub2api_account`, `restore_sub2api_account`, `rollback_import_candidate` and
-- `promote_sub2api_account`.
pub mod Undone
pub mod Settled
use grok_build_auth.Prelude.{
  int_eq, text_eq, show_int, ℤ, pos, Text, codes, ℕ, Bool, true, false, not, ◌&&◌, ◌||◌, Option,
  none, some, [], ◌==◌, if◌then◌else◌, ok, err, ◌>>=◌,
}
use grok_build_auth.Bridge.Calls.{
  row_of, set_schedulable, get_account, delete_account, update_account, read_state, Bridge, Call,
  Env, Reply, sub2api_api, sub2api_api_status, find_account_snapshot_by_id,
}
use grok_build_auth.Effect.{◌>>>=◌, pure, raise, lift, try_except}
use grok_build_auth.Bridge.Auth.{
  token_times, runtime_error, key_error, credentials_advanced_after_candidate, is_end, value_error,
  Try, credentials_of, text_field,
}
use grok_build_auth.Json.{
  put, nil, show_text, item, to_int, or_value, Value, Fields, Items, field, end, str, int, bool,
  arr, obj, get, find, truthy, value_eq,
}
use grok_build_auth.Egress.Snapshot.{bool_eq}
use grok_build_auth.Egress.Account.{is_true}

abbrev value_or_key_error : Option Value → Try Value
value_or_key_error none = err key_error
value_or_key_error (some v) = ok v

-- `int(v or 1)`
abbrev int_or_1 : Value → Try Value
int_or_1 v =
    if truthy v
    then elim (to_int v) [ none ↦ err value_error | some n ↦ ok (int n) ]
    else ok (int (pos 1))

-- `list(v or [])`
abbrev list_or_empty : Value → Try Items
list_or_empty v =
    if truthy v then elim (items_of v) [ none ↦ err value_error | some xs ↦ ok xs ] else ok nil
  where
    items_of : Value → Option Items
    items_of (arr xs) = some xs
    items_of _ = none

abbrev dict_or_empty : Value → Value
dict_or_empty v = or_value v (obj end)

pub record State : Type 0 where
  pub token_hash : Text
  pub refresh_hash : Text
  pub token_version : Value
  pub schedulable : Value
  pub group_ids : Value

pub data Action : Type 0 where
  created updated : Action

-- What is reported of the account: imported or not, kept out of use, or not known.
pub data Imported : Type 0 where
  not_imported quarantined unknown yes_imported : Imported

abbrev cli_base_url : Value
cli_base_url = str (codes "https://cli-chat-proxy.grok.com/v1")

-- `expires_at` of the credentials, if the token has one.
abbrev with_expiry : ℤ → Fields → Fields
with_expiry exp credentials =
    if int_eq exp (pos 0) then credentials else put "expires_at" (str (show_int exp)) credentials

-- `str(state.pop(key, ""))`
abbrev popped : Option Value → Text
popped none = []
popped (some v) = show_text v

abbrev is_gone : ℕ → Bool
is_gone status = status == 200 || status == 204 || status == 404

-- The two fields of an update of the groups alone.
abbrev pub group_update : Items → Fields
group_update group_ids =
    field "group_ids" (arr group_ids) (field "confirm_mixed_channel_risk" (bool true) end)

abbrev pub is_isolated : Option State → Bool
is_isolated none = false
is_isolated (some state) = not (truthy state.schedulable) && not (truthy state.group_ids)

abbrev int_or_error : Option ℤ → Try ℤ
int_or_error none = err value_error
int_or_error (some n) = ok n

-- `int(d["id"])`
abbrev pub id_of : Fields → Try ℤ
id_of d = value_or_key_error (find "id" d) >>= λ id. int_or_error (to_int id)

abbrev row_credentials : Option Fields → Try Fields
row_credentials none = ok end
row_credentials (some row) = credentials_of row

abbrev reported : Imported → Bool → Bool × Imported
reported done true = (true, done)
reported done false = (false, unknown)

abbrev auth_if : Bool → Fields → Option Fields
auth_if true auth_data = some auth_data
auth_if false auth_data = none

abbrev state_or_raise : Option State → Try State
state_or_raise none = err runtime_error
state_or_raise (some state) = ok state

module _ (env : Env) where
  abbrev float_or_1 : Value → Try Value
  float_or_1 v = elim (env.to_float (or_value v (int (pos 1)))) [
    | none ↦ err value_error
    | some f ↦ ok f
  ]

  unfoldable pub snapshot_restore_payload : Fields → Try Fields
  unfolding find get
  snapshot_restore_payload snapshot = do
    name ← value_or_key_error (find "name" snapshot)
    platform ← value_or_key_error (find "platform" snapshot)
    kind ← value_or_key_error (find "type" snapshot)
    credentials ← value_or_key_error (find "credentials" snapshot)
    concurrency ← int_or_1 (get "concurrency" snapshot)
    priority ← int_or_1 (get "priority" snapshot)
    group_ids ← list_or_empty (get "group_ids" snapshot)
    rate_multiplier ← float_or_1 (get "rate_multiplier" snapshot)
    ok (
        field "name" name (
          field "platform" platform (
            field "type" kind (
              field "credentials" credentials (
                field "extra" (dict_or_empty (get "extra" snapshot)) (
                  field "proxy_id" (get "proxy_id" snapshot) (
                    field "concurrency" concurrency (
                      field "priority" priority (
                        field "status" (or_value (get "status" snapshot) (str (codes "active"))) (
                          field "schedulable" (bool (truthy (get "schedulable" snapshot))) (
                            field "group_ids" (arr group_ids) (
                              field "rate_multiplier" rate_multiplier
                                (field "confirm_mixed_channel_risk" (bool true) end)))))))))))))

  unfoldable pub build_account_payload : Text → Fields → Items → Bool → Fields
  unfolding put show_int token_times
  build_account_payload name auth_data group_ids schedulable =
      let based = put "base_url" cli_base_url auth_data in
      let fixed_credentials = with_expiry (token_times env.decode_segment based).1 based in
      let token_hash = env.sha256 (show_text (get "access_token" auth_data)) in
      field "name" (str name) (
        field "platform" (str (codes "grok")) (
          field "type" (str (codes "oauth")) (
            field "credentials" (obj fixed_credentials) (
              field "extra"
                (obj (
                  field "base_url" cli_base_url (
                    field "access_token_sha256" (str token_hash)
                      (field "import_source" (str (codes "grok-register-bridge")) end))))
                (field "concurrency" (int (pos 1)) (
                  field "group_ids" (arr group_ids) (
                    field "priority" (int (pos 1)) (
                      field "status" (str (codes "active")) (
                        field "schedulable" (bool schedulable)
                          (field "confirm_mixed_channel_risk" (bool true) end))))))))))

  abbrev state_of : Fields → State
  state_of row = record {
    token_hash = env.sha256 (popped (find "access_token" row));
    refresh_hash = env.sha256 (popped (find "refresh_token" row));
    token_version = get "token_version" row;
    schedulable = get "schedulable" row;
    group_ids = get "group_ids" row;
  }

  abbrev state_or_none : Option Fields → Try (Option State)
  state_or_none none = ok none
  state_or_none (some row) = ok (some (state_of row))

  abbrev pub state_of_value : Value → Try (Option State)
  state_of_value v = row_of v >>= state_or_none

  -- The state that a restored account has to have.
  abbrev pub is_restored : Fields → Fields → Items → Option State → Try Bool
  is_restored credentials snapshot expected none = ok false
  is_restored credentials snapshot expected (some state) = do
    group_ids ← list_or_empty state.group_ids
    ok (
        text_eq state.token_hash (env.sha256 (text_field "access_token" credentials))
        && text_eq state.refresh_hash (env.sha256 (text_field "refresh_token" credentials))
        && value_eq (arr group_ids) (arr expected)
        && bool_eq (truthy state.schedulable) (truthy (get "schedulable" snapshot)))

  -- The credentials of the row are read only when rotated ones are to be preserved.
  abbrev pub is_rotated : Option Fields → Fields → Bool → Try Bool
  is_rotated current auth_data false = ok false
  is_rotated current auth_data true = row_credentials current >>= λ current_credentials.
      ok (credentials_advanced_after_candidate env.decode_segment current_credentials auth_data)

  abbrev pub group_list : Items
  group_list = item (int env.group_id) nil

  abbrev pub is_promoted : State → Option State → Bool
  is_promoted verified none = false
  is_promoted verified (some final) =
      text_eq final.token_hash verified.token_hash
      && text_eq final.refresh_hash verified.refresh_hash
      && value_eq final.token_version verified.token_version
      && value_eq final.group_ids (arr group_list)
      && is_true final.schedulable

module _ {S : Type 0} (env : Env) (serve : Call → S → Reply × S) where
  unfoldable pub account_state_fingerprint : ℤ → Bridge S (Option State)
  account_state_fingerprint account_id =
      sub2api_api env serve (read_state account_id) >>>= λ row. lift (state_of_value env row)

  unfoldable pub delete_sub2api_account : ℤ → Bridge S Bool
  delete_sub2api_account account_id =
      sub2api_api_status env serve (delete_account account_id) >>>= λ status.
      if not (is_gone status)
      then pure false
      else (sub2api_api_status env serve (get_account account_id) >>>= λ left. pure (left == 404))

  unfoldable pub quarantine_sub2api_account : ℤ → Bridge S Bool
  quarantine_sub2api_account account_id =
      try_except
        (sub2api_api env serve (update_account account_id (group_update nil)) >>>= λ _.
          sub2api_api env serve (set_schedulable account_id false) >>>= λ _.
          account_state_fingerprint account_id >>>= λ state. pure (is_isolated state))
        (λ exc. pure false)

  -- The writes of `restore_sub2api_account` and the test of what they did.
  unfoldable pub restore_writes : ℤ → Fields → Fields → Fields → Bridge S Bool
  restore_writes account_id snapshot restore_snapshot credentials =
      lift (snapshot_restore_payload env restore_snapshot) >>>= λ payload.
      sub2api_api env serve (update_account account_id payload) >>>= λ _.
      sub2api_api env serve (set_schedulable account_id (truthy (get "schedulable" snapshot)))
      >>>= λ _. account_state_fingerprint account_id >>>= λ state.
          lift (list_or_empty (get "group_ids" snapshot)) >>>= λ expected.
          lift (is_restored env credentials snapshot expected state)

  -- The snapshot with the credentials that the account has by now, if they are later than the
  -- candidate's.
  unfoldable pub newer_snapshot : ℤ → Fields → Option Fields → Bridge S Fields
  newer_snapshot account_id snapshot none = pure snapshot
  newer_snapshot account_id snapshot (some candidate_auth) =
      if is_end candidate_auth
      then pure snapshot
      else (find_account_snapshot_by_id env serve account_id >>>= λ current.
          lift (row_credentials current) >>>= λ current_credentials.
          if credentials_advanced_after_candidate env.decode_segment current_credentials
            candidate_auth
          then pure (put "credentials" (obj current_credentials) snapshot)
          else pure snapshot)

  unfoldable pub restore_sub2api_account : Fields → Option Fields → Bridge S Bool
  restore_sub2api_account snapshot candidate_auth = lift (id_of snapshot) >>>= λ account_id.
      newer_snapshot account_id snapshot candidate_auth >>>= λ restore_snapshot.
      lift (credentials_of restore_snapshot) >>>= λ credentials.
      try_except (restore_writes account_id snapshot restore_snapshot credentials)
        (λ exc. pure false)

  -- A created account is deleted, or kept out of use when its credentials went on; an updated one
  -- is restored.
  unfoldable pub rollback_import_candidate :
      ℤ → Action → Option Fields → Fields → Bool → Bridge S (Bool × Imported)
  rollback_import_candidate account_id created snapshot auth_data preserve_rotated =
      find_account_snapshot_by_id env serve account_id >>>= λ current.
      lift (is_rotated env current auth_data preserve_rotated) >>>= λ rotated.
      if rotated
      then (quarantine_sub2api_account account_id >>>= λ done. pure (reported quarantined done))
      else (delete_sub2api_account account_id >>>= λ done. pure (reported not_imported done))
  rollback_import_candidate account_id updated none auth_data preserve_rotated = raise value_error
  rollback_import_candidate account_id updated (some snapshot) auth_data preserve_rotated =
      restore_sub2api_account snapshot (auth_if preserve_rotated auth_data) >>>= λ done.
      pure (reported not_imported done)

  unfoldable pub promote_sub2api_account : ℤ → Bridge S Bool
  promote_sub2api_account account_id = account_state_fingerprint account_id >>>= λ before.
      lift (state_or_raise before) >>>= λ verified_state.
      sub2api_api env serve (update_account account_id (group_update (group_list env))) >>>= λ _.
      sub2api_api env serve (set_schedulable account_id true) >>>= λ _.
      account_state_fingerprint account_id >>>= λ final_state.
      pure (is_promoted env verified_state final_state)
