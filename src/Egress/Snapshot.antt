-- ===== src/Egress/Snapshot.antt =====
-- The snapshots of an account that bind_quota_egress.py records and compares: `non_secret_before`,
-- `frozen_before_fields`, `preserved_status_state` and `frozen_state_matches`.
use grok_build_auth.Prelude.{
  int_eq, text_eq, lower, ℤ, pos, Text, codes, Bool, true, false, not, ◌&&◌, Option, none, some,
  List, [], ◌∷◌, if◌then◌else◌, ok, err, ◌>>=◌,
}
use grok_build_auth.Egress.Base.{type_error, sorted_set, Try}
use grok_build_auth.Json.{
  arr, bool, end, field, str, item, int, null, text_or_empty, obj, nil, has, is_zero, Items, Fields,
  as_int, Value, value_eq, get, truthy,
}
use grok_build_auth.Egress.Account.{
  is_true, non_secret_grok_snapshot, item_ids, Account, account_group_ids,
}
use Prim.Native.String.{String}

abbrev pub or_null : Option ℤ → Value
or_null none = null
or_null (some n) = int n

abbrev pub ints : List ℤ → Items
ints [] = nil
ints (x ∷ xs) = item (int x) (ints xs)

unfoldable pub non_secret_before : Account → Fields
unfolding as_int get truthy account_group_ids non_secret_grok_snapshot
non_secret_before account = field "id" (or_null (as_int (get "id" account))) (
    field "platform" (get "platform" account) (
      field "type" (get "type" account) (
        field "status" (get "status" account) (
          field "schedulable" (bool (truthy (get "schedulable" account))) (
            field "proxy_id" (or_null (as_int (get "proxy_id" account))) (
              field "parent_account_id" (or_null (as_int (get "parent_account_id" account))) (
                field "group_ids" (arr (ints (account_group_ids account))) (
                  field "rate_limit_reset_at" (get "rate_limit_reset_at" account) (
                    field "rate_limited_at" (get "rate_limited_at" account) (
                      field "overload_until" (get "overload_until" account) (
                        field "temp_unschedulable_until" (get "temp_unschedulable_until" account) (
                          field "temp_unschedulable_reason"
                            (get "temp_unschedulable_reason" account)
                            (field "error_message" null (
                              field "updated_at" (get "updated_at" account) (
                                field "grok_usage_snapshot" (obj (non_secret_grok_snapshot account))
                                  end)))))))))))))))

pub record Frozen : Type 0 where
  pub platform : Text
  pub kind : Text
  pub status : Text
  pub schedulable : Bool
  pub proxy_id : ℤ
  pub group_ids : List ℤ
  pub parent_account_id : ℤ
  pub snapshot_status_code : Option ℤ
  pub rate_limit_reset_at : Value

abbrev chars : Text → Items
chars [] = nil
chars (c ∷ s) = item (str (c ∷ [])) (chars s)

abbrev keys : Fields → Items
keys end = nil
keys (field k v d) = item (str (codes k)) (keys d)

-- What `for item in raw_groups or []` goes over; a number cannot be gone over.
unfoldable pub iterate : Value → Try Items
unfolding truthy
iterate (arr xs) = ok xs
iterate (str s) = ok (chars s)
iterate (obj d) = ok (keys d)
iterate v = if truthy v then err type_error else ok nil

abbrev pub int_or_zero : Option ℤ → ℤ
int_or_zero none = pos 0
int_or_zero (some n) = n

abbrev status_code_of : Value → Option ℤ
status_code_of (obj d) = as_int (get "status_code" d)
status_code_of _ = none

-- `str(before.get(key) or "").lower()`
unfoldable pub lower_field : String → Fields → Text
unfolding get text_or_empty lower
lower_field key d = lower (text_or_empty (get key d))

unfoldable pub frozen_of : Fields → Try Frozen
unfolding lower_field get as_int iterate item_ids sorted_set
frozen_of before = do
  groups ← iterate (get "group_ids" before)
  ok (record {
    platform = lower_field "platform" before;
    kind = lower_field "type" before;
    status = lower_field "status" before;
    schedulable = is_true (get "schedulable" before);
    proxy_id = int_or_zero (as_int (get "proxy_id" before));
    group_ids = sorted_set (item_ids groups);
    parent_account_id = int_or_zero (as_int (get "parent_account_id" before));
    snapshot_status_code = status_code_of (get "grok_usage_snapshot" before);
    rate_limit_reset_at = get "rate_limit_reset_at" before;
  })

unfoldable pub frozen_before_fields : Fields → Try Frozen
unfolding has frozen_of non_secret_before
frozen_before_fields account =
    frozen_of (if has "extra" account then non_secret_before account else account)

abbrev pub ints_eq : List ℤ → List ℤ → Bool
ints_eq [] [] = true
ints_eq (x ∷ xs) (y ∷ ys) = int_eq x y && ints_eq xs ys
ints_eq _ _ = false

abbrev pub option_eq : Option ℤ → Option ℤ → Bool
option_eq none none = true
option_eq (some x) (some y) = int_eq x y
option_eq _ _ = false

abbrev pub bool_eq : Bool → Bool → Bool
bool_eq true b = b
bool_eq false b = not b

-- `expected == actual`
unfoldable pub frozen_eq : Frozen → Frozen → Bool
unfolding value_eq
frozen_eq a b =
    text_eq a.platform b.platform
    && text_eq a.kind b.kind
    && text_eq a.status b.status
    && bool_eq a.schedulable b.schedulable
    && int_eq a.proxy_id b.proxy_id
    && ints_eq a.group_ids b.group_ids
    && int_eq a.parent_account_id b.parent_account_id
    && option_eq a.snapshot_status_code b.snapshot_status_code
    && value_eq a.rate_limit_reset_at b.rate_limit_reset_at

unfoldable pub frozen_match : ℤ → Bool → Frozen → Frozen → Bool
frozen_match expected_proxy_id false expected actual = frozen_eq expected actual
frozen_match expected_proxy_id true expected actual =
    is_zero expected.proxy_id
    && int_eq actual.proxy_id expected_proxy_id
    && frozen_eq (record expected { proxy_id = expected_proxy_id }) actual

-- The flag allows an account that is bound already.
unfoldable pub frozen_state_matches : Fields → Account → ℤ → Bool → Try Bool
frozen_state_matches planned_before live expected_proxy_id allow_already_applied = do
  expected ← frozen_before_fields planned_before
  actual ← frozen_before_fields live
  ok (frozen_match expected_proxy_id allow_already_applied expected actual)

-- The ids of an account are distinct, so sorting them is sorting their set.
pub record Preserved : Type 0 where
  pub group_ids : List ℤ
  pub parent_account_id : Option ℤ
  pub grok_usage_snapshot : Fields
  pub rate_limit_reset_at : Value
  pub rate_limited_at : Value
  pub overload_until : Value
  pub temp_unschedulable_until : Value
  pub temp_unschedulable_reason : Value

unfoldable pub preserved_status_state : Account → Preserved
unfolding sorted_set account_group_ids as_int get non_secret_grok_snapshot
preserved_status_state account = record {
  group_ids = sorted_set (account_group_ids account);
  parent_account_id = as_int (get "parent_account_id" account);
  grok_usage_snapshot = non_secret_grok_snapshot account;
  rate_limit_reset_at = get "rate_limit_reset_at" account;
  rate_limited_at = get "rate_limited_at" account;
  overload_until = get "overload_until" account;
  temp_unschedulable_until = get "temp_unschedulable_until" account;
  temp_unschedulable_reason = get "temp_unschedulable_reason" account;
}

unfoldable pub preserved_eq : Preserved → Preserved → Bool
unfolding value_eq
preserved_eq a b =
    ints_eq a.group_ids b.group_ids
    && option_eq a.parent_account_id b.parent_account_id
    && value_eq (obj a.grok_usage_snapshot) (obj b.grok_usage_snapshot)
    && value_eq a.rate_limit_reset_at b.rate_limit_reset_at
    && value_eq a.rate_limited_at b.rate_limited_at
    && value_eq a.overload_until b.overload_until
    && value_eq a.temp_unschedulable_until b.temp_unschedulable_until
    && value_eq a.temp_unschedulable_reason b.temp_unschedulable_reason
