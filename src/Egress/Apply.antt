-- ===== src/Egress/Apply.antt =====
-- `apply_one_account` of bind_quota_egress.py.
pub mod Trace
pub mod Undo
pub mod Bound
use grok_build_auth.Prelude.{
  ℤ, pos, codes, Bool, true, false, not, Option, none, some, if◌then◌else◌, ok, err, ◌>>=◌,
}
use grok_build_auth.Egress.Base.{
  Reason, state_changed, parent_verify, group_verify, status_verify, schedulable_verify,
  proxy_verify, frozen_drift, apply_failed, not_candidate, Try, ToolError,
}
use grok_build_auth.Json.{end, field, as_int, truthy, get, Fields}
use grok_build_auth.Egress.Client.{
  set_proxy_id, get_account, set_schedulable, World, Reply, Request,
}
use grok_build_auth.Egress.Account.{
  is_parent_empty, in_group, field_is, is_schedulable, is_int, already_applied, candidate_reason,
  is_proxy_empty, Account,
}
use grok_build_auth.Egress.Snapshot.{
  preserved_eq, int_or_zero, preserved_status_state, non_secret_before, Preserved,
  frozen_state_matches,
}
use grok_build_auth.Egress.Monad.{lift, pure, raise, ◌>>>=◌, try_except, attempt, Tool}

pub data Status : Type 0 where
  already_bound applied : Status

-- The result of an account, with its snapshots.
pub record Applied : Type 0 where
  pub account_id : ℤ
  pub status : Status
  pub proxy_id : ℤ
  pub planned_before : Fields
  pub live_before : Fields
  pub after : Fields

abbrev nonempty : Fields → Bool
nonempty end = false
nonempty (field _ _ _) = true

-- `before or live_before`
abbrev or_else : Option Fields → Fields → Fields
or_else none d = d
or_else (some before) d = if nonempty before then before else d

-- `before is not None and not frozen_state_matches(...)`
unfoldable pub drifted : Option Fields → Account → ℤ → Bool → Try Bool
drifted none live expected_proxy_id is_applied = ok false
drifted (some before) live expected_proxy_id is_applied = do
  matches ← frozen_state_matches before live expected_proxy_id is_applied
  ok (not matches)

-- The checks on the account that is read back, in their order.
unfoldable pub verify : Account → Preserved → ℤ → ℤ → Try (Unit {0})
verify after preserved_before expected_proxy_id group_id =
    if not (is_int (as_int (get "proxy_id" after)) expected_proxy_id)
    then err proxy_verify
    else if not (is_schedulable after)
    then err schedulable_verify
    else if not (field_is "status" (codes "active") after)
    then err status_verify
    else if not (in_group after group_id)
    then err group_verify
    else if not (is_parent_empty (get "parent_account_id" after))
    then err parent_verify
    else if not (preserved_eq (preserved_status_state after) preserved_before)
    then err state_changed
    else ok tt

-- The proxy that the rollback writes back.
unfoldable pub rollback_proxy : Account → ℤ
rollback_proxy live =
    if is_proxy_empty (get "proxy_id" live)
    then pos 0
    else int_or_zero (as_int (get "proxy_id" live))

module _ {S : Type 0} (serve : Request → S → Reply × S)
    (account_id expected_proxy_id group_id : ℤ) where
  -- The `try` block.
  unfoldable pub mutate : Account → Tool (World S) Account
  mutate live = set_schedulable serve account_id false >>>= λ _.
      set_proxy_id serve account_id expected_proxy_id >>>= λ _.
      set_schedulable serve account_id true >>>= λ _. get_account serve account_id >>>= λ after.
      lift (verify after (preserved_status_state live) expected_proxy_id group_id) >>>= λ _.
      pure after

  -- The `except` block: both writes are tried, whatever becomes of the first.
  unfoldable pub roll_back : Account → ToolError → Tool (World S) Account
  roll_back live exc =
      attempt (set_proxy_id serve account_id (rollback_proxy live)) >>>= λ proxy_restored.
      attempt (set_schedulable serve account_id (truthy (get "schedulable" live)))
      >>>= λ schedulable_restored. raise (
          apply_failed account_id exc (record {
            proxy_restored = proxy_restored;
            schedulable_restored = schedulable_restored;
          }))

  abbrev pub bound : Option Fields → Account → Account → Applied
  bound before live after = record {
    account_id = account_id;
    status = applied;
    proxy_id = expected_proxy_id;
    planned_before = or_else before (non_secret_before live);
    live_before = non_secret_before live;
    after = non_secret_before after;
  }

  unfoldable pub bind_account : Option Fields → Account → Tool (World S) Applied
  bind_account before live =
      try_except (mutate live) (roll_back live) >>>= λ after. pure (bound before live after)

  abbrev pub already : Option Fields → Account → Applied
  already before live = record {
    account_id = account_id;
    status = already_bound;
    proxy_id = expected_proxy_id;
    planned_before = or_else before (non_secret_before live);
    live_before = non_secret_before live;
    after = non_secret_before live;
  }

  -- `if reason:`
  unfoldable pub proceed : Option Fields → Account → Option Reason → Tool (World S) Applied
  proceed before live (some reason) = raise (not_candidate account_id reason)
  proceed before live none = bind_account before live

  -- What follows the comparison with the planned state.
  unfoldable pub decide : Option Fields → Account → Bool → Tool (World S) Applied
  decide before live true = raise (frozen_drift account_id)
  decide before live false =
      if already_applied live expected_proxy_id group_id
      then pure (already before live)
      else proceed before live (candidate_reason live group_id)

  unfoldable pub apply_one_account : Option Fields → Tool (World S) Applied
  apply_one_account before = get_account serve account_id >>>= λ live.
      let is_applied = already_applied live expected_proxy_id group_id in
      lift (drifted before live expected_proxy_id is_applied) >>>= decide before live
