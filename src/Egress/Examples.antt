-- ===== src/Egress/Examples.antt =====
-- The theorems about the egress tool at concrete inputs.
use grok_build_auth.Prelude.{
  has_infix, has_suffix, map, arith, ℤ, List, rstrip, lstrip, is_space, int_digits, strip, lower,
  parse_int, show_nat, show_int, pos, ◌≡◌, refl, true, false, none, some, [], ◌∷◌, ◌++◌, ok, err,
}
use grok_build_auth.Egress.Apply.{
  proceed, decide, drifted, verify, rollback_proxy, roll_back, mutate, bind_account, applied,
  Applied, apply_one_account,
}
use grok_build_auth.Egress.Client.{
  outcome, is_refused, request, get_account, set_schedulable, set_proxy_id, is_error_code, answer,
  Reply, get_request, Request, World,
}
use grok_build_auth.Egress.Apply.Undo.{restoration, apply_one_account-Traced, Traced, mutation}
use grok_build_auth.Egress.Account.{
  candidate_reason, is_schedulable, field_is, already_applied, snapshot_status_code,
  rate_limit_reset_present, pick_keys, non_secret_grok_snapshot, item_ids, is_proxy_empty,
  is_parent_empty, group_item_ids, grok_snapshot, dedupe, account_group_ids, in_group, candidate,
  Account,
}
use grok_build_auth.Json.{
  as_int, value_eq, value_eq, truthy, text_or_empty, has, get, find, bool, end, obj, int, field,
  Fields,
}
use grok_build_auth.Egress.Apply.Bound.{apply_one_account-ok, Shows}
use grok_build_auth.Egress.Snapshot.{
  preserved_status_state, preserved_eq, lower_field, iterate, frozen_state_matches, frozen_of,
  frozen_match, frozen_eq, frozen_before_fields, non_secret_before,
}
use grok_build_auth.Egress.Base.{
  quota_mismatch, proxy_verify, apply_failed, sorted_set, insert_sorted,
}
use grok_build_auth.Egress.Balance.{sum_quotas, compute_balanced_quotas, Quotas, count_of}
use grok_build_auth.Egress.Assign.{Row, assign_candidates_to_proxies}
use grok_build_auth.Egress.Assign.Shares.{
  assign_candidates_to_proxies_lem, quota_for, proxies, accounts, count,
  assign_candidates_to_proxies-quota_mismatch, IsShuffle,
}
use grok_build_auth.Egress.Balance.Quotas.{compute_balanced_quotas_lem, Counted, IsBalanced}

-- An Admin API of one account, on which a write sets the fields of its body.
abbrev store : Request → Account → Reply × Account
store r account = elim r.body [
  | none ↦ (answer 200 (field "code" (int (pos 0)) (field "data" (obj account) end)), account)
  | some body ↦ (answer 200 (field "code" (int (pos 0)) end), put_fields body account)
]
  where
    put_fields : Fields → Account → Account
    put_fields end account = account
    put_fields (field k v d) account = field k v (put_fields d account)

abbrev fresh : World Account
fresh = record { server = candidate; calls = [] }

-- A store that does not take the proxy.
abbrev deaf : Request → Account → Reply × Account
deaf r account = (answer 200 (field "code" (int (pos 0)) (field "data" (obj account) end)), account)

-- The account that is read back, and the result for it.
abbrev read_last : Account
read_last =
    field "schedulable" (bool true)
      (field "proxy_id" (int (pos 3)) (field "schedulable" (bool false) candidate))

abbrev result : Account → Applied
result after = record {
  account_id = pos 11;
  status = applied;
  proxy_id = pos 3;
  planned_before = non_secret_before candidate;
  live_before = non_secret_before candidate;
  after = non_secret_before after;
}

applies :
    ((apply_one_account store (pos 11) (pos 3) (pos 5) none fresh).0 ≡ ok (result read_last))
    × ((apply_one_account store (pos 11) (pos 3) (pos 5) none fresh).1.calls
        ≡ get_request (pos 11) ∷ mutation 11 (pos 3))
unfolding in_group account_group_ids dedupe grok_snapshot group_item_ids is_parent_empty
    is_proxy_empty item_ids non_secret_grok_snapshot pick_keys rate_limit_reset_present
    snapshot_status_code already_applied field_is is_schedulable candidate_reason apply_one_account
    bind_account mutate roll_back rollback_proxy verify drifted decide proceed insert_sorted
    sorted_set is_error_code set_proxy_id set_schedulable get_account request is_refused has_suffix
    has_infix outcome frozen_before_fields frozen_eq frozen_match frozen_of frozen_state_matches
    iterate lower_field non_secret_before preserved_eq preserved_status_state find get has
    text_or_empty truthy value_eq as_int int_digits is_space lstrip parse_int rstrip show_nat strip
    lower show_int
applies = (refl, refl)

-- The write of the proxy is lost, and the account is set back.
restores :
    ((apply_one_account deaf (pos 11) (pos 3) (pos 5) none fresh).0
      ≡ err (
          apply_failed
            (pos 11)
            proxy_verify
            (record { proxy_restored = true; schedulable_restored = true })))
    × ((apply_one_account deaf (pos 11) (pos 3) (pos 5) none fresh).1.calls
        ≡ get_request (pos 11) ∷ (mutation 11 (pos 3) ++ restoration 11))
unfolding in_group account_group_ids dedupe grok_snapshot group_item_ids is_parent_empty
    is_proxy_empty item_ids non_secret_grok_snapshot pick_keys rate_limit_reset_present
    snapshot_status_code already_applied field_is is_schedulable candidate_reason apply_one_account
    bind_account mutate roll_back rollback_proxy verify drifted decide proceed insert_sorted
    sorted_set is_error_code set_proxy_id set_schedulable get_account request is_refused has_suffix
    has_infix outcome frozen_before_fields frozen_eq frozen_match frozen_of frozen_state_matches
    iterate lower_field non_secret_before preserved_eq preserved_status_state find get has
    text_or_empty truthy value_eq as_int int_digits is_space lstrip parse_int rstrip show_nat strip
    lower show_int
restores = (refl, refl)

apply_one_account-Traced_example :
    Traced 11 (pos 3) fresh (apply_one_account deaf (pos 11) (pos 3) (pos 5) none fresh)
apply_one_account-Traced_example = apply_one_account-Traced deaf 11 (pos 3) (pos 5) none fresh

apply_one_account-ok_example : Shows (pos 3) (pos 5) (non_secret_before read_last)
apply_one_account-ok_example =
    apply_one_account-ok store (pos 11) (pos 3) (pos 5) none fresh (result read_last) applies.0

compute_balanced_quotas_lem_example :
    (quotas : Quotas) × (compute_balanced_quotas
        (pos 7 ∷ pos 3 ∷ pos 7 ∷ [])
        ((pos 3, pos 4) ∷ [])
        (pos 5)
      ≡ ok quotas)
    × (map (λ q. q.0) quotas ≡ sorted_set (pos 7 ∷ pos 3 ∷ pos 7 ∷ []))
    × (sum_quotas quotas ≡ 5)
    × IsBalanced ((pos 3, pos 4) ∷ []) quotas
unfolding count_of sorted_set
compute_balanced_quotas_lem_example =
    compute_balanced_quotas_lem ((pos 3, pos 4) ∷ []) (pos 7) (pos 3 ∷ pos 7 ∷ []) 5 counted
  where
    counted : Counted ((pos 3, pos 4) ∷ []) (sorted_set (pos 7 ∷ pos 3 ∷ pos 7 ∷ []))
    counted = (refl, (refl, tt))

-- A shuffle that leaves the order.
in_order : IsShuffle (λ xs. xs)
in_order = record { count_kept = λ a xs. refl; length_kept = λ xs. refl }

abbrev two_quotas : List (ℤ × ℤ)
two_quotas = (pos 3, pos 1) ∷ (pos 7, pos 2) ∷ []

assign_candidates_to_proxies_lem_example :
    (rows : List Row) × (assign_candidates_to_proxies
        (λ xs. xs)
        (λ xs. xs)
        (pos 12 ∷ pos 11 ∷ pos 13 ∷ [])
        two_quotas
      ≡ ok rows)
    × ((a : ℤ) → count a (accounts rows) ≡ count a (pos 12 ∷ pos 11 ∷ pos 13 ∷ []))
    × ((p : ℤ) → count p (proxies rows) ≡ quota_for p two_quotas)
assign_candidates_to_proxies_lem_example =
    assign_candidates_to_proxies_lem (λ xs. xs) (λ xs. xs) (pos 12 ∷ pos 11 ∷ pos 13 ∷ [])
      two_quotas in_order in_order (refl, (refl, tt)) refl

assign_candidates_to_proxies-quota_mismatch_example :
    assign_candidates_to_proxies (λ xs. xs) (λ xs. xs) (pos 12 ∷ []) two_quotas ≡ err quota_mismatch
assign_candidates_to_proxies-quota_mismatch_example =
    assign_candidates_to_proxies-quota_mismatch (λ xs. xs) (λ xs. xs) (pos 12 ∷ []) two_quotas
      (refl, (refl, tt)) (λ e. omega (arith, e))
