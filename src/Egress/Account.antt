-- ===== src/Egress/Account.antt =====
-- The account helpers of bind_quota_egress.py. An account is the dict of its JSON object.
pub mod Truthy
use grok_build_auth.Prelude.{
  int_eq, text_eq, is_empty, strip, lower, ℤ, pos, Text, codes, ◌+◌, ◌-◌, ◌≡◌, refl, Bool, true,
  false, not, ◌&&◌, Option, none, some, List, [], ◌∷◌, ◌++◌, if◌then◌else◌,
}
use grok_build_auth.Egress.Base.{
  rate_limit_reset_missing, snapshot_not_429, proxy_not_empty, parent_not_empty, not_schedulable,
  status_not_active, type_not_oauth, platform_not_grok, mem, wrong_group, Reason,
}
use grok_build_auth.Json.{
  null, obj, nil, item, arr, bool, str, int, text_or_empty, end, Items, as_int, Value, find, field,
  get, Fields, is_zero,
}
use Prim.Native.String.{String}

abbrev pub Account : Type 0
Account = Fields

abbrev zero_or_none : Option ℤ → Bool
zero_or_none none = true
zero_or_none (some n) = is_zero n

unfoldable pub is_proxy_empty : Value → Bool
unfolding as_int
is_proxy_empty proxy_id = zero_or_none (as_int proxy_id)

unfoldable pub is_parent_empty : Value → Bool
unfolding as_int
is_parent_empty parent_account_id = zero_or_none (as_int parent_account_id)

abbrev push : Option ℤ → List ℤ → List ℤ
push none ids = ids
push (some n) ids = n ∷ ids

unfoldable pub item_ids : Items → List ℤ
unfolding as_int
item_ids nil = []
item_ids (item v xs) = push (as_int v) (item_ids xs)

abbrev group_of : Value → Option ℤ
group_of (obj d) = as_int (get "group_id" d)
group_of _ = none

unfoldable pub group_item_ids : Items → List ℤ
unfolding as_int get
group_item_ids nil = []
group_item_ids (item v xs) = push (group_of v) (group_item_ids xs)

abbrev items_of : Value → Items
items_of (arr xs) = xs
items_of _ = nil

-- The loop that drops an id which was seen.
unfoldable pub dedupe : List ℤ → List ℤ → List ℤ
dedupe seen [] = []
dedupe seen (x ∷ xs) =
    let rest = dedupe (if mem x seen then seen else x ∷ seen) xs in
    if mem x seen then rest else x ∷ rest

unfoldable pub account_group_ids : Account → List ℤ
unfolding item_ids group_item_ids dedupe get
account_group_ids account = dedupe [] (
    item_ids (items_of (get "group_ids" account))
    ++ group_item_ids (items_of (get "account_groups" account)))

unfoldable pub in_group : Account → ℤ → Bool
unfolding account_group_ids
in_group account group_id = mem group_id (account_group_ids account)

abbrev dict_of : Value → Option Fields
dict_of (obj d) = some d
dict_of _ = none

unfoldable pub grok_snapshot : Account → Option Fields
unfolding get
grok_snapshot account = elim (dict_of (get "extra" account)) [
  | none ↦ none
  | some extra ↦ dict_of (get "grok_usage_snapshot" extra)
]

abbrev pub quota_snapshot_keys : List String
quota_snapshot_keys =
    "requests" ∷ "tokens" ∷ "retry_after_seconds" ∷ "subscription_tier" ∷ "entitlement_status"
    ∷ "status_code" ∷ "headers_observed" ∷ "observation_source" ∷ "last_probe_at"
    ∷ "last_headers_seen_at" ∷ "updated_at" ∷ []

-- The entries of the dict whose keys are listed, in the order of the list.
unfoldable pub pick_keys : List String → Fields → Fields
unfolding find
pick_keys [] d = end
pick_keys (k ∷ ks) d = elim (find k d) [
  | none ↦ pick_keys ks d
  | some v ↦ field k v (pick_keys ks d)
]

abbrev or_end : Option Fields → Fields
or_end none = end
or_end (some d) = d

-- The round trip through JSON copies the value.
unfoldable pub non_secret_grok_snapshot : Account → Fields
unfolding grok_snapshot pick_keys
non_secret_grok_snapshot account = pick_keys quota_snapshot_keys (or_end (grok_snapshot account))

unfoldable pub snapshot_status_code : Account → Option ℤ
unfolding grok_snapshot as_int get
snapshot_status_code account = elim (grok_snapshot account) [
  | none ↦ none
  | some snap ↦ as_int (get "status_code" snap)
]

abbrev present : Value → Bool
present null = false
present (str s) = not (is_empty (strip s))
present _ = true

unfoldable pub rate_limit_reset_present : Account → Bool
unfolding get strip
rate_limit_reset_present account = present (get "rate_limit_reset_at" account)

-- `str(account.get(key) or "").lower() == word`
unfoldable pub field_is : String → Text → Account → Bool
unfolding get text_or_empty lower
field_is key word account = text_eq (lower (text_or_empty (get key account))) word

abbrev pub is_true : Value → Bool
is_true (bool b) = b
is_true _ = false

-- `account.get("schedulable") is True`
unfoldable pub is_schedulable : Account → Bool
unfolding get
is_schedulable account = is_true (get "schedulable" account)

abbrev is_429 : Option ℤ → Bool
is_429 none = false
is_429 (some n) = int_eq n (pos 429)

unfoldable pub candidate_reason : Account → ℤ → Option Reason
candidate_reason account group_id =
    if not (field_is "platform" (codes "grok") account)
    then some platform_not_grok
    else if not (field_is "type" (codes "oauth") account)
    then some type_not_oauth
    else if not (field_is "status" (codes "active") account)
    then some status_not_active
    else if not (is_schedulable account)
    then some not_schedulable
    else if not (in_group account group_id)
    then some wrong_group
    else if not (is_parent_empty (get "parent_account_id" account))
    then some parent_not_empty
    else if not (is_proxy_empty (get "proxy_id" account))
    then some proxy_not_empty
    else if not (is_429 (snapshot_status_code account))
    then some snapshot_not_429
    else if not (rate_limit_reset_present account)
    then some rate_limit_reset_missing
    else none

abbrev pub is_int : Option ℤ → ℤ → Bool
is_int none m = false
is_int (some n) m = int_eq n m

abbrev has_int : Option ℤ → Bool
has_int none = false
has_int (some _) = true

unfoldable pub already_applied : Account → ℤ → ℤ → Bool
already_applied account expected_proxy_id group_id =
    has_int (as_int (get "id" account))
    && field_is "platform" (codes "grok") account
    && field_is "type" (codes "oauth") account
    && field_is "status" (codes "active") account
    && is_schedulable account
    && is_int (as_int (get "proxy_id" account)) expected_proxy_id
    && in_group account group_id
    && is_parent_empty (get "parent_account_id" account)

abbrev pub candidate : Account
candidate = field "id" (int (pos 11)) (
    field "platform" (str (codes "Grok")) (
      field "type" (str (codes "oauth")) (
        field "status" (str (codes "active")) (
          field "schedulable" (bool true) (
            field "group_ids" (arr (item (str (codes " 5 ")) (item (int (pos 5)) nil))) (
              field "extra"
                (obj
                  (field "grok_usage_snapshot" (obj (field "status_code" (int (pos 429)) end)) end))
                (field "rate_limit_reset_at" (str (codes "2026-01-01")) end)))))))

accepts_candidate :
    (candidate_reason candidate (pos 5) ≡ none)
    × (candidate_reason candidate (pos 6) ≡ some wrong_group)
    × (account_group_ids candidate ≡ pos 5 ∷ [])
unfolding candidate_reason field_is is_schedulable in_group is_parent_empty is_proxy_empty
    snapshot_status_code rate_limit_reset_present
accepts_candidate = (refl, refl, refl)
