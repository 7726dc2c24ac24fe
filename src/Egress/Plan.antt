-- ===== src/Egress/Plan.antt =====
-- The checks of `validate_plan_for_apply` of bind_quota_egress.py. The origin of the client's URL
-- is a parameter.
pub mod Checked
use grok_build_auth.Prelude.{
  ◌>>◌, ltb_ℤ, text_eq, strip, lower, ℤ, pos, Text, codes, Bool, true, false, not, ◌&&◌, Option,
  none, some, List, [], ◌∷◌, ok, err, ◌>>=◌,
}
use grok_build_auth.Egress.Base.{
  candidate_count_mismatch, assignments_missing, pool_duplicate, pool_missing, group_missing,
  base_url_origin, account_type, plan_platform, plan_version, before_mismatch, before_missing,
  proxy_outside_pool, tool_identity, assignment_duplicate, pool_id, assignment_ids_missing,
  assignment_row, pool_row, Try, PlanFault, bad_plan, mem,
}
use grok_build_auth.Egress.Pages.{count_items}
use grok_build_auth.Json.{
  str, text_or_empty, nil, get, as_int, item, arr, obj, value_eq, Value, Fields, Items,
}
use grok_build_auth.Egress.Account.{is_int, field_is}

-- A row of the plan, once it is validated.
pub record Assignment : Type 0 where
  pub account_id : ℤ
  pub proxy_id : ℤ
  pub before : Fields

abbrev pub guard : Bool → PlanFault → Try (Unit {0})
guard true fault = ok tt
guard false fault = err (bad_plan fault)

abbrev pub at_least_one : ℤ → Bool
at_least_one n = not (ltb_ℤ n (pos 1))

abbrev pub dict_row : PlanFault → Value → Try Fields
dict_row fault (obj d) = ok d
dict_row fault _ = err (bad_plan fault)

abbrev pub int_row : PlanFault → Option ℤ → Try ℤ
int_row fault none = err (bad_plan fault)
int_row fault (some n) = ok n

abbrev pub list_row : PlanFault → Value → Try Items
list_row fault (arr xs) = ok xs
list_row fault _ = err (bad_plan fault)

abbrev pub is_nonempty : Items → Bool
is_nonempty nil = false
is_nonempty (item _ _) = true

-- `for row in raw_pool`
unfoldable pub pool_ids : Items → Try (List ℤ)
unfolding as_int get
pool_ids nil = ok []
pool_ids (item v xs) = do
  row ← dict_row pool_row v
  proxy_id ← int_row pool_id (as_int (get "id" row))
  guard (at_least_one proxy_id) pool_id
  rest ← pool_ids xs
  ok (proxy_id ∷ rest)

-- `len(set(proxy_ids)) == len(proxy_ids)`
unfoldable pub all_distinct : List ℤ → Bool
all_distinct [] = true
all_distinct (x ∷ xs) = not (mem x xs) && all_distinct xs

-- One row of the assignments, against the account ids before it.
unfoldable pub check_row : List ℤ → List ℤ → Value → Try Assignment
unfolding as_int get
check_row proxy_ids assignment_ids v = do
  row ← dict_row assignment_row v
  account_id ← int_row assignment_ids_missing (as_int (get "account_id" row))
  guard (at_least_one account_id) assignment_ids_missing
  proxy_id ← int_row assignment_ids_missing (as_int (get "proxy_id" row))
  guard (not (mem account_id assignment_ids)) assignment_duplicate
  guard (mem proxy_id proxy_ids) proxy_outside_pool
  before ← dict_row before_missing (get "before" row)
  guard (is_int (as_int (get "id" before)) account_id) before_mismatch
  ok (record { account_id = account_id; proxy_id = proxy_id; before = before })

unfoldable pub check_rows : List ℤ → List ℤ → Items → Try (List Assignment)
unfolding check_row
check_rows proxy_ids assignment_ids nil = ok []
check_rows proxy_ids assignment_ids (item v xs) = do
  a ← check_row proxy_ids assignment_ids v
  rest ← check_rows proxy_ids (a.account_id ∷ assignment_ids) xs
  ok (a ∷ rest)

pub record Valid : Type 0 where
  pub group_id : ℤ
  pub assignments : List Assignment
  pub proxy_ids : List ℤ

-- The checks before the proxies are asked for, in their order.
unfoldable pub check_plan : Try Text → Fields → Try Valid
unfolding value_eq get as_int field_is text_or_empty strip lower pool_ids all_distinct check_rows
check_plan client_origin plan = do
  guard (value_eq (get "tool" plan) (str (codes "bind_quota_egress"))) tool_identity
  guard (is_int (as_int (get "version" plan)) (pos 1)) plan_version
  guard (field_is "platform" (codes "grok") plan) plan_platform
  guard (field_is "type" (codes "oauth") plan) account_type
  origin ← client_origin
  guard (text_eq (lower (strip (text_or_empty (get "base_url_origin" plan)))) origin)
      base_url_origin
  group_id ← int_row group_missing (as_int (get "group_id" plan))
  guard (at_least_one group_id) group_missing
  raw_pool ← list_row pool_missing (get "proxy_pool" plan)
  guard (is_nonempty raw_pool) pool_missing
  proxy_ids ← pool_ids raw_pool
  guard (all_distinct proxy_ids) pool_duplicate
  raw_assignments ← list_row assignments_missing (get "assignments" plan)
  guard (is_int (as_int (get "candidate_count" plan)) (pos (count_items raw_assignments)))
      candidate_count_mismatch
  assignments ← check_rows proxy_ids [] raw_assignments
  ok (record { group_id = group_id; assignments = assignments; proxy_ids = proxy_ids })
