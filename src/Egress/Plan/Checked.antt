-- ===== src/Egress/Plan/Checked.antt =====
-- What a plan that passed the checks of `validate_plan_for_apply` is.
use grok_build_auth.Prelude.{
  ◌>>◌, Text, ok-injective, All-map, int_eq, ℤ, ◌≡◌, refl, Bool, true, false, not, List, [], ◌∷◌,
  map, arith, All, ok, bind-ok,
}
use grok_build_auth.Egress.Plan.{
  is_nonempty, list_row, all_distinct, pool_ids, check_plan, Valid, int_row, dict_row, check_rows,
  check_row, Assignment, guard, at_least_one,
}
use grok_build_auth.Egress.Pages.Accounts.{IsDistinct}
use grok_build_auth.Egress.Base.{
  candidate_count_mismatch, assignments_missing, pool_duplicate, pool_missing, group_missing,
  base_url_origin, account_type, plan_platform, plan_version, tool_identity, pool_id, pool_row,
  before_mismatch, before_missing, proxy_outside_pool, assignment_duplicate, assignment_ids_missing,
  assignment_row, Try, PlanFault, mem,
}
use grok_build_auth.Json.{Fields, nil, item, get, as_int, Value, Items}
use grok_build_auth.Egress.Account.{is_int}
use mathlib.Core.Path.{subst}

-- A check that a block passed, and the rest of the block.
guard-ok :
    {A : Type 0} (b : Bool) (fault : PlanFault) (rest : Try A) (a : A)
    → (guard b fault >> rest) ≡ ok a
    → (b ≡ true) × (rest ≡ ok a)
guard-ok true fault rest a h = (refl, h)
guard-ok false fault rest a h = cc

-- A row names an account, a proxy of the pool, and a snapshot of that account.
abbrev pub IsRow : List ℤ → Assignment → Type 0
IsRow proxy_ids a =
    (at_least_one a.account_id ≡ true)
    × (mem a.proxy_id proxy_ids ≡ true)
    × (is_int (as_int (get "id" a.before)) a.account_id ≡ true)

check_row-IsRow :
    (proxy_ids assignment_ids : List ℤ) (v : Value) (a : Assignment)
    → check_row proxy_ids assignment_ids v ≡ ok a
    → IsRow proxy_ids a × (mem a.account_id assignment_ids ≡ false)
unfolding check_row
check_row-IsRow proxy_ids assignment_ids v a e =
    let (row, _, e1) = bind-ok (dict_row assignment_row v) _ e in
    let (account_id, _, e2) =
      bind-ok (int_row assignment_ids_missing (as_int (get "account_id" row))) _ e1 in
    let (positive, e3) = guard-ok (at_least_one account_id) assignment_ids_missing _ a e2 in
    let (proxy_id, _, e4) =
      bind-ok (int_row assignment_ids_missing (as_int (get "proxy_id" row))) _ e3 in
    let (new, e5) = guard-ok (not (mem account_id assignment_ids)) assignment_duplicate _ a e4 in
    let (inside, e6) = guard-ok (mem proxy_id proxy_ids) proxy_outside_pool _ a e5 in
    let (before, _, e7) = bind-ok (dict_row before_missing (get "before" row)) _ e6 in
    let (same, e8) =
      guard-ok (is_int (as_int (get "id" before)) account_id) before_mismatch _ a e7 in
    subst (λ a'. IsRow proxy_ids a' × (mem a'.account_id assignment_ids ≡ false)) (ok-injective e8)
      ((positive, inside, same), unset (mem account_id assignment_ids) new)
  where
    unset : (b : Bool) → not b ≡ true → b ≡ false
    unset true h = cc
    unset false h = refl

abbrev pub account_ids : List Assignment → List ℤ
account_ids rows = map (λ a. a.account_id) rows

mem-fresh :
    (x : ℤ) (rows : List Assignment)
    → All (λ a. int_eq a.account_id x ≡ false) rows
    → mem x (account_ids rows) ≡ false
mem-fresh x [] h = refl
mem-fresh x (a ∷ rows) h = ground (arith, mem-fresh x rows h.1, h.0)

abbrev Rows : List ℤ → List ℤ → List Assignment → Type 0
Rows proxy_ids seen rows =
    All (IsRow proxy_ids) rows
    × All (λ a. mem a.account_id seen ≡ false) rows
    × IsDistinct (account_ids rows)

check_rows-Rows :
    (proxy_ids seen : List ℤ) (xs : Items) (rows : List Assignment)
    → check_rows proxy_ids seen xs ≡ ok rows
    → Rows proxy_ids seen rows
unfolding check_rows
check_rows-Rows proxy_ids seen nil rows e =
    subst (Rows proxy_ids seen) (ok-injective e) (tt, tt, tt)
check_rows-Rows proxy_ids seen (item v xs) rows e =
    let (a, checked, e1) = bind-ok (check_row proxy_ids seen v) _ e in
    let (rest, later, e2) = bind-ok (check_rows proxy_ids (a.account_id ∷ seen) xs) _ e1 in
    let (isrow, new) = check_row-IsRow proxy_ids seen v a checked in
    let (rows', fresh, distinct) = check_rows-Rows proxy_ids (a.account_id ∷ seen) xs rest later in
    subst (Rows proxy_ids seen) (ok-injective e2) (
      (isrow, rows'),
      (new, All-map _ _ rest (λ b h. ground (arith, h)) fresh),
      (mem-fresh a.account_id rest (All-map _ _ rest (λ b h. ground (arith, h)) fresh), distinct),
    )

all_distinct-IsDistinct : (xs : List ℤ) → all_distinct xs ≡ true → IsDistinct xs
unfolding all_distinct
all_distinct-IsDistinct [] h = tt
all_distinct-IsDistinct (x ∷ xs) h = (ground arith, all_distinct-IsDistinct xs (ground arith))

pool_ids-All :
    (xs : Items) (pids : List ℤ) → pool_ids xs ≡ ok pids → All (λ p. at_least_one p ≡ true) pids
unfolding pool_ids
pool_ids-All nil pids e = subst (All (λ p. at_least_one p ≡ true)) (ok-injective e) tt
pool_ids-All (item v xs) pids e =
    let (row, _, e1) = bind-ok (dict_row pool_row v) _ e in
    let (pid, _, e2) = bind-ok (int_row pool_id (as_int (get "id" row))) _ e1 in
    let (positive, e3) = guard-ok (at_least_one pid) pool_id _ pids e2 in
    let (rest, later, e4) = bind-ok (pool_ids xs) _ e3 in
    subst (All (λ p. at_least_one p ≡ true)) (ok-injective e4)
      (positive, pool_ids-All xs rest later)

abbrev pub IsSound : Valid → Type 0
IsSound valid =
    (at_least_one valid.group_id ≡ true)
    × All (λ p. at_least_one p ≡ true) valid.proxy_ids
    × IsDistinct valid.proxy_ids
    × All (IsRow valid.proxy_ids) valid.assignments
    × IsDistinct (account_ids valid.assignments)

-- A plan that passes the checks has a group id that is at least 1, proxy ids that are at least 1 and
-- distinct, and assignments of distinct accounts, each with an id that is at least 1, a proxy of the
-- pool, and a snapshot that is of that account.
pub check_plan-ok :
    (client_origin : Try Text) (plan : Fields) (valid : Valid)
    → check_plan client_origin plan ≡ ok valid
    → IsSound valid
unfolding check_plan
check_plan-ok client_origin plan valid e0 =
    let (_, e1) = guard-ok _ tool_identity _ valid e0 in
    let (_, e2) = guard-ok _ plan_version _ valid e1 in
    let (_, e3) = guard-ok _ plan_platform _ valid e2 in
    let (_, e4) = guard-ok _ account_type _ valid e3 in
    let (origin, _, e5) = bind-ok client_origin _ e4 in
    let (_, e6) = guard-ok _ base_url_origin _ valid e5 in
    let (group_id, _, e7) = bind-ok (int_row group_missing (as_int (get "group_id" plan))) _ e6 in
    let (positive, e8) = guard-ok (at_least_one group_id) group_missing _ valid e7 in
    let (raw_pool, _, e9) = bind-ok (list_row pool_missing (get "proxy_pool" plan)) _ e8 in
    let (_, e10) = guard-ok (is_nonempty raw_pool) pool_missing _ valid e9 in
    let (proxy_ids, pooled, e11) = bind-ok (pool_ids raw_pool) _ e10 in
    let (distinct, e12) = guard-ok (all_distinct proxy_ids) pool_duplicate _ valid e11 in
    let (raw, _, e13) = bind-ok (list_row assignments_missing (get "assignments" plan)) _ e12 in
    let (_, e14) = guard-ok _ candidate_count_mismatch _ valid e13 in
    let (rows, checked, e15) = bind-ok (check_rows proxy_ids [] raw) _ e14 in
    let (sound, _, apart) = check_rows-Rows proxy_ids [] raw rows checked in
    subst IsSound (ok-injective e15) (
      positive,
      pool_ids-All raw_pool proxy_ids pooled,
      all_distinct-IsDistinct proxy_ids distinct,
      sound,
      apart,
    )
