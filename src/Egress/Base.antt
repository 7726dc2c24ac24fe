-- ===== src/Egress/Base.antt =====
-- The errors of bind_quota_egress.py and its sets of integers.
use grok_build_auth.Prelude.{
  refl, int_eq_iff, sym, ◌≢◌, All-map, int_eq, ltb_ℤ, ℤ, ℕ, ◌≡◌, inl, inr, Bool, true, false, ◌||◌,
  List, [], ◌∷◌, arith, if◌then◌else◌, Bool-cases, All, Result,
}
use mathlib.Core.Path.{subst}

-- Why an account is no candidate.
pub data Reason : Type 0 where
  platform_not_grok type_not_oauth status_not_active not_schedulable wrong_group : Reason
  parent_not_empty proxy_not_empty snapshot_not_429 rate_limit_reset_missing : Reason

-- What the rollback of one account did: whether each of its two writes went through.
pub record Rollback : Type 0 where
  pub proxy_restored : Bool
  pub schedulable_restored : Bool

-- What `validate_plan_for_apply` finds wrong.
pub data PlanFault : Type 0 where
  tool_identity plan_version plan_platform account_type base_url_origin : PlanFault
  group_missing pool_missing pool_row pool_id pool_duplicate : PlanFault
  assignments_missing candidate_count_mismatch assignment_row assignment_ids_missing : PlanFault
  assignment_duplicate proxy_outside_pool before_missing before_mismatch : PlanFault

-- `ToolError` by its message, and the exceptions that the code does not turn into one.
pub data ToolError : Type 0 where
  empty_pool bad_candidate_count negative_count balance_error : ToolError
  negative_quota quota_mismatch : ToolError
  refused_call network_error other_error api_code not_an_object : ToolError
  http_status : ℕ → ToolError
  frozen_drift : ℤ → ToolError
  not_candidate : ℤ → Reason → ToolError
  proxy_verify schedulable_verify status_verify group_verify parent_verify state_changed : ToolError
  apply_failed : ℤ → ToolError → Rollback → ToolError
  bad_page_size list_not_object items_missing item_not_object id_missing : ToolError
  duplicate_ids pagination_guard : ToolError
  no_proxy_ids proxies_not_object proxies_not_found proxies_not_active : ToolError
  no_confirmation bad_failure_limit backup_failed type_error : ToolError
  bad_plan : PlanFault → ToolError
  precheck_drift : ℤ → ToolError
  precheck_failed : ℤ → Reason → ToolError

abbrev pub Try {ℓ} : Type ℓ → Type ℓ
Try A = Result ToolError A

-- `sorted({...})`
unfoldable pub insert_sorted : ℤ → List ℤ → List ℤ
insert_sorted x [] = x ∷ []
insert_sorted x (y ∷ ys) =
    if ltb_ℤ x y then x ∷ y ∷ ys else if int_eq x y then y ∷ ys else y ∷ insert_sorted x ys

unfoldable pub sorted_set : List ℤ → List ℤ
unfolding insert_sorted
sorted_set [] = []
sorted_set (x ∷ xs) = insert_sorted x (sorted_set xs)

abbrev pub mem : ℤ → List ℤ → Bool
mem x [] = false
mem x (y ∷ ys) = int_eq x y || mem x ys

-- Strictly ascending.
abbrev pub IsAscending : List ℤ → Type 0
IsAscending [] = Unit
IsAscending (x ∷ xs) = All (λ y. ltb_ℤ x y ≡ true) xs × IsAscending xs

All-insert_sorted :
    (P : ℤ → Type 0) (x : ℤ) (ys : List ℤ) → P x → All P ys → All P (insert_sorted x ys)
unfolding insert_sorted
All-insert_sorted P x [] p h = (p, tt)
All-insert_sorted P x (y ∷ ys) p h = elim (Bool-cases (ltb_ℤ x y)) [
  | inl lt ↦ rw lt (p, h)
  | inr nlt ↦ elim (Bool-cases (int_eq x y)) [
    | inl eq ↦ rw nlt (rw eq h)
    | inr ne ↦ rw nlt (rw ne (h.0, All-insert_sorted P x ys p h.1))
  ]
]

ltb_ℤ_trans : (a b c : ℤ) → ltb_ℤ a b ≡ true → ltb_ℤ b c ≡ true → ltb_ℤ a c ≡ true
ltb_ℤ_trans a b c p q = ground arith

ltb_ℤ_total : (a b : ℤ) → ltb_ℤ a b ≡ false → int_eq a b ≡ false → ltb_ℤ b a ≡ true
ltb_ℤ_total a b p q = ground arith

pub ltb_ℤ-ne : (a b : ℤ) → ltb_ℤ a b ≡ true → int_eq a b ≡ false
ltb_ℤ-ne a b p = ground arith

insert_sorted-IsAscending :
    (x : ℤ) (ys : List ℤ) → IsAscending ys → IsAscending (insert_sorted x ys)
unfolding insert_sorted
insert_sorted-IsAscending x [] h = (tt, tt)
insert_sorted-IsAscending x (y ∷ ys) h = elim (Bool-cases (ltb_ℤ x y)) [
  | inl lt ↦ rw lt ((lt, All-map _ _ ys (λ z. ltb_ℤ_trans x y z lt) h.0), h)
  | inr nlt ↦ elim (Bool-cases (int_eq x y)) [
    | inl eq ↦ rw nlt (rw eq h)
    | inr ne ↦ rw nlt (
        rw ne (
          All-insert_sorted (λ z. ltb_ℤ y z ≡ true) x ys (ltb_ℤ_total x y nlt ne) h.0,
          insert_sorted-IsAscending x ys h.1,
        ))
  ]
]

pub sorted_set-IsAscending : (xs : List ℤ) → IsAscending (sorted_set xs)
unfolding sorted_set
sorted_set-IsAscending [] = tt
sorted_set-IsAscending (x ∷ xs) =
    insert_sorted-IsAscending x (sorted_set xs) (sorted_set-IsAscending xs)

insert_sorted-ne-nil : (x : ℤ) (ys : List ℤ) → insert_sorted x ys ≢ []
unfolding insert_sorted
insert_sorted-ne-nil x [] e = cc
insert_sorted-ne-nil x (y ∷ ys) e = ground arith

pub sorted_set-ne-nil : (x : ℤ) (xs : List ℤ) → sorted_set (x ∷ xs) ≢ []
unfolding sorted_set
sorted_set-ne-nil x xs = insert_sorted-ne-nil x (sorted_set xs)

insert_sorted-All :
    (P : ℤ → Type 0) (x : ℤ) (ys : List ℤ) → All P (insert_sorted x ys) → P x × All P ys
unfolding insert_sorted
insert_sorted-All P x [] h = h
insert_sorted-All P x (y ∷ ys) h = go (ltb_ℤ x y) (int_eq x y) (insert_sorted-All P x ys) refl h
  where
    go :
        (below same : Bool) (later : All P (insert_sorted x ys) → P x × All P ys)
        → int_eq x y ≡ same
        → All P (if below then x ∷ y ∷ ys else if same then y ∷ ys else y ∷ insert_sorted x ys)
        → P x × (P y × All P ys)
    go true same later e k = k
    go false true later e k = (subst P (sym ((int_eq_iff x y).0 e)) k.0, k)
    go false false later e k = let (px, rest) = later k.1 in (px, (k.0, rest))

-- What holds of the set holds of the list.
pub sorted_set-All : (P : ℤ → Type 0) (xs : List ℤ) → All P (sorted_set xs) → All P xs
unfolding sorted_set
sorted_set-All P [] h = tt
sorted_set-All P (x ∷ xs) h =
    let (px, rest) = insert_sorted-All P x (sorted_set xs) h in (px, sorted_set-All P xs rest)
