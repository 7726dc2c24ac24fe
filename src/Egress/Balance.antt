-- ===== src/Egress/Balance.antt =====
-- `compute_balanced_quotas` of bind_quota_egress.py.
pub mod Level
pub mod Quotas
use grok_build_auth.Prelude.{
  int_eq, ltb_ℤ, ℤ, pos, negsuc, ℕ, zero, suc, ◌+◌, ◌-◌, ◌≡◌, refl, Bool, ◌&&◌, ◌||◌, List, [], ◌∷◌,
  map, ltb, ◌==◌, if◌then◌else◌, ok, err, ◌>>=◌,
}
use grok_build_auth.Egress.Base.{
  bad_candidate_count, empty_pool, balance_error, negative_count, sorted_set, Try,
}

-- A proxy with its bindings, those that it has (`current`) and those that it ends with (`finals`).
pub record Load : Type 0 where
  pub pid : ℤ
  pub base : ℕ
  pub total : ℕ

abbrev pub Counts : Type 0
Counts = List (ℤ × ℤ)

-- `current_counts.get(pid, 0)`
unfoldable pub count_of : ℤ → Counts → ℤ
count_of pid [] = pos 0
count_of pid ((p, n) ∷ counts) = if int_eq p pid then n else count_of pid counts

abbrev load_of : ℤ → ℤ → Try Load
load_of pid (pos n) = ok (record { pid = pid; base = n; total = n })
load_of pid (negsuc n) = err negative_count

unfoldable pub start_loads : Counts → List ℤ → Try (List Load)
unfolding count_of
start_loads counts [] = ok []
start_loads counts (pid ∷ pids) = do
  load ← load_of pid (count_of pid counts)
  loads ← start_loads counts pids
  ok (load ∷ loads)

-- `min(proxies, key=lambda pid: (finals[pid], pid))`
abbrev pub key_lt : Load → Load → Bool
key_lt a b = ltb a.total b.total || (a.total == b.total && ltb_ℤ a.pid b.pid)

unfoldable pub lowest : Load → List Load → Load
lowest best [] = best
lowest best (x ∷ xs) = lowest (if key_lt x best then x else best) xs

-- `finals[target] += 1`
unfoldable pub bump : ℤ → List Load → List Load
bump pid [] = []
bump pid (x ∷ xs) =
    if int_eq x.pid pid then record x { total = x.total + 1 } ∷ xs else x ∷ bump pid xs

unfoldable pub fill : ℕ → List Load → List Load
unfolding lowest bump
fill zero loads = loads
fill (suc n) [] = []
fill (suc n) (x ∷ xs) = fill n (bump (lowest x xs).pid (x ∷ xs))

abbrev pub Quotas : Type 0
Quotas = List (ℤ × ℕ)

unfoldable pub quotas_of : List Load → Quotas
quotas_of = map (λ x. (x.pid, x.total - x.base))

abbrev pub sum_quotas : Quotas → ℕ
sum_quotas [] = 0
sum_quotas ((p, q) ∷ quotas) = q + sum_quotas quotas

-- The check after the loop.
unfoldable pub check_sum : ℕ → List Load → Try Quotas
unfolding quotas_of
check_sum n loads =
    if sum_quotas (quotas_of loads) == n then ok (quotas_of loads) else err balance_error

unfoldable pub compute_balanced_quotas : List ℤ → Counts → ℤ → Try Quotas
unfolding start_loads fill check_sum sorted_set
compute_balanced_quotas [] counts count = err empty_pool
compute_balanced_quotas (p ∷ ps) counts (negsuc n) = err bad_candidate_count
compute_balanced_quotas (p ∷ ps) counts (pos n) = do
  loads ← start_loads counts (sorted_set (p ∷ ps))
  check_sum n (fill n loads)

fills_lowest :
    compute_balanced_quotas
      (pos 7 ∷ pos 3 ∷ pos 7 ∷ [])
      ((pos 3, pos 4) ∷ (pos 7, pos 1) ∷ [])
      (pos 5)
    ≡ ok ((pos 3, 1) ∷ (pos 7, 4) ∷ [])
unfolding compute_balanced_quotas
fills_lowest = refl
