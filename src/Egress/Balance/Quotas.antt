-- ===== src/Egress/Balance/Quotas.antt =====
-- What `compute_balanced_quotas` returns.
use grok_build_auth.Prelude.{
  All-of_map, All-map, All-map₂, pos_part, neg_part, int_eq, ℤ, pos, ℕ, ◌+◌, ◌-◌, ◌≤◌, ◌≡◌, refl,
  ap, ◌∙◌, ◌≢◌, ◌⊎◌, inl, inr, false, List, [], ◌∷◌, map, arith, All, ok, ◌>>=◌,
}
use grok_build_auth.Egress.Base.{
  sorted_set-ne-nil, ltb_ℤ-ne, sorted_set-IsAscending, IsAscending, sorted_set,
}
use grok_build_auth.Egress.Balance.{
  fill, sum_quotas, check_sum, quotas_of, compute_balanced_quotas, start_loads, Load, count_of,
  Quotas, Counts,
}
use grok_build_auth.Egress.Balance.Level.{
  All-fill, given-fill, map_pid-fill, fill-AtLevel, Distinct, given, AtLevel,
}

-- The bindings of a proxy in the end: those that it has, and its quota.
abbrev pub final_count : Counts → ℤ × ℕ → ℕ
final_count counts (pid, quota) = pos_part (count_of pid counts) + quota

-- No quota can be moved to another proxy so that the larger of their final counts falls.
abbrev pub IsBalanced : Counts → Quotas → Type 0
IsBalanced counts quotas =
    All (λ p. All (λ q. (p.1 ≡ 0) ⊎ (final_count counts p ≤ final_count counts q + 1)) quotas)
      quotas

-- The counts that the proxies have are no less than zero.
abbrev pub Counted : Counts → List ℤ → Type 0
Counted counts pids = All (λ pid. neg_part (count_of pid counts) ≡ 0) pids

module _ (counts : Counts) where
  abbrev first_load : ℤ → Load
  first_load pid = record {
    pid = pid;
    base = pos_part (count_of pid counts);
    total = pos_part (count_of pid counts);
  }

  start_loads-Counted :
      (pids : List ℤ) → Counted counts pids → start_loads counts pids ≡ ok (map first_load pids)
  unfolding start_loads
  start_loads-Counted [] h = refl
  start_loads-Counted (pid ∷ pids) h = let rest = start_loads-Counted pids h.1 in ground arith

  -- What the loop keeps: an entry holds the count of its proxy.
  abbrev Holds : ℤ → ℕ → Type 0
  Holds pid base = pos_part (count_of pid counts) ≡ base

  first_loads-Holds : (pids : List ℤ) → All (λ x. Holds x.pid x.base) (map first_load pids)
  first_loads-Holds [] = tt
  first_loads-Holds (pid ∷ pids) = (refl, first_loads-Holds pids)

  first_loads-AtLevel : (pids : List ℤ) → All (AtLevel 0) (map first_load pids)
  first_loads-AtLevel [] = tt
  first_loads-AtLevel (pid ∷ pids) =
      ((omega arith, omega arith, inl refl), first_loads-AtLevel pids)

  first_loads-Distinct : (pids : List ℤ) → IsAscending pids → Distinct (map first_load pids)
  first_loads-Distinct [] h = tt
  first_loads-Distinct (pid ∷ pids) h = (
    All-of_map (λ y. int_eq pid y.pid ≡ false) first_load pids
        (All-map _ _ pids (λ q lt. ltb_ℤ-ne pid q lt) h.0),
    first_loads-Distinct pids h.1,
  )

  given-first_loads : (pids : List ℤ) → given (map first_load pids) ≡ 0
  unfolding given quotas_of
  given-first_loads [] = refl
  given-first_loads (pid ∷ pids) = omega (arith, given-first_loads pids)

  first_loads_pid : (pids : List ℤ) → map (λ x. x.pid) (map first_load pids) ≡ pids
  first_loads_pid [] = refl
  first_loads_pid (pid ∷ pids) = ap (λ l. pid ∷ l) (first_loads_pid pids)

  quotas_of_pid : (xs : List Load) → map (λ q. q.0) (quotas_of xs) ≡ map (λ x. x.pid) xs
  unfolding quotas_of
  quotas_of_pid [] = refl
  quotas_of_pid (x ∷ xs) = ap (λ l. x.pid ∷ l) (quotas_of_pid xs)

  AtLevel-IsBalanced :
      (m : ℕ) (xs : List Load)
      → All (AtLevel m) xs
      → All (λ x. Holds x.pid x.base) xs
      → IsBalanced counts (quotas_of xs)
  unfolding quotas_of
  AtLevel-IsBalanced m xs level held =
      All-of_map _ (λ x. (x.pid, x.total - x.base)) xs
        (All-map₂ (AtLevel m) (λ x. Holds x.pid x.base) _ xs
          (λ x lx hx.
            All-of_map _ (λ x. (x.pid, x.total - x.base)) xs
              (All-map₂ (AtLevel m) (λ x. Holds x.pid x.base) _ xs (λ y ly hy. even x y lx hx ly hy)
                level held))
          level held)
    where
      even :
          (x y : Load)
          → AtLevel m x
          → Holds x.pid x.base
          → AtLevel m y
          → Holds y.pid y.base
          → (x.total - x.base ≡ 0)
            ⊎ (pos_part (count_of x.pid counts) + (x.total - x.base)
                ≤ pos_part (count_of y.pid counts) + (y.total - y.base) + 1)
      even x y lx hx ly hy = elim lx.2 [
        | inl same ↦ inl (omega arith)
        | inr low ↦ inr (omega arith)
      ]

  compute-eq :
      (p : ℤ) (ps : List ℤ) (n : ℕ)
      → compute_balanced_quotas (p ∷ ps) counts (pos n)
        ≡ (start_loads counts (sorted_set (p ∷ ps)) >>= λ loads. check_sum n (fill n loads))
  unfolding compute_balanced_quotas
  compute-eq p ps n = refl

  check_sum-given : (n : ℕ) (xs : List Load) → given xs ≡ n → check_sum n xs ≡ ok (quotas_of xs)
  unfolding check_sum given
  check_sum-given n xs h = ground arith

  -- The loop over the proxies that `start_loads` listed.
  filled :
      (pids : List ℤ) (n : ℕ)
      → IsAscending pids
      → pids ≢ []
      → (map (λ q. q.0) (quotas_of (fill n (map first_load pids))) ≡ pids)
        × (given (fill n (map first_load pids)) ≡ n)
        × IsBalanced counts (quotas_of (fill n (map first_load pids)))
  filled [] n up some_pid = absurd (some_pid refl)
  filled (q ∷ qs) n up _ =
      let loads = map first_load (q ∷ qs) in
      let (m, level) =
        fill-AtLevel n 0 loads (first_loads-Distinct (q ∷ qs) up) (first_loads-AtLevel (q ∷ qs)) in
      (
        quotas_of_pid (fill n loads) ∙ map_pid-fill n loads ∙ first_loads_pid (q ∷ qs),
        omega (
          arith,
          given-fill n (first_load q) (map first_load qs)
              (All-map _ _ loads (λ x l. l.1) (first_loads-AtLevel (q ∷ qs))),
          given-first_loads (q ∷ qs),
        ),
        AtLevel-IsBalanced m (fill n loads) level
            (All-fill Holds n loads (first_loads-Holds (q ∷ qs))),
      )

  -- With a proxy at least and no count below zero there are quotas: one for each proxy, in
  -- ascending order, that sum to the number of candidates and are balanced.
  pub compute_balanced_quotas_lem :
      (p : ℤ) (ps : List ℤ) (n : ℕ)
      → Counted counts (sorted_set (p ∷ ps))
      → (quotas : Quotas) × (compute_balanced_quotas (p ∷ ps) counts (pos n) ≡ ok quotas)
        × (map (λ q. q.0) quotas ≡ sorted_set (p ∷ ps))
        × (sum_quotas quotas ≡ n)
        × IsBalanced counts quotas
  compute_balanced_quotas_lem p ps n counted =
      let pids = sorted_set (p ∷ ps) in
      let (keys, total, balanced) =
        filled pids n (sorted_set-IsAscending (p ∷ ps)) (sorted_set-ne-nil p ps) in
      let loads = map first_load pids in
      (
        quotas_of (fill n loads),
        rw (compute-eq p ps n, start_loads-Counted pids counted)
            (check_sum-given n (fill n loads) total),
        keys,
        unfold given in total,
        balanced,
      )
