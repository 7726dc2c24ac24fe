-- ===== src/Cpa/Reprobe/Batch.antt =====
-- Each path of a batch of clients/windows/cpa_reprobe.py is counted in one class, and the check of
-- the batch.
use grok_build_auth.Prelude.{
  map, false, ap, ==_iff, arith, true, Bool-cases, inr, inl, refl, [], err, ◌+◌, ◌==◌, ◌≤◌, length,
  if◌then◌else◌, ◌∷◌, ◌⊎◌, ℕ, ok, All, List, ◌≡◌,
}
use grok_build_auth.Cpa.Reprobe.Process.{
  add_stats, process_locked, total, classified, collect_stats,
}
use grok_build_auth.Cpa.Reprobe.{World, NetCall, Args, Env, Stats}
use grok_build_auth.Cpa.Preprobe.{Answer}
use grok_build_auth.Cpa.State.{FilePath}
use grok_build_auth.Cpa.Names.{invariant_failed}

-- In one class, or as passed and as an error.
abbrev pub Counted : Stats → Type 0
Counted s = (classified s ≡ 1) ⊎ ((s.passed ≡ 1) × (s.errors ≡ 1) × (classified s ≡ 2))

-- How many results are counted twice.
abbrev pub twice : List Stats → ℕ
twice [] = 0
twice (s ∷ results) = (if classified s == 1 then 0 else 1) + twice results

abbrev pub AllCounted : List Stats → Type 0
AllCounted results = All Counted results

add_stats-classified : (s t : Stats) → classified (add_stats s t) ≡ classified s + classified t
add_stats-classified s t = omega arith

total-classified :
    (results : List Stats)
    → AllCounted results
    → classified (total results) ≡ length results + twice results
total-classified [] h = refl
total-classified (s ∷ results) (inl one, hs) =
    let test : (classified s == 1) ≡ true = ap (λ n. n == 1) one in
    rw test (omega (arith, total-classified results hs, add_stats-classified s (total results)))
total-classified (s ∷ results) (inr (passed, failed, two), hs) =
    let test : (classified s == 1) ≡ false = ap (λ n. n == 1) two in
    rw test (omega (arith, total-classified results hs, add_stats-classified s (total results)))

-- A batch is refused exactly when a path is counted twice; otherwise its classes add up to its paths.
pub collect_stats-lem :
    (results : List Stats)
    → AllCounted results
    → ((twice results ≡ 0)
        × (collect_stats results ≡ ok (total results))
        × (classified (total results) ≡ length results))
      ⊎ ((1 ≤ twice results) × (collect_stats results ≡ err invariant_failed))
unfolding collect_stats
collect_stats-lem results h =
    let sum : classified (total results) ≡ length results + twice results =
      total-classified results h in
    elim (Bool-cases (classified (total results) == length results)) [
      | inl equal ↦
          let same : classified (total results) ≡ length results = (==_iff _ _).0 equal in
          inl (omega arith, rw equal, same)
      | inr other ↦ inr (ground arith, rw other)
    ]

module _ {S : Type 0} (env : Env) (args : Args) (serve : NetCall → S → Answer × S) where
  abbrev pub results_of : List (FilePath × World S) → List Stats
  results_of jobs = map (λ job. process_locked env args serve job.0 job.1) jobs
