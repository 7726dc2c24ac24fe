-- ===== src/Pool/Leases.antt =====
-- What a lease and a release change of the counts, and when there is no lease.
use grok_build_auth.Prelude.{
  zero, ◌∙◌, ok-injective, take-append-drop, eq_of_text_eq, text_eq_refl, All-map, text_eq, Text,
  All-append, ℕ, suc, ◌+◌, ◌%◌, ◌≤◌, ◌<◌, ◌≡◌, refl, sym, ap, inl, inr, Bool, true, false, not,
  Option, none, some, List, [], ◌∷◌, ◌++◌, arith, if◌then◌else◌, Bool-cases, length, take, drop,
  All, ok, err,
}
use grok_build_auth.Pool.{
  release, returned, no_nodes, Pool, Spec, leases, is_free, acquire, first_free, rotated, numbered,
  set_active, active_of, lease, granted, no_specs, start_cursor, no_lease, count_or,
}
use mathlib.Core.Path.{subst}

active_of-set_active_self :
    (ref : Text) (n : ℕ) (active : List (Text × ℕ))
    → active_of ref (set_active ref n active) ≡ some n
unfolding active_of set_active
active_of-set_active_self ref n [] = rw (text_eq_refl ref)
active_of-set_active_self ref n ((r, m) ∷ active) = elim (Bool-cases (text_eq r ref)) [
  | inl same ↦ rw (same, same)
  | inr other ↦ rw (other, other) (active_of-set_active_self ref n active)
]

active_of-set_active_other :
    (ref other : Text) (n : ℕ) (active : List (Text × ℕ))
    → text_eq ref other ≡ false
    → active_of other (set_active ref n active) ≡ active_of other active
unfolding active_of set_active
active_of-set_active_other ref other n [] apart = rw apart
active_of-set_active_other ref other n ((r, m) ∷ active) apart = elim (Bool-cases (text_eq r ref)) [
  | inl same ↦
      let renamed : text_eq r other ≡ false =
        subst (λ q. text_eq q other ≡ false) (sym (eq_of_text_eq r ref same)) apart in
      rw (same, renamed)
  | inr differs ↦ rw (differs, active_of-set_active_other ref other n active apart)
]

first_free-some :
    (pool : Pool) (xs : List (ℕ × Spec)) (i : ℕ) (spec : Spec)
    → first_free pool xs ≡ some (i, spec)
    → is_free pool spec ≡ true
unfolding first_free
first_free-some pool [] i spec h = cc
first_free-some pool ((j, s) ∷ xs) i spec h =
    go (is_free pool s) refl (first_free-some pool xs i spec) h
  where
    or_default : Option (ℕ × Spec) → Spec
    or_default none = s
    or_default (some x) = x.1

    go :
        (free : Bool)
        → is_free pool s ≡ free
        → (first_free pool xs ≡ some (i, spec) → is_free pool spec ≡ true)
        → (if free then some (j, s) else first_free pool xs) ≡ some (i, spec)
        → is_free pool spec ≡ true
    go true e later h =
        let same : s ≡ spec = ap (λ o. or_default o) h in subst (λ q. is_free pool q ≡ true) same e
    go false e later h = later h

first_free-none :
    (pool : Pool) (xs : List (ℕ × Spec))
    → first_free pool xs ≡ none
    → All (λ x. is_free pool x.1 ≡ false) xs
unfolding first_free
first_free-none pool [] h = tt
first_free-none pool ((j, s) ∷ xs) h = elim (Bool-cases (is_free pool s)) [
  | inl free ↦ absurd (ground (arith, h, free))
  | inr full ↦ (full, first_free-none pool xs (ground (arith, h, full)))
]

All-split : {A : Type 0} (P : A → Type 0) (xs ys : List A) → All P (xs ++ ys) → All P xs × All P ys
All-split P [] ys h = (tt, h)
All-split P (x ∷ xs) ys h = let (hx, hy) = All-split P xs ys h.1 in ((h.0, hx), hy)

All-rotated :
    {A : Type 0} (P : A → Type 0) (k : ℕ) (xs : List A) → All P (drop k xs ++ take k xs) → All P xs
All-rotated P k xs h =
    let (back, front) = All-split P (drop k xs) (take k xs) h in
    subst (All P) (take-append-drop k xs) (All-append P (take k xs) (drop k xs) front back)

All-numbered :
    (P : Spec → Type 0) (i : ℕ) (specs : List Spec)
    → All (λ x. P x.1) (numbered i specs)
    → All P specs
All-numbered P i [] h = tt
All-numbered P i (spec ∷ specs) h = (h.0, All-numbered P (suc i) specs h.1)

-- What a lease changes: it is of a spec with less leases than its limit, and it adds one lease to
-- those of its ref.
abbrev pub IsLease : Pool → Spec → Pool → Type 0
IsLease pool spec pool' =
    (leases pool spec.ref < spec.max_active_leases)
    × (leases pool' spec.ref ≡ leases pool spec.ref + 1)
    × ((r : Text) → text_eq spec.ref r ≡ false → leases pool' r ≡ leases pool r)
    × (pool'.specs ≡ pool.specs)

lease-IsLease :
    (pool : Pool) (i : ℕ) (spec : Spec)
    → is_free pool spec ≡ true
    → IsLease pool spec (lease pool i spec)
unfolding lease
lease-IsLease pool i spec free = (
  ground arith,
  ap count_or (active_of-set_active_self spec.ref (leases pool spec.ref + 1) pool.active),
  λ r apart.
      ap count_or
        (active_of-set_active_other spec.ref r (leases pool spec.ref + 1) pool.active apart),
  refl,
)

granted-ok :
    (pool : Pool) (xs : List (ℕ × Spec)) (spec : Spec) (pool' : Pool)
    → granted pool (first_free pool xs) ≡ ok (some spec, pool')
    → IsLease pool spec pool'
granted-ok pool xs spec pool' = go (first_free pool xs) refl
  where
    spec_of : Spec → Option Spec × Pool → Spec
    spec_of d (none, q) = d
    spec_of d (some x, q) = x

    go :
        (found : Option (ℕ × Spec))
        → first_free pool xs ≡ found
        → granted pool found ≡ ok (some spec, pool')
        → IsLease pool spec pool'
    go none e h = cc
    go (some (i, s)) e h =
        let same = ok-injective h in
        subst (λ x. IsLease pool (spec_of s x) x.1) same
          (lease-IsLease pool i s (first_free-some pool xs i s e))

granted-no_lease :
    (pool : Pool) (xs : List (ℕ × Spec))
    → granted pool (first_free pool xs) ≡ err no_lease
    → first_free pool xs ≡ none
granted-no_lease pool xs = go (first_free pool xs)
  where
    go : (found : Option (ℕ × Spec)) → granted pool found ≡ err no_lease → found ≡ none
    go none h = refl
    go (some x) h = cc

-- A lease that `acquire` gives is of a spec with less leases than its limit; it adds one lease to
-- those of its ref and leaves those of every other.
pub acquire-ok :
    (pool : Pool) (spec : Spec) (pool' : Pool)
    → acquire pool ≡ ok (some spec, pool')
    → IsLease pool spec pool'
unfolding acquire
acquire-ok pool spec pool' = go (not pool.configured) (no_specs pool.specs)
  where
    go :
        (unset empty : Bool)
        → (if unset
            then ok (none, pool)
            else if empty
            then err no_nodes
            else granted pool
                (first_free pool (rotated (start_cursor pool % length pool.specs) pool.specs)))
          ≡ ok (some spec, pool')
        → IsLease pool spec pool'
    go true empty h = cc
    go false true h = cc
    go false false h = granted-ok pool _ spec pool' h

-- When `acquire` finds no lease, every spec has at least as many leases as its limit.
pub acquire-no_lease :
    (pool : Pool)
    → acquire pool ≡ err no_lease
    → All (λ spec. spec.max_active_leases ≤ leases pool spec.ref) pool.specs
unfolding acquire rotated
acquire-no_lease pool = go (not pool.configured) (no_specs pool.specs)
  where
    go :
        (unset empty : Bool)
        → (if unset
            then ok (none, pool)
            else if empty
            then err no_nodes
            else granted pool
                (first_free pool (rotated (start_cursor pool % length pool.specs) pool.specs)))
          ≡ err no_lease
        → All (λ spec. spec.max_active_leases ≤ leases pool spec.ref) pool.specs
    go true empty h = cc
    go false true h = cc
    go false false h =
        let k = start_cursor pool % length pool.specs in
        let scanned = drop k (numbered 0 pool.specs) ++ take k (numbered 0 pool.specs) in
        let full = first_free-none pool scanned (granted-no_lease pool scanned h) in
        All-map _ _ pool.specs (λ spec e. ground (arith, e))
          (All-numbered (λ spec. is_free pool spec ≡ false) 0 pool.specs
            (All-rotated (λ x. is_free pool x.1 ≡ false) k (numbered 0 pool.specs) full))

returned-leases :
    (pool : Pool) (ref : Text) (n : ℕ) (o : Option ℕ)
    → active_of ref pool.active ≡ o
    → count_or o ≡ n + 1
    → (pool' : Pool) × (returned pool ref o ≡ ok pool')
      × (leases pool' ref ≡ n)
      × ((r : Text) → text_eq ref r ≡ false → leases pool' r ≡ leases pool r)
returned-leases pool ref n none e h = absurd (omega (arith, h))
returned-leases pool ref n (some zero) e h = absurd (omega (arith, h))
returned-leases pool ref n (some (suc m)) e h = (
  record pool { active = set_active ref m pool.active },
  refl,
  ap count_or (active_of-set_active_self ref m pool.active) ∙ omega (arith, h),
  λ r apart. ap count_or (active_of-set_active_other ref r m pool.active apart),
)

-- A lease that `acquire` gave can be released, and then every ref has as many leases as before.
pub release-acquire :
    (pool : Pool) (spec : Spec) (pool' : Pool)
    → acquire pool ≡ ok (some spec, pool')
    → (after : Pool) × (release pool' (some spec) ≡ ok after)
      × ((r : Text) → leases after r ≡ leases pool r)
unfolding release
release-acquire pool spec pool' h =
    let (_, added, kept, _) = acquire-ok pool spec pool' h in
    let (after, released, back, others) =
      returned-leases pool' spec.ref (leases pool spec.ref) (active_of spec.ref pool'.active) refl
        added in
    (
      after,
      released,
      λ r. elim (Bool-cases (text_eq spec.ref r)) [
        | inl same ↦
            subst (λ q. leases after q ≡ leases pool q) (eq_of_text_eq spec.ref r same) back
        | inr apart ↦ others r apart ∙ kept r apart
      ],
    )
