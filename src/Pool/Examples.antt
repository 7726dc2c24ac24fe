-- ===== src/Pool/Examples.antt =====
-- The theorems about the pool at concrete inputs.
use grok_build_auth.Prelude.{Text, codes, ◌≤◌, ◌≡◌, refl, true, none, some, [], ◌∷◌, All, ok, err}
use grok_build_auth.Pool.{Pool, Spec, acquire, release, no_lease, leases}
use grok_build_auth.Pool.Leases.{acquire-ok, acquire-no_lease, release-acquire, IsLease}

abbrev node : Text → Spec
node ref = record { ref = ref; url = codes "http://p:1"; max_active_leases = 1 }

abbrev two_nodes : Pool
two_nodes = record {
  specs = node (codes "a") ∷ node (codes "b") ∷ [];
  configured = true;
  active = (codes "a", 0) ∷ (codes "b", 0) ∷ [];
  cursor = 1;
  rotation = none;
}

abbrev after_b : Pool
after_b = record two_nodes { active = (codes "a", 0) ∷ (codes "b", 1) ∷ []; cursor = 0 }

abbrev all_leased : Pool
all_leased = record two_nodes { active = (codes "a", 1) ∷ (codes "b", 1) ∷ [] }

takes_b : acquire two_nodes ≡ ok (some (node (codes "b")), after_b)
unfolding acquire
takes_b = refl

takes_none : acquire all_leased ≡ err no_lease
unfolding acquire
takes_none = refl

acquire-ok_example : IsLease two_nodes (node (codes "b")) after_b
acquire-ok_example = acquire-ok two_nodes (node (codes "b")) after_b takes_b

acquire-no_lease_example :
    All (λ spec. spec.max_active_leases ≤ leases all_leased spec.ref) all_leased.specs
acquire-no_lease_example = acquire-no_lease all_leased takes_none

release-acquire_example :
    (after : Pool) × (release after_b (some (node (codes "b"))) ≡ ok after)
    × ((r : Text) → leases after r ≡ leases two_nodes r)
release-acquire_example = release-acquire two_nodes (node (codes "b")) after_b takes_b
