-- ===== src/Pool.antt =====
-- `ProxyPool` of xconsole_client/proxy_pool.py: `acquire` and `release`. The file of the rotation
-- state is the ref that it holds; that it can be read and written is not modelled.
pub mod Leases
mod Examples
use grok_build_auth.Prelude.{
  take, false, ◌++◌, true, not, drop, text_eq, Text, ℕ, zero, suc, ◌+◌, ◌%◌, Bool, Option, none,
  some, List, [], ◌∷◌, ltb, if◌then◌else◌, length, ok, err, Result,
}

pub record Spec : Type 0 where
  pub ref : Text
  pub url : Text
  pub max_active_leases : ℕ

-- `active` has the leases of a ref; `rotation` is the ref in the file, if there is a path for one.
pub record Pool : Type 0 where
  pub specs : List Spec
  pub configured : Bool
  pub active : List (Text × ℕ)
  pub cursor : ℕ
  pub rotation : Option Text

pub data PoolError : Type 0 where
  no_nodes no_lease invalid_release : PoolError

-- `self._active.get(ref)`
unfoldable pub active_of : Text → List (Text × ℕ) → Option ℕ
active_of ref [] = none
active_of ref ((r, n) ∷ active) = if text_eq r ref then some n else active_of ref active

unfoldable pub set_active : Text → ℕ → List (Text × ℕ) → List (Text × ℕ)
set_active ref n [] = (ref, n) ∷ []
set_active ref n ((r, m) ∷ active) =
    if text_eq r ref then (r, n) ∷ active else (r, m) ∷ set_active ref n active

abbrev pub count_or : Option ℕ → ℕ
count_or none = 0
count_or (some n) = n

abbrev pub leases : Pool → Text → ℕ
leases pool ref = count_or (active_of ref pool.active)

abbrev pub is_free : Pool → Spec → Bool
is_free pool spec = ltb (leases pool spec.ref) spec.max_active_leases

-- `for index, spec in enumerate(specs): if spec.ref == next_ref`
unfoldable pub index_of : Text → List Spec → Option ℕ
index_of ref [] = none
index_of ref (spec ∷ specs) =
    if text_eq spec.ref ref
    then some 0
    else elim (index_of ref specs) [ none ↦ none | some i ↦ some (suc i) ]

abbrev pub start_cursor : Pool → ℕ
start_cursor pool = elim pool.rotation [
  | none ↦ pool.cursor
  | some next_ref ↦ count_or (index_of next_ref pool.specs)
]

-- The scan of `acquire` from a position: the specs in turn, each with its index.
unfoldable pub first_free : Pool → List (ℕ × Spec) → Option (ℕ × Spec)
first_free pool [] = none
first_free pool ((i, spec) ∷ rest) =
    if is_free pool spec then some (i, spec) else first_free pool rest

abbrev pub numbered : ℕ → List Spec → List (ℕ × Spec)
numbered i [] = []
numbered i (spec ∷ specs) = (i, spec) ∷ numbered (suc i) specs

-- `(cursor + offset) % n` for each offset below `n`: from the cursor on, then from the start.
unfoldable pub rotated : ℕ → List Spec → List (ℕ × Spec)
rotated cursor specs = drop cursor (numbered 0 specs) ++ take cursor (numbered 0 specs)

abbrev ref_at : ℕ → List Spec → Text
ref_at i [] = []
ref_at zero (spec ∷ specs) = spec.ref
ref_at (suc i) (spec ∷ specs) = ref_at i specs

-- The file is written if there is a path for it.
abbrev moved : Text → Option Text → Option Text
moved ref none = none
moved ref (some _) = some ref

unfoldable pub lease : Pool → ℕ → Spec → Pool
unfolding set_active active_of
lease pool index spec =
    let next_cursor = (index + 1) % length pool.specs in
    record pool {
      active = set_active spec.ref (leases pool spec.ref + 1) pool.active;
      cursor = next_cursor;
      rotation = moved (ref_at next_cursor pool.specs) pool.rotation;
    }

abbrev pub granted : Pool → Option (ℕ × Spec) → Result PoolError (Option Spec × Pool)
granted pool none = err no_lease
granted pool (some (index, spec)) = ok (some spec, lease pool index spec)

abbrev pub no_specs : List Spec → Bool
no_specs [] = true
no_specs (_ ∷ _) = false

unfoldable pub acquire : Pool → Result PoolError (Option Spec × Pool)
unfolding first_free rotated lease index_of
acquire pool =
    if not pool.configured
    then ok (none, pool)
    else if no_specs pool.specs
    then err no_nodes
    else granted pool (first_free pool (rotated (start_cursor pool % length pool.specs) pool.specs))

abbrev pub returned : Pool → Text → Option ℕ → Result PoolError Pool
returned pool ref none = err invalid_release
returned pool ref (some zero) = err invalid_release
returned pool ref (some (suc n)) = ok (record pool { active = set_active ref n pool.active })

unfoldable pub release : Pool → Option Spec → Result PoolError Pool
unfolding active_of set_active
release pool none = ok pool
release pool (some spec) = returned pool spec.ref (active_of spec.ref pool.active)
