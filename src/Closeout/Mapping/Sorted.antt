-- ===== src/Closeout/Mapping/Sorted.antt =====
-- The sorted mappings of scripts/finalize_grok_batch.py.
use grok_build_auth.Prelude.{
  Bool, ℕ, arith, Bool-cases, true, false, ◌||◌, List, [], ◌∷◌, ◌==◌, leb, ◌≡◌, refl, inl, inr, All,
  All-map, ◌<◌, length, suc, ◌∙◌, ap,
}
use grok_build_auth.Closeout.Mapping.{Mapping, has_id, insert_mapping, sort_mappings}
use mathlib.Core.Path.{subst}

abbrev pub IsAscending : List Mapping → Type 0
IsAscending [] = Unit
IsAscending (m ∷ mappings) = All (λ n. m.account_id < n.account_id) mappings × IsAscending mappings

abbrev pub Fresh : Mapping → List Mapping → Type 0
Fresh m mappings = All (λ n. (n.account_id == m.account_id) ≡ false) mappings

abbrev pub IsDistinct : List Mapping → Type 0
IsDistinct [] = Unit
IsDistinct (m ∷ mappings) = Fresh m mappings × IsDistinct mappings

pub Fresh-has_id :
    (m : Mapping) (mapped : List Mapping) → has_id m.account_id mapped ≡ false → Fresh m mapped
Fresh-has_id m [] h = tt
Fresh-has_id m (n ∷ mapped) h = elim (Bool-cases (n.account_id == m.account_id)) [
  | inl same ↦
      (let never : (true || has_id m.account_id mapped) ≡ false =
          subst (λ b. (b || has_id m.account_id mapped) ≡ false) same h in
        cc)
  | inr other ↦ (
    other,
    Fresh-has_id m mapped (subst (λ b. (b || has_id m.account_id mapped) ≡ false) other h),
  )
]

All-insert_mapping :
    (P : Mapping → Type 0) (m : Mapping) (sorted : List Mapping)
    → P m
    → All P sorted
    → All P (insert_mapping m sorted)
unfolding insert_mapping
All-insert_mapping P m [] p h = (p, tt)
All-insert_mapping P m (n ∷ sorted) p (h, hs) = elim (Bool-cases (leb m.account_id n.account_id)) [
  | inl low ↦ rw low (p, (h, hs))
  | inr high ↦ rw high (h, All-insert_mapping P m sorted p hs)
]

pub All-sort_mappings :
    (P : Mapping → Type 0) (mappings : List Mapping)
    → All P mappings
    → All P (sort_mappings mappings)
unfolding sort_mappings
All-sort_mappings P [] h = tt
All-sort_mappings P (m ∷ mappings) (h, hs) =
    All-insert_mapping P m (sort_mappings mappings) h (All-sort_mappings P mappings hs)

insert_mapping-IsAscending :
    (m : Mapping) (sorted : List Mapping)
    → Fresh m sorted
    → IsAscending sorted
    → IsAscending (insert_mapping m sorted)
unfolding insert_mapping
insert_mapping-IsAscending m [] fresh h = (tt, tt)
insert_mapping-IsAscending m (n ∷ sorted) (other, fresh) (above, h) =
    elim (Bool-cases (leb m.account_id n.account_id)) [
      | inl low ↦
          let below : m.account_id < n.account_id = ground arith in
          rw low ((below, All-map _ _ sorted (λ k up. omega (arith, below, up)) above), (above, h))
      | inr high ↦
          let up : n.account_id < m.account_id = ground arith in
          rw high (
            All-insert_mapping (λ k. n.account_id < k.account_id) m sorted up above,
            insert_mapping-IsAscending m sorted fresh h,
          )
    ]

pub sort_mappings-IsAscending :
    (mappings : List Mapping) → IsDistinct mappings → IsAscending (sort_mappings mappings)
unfolding sort_mappings
sort_mappings-IsAscending [] h = tt
sort_mappings-IsAscending (m ∷ mappings) (fresh, h) =
    insert_mapping-IsAscending m (sort_mappings mappings) (All-sort_mappings _ mappings fresh)
      (sort_mappings-IsAscending mappings h)

length-insert_mapping :
    (m : Mapping) (sorted : List Mapping) → length (insert_mapping m sorted) ≡ suc (length sorted)
unfolding insert_mapping
length-insert_mapping m [] = refl
length-insert_mapping m (n ∷ sorted) = elim (Bool-cases (leb m.account_id n.account_id)) [
  | inl low ↦ rw low refl
  | inr high ↦ rw high (ap suc (length-insert_mapping m sorted))
]

pub length-sort_mappings :
    (mappings : List Mapping) → length (sort_mappings mappings) ≡ length mappings
unfolding sort_mappings
length-sort_mappings [] = refl
length-sort_mappings (m ∷ mappings) =
    length-insert_mapping m (sort_mappings mappings) ∙ ap suc (length-sort_mappings mappings)

has_id-insert_mapping :
    (id : ℕ) (m : Mapping) (sorted : List Mapping)
    → has_id id (insert_mapping m sorted) ≡ (m.account_id == id || has_id id sorted)
unfolding insert_mapping
has_id-insert_mapping id m [] = refl
has_id-insert_mapping id m (n ∷ sorted) = elim (Bool-cases (leb m.account_id n.account_id)) [
  | inl low ↦ rw low refl
  | inr high ↦
      rw (high, has_id-insert_mapping id m sorted)
        (swap (n.account_id == id) (m.account_id == id) (has_id id sorted))
]
  where
    swap : (a b c : Bool) → (a || (b || c)) ≡ (b || (a || c))
    swap true true c = refl
    swap true false c = refl
    swap false true c = refl
    swap false false c = refl

pub has_id-sort_mappings :
    (id : ℕ) (mappings : List Mapping) → has_id id (sort_mappings mappings) ≡ has_id id mappings
unfolding sort_mappings
has_id-sort_mappings id [] = refl
has_id-sort_mappings id (m ∷ mappings) =
    rw (has_id-insert_mapping id m (sort_mappings mappings), has_id-sort_mappings id mappings) refl
