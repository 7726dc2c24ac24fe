-- ===== src/Closeout/Mapping/Mapped.antt =====
-- What the mapping of sources to accounts in scripts/finalize_grok_batch.py ensures.
use grok_build_auth.Prelude.{
  right_of_and, left_of_and, ◌∙◌, suc, get_elem?, ℕ, All-map, arith, Text, Bool-cases, true, false,
  not, Option, none, some, List, [], ◌∷◌, ok, ◌≡◌, refl, inl, inr, All, bind-ok, ok-injective,
  length, ◌+◌, is_empty, text_eq,
}
use grok_build_auth.Closeout.Mapping.{
  sort_mappings, map_sources_to_accounts, all_mapped, AccountRow, Source, Mapping, by_hash,
  hashed_rows, same_identity, by_identity, row_of, is_verified, has_id, map_source, map_sources,
  only_candidate, is_some,
}
use grok_build_auth.Closeout.Mapping.Sorted.{
  length-sort_mappings, All-sort_mappings, has_id-sort_mappings, sort_mappings-IsAscending,
  IsAscending, IsDistinct, Fresh-has_id,
}
use mathlib.Core.Path.{subst}

module _ (P : AccountRow → Type 0) where
  -- A mapping of a source to the account of a row that was verified.
  abbrev pub VerifiedBy : Mapping → Type 0
  VerifiedBy m =
      (row : AccountRow) × P row
      × (row.id ≡ m.account_id)
      × (same_identity row m.source ≡ true)
      × (is_verified row ≡ true)

  by_hash-some :
      (token : Text) (rows : List AccountRow) {row : AccountRow}
      → All P rows
      → by_hash token rows ≡ some row
      → P row
  unfolding by_hash
  by_hash-some token [] h found = cc
  by_hash-some token (r ∷ rows) {row} (p, ps) found =
      elim (Bool-cases (text_eq r.token_sha256 token)) [
        | inl same ↦
            let here : some r ≡ some row = rw same at found in
            subst P (let eq : r ≡ row = cc in eq) p
        | inr other ↦ by_hash-some token rows ps (rw other at found)
      ]

  All-by_identity :
      (source : Source) (rows : List AccountRow) → All P rows → All P (by_identity source rows)
  unfolding by_identity
  All-by_identity source [] h = tt
  All-by_identity source (r ∷ rows) (p, ps) = elim (Bool-cases (same_identity r source)) [
    | inl same ↦ rw same (p, All-by_identity source rows ps)
    | inr other ↦ rw other (All-by_identity source rows ps)
  ]

  only_candidate-ok :
      (rows : List AccountRow) {row : AccountRow}
      → All P rows
      → only_candidate rows ≡ ok row
      → P row
  only_candidate-ok [] h found = cc
  only_candidate-ok (r ∷ []) h found = subst P (ok-injective found) h.0
  only_candidate-ok (r ∷ s ∷ rows) h found = cc

  row_of-ok :
      (rows hashed : List AccountRow) (source : Source) (found : Option AccountRow)
      {row : AccountRow}
      → All P rows
      → All P hashed
      → by_hash source.token_sha256 hashed ≡ found
      → row_of rows source found ≡ ok row
      → P row
  row_of-ok rows hashed source none ps hs by done =
      only_candidate-ok (by_identity source rows) (All-by_identity source rows ps) done
  row_of-ok rows hashed source (some r) ps hs by done =
      subst P (ok-injective done) (by_hash-some source.token_sha256 hashed hs by)

  hashed_rows-ok :
      (hashed rows : List AccountRow) {result : List AccountRow}
      → All P hashed
      → All P rows
      → hashed_rows hashed rows ≡ ok result
      → All P result
  unfolding hashed_rows
  hashed_rows-ok hashed [] hs ps done = subst (All P) (ok-injective done) hs
  hashed_rows-ok hashed (r ∷ rows) hs (p, ps) done =
      elim (Bool-cases (not (is_empty r.token_sha256))) [
        | inl new ↦ elim (Bool-cases (is_some (by_hash r.token_sha256 hashed))) [
          | inl twice ↦ (let never = rw (new, twice) at done in cc)
          | inr once ↦ elim (Bool-cases (is_empty r.refresh_sha256)) [
            | inl blank ↦ (let never = rw (new, once, blank) at done in cc)
            | inr given ↦
                hashed_rows-ok (r ∷ hashed) rows (p, hs) ps (rw (new, once, given) at done)
          ]
        ]
        | inr old ↦ elim (Bool-cases (is_empty r.refresh_sha256)) [
          | inl blank ↦ (let never = rw (old, blank) at done in cc)
          | inr given ↦ hashed_rows-ok hashed rows hs ps (rw (old, given) at done)
        ]
      ]

  map_source-ok :
      (mapped : List Mapping) (source : Source) (row : AccountRow) {m : Mapping}
      → P row
      → map_source mapped source row ≡ ok m
      → VerifiedBy m × (has_id m.account_id mapped ≡ false)
  unfolding map_source
  map_source-ok mapped source row {m} p done = elim (Bool-cases (same_identity row source)) [
    | inr other ↦ (let never = rw other at done in cc)
    | inl same ↦ elim (Bool-cases (has_id row.id mapped)) [
      | inl used ↦ (let never = rw (same, used) at done in cc)
      | inr free ↦ elim (Bool-cases (is_verified row)) [
        | inr refused ↦ (let never = rw (same, free, refused) at done in cc)
        | inl verified ↦
            subst (λ k. VerifiedBy k × (has_id k.account_id mapped ≡ false))
              (ok-injective (rw (same, free, verified) at done))
              ((row, p, refl, same, verified), free)
      ]
    ]
  ]

  map_sources-ok :
      (rows hashed : List AccountRow) (mapped : List Mapping) (sources : List Source)
      {result : List Mapping}
      → All P rows
      → All P hashed
      → All VerifiedBy mapped
      → IsDistinct mapped
      → map_sources rows hashed mapped sources ≡ ok result
      → All VerifiedBy result × IsDistinct result × (length result ≡ length mapped + length sources)
  unfolding map_sources
  map_sources-ok rows hashed mapped [] ps hs vs distinct done =
      subst (λ r. All VerifiedBy r × IsDistinct r × (length r ≡ length mapped + 0))
        (ok-injective done) (vs, distinct, omega arith)
  map_sources-ok rows hashed mapped (source ∷ sources) ps hs vs distinct done =
      let (row, found, rest) =
        bind-ok (row_of rows source (by_hash source.token_sha256 hashed)) _ done in
      let (m, checked, later) = bind-ok (map_source mapped source row) _ rest in
      let (verified, free) =
        map_source-ok mapped source row
          (row_of-ok rows hashed source (by_hash source.token_sha256 hashed) ps hs refl found)
          checked in
      let (all, apart, size) =
        map_sources-ok rows hashed (m ∷ mapped) sources ps hs (verified, vs)
          (Fresh-has_id m mapped free, distinct) later in
      (all, apart, omega (arith, size))

all_mapped-true :
    (rows : List AccountRow) (mapped : List Mapping)
    → all_mapped rows mapped ≡ true
    → All (λ row. has_id row.id (sort_mappings mapped) ≡ true) rows
all_mapped-true [] mapped h = tt
all_mapped-true (row ∷ rows) mapped h = (
  has_id-sort_mappings row.id mapped
      ∙ left_of_and (has_id row.id mapped) (all_mapped rows mapped) h,
  all_mapped-true rows mapped (right_of_and (has_id row.id mapped) (all_mapped rows mapped) h),
)

abbrev pub IsRow : List AccountRow → AccountRow → Type 0
IsRow rows row = (i : ℕ) × (get_elem? rows i ≡ some row)

All-IsRow : (rows : List AccountRow) → All (IsRow rows) rows
All-IsRow [] = tt
All-IsRow (row ∷ rows) = ((0, refl), All-map _ _ rows (λ r at. (suc at.0, at.1)) (All-IsRow rows))

-- Mappings that are returned are in the order of their accounts with no account twice, as many as the
-- sources, one for each row; each is of a row that was verified and has its source's identity.
pub map_sources_to_accounts-ok :
    (sources : List Source) (rows : List AccountRow) (mappings : List Mapping)
    → map_sources_to_accounts sources rows ≡ ok mappings
    → IsAscending mappings
      × All (VerifiedBy (IsRow rows)) mappings
      × (length mappings ≡ length sources)
      × All (λ row. has_id row.id mappings ≡ true) rows
unfolding map_sources_to_accounts
map_sources_to_accounts-ok sources rows mappings done =
    let (hashed, indexed, rest) = bind-ok (hashed_rows [] rows) _ done in
    let (mapped, found, last) = bind-ok (map_sources rows hashed [] sources) _ rest in
    let (verified, distinct, size) =
      map_sources-ok (IsRow rows) rows hashed [] sources (All-IsRow rows)
        (hashed_rows-ok (IsRow rows) [] rows tt (All-IsRow rows) indexed) tt tt found in
    elim (Bool-cases (all_mapped rows mapped)) [
      | inr missing ↦ (let never = rw missing at last in cc)
      | inl every ↦
          subst
            (λ ms.
              IsAscending ms
              × All (VerifiedBy (IsRow rows)) ms
              × (length ms ≡ length sources)
              × All (λ row. has_id row.id ms ≡ true) rows)
            (ok-injective (rw every at last))
            (
              sort_mappings-IsAscending mapped distinct,
              All-sort_mappings _ mapped verified,
              omega (arith, length-sort_mappings mapped, size),
              all_mapped-true rows mapped every,
            )
    ]
