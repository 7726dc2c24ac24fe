-- ===== src/Egress/Assign/Shares.antt =====
-- The assignment gives each candidate one proxy, and each proxy its quota.
use grok_build_auth.Prelude.{
  replicate, length-replicate, pos_part, neg_part, int_eq, ltb_ℤ, ℤ, pos, negsuc, ℕ, zero, suc, ◌+◌,
  ◌≡◌, refl, ap, ◌∙◌, ◌≢◌, inl, inr, List, [], ◌∷◌, ◌++◌, map, arith, ◌==◌, if◌then◌else◌,
  Bool-cases, length, length-append, All, ok, err, ◌>>=◌,
}
use grok_build_auth.Egress.Base.{quota_mismatch}
use grok_build_auth.Egress.Assign.{
  row_lt, sort_rows, insert_row, Row, slots_of, assign_candidates_to_proxies, sort_keys, zip_rows,
  insert_key,
}

abbrev pub count : ℤ → List ℤ → ℕ
count a [] = 0
count a (x ∷ xs) = (if int_eq x a then 1 else 0) + count a xs

-- What `random.shuffle` promises: it reorders.
pub record IsShuffle (f : List ℤ → List ℤ) : Type 0 where
  pub count_kept : (a : ℤ) (xs : List ℤ) → count a (f xs) ≡ count a xs
  pub length_kept : (xs : List ℤ) → length (f xs) ≡ length xs

-- The quota of a proxy, and the sum of all.
abbrev pub quota_for : ℤ → List (ℤ × ℤ) → ℕ
quota_for p [] = 0
quota_for p ((pid, q) ∷ quotas) = (if int_eq pid p then pos_part q else 0) + quota_for p quotas

abbrev pub quota_sum : List (ℤ × ℤ) → ℕ
quota_sum [] = 0
quota_sum ((pid, q) ∷ quotas) = pos_part q + quota_sum quotas

abbrev pub NonNegative : List (ℤ × ℤ) → Type 0
NonNegative quotas = All (λ x. neg_part x.1 ≡ 0) quotas

abbrev all_slots : List (ℤ × ℤ) → List ℤ
all_slots [] = []
all_slots ((pid, q) ∷ quotas) = replicate (pos_part q) pid ++ all_slots quotas

count-append : (a : ℤ) (xs ys : List ℤ) → count a (xs ++ ys) ≡ count a xs + count a ys
count-append a [] ys = omega arith
count-append a (x ∷ xs) ys = omega (arith, count-append a xs ys)

count-replicate : (a x : ℤ) (n : ℕ) → count a (replicate n x) ≡ (if int_eq x a then n else 0)
count-replicate a x zero = ground arith
count-replicate a x (suc n) = ground (arith, count-replicate a x n)

slots_of-all_slots :
    (quotas : List (ℤ × ℤ)) → NonNegative quotas → slots_of quotas ≡ ok (all_slots quotas)
unfolding slots_of
slots_of-all_slots [] h = refl
slots_of-all_slots ((pid, pos q) ∷ quotas) h = rw (slots_of-all_slots quotas h.1)
slots_of-all_slots ((pid, negsuc q) ∷ quotas) h = absurd (omega (arith, h.0))

count-all_slots : (p : ℤ) (quotas : List (ℤ × ℤ)) → count p (all_slots quotas) ≡ quota_for p quotas
count-all_slots p [] = refl
count-all_slots p ((pid, q) ∷ quotas) = omega (
  arith,
  count-append p (replicate (pos_part q) pid) (all_slots quotas),
  count-replicate p pid (pos_part q),
  count-all_slots p quotas,
)

length-all_slots : (quotas : List (ℤ × ℤ)) → length (all_slots quotas) ≡ quota_sum quotas
length-all_slots [] = refl
length-all_slots ((pid, q) ∷ quotas) = omega (
  arith,
  length-append (replicate (pos_part q) pid) (all_slots quotas),
  length-replicate (pos_part q) pid,
  length-all_slots quotas,
)

module _ (x : ℤ × ℤ) where
  insert_key-quota_for :
      (p : ℤ) (ys : List (ℤ × ℤ)) → quota_for p (insert_key x ys) ≡ quota_for p (x ∷ ys)
  unfolding insert_key
  insert_key-quota_for p [] = refl
  insert_key-quota_for p (y ∷ ys) = ground (arith, insert_key-quota_for p ys)

  insert_key-quota_sum : (ys : List (ℤ × ℤ)) → quota_sum (insert_key x ys) ≡ quota_sum (x ∷ ys)
  unfolding insert_key
  insert_key-quota_sum [] = refl
  insert_key-quota_sum (y ∷ ys) = ground (arith, insert_key-quota_sum ys)

  insert_key-NonNegative :
      (ys : List (ℤ × ℤ)) → neg_part x.1 ≡ 0 → NonNegative ys → NonNegative (insert_key x ys)
  unfolding insert_key
  insert_key-NonNegative [] h k = (h, tt)
  insert_key-NonNegative (y ∷ ys) h k = elim (Bool-cases (ltb_ℤ y.0 x.0)) [
    | inl lt ↦ rw lt (k.0, insert_key-NonNegative ys h k.1)
    | inr ge ↦ rw ge (h, k)
  ]

-- Sorting the keys keeps the quotas.
sort_keys_lem :
    (quotas : List (ℤ × ℤ))
    → NonNegative quotas
    → NonNegative (sort_keys quotas)
      × (quota_sum (sort_keys quotas) ≡ quota_sum quotas)
      × ((p : ℤ) → quota_for p (sort_keys quotas) ≡ quota_for p quotas)
unfolding sort_keys
sort_keys_lem [] h = (tt, refl, λ p. refl)
sort_keys_lem (x ∷ quotas) h =
    let (keep, total, each) = sort_keys_lem quotas h.1 in
    (
      insert_key-NonNegative x (sort_keys quotas) h.0 keep,
      omega (arith, insert_key-quota_sum x (sort_keys quotas)),
      λ p. omega (arith, insert_key-quota_for x p (sort_keys quotas), each p),
    )

abbrev pub accounts : List Row → List ℤ
accounts rows = map (λ r. r.account_id) rows

abbrev pub proxies : List Row → List ℤ
proxies rows = map (λ r. r.proxy_id) rows

-- Sorting the rows keeps what stands in them.
module _ (f : Row → ℤ) (a : ℤ) where
  insert_row-count :
      (r : Row) (rows : List Row) → count a (map f (insert_row r rows)) ≡ count a (map f (r ∷ rows))
  unfolding insert_row
  insert_row-count r [] = refl
  insert_row-count r (s ∷ rows) = elim (Bool-cases (row_lt s r)) [
    | inl lt ↦ rw lt (omega (arith, insert_row-count r rows))
    | inr ge ↦ rw ge
  ]

  sort_rows-count : (rows : List Row) → count a (map f (sort_rows rows)) ≡ count a (map f rows)
  unfolding sort_rows
  sort_rows-count [] = refl
  sort_rows-count (r ∷ rows) =
      omega (arith, insert_row-count r (sort_rows rows), sort_rows-count rows)

zip_rows_lem :
    (ids slots : List ℤ)
    → length slots ≡ length ids
    → (accounts (zip_rows ids slots) ≡ ids) × (proxies (zip_rows ids slots) ≡ slots)
unfolding zip_rows
zip_rows_lem [] [] h = (refl, refl)
zip_rows_lem [] (p ∷ ps) h = absurd (omega arith)
zip_rows_lem (a ∷ ids) [] h = absurd (omega arith)
zip_rows_lem (a ∷ ids) (p ∷ ps) h =
    let (left, right) = zip_rows_lem ids ps (omega arith) in
    (ap (λ l. a ∷ l) left, ap (λ l. p ∷ l) right)

module _ (f g : List ℤ → List ℤ) (ids : List ℤ) (quotas : List (ℤ × ℤ))
    (nn : NonNegative quotas) where
  abbrev dealt : List ℤ
  dealt = all_slots (sort_keys quotas)

  length-dealt : length dealt ≡ quota_sum quotas
  length-dealt = length-all_slots (sort_keys quotas) ∙ (sort_keys_lem quotas nn).1

  assign-eq : assign_candidates_to_proxies f g ids quotas ≡ (
      slots_of (sort_keys quotas) >>= λ slots.
      if length slots == length ids
      then ok (sort_rows (zip_rows (f ids) (g slots)))
      else err quota_mismatch)
  unfolding assign_candidates_to_proxies
  assign-eq = refl

  assign_by_sum : assign_candidates_to_proxies f g ids quotas ≡ (
      if quota_sum quotas == length ids
      then ok (sort_rows (zip_rows (f ids) (g dealt)))
      else err quota_mismatch)
  assign_by_sum =
      rw (assign-eq, slots_of-all_slots (sort_keys quotas) (sort_keys_lem quotas nn).0)
        (ap
          (λ (n : ℕ).
            if n == length ids
            then ok (sort_rows (zip_rows (f ids) (g dealt)))
            else err quota_mismatch)
          length-dealt)

-- For quotas that are not negative and sum to the number of candidates, and whatever the two
-- shuffles, there is an assignment: it names each candidate as often as the candidates do, and
-- each proxy as often as its quota says.
pub assign_candidates_to_proxies_lem :
    (f g : List ℤ → List ℤ) (ids : List ℤ) (quotas : List (ℤ × ℤ))
    → IsShuffle f
    → IsShuffle g
    → NonNegative quotas
    → quota_sum quotas ≡ length ids
    → (rows : List Row) × (assign_candidates_to_proxies f g ids quotas ≡ ok rows)
      × ((a : ℤ) → count a (accounts rows) ≡ count a ids)
      × ((p : ℤ) → count p (proxies rows) ≡ quota_for p quotas)
assign_candidates_to_proxies_lem f g ids quotas sf sg nn total =
    let slots = dealt f g ids quotas nn in
    let (left, right) =
      zip_rows_lem (f ids) (g slots)
        (omega (arith, sf.length_kept ids, sg.length_kept slots, length-dealt f g ids quotas nn)) in
    let rows = zip_rows (f ids) (g slots) in
    (
      sort_rows rows,
      assign_by_sum f g ids quotas nn ∙ ground arith,
      λ a. sort_rows-count (λ r. r.account_id) a rows ∙ ap (count a) left ∙ sf.count_kept a ids,
      λ p.
          sort_rows-count (λ r. r.proxy_id) p rows
          ∙ ap (count p) right
          ∙ sg.count_kept p slots
          ∙ count-all_slots p (sort_keys quotas)
          ∙ (sort_keys_lem quotas nn).2 p,
    )

-- Quotas that are not negative and of another sum than the number of candidates are refused.
pub assign_candidates_to_proxies-quota_mismatch :
    (f g : List ℤ → List ℤ) (ids : List ℤ) (quotas : List (ℤ × ℤ))
    → NonNegative quotas
    → quota_sum quotas ≢ length ids
    → assign_candidates_to_proxies f g ids quotas ≡ err quota_mismatch
assign_candidates_to_proxies-quota_mismatch f g ids quotas nn total =
    assign_by_sum f g ids quotas nn ∙ ground arith
