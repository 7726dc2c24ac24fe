-- ===== src/Egress/Assign.antt =====
-- `assign_candidates_to_proxies` of bind_quota_egress.py. `random.Random(seed)` gives two shuffles,
-- which are parameters: that of the candidates and that of the slots.
pub mod Shares
use grok_build_auth.Prelude.{
  replicate, int_eq, ltb_ℤ, ℤ, pos, negsuc, ◌+◌, Bool, ◌&&◌, ◌||◌, List, [], ◌∷◌, ◌++◌, ◌==◌,
  if◌then◌else◌, length, ok, err, ◌>>=◌,
}
use grok_build_auth.Egress.Base.{Try, negative_quota, quota_mismatch}

pub record Row : Type 0 where
  pub account_id : ℤ
  pub proxy_id : ℤ

-- `sorted(quotas)`, with the quota of each key.
unfoldable pub insert_key : ℤ × ℤ → List (ℤ × ℤ) → List (ℤ × ℤ)
insert_key x [] = x ∷ []
insert_key x (y ∷ ys) = if ltb_ℤ y.0 x.0 then y ∷ insert_key x ys else x ∷ y ∷ ys

unfoldable pub sort_keys : List (ℤ × ℤ) → List (ℤ × ℤ)
unfolding insert_key
sort_keys [] = []
sort_keys (x ∷ xs) = insert_key x (sort_keys xs)

abbrev copies : ℤ × ℤ → Try (List ℤ)
copies (pid, pos q) = ok (replicate q pid)
copies (pid, negsuc q) = err negative_quota

unfoldable pub slots_of : List (ℤ × ℤ) → Try (List ℤ)
slots_of [] = ok []
slots_of (x ∷ xs) = do here ← copies x; rest ← slots_of xs; ok (here ++ rest)

unfoldable pub zip_rows : List ℤ → List ℤ → List Row
zip_rows (a ∷ as') (p ∷ ps) = record { account_id = a; proxy_id = p } ∷ zip_rows as' ps
zip_rows _ _ = []

abbrev row_lt : Row → Row → Bool
row_lt r s =
    ltb_ℤ r.account_id s.account_id
    || (int_eq r.account_id s.account_id && ltb_ℤ r.proxy_id s.proxy_id)

unfoldable pub insert_row : Row → List Row → List Row
insert_row r [] = r ∷ []
insert_row r (s ∷ rows) = if row_lt s r then s ∷ insert_row r rows else r ∷ s ∷ rows

unfoldable pub sort_rows : List Row → List Row
unfolding insert_row
sort_rows [] = []
sort_rows (r ∷ rows) = insert_row r (sort_rows rows)

module _ (shuffle_ids shuffle_slots : List ℤ → List ℤ) where
  unfoldable pub assign_candidates_to_proxies : List ℤ → List (ℤ × ℤ) → Try (List Row)
  unfolding sort_keys slots_of zip_rows sort_rows
  assign_candidates_to_proxies ids quotas = do
    slots ← slots_of (sort_keys quotas)
    if length slots == length ids
        then ok (sort_rows (zip_rows (shuffle_ids ids) (shuffle_slots slots)))
        else err quota_mismatch
