-- ===== src/Egress/Balance/Level.antt =====
-- The loop of `compute_balanced_quotas` fills up from the lowest proxy.
use grok_build_auth.Prelude.{
  All-map₂, All-map, int_eq, int_eq_iff, ℤ, ℕ, zero, suc, ◌+◌, ◌≤◌, ◌≡◌, refl, ◌∙◌, ◌⊎◌, inl, inr,
  true, false, List, [], ◌∷◌, map, arith, if◌then◌else◌, Bool-cases, All,
}
use grok_build_auth.Egress.Balance.{sum_quotas, quotas_of, bump, fill, key_lt, Load, lowest}

-- The totals lie above `m`, and a proxy that was given a binding is at most one above it.
abbrev pub AtLevel : ℕ → Load → Type 0
AtLevel m x = (m ≤ x.total) × (x.base ≤ x.total) × ((x.total ≡ x.base) ⊎ (x.total ≤ m + 1))

abbrev pub Distinct : List Load → Type 0
Distinct [] = Unit
Distinct (x ∷ xs) = All (λ y. int_eq x.pid y.pid ≡ false) xs × Distinct xs

-- A proxy with the number of `t` has the total of `t`.
abbrev Agrees : Load → Load → Type 0
Agrees t x = int_eq x.pid t.pid ≡ true → x.total ≡ t.total

lowest-holds :
    (P : Load → Type 0) (best : Load) (xs : List Load) → P best → All P xs → P (lowest best xs)
unfolding lowest
lowest-holds P best [] p h = p
lowest-holds P best (x ∷ xs) p h = elim (Bool-cases (key_lt x best)) [
  | inl lt ↦ rw lt (lowest-holds P x xs h.0 h.1)
  | inr nlt ↦ rw nlt (lowest-holds P best xs p h.1)
]

lowest-le-best : (best : Load) (xs : List Load) → (lowest best xs).total ≤ best.total
unfolding lowest
lowest-le-best best [] = omega arith
lowest-le-best best (x ∷ xs) = ground (arith, lowest-le-best x xs, lowest-le-best best xs)

lowest-le : (best : Load) (xs : List Load) → All (λ x. (lowest best xs).total ≤ x.total) xs
unfolding lowest
lowest-le best [] = tt
lowest-le best (x ∷ xs) =
    let next = if key_lt x best then x else best in
    let low : next.total ≤ x.total = ground arith in
    (omega (arith, lowest-le-best next xs), lowest-le next xs)

int_eq_sym : (a b : ℤ) → int_eq a b ≡ int_eq b a
int_eq_sym a b = ground (arith, int_eq_iff a b, int_eq_iff b a)

Distinct-Agrees : (xs : List Load) → Distinct xs → All (λ t. All (Agrees t) xs) xs
Distinct-Agrees [] d = tt
Distinct-Agrees (x ∷ xs) d = (
  ((λ _. refl), All-map _ _ xs (λ y ne e. cc (int_eq_sym x.pid y.pid)) d.0),
  All-map₂ _ _ _ xs (λ t ne agree. ((λ e. cc), agree)) d.0 (Distinct-Agrees xs d.1),
)

-- One more binding for a proxy of the least total `a` keeps the level, at `a`.
bump-AtLevel :
    (a : ℕ) (pid : ℤ) (xs : List Load)
    → All (λ x. (a ≤ x.total) × (x.base ≤ x.total) × ((x.total ≡ x.base) ⊎ (x.total ≤ a + 1))) xs
    → All (λ x. int_eq x.pid pid ≡ true → x.total ≡ a) xs
    → All (AtLevel a) (bump pid xs)
unfolding bump
bump-AtLevel a pid [] h k = tt
bump-AtLevel a pid (x ∷ xs) h k = elim (Bool-cases (int_eq x.pid pid)) [
  | inl eq ↦ let low = k.0 eq in rw eq ((omega arith, omega arith, inr (omega arith)), h.1)
  | inr ne ↦ rw ne (h.0, bump-AtLevel a pid xs h.1 k.1)
]

-- `bump` leaves the numbers and the first counts alone.
All-bump :
    (P : ℤ → ℕ → Type 0) (pid : ℤ) (xs : List Load)
    → All (λ x. P x.pid x.base) xs
    → All (λ x. P x.pid x.base) (bump pid xs)
unfolding bump
All-bump P pid [] h = tt
All-bump P pid (x ∷ xs) h = elim (Bool-cases (int_eq x.pid pid)) [
  | inl eq ↦ rw eq h
  | inr ne ↦ rw ne (h.0, All-bump P pid xs h.1)
]

bump-Distinct : (pid : ℤ) (xs : List Load) → Distinct xs → Distinct (bump pid xs)
unfolding bump
bump-Distinct pid [] d = tt
bump-Distinct pid (x ∷ xs) d = elim (Bool-cases (int_eq x.pid pid)) [
  | inl eq ↦ rw eq d
  | inr ne ↦ rw ne (All-bump (λ p b. int_eq x.pid p ≡ false) pid xs d.0, bump-Distinct pid xs d.1)
]

pub All-fill :
    (P : ℤ → ℕ → Type 0) (n : ℕ) (xs : List Load)
    → All (λ x. P x.pid x.base) xs
    → All (λ x. P x.pid x.base) (fill n xs)
unfolding fill
All-fill P zero xs h = h
All-fill P (suc n) [] h = tt
All-fill P (suc n) (x ∷ xs) h =
    All-fill P n (bump (lowest x xs).pid (x ∷ xs)) (All-bump P (lowest x xs).pid (x ∷ xs) h)

map_pid-bump : (pid : ℤ) (xs : List Load) → map (λ x. x.pid) (bump pid xs) ≡ map (λ x. x.pid) xs
unfolding bump
map_pid-bump pid [] = refl
map_pid-bump pid (x ∷ xs) = ground (arith, map_pid-bump pid xs)

pub map_pid-fill : (n : ℕ) (xs : List Load) → map (λ x. x.pid) (fill n xs) ≡ map (λ x. x.pid) xs
unfolding fill
map_pid-fill zero xs = refl
map_pid-fill (suc n) [] = refl
map_pid-fill (suc n) (x ∷ xs) =
    map_pid-fill n (bump (lowest x xs).pid (x ∷ xs)) ∙ map_pid-bump (lowest x xs).pid (x ∷ xs)

-- From a level, the loop ends at a level.
pub fill-AtLevel :
    (n : ℕ) (m : ℕ) (xs : List Load)
    → Distinct xs
    → All (AtLevel m) xs
    → (m' : ℕ) × All (AtLevel m') (fill n xs)
unfolding fill
fill-AtLevel zero m xs d h = (m, h)
fill-AtLevel (suc n) m [] d h = (m, tt)
fill-AtLevel (suc n) m (x ∷ xs) d h =
    let t = lowest x xs in
    let above : m ≤ t.total =
      lowest-holds (λ y. m ≤ y.total) x xs h.0.0 (All-map _ _ xs (λ y l. l.0) h.1) in
    let agree =
      lowest-holds (λ t. All (Agrees t) (x ∷ xs)) x xs (Distinct-Agrees (x ∷ xs) d).0
        (Distinct-Agrees (x ∷ xs) d).1 in
    fill-AtLevel n t.total (bump t.pid (x ∷ xs)) (bump-Distinct t.pid (x ∷ xs) d) (
      bump-AtLevel t.total t.pid (x ∷ xs)
        (All-map₂ (λ y. t.total ≤ y.total) (AtLevel m) _ (x ∷ xs)
          (λ y low l. (low, l.1, elim l.2 [ inl e ↦ inl e | inr e ↦ inr (omega arith) ]))
          (lowest-le-best x xs, lowest-le x xs) h)
        agree)

-- The sum of the quotas, once no total lies below its first count.
unfoldable pub given : List Load → ℕ
given xs = sum_quotas (quotas_of xs)

abbrev Occurs : ℤ → List Load → Type 0
Occurs pid [] = ⊥
Occurs pid (x ∷ xs) = (int_eq x.pid pid ≡ true) ⊎ Occurs pid xs

int_eq_refl : (a : ℤ) → int_eq a a ≡ true
int_eq_refl a = ground (arith, int_eq_iff a a)

lowest-Occurs : (x : Load) (xs : List Load) → Occurs (lowest x xs).pid (x ∷ xs)
lowest-Occurs x xs =
    lowest-holds (λ t. Occurs t.pid (x ∷ xs)) x xs (inl (int_eq_refl x.pid)) (tail xs)
  where
    weaken :
        (y : Load) (ys : List Load)
        → All (λ t. Occurs t.pid ys) ys
        → All (λ t. Occurs t.pid (y ∷ ys)) ys
    weaken y ys = All-map (λ t. Occurs t.pid ys) (λ t. Occurs t.pid (y ∷ ys)) ys (λ t h. inr h)

    own : (ys : List Load) → All (λ t. Occurs t.pid ys) ys
    own [] = tt
    own (y ∷ ys) = (inl (int_eq_refl y.pid), weaken y ys (own ys))

    tail : (ys : List Load) → All (λ t. Occurs t.pid (x ∷ ys)) ys
    tail ys = weaken x ys (own ys)

given-bump :
    (pid : ℤ) (xs : List Load)
    → Occurs pid xs
    → All (λ x. x.base ≤ x.total) xs
    → given (bump pid xs) ≡ given xs + 1
unfolding given bump quotas_of
given-bump pid [] o h = elim o [ ]
given-bump pid (x ∷ xs) o h = elim (Bool-cases (int_eq x.pid pid)) [
  | inl eq ↦ rw eq (omega (arith, h.0))
  | inr ne ↦ elim o [ inl e ↦ cc | inr o' ↦ rw ne (omega (arith, given-bump pid xs o' h.1)) ]
]

bump-above :
    (pid : ℤ) (xs : List Load)
    → All (λ x. x.base ≤ x.total) xs
    → All (λ x. x.base ≤ x.total) (bump pid xs)
unfolding bump
bump-above pid [] h = tt
bump-above pid (x ∷ xs) h = elim (Bool-cases (int_eq x.pid pid)) [
  | inl eq ↦ rw eq (omega arith, h.1)
  | inr ne ↦ rw ne (h.0, bump-above pid xs h.1)
]

pub given-fill :
    (n : ℕ) (x : Load) (xs : List Load)
    → All (λ x. x.base ≤ x.total) (x ∷ xs)
    → given (fill n (x ∷ xs)) ≡ given (x ∷ xs) + n
unfolding fill
given-fill zero x xs h = omega arith
given-fill (suc n) x xs h =
    let pid = (lowest x xs).pid in
    let once : given (bump pid (x ∷ xs)) ≡ given (x ∷ xs) + 1 =
      given-bump pid (x ∷ xs) (lowest-Occurs x xs) h in
    let above : All (λ y. y.base ≤ y.total) (bump pid (x ∷ xs)) = bump-above pid (x ∷ xs) h in
    elim (Bool-cases (int_eq x.pid pid)) [
      | inl eq ↦ rw eq (
          omega (
            arith,
            rw eq at once,
            given-fill n (record x { total = x.total + 1 }) xs (rw eq at above),
          ))
      | inr ne ↦ rw ne (omega (arith, rw ne at once, given-fill n x (bump pid xs) (rw ne at above)))
    ]
