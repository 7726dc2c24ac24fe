-- ===== src/Egress/Run/Tally.antt =====
-- What the loop of `apply_plan` records, and what its summary says of it.
use grok_build_auth.Prelude.{
  length-append, sym, ◌⊎◌, ◌++◌, ltb_ℤ, not, ◌∙◌, ℤ, pos, negsuc, Text, ℕ, suc, ◌+◌, ◌≤◌, ◌≡◌, refl,
  ap, inl, inr, Bool, true, false, List, [], ◌∷◌, arith, Bool-cases, length, ok, err,
}
use grok_build_auth.Egress.Run.{
  summary_json, results_line, write_out, after_line, run_row, Tried, report_of, record_failure,
  FileWrite, prepare_plan, any_mutating, backup_if, run_prepared, summarise, apply_plan, carry_out,
  Report, was_applied, Results, Prepared, Item, at_limit, count_if, is_failed, is_applied,
  is_already_applied, run_rows, after_try, skipped, done, failed,
}
use grok_build_auth.Egress.Client.{World, Reply, Request}
use grok_build_auth.Egress.Base.{ToolError, Try}
use grok_build_auth.Egress.Apply.{Applied}
use grok_build_auth.Egress.Plan.{Valid}
use grok_build_auth.Effect.Returned.{
  Returns-any, Returns-pure, Returns-bind, Returns-if, Returns, WhenOk-ok, WhenOk,
}
use grok_build_auth.Json.{Fields}

abbrev pub item_id : Item → ℤ
item_id (skipped row) = row.account_id
item_id (done x) = x.account_id
item_id (failed account_id proxy_id exc) = account_id

reaches_limit :
    (limit : ℤ) (failures : ℕ)
    → at_limit limit failures ≡ false
    → at_limit limit (suc failures) ≡ true
    → pos (suc failures) ≡ limit
reaches_limit (pos limit) failures below at =
    let reached : suc failures ≡ limit = ground arith in ap pos reached
reaches_limit (negsuc limit) failures below at = ground arith

-- Each line of the results is counted once.
count_if-sum :
    (xs : List Item)
    → count_if is_applied xs + count_if is_already_applied xs + count_if is_failed xs ≡ length xs
count_if-sum [] = refl
count_if-sum (skipped row ∷ xs) = omega (arith, count_if-sum xs)
count_if-sum (failed a p exc ∷ xs) = omega (arith, count_if-sum xs)
count_if-sum (done x ∷ xs) = elim (Bool-cases (was_applied x.status)) [
  | inl now ↦ rw now (omega (arith, count_if-sum xs))
  | inr before ↦ rw before (omega (arith, count_if-sum xs))
]

count_if-append :
    (p : Item → Bool) (xs ys : List Item) → count_if p (xs ++ ys) ≡ count_if p xs + count_if p ys
count_if-append p [] ys = omega arith
count_if-append p (x ∷ xs) ys = omega (arith, count_if-append p xs ys)

module _ {S : Type 0} (write_file : FileWrite → S → Try (Unit {0}) × S) where
  -- The line of a result could not be written.
  abbrev pub LineFailed : Type 0
  LineFailed =
      (x : Applied) × (s : S) × (e : ToolError) × ((write_file (results_line (done x)) s).0 ≡ err e)

  -- Each row that was tried has a result, and a failure more where the line of its result could not be
  -- written.
  abbrev pub Doubled : ℕ → List Item → Type 0
  Doubled doubled items = (doubled ≤ count_if is_failed items) × ((doubled ≡ 0) ⊎ LineFailed)

  -- A loop that begins with `failures` failures, below the limit: it counts those that it records, and
  -- tries each row, unless it counted as many as the limit.
  abbrev Tallied : ℤ → ℕ → List Prepared → Results → Type 0
  Tallied limit failures rows r =
      (r.failures ≡ failures + count_if is_failed r.items)
      × ((tried : ℕ) × (doubled : ℕ) × (length r.items ≡ tried + doubled)
          × (tried ≤ length rows)
          × Doubled doubled r.items
          × (at_limit limit r.failures ≡ false → tried ≡ length rows))
      × (at_limit limit r.failures ≡ true → pos r.failures ≡ limit)

  abbrev RowTallied : ℤ → ℕ → Tried → Type 0
  RowTallied limit failures t =
      (t.failures ≡ failures + count_if is_failed t.items)
      × ((doubled : ℕ) × (length t.items ≡ 1 + doubled) × Doubled doubled t.items)
      × (at_limit limit t.failures ≡ t.stop)
      × (t.stop ≡ true → pos t.failures ≡ limit)

  either_doubled :
      (m n : ℕ) → (m ≡ 0) ⊎ LineFailed → (n ≡ 0) ⊎ LineFailed → (m + n ≡ 0) ⊎ LineFailed
  either_doubled m n (inl h) (inl k) = inl (omega (arith, h, k))
  either_doubled m n (inl h) (inr k) = inr k
  either_doubled m n (inr h) k = inr h

  Tallied-stop :
      (limit : ℤ) (failures : ℕ) (row : Prepared) (rows : List Prepared) (t : Tried)
      → t.stop ≡ true
      → RowTallied limit failures t
      → Tallied limit failures (row ∷ rows) (record { items = t.items; failures = t.failures })
  Tallied-stop limit failures row rows t stop (sum, (doubled, size, twice), at, reached) = (
    sum,
    (
      1,
      doubled,
      size,
      omega arith,
      twice,
      λ below. (let never : true ≡ false = sym stop ∙ sym at ∙ below in cc),
    ),
    λ _. reached stop,
  )

  Tallied-more :
      (limit : ℤ) (failures : ℕ) (row : Prepared) (rows : List Prepared) (t : Tried) (r : Results)
      → RowTallied limit failures t
      → Tallied limit t.failures rows r
      → Tallied limit failures
          (row ∷ rows)
          (record { items = t.items ++ r.items; failures = r.failures })
  Tallied-more limit failures row rows t r (sum, (doubled, size, twice), at, reached)
        (sums, (tried, doubles, sizes, most, (many, why), full), limits) =
      (
        omega (arith, sum, sums, count_if-append is_failed t.items r.items),
        (
          suc tried,
          doubled + doubles,
          omega (arith, size, sizes, length-append t.items r.items),
          omega (arith, most),
          (
            omega (arith, twice.0, many, count_if-append is_failed t.items r.items),
            either_doubled doubled doubles twice.1 why,
          ),
          λ below. omega (arith, full below),
        ),
        limits,
      )

module _ {S : Type 0} (serve : Request → S → Reply × S) (verify_digest : Try (Unit {0}))
    (client_origin : Try Text) (create_backup : S → Try (Unit {0}) × S)
    (write_file : FileWrite → S → Try (Unit {0}) × S) (group_id limit : ℤ) where
  Returns-record_failure :
      (row : Prepared) (failures doubled : ℕ) (items : List Item) (exc : ToolError)
      → at_limit limit failures ≡ false
      → count_if is_failed items ≡ 0
      → length items ≡ doubled
      → doubled ≤ 1
      → (doubled ≡ 0) ⊎ LineFailed write_file
      → Returns (RowTallied write_file limit failures) (
          record_failure serve verify_digest client_origin create_backup write_file group_id limit
            row failures items exc)
  unfolding record_failure
  Returns-record_failure row failures doubled items exc below fine size most why =
      Returns-bind {A = Unit {0}}
        (Returns-any (
          write_out serve verify_digest client_origin create_backup write_file
            (results_line (failed row.account_id row.proxy_id exc))))
        (λ _ _.
          Returns-pure
            {a = record {
              items = items ++ failed row.account_id row.proxy_id exc ∷ [];
              failures = suc failures;
              stop = at_limit limit (suc failures);
            }}
            (
              omega (arith, fine, counted),
              (doubled, omega (arith, size, longer), (omega (arith, fine, most, counted), why)),
              refl,
              λ at. reaches_limit limit failures below at,
            ))
    where
      counted :
          count_if is_failed (items ++ failed row.account_id row.proxy_id exc ∷ [])
          ≡ count_if is_failed items + 1
      counted = count_if-append is_failed items (failed row.account_id row.proxy_id exc ∷ [])

      longer : length (items ++ failed row.account_id row.proxy_id exc ∷ []) ≡ length items + 1
      longer = length-append items (failed row.account_id row.proxy_id exc ∷ [])

  after_try-RowTallied :
      (row : Prepared) (failures : ℕ) (r : Try Applied × World S)
      → at_limit limit failures ≡ false
      → WhenOk (RowTallied write_file limit failures) (
          after_try serve verify_digest client_origin create_backup write_file group_id limit row
            failures r)
  unfolding after_try after_line write_out
  after_try-RowTallied row failures (err exc, w) below =
      (Returns-record_failure row failures 0 [] exc below refl refl (omega arith) (inl refl)).at w
  after_try-RowTallied row failures (ok x, w) below =
      go (write_file (results_line (done x)) w.server) refl
    where
      go :
          (r : Try (Unit {0}) × S)
          → write_file (results_line (done x)) w.server ≡ r
          → WhenOk (RowTallied write_file limit failures) (
              after_line serve verify_digest client_origin create_backup write_file group_id limit
                row failures x
                (r.0, record { server = r.1; calls = w.calls }))
      go (ok _, s) h = (omega arith, (0, refl, (omega arith, inl refl)), below, λ stop. cc)
      go (err exc, s) h =
          (Returns-record_failure row failures 1 (done x ∷ []) exc below refl refl (omega arith)
              (inr (x, w.server, exc, ap (λ p. p.0) h))).at
            _

  Returns-run_row :
      (row : Prepared) (failures : ℕ)
      → at_limit limit failures ≡ false
      → Returns (RowTallied write_file limit failures) (
          run_row serve verify_digest client_origin create_backup write_file group_id limit row
            failures)
  unfolding run_row
  Returns-run_row row failures below =
      Returns-if row.skip
        (λ _.
          Returns-bind {A = Unit {0}}
            (Returns-any (
              write_out serve verify_digest client_origin create_backup write_file
                (results_line (skipped row))))
            (λ _ _.
              Returns-pure
                {a = record { items = skipped row ∷ []; failures = failures; stop = false }}
                (omega arith, (0, refl, (omega arith, inl refl)), below, λ stop. cc)))
        (λ _. record { at = λ w. after_try-RowTallied row failures _ below })

  Returns-run_rows :
      (rows : List Prepared) (failures : ℕ)
      → at_limit limit failures ≡ false
      → Returns (Tallied write_file limit failures rows) (
          run_rows serve verify_digest client_origin create_backup write_file group_id limit rows
            failures)
  unfolding run_rows
  Returns-run_rows [] failures below = Returns-pure (
    omega arith,
    (0, 0, refl, omega arith, (omega arith, inl refl), λ _. refl),
    λ at. (let never : true ≡ false = sym at ∙ below in cc),
  )
  Returns-run_rows (row ∷ rows) failures below =
      Returns-bind (Returns-run_row row failures below) (λ t tallied.
        Returns-if t.stop
          (λ stop. Returns-pure (Tallied-stop write_file limit failures row rows t stop tallied))
          (λ more. Returns-bind (Returns-run_rows rows t.failures (tallied.2 ∙ more)) (λ r later.
            Returns-pure (Tallied-more write_file limit failures row rows t r tallied later))))

-- What the summary says of the results.
abbrev pub Adds : {S : Type 0} → (FileWrite → S → Try (Unit {0}) × S) → ℤ → Report → Type 0
Adds write_file limit report =
    (report.summary.applied + report.summary.already_applied + report.summary.failed
      ≡ length report.results)
    × ((tried : ℕ) × (doubled : ℕ) × (length report.results ≡ tried + doubled)
        × (tried ≤ report.summary.total)
        × (doubled ≤ report.summary.failed)
        × ((doubled ≡ 0) ⊎ LineFailed write_file)
        × (report.summary.stopped_early ≡ false → tried ≡ report.summary.total))
    × (report.summary.stopped_early ≡ true → pos report.summary.failed ≡ limit)

at_limit-zero : (limit : ℤ) → at_limit limit 0 ≡ false
at_limit-zero limit = ground arith

module _ {S : Type 0} (serve : Request → S → Reply × S) (verify_digest : Try (Unit {0}))
    (client_origin : Try Text) (create_backup : S → Try (Unit {0}) × S)
    (write_file : FileWrite → S → Try (Unit {0}) × S) (limit : ℤ) where
  report_of-Adds :
      (rows : List Prepared) (r : Results)
      → Tallied write_file limit 0 rows r
      → Adds write_file limit
          (report_of serve verify_digest client_origin create_backup write_file limit rows r)
  unfolding summarise
  report_of-Adds rows r (sum, (tried, doubled, size, most, (many, why), full), stop) = (
    count_if-sum r.items,
    (tried, doubled, size, most, many, why, full),
    λ e. ap pos (omega (arith, sum)) ∙ stop e,
  )

  Returns-run_prepared :
      (valid : Valid) (rows : List Prepared)
      → Returns
          (Adds write_file limit)
          (run_prepared serve verify_digest client_origin create_backup write_file limit valid rows)
  unfolding run_prepared
  Returns-run_prepared valid rows =
      Returns-bind
        (Returns-run_rows serve verify_digest client_origin create_backup write_file valid.group_id
          limit rows 0 (at_limit-zero limit))
        (λ r tallied.
          Returns-bind {A = Unit {0}}
            (Returns-any (
              write_out serve verify_digest client_origin create_backup write_file (
                summary_json
                  (report_of serve verify_digest client_origin create_backup write_file limit rows
                    r).summary)))
            (λ _ _.
              Returns-pure
                {a = report_of serve verify_digest client_origin create_backup write_file limit rows
                  r}
                (report_of-Adds rows r tallied)))

  Returns-carry_out :
      (valid : Valid) (rows : List Prepared)
      → Returns
          (Adds write_file limit)
          (carry_out serve verify_digest client_origin create_backup write_file limit valid rows)
  unfolding carry_out
  Returns-carry_out valid rows =
      Returns-bind {A = Unit {0}}
        (Returns-any (
          backup_if serve verify_digest client_origin create_backup write_file
            (any_mutating serve verify_digest client_origin create_backup write_file rows)))
        (λ _ _. Returns-run_prepared valid rows)

-- When `apply_plan` returns, its summary adds up: each result is counted once, as applied, as
-- applied already or as failed; there is a result for each row that was tried, and more, at most one
-- for each failure, only if the write of the line of a result fails; every row was tried unless the
-- run stopped early, which it did only with as many failures as the failure limit.
pub apply_plan-ok :
    {S : Type 0} (serve : Request → S → Reply × S) (verify_digest : Try (Unit {0}))
    (client_origin : Try Text) (create_backup : S → Try (Unit {0}) × S)
    (write_file : FileWrite → S → Try (Unit {0}) × S) (confirmed : Bool) (limit : ℤ) (plan : Fields)
    (w : World S) (report : Report)
    → (apply_plan serve verify_digest client_origin create_backup write_file confirmed limit plan
        w).0
      ≡ ok report
    → Adds write_file limit report
unfolding apply_plan
apply_plan-ok serve verify_digest client_origin create_backup write_file confirmed limit plan w
      report =
    WhenOk-ok (Adds write_file limit)
      (apply_plan serve verify_digest client_origin create_backup write_file confirmed limit plan w)
      report
      ((Returns-if (not confirmed) (λ _. record { at = λ w1. tt })
          (λ _.
            Returns-if (ltb_ℤ limit (pos 0)) (λ _. record { at = λ w1. tt })
              (λ _.
                Returns-bind {A = Valid × List Prepared}
                  (Returns-any
                    (prepare_plan serve verify_digest client_origin create_backup write_file plan))
                  (λ prepared _.
                    Returns-carry_out serve verify_digest client_origin create_backup write_file
                      limit prepared.0 prepared.1)))).at
        w)
