-- ===== src/Egress/Run/Failure.antt =====
-- The runs of `apply_plan` of bind_quota_egress.py that raise.
use grok_build_auth.Prelude.{
  ap, refl, ◌∙◌, ℕ, inr, inl, ◌⊎◌, pos, ltb_ℤ, not, ◌++◌, All, ◌≡◌, if◌then◌else◌, ℤ, Text, sym,
  Bool, true, false, List, [], ◌∷◌, ok, err, append-nil,
}
use grok_build_auth.Egress.Run.{
  done, failed, skipped, Item, summary_json, backup_json, after_line, outside, record_failure,
  run_rows, results_line, after_try, write_out, run_row, result_dir, FileWrite, any_mutating,
  run_prepared, apply_plan, carry_out, prepare_plan, prepare, validate_plan_for_apply, Report,
  backup_if, judge, Prepared,
}
use grok_build_auth.Egress.Plan.{check_plan, Valid, Assignment}
use grok_build_auth.Egress.Run.Reads.{
  OnlyReads-none, OnlyReads-trans, OnlyReads, IsReadOnly, lift-IsReadOnly, bind-IsReadOnly,
  get_account-IsReadOnly, verify_proxies_active-IsReadOnly,
}
use grok_build_auth.Egress.Client.{is_write, get_account, World, Reply, Request}
use grok_build_auth.Egress.Base.{bad_failure_limit, no_confirmation, ToolError, Try}
use grok_build_auth.Json.{Fields}
use grok_build_auth.Egress.Account.{Account}
use grok_build_auth.Egress.Monad.{raise, continue, pure, ◌>>>=◌, lift, Tool}
use grok_build_auth.Egress.Pages.{verify_proxies_active}
use grok_build_auth.Effect.Returned.{
  Raises-if, Raises-bind, Raises-pure, Raises, WhenErr-all, WhenErr,
}
use grok_build_auth.Egress.Apply.{Applied}

module _ {S : Type 0} (serve : Request → S → Reply × S) (verify_digest : Try (Unit {0}))
    (client_origin : Try Text) (create_backup : S → Try (Unit {0}) × S)
    (write_file : FileWrite → S → Try (Unit {0}) × S) where
  validate-IsReadOnly :
      (plan : Fields)
      → IsReadOnly
          (validate_plan_for_apply serve verify_digest client_origin create_backup write_file plan)
  unfolding validate_plan_for_apply
  validate-IsReadOnly plan =
      bind-IsReadOnly (lift (check_plan client_origin plan))
        (λ valid. verify_proxies_active serve valid.proxy_ids >>>= λ _. pure valid)
        (lift-IsReadOnly S (check_plan client_origin plan))
        (λ valid.
          bind-IsReadOnly (verify_proxies_active serve valid.proxy_ids) (λ _. pure valid)
            (verify_proxies_active-IsReadOnly serve valid.proxy_ids)
            (λ _. lift-IsReadOnly S (ok valid)))

  abbrev prepared_rows : ℤ → List Assignment → Tool (World S) (List Prepared)
  prepared_rows = prepare serve verify_digest client_origin create_backup write_file

  abbrev judged_row : ℤ → Assignment → Account → Try Prepared
  judged_row = judge serve verify_digest client_origin create_backup write_file

  prepare-IsReadOnly : (g : ℤ) (rows : List Assignment) → IsReadOnly (prepared_rows g rows)
  unfolding prepare
  prepare-IsReadOnly g [] = lift-IsReadOnly S (ok [])
  prepare-IsReadOnly g (a ∷ rows) =
      bind-IsReadOnly (get_account serve a.account_id)
        (λ live. lift (judged_row g a live) >>>= λ row.
          prepared_rows g rows >>>= λ rest. pure (row ∷ rest))
        (get_account-IsReadOnly serve a.account_id)
        (λ live.
          bind-IsReadOnly (lift (judged_row g a live))
            (λ row. prepared_rows g rows >>>= λ rest. pure (row ∷ rest))
            (lift-IsReadOnly S (judged_row g a live))
            (λ row.
              bind-IsReadOnly (prepared_rows g rows) (λ rest. pure (row ∷ rest))
                (prepare-IsReadOnly g rows) (λ rest. lift-IsReadOnly S (ok (row ∷ rest)))))

  abbrev written : FileWrite → Tool (World S) (Unit {0})
  written = write_out serve verify_digest client_origin create_backup write_file

  outside-IsReadOnly :
      (act : S → Try (Unit {0}) × S)
      → IsReadOnly (outside serve verify_digest client_origin create_backup write_file act)
  unfolding IsReadOnly
  outside-IsReadOnly act w = ([], tt, sym (append-nil w.calls))

  write_out-IsReadOnly : (file : FileWrite) → IsReadOnly (written file)
  unfolding write_out
  write_out-IsReadOnly file = outside-IsReadOnly (write_file file)

  prepare_plan-IsReadOnly :
      (plan : Fields)
      → IsReadOnly (prepare_plan serve verify_digest client_origin create_backup write_file plan)
  unfolding prepare_plan
  prepare_plan-IsReadOnly plan =
      bind-IsReadOnly (lift verify_digest) (λ _. validated >>>= behind)
        (lift-IsReadOnly S verify_digest)
        (λ _. bind-IsReadOnly validated behind (validate-IsReadOnly plan) (λ valid.
          bind-IsReadOnly (written result_dir)
            (λ _. prepared_rows valid.group_id valid.assignments >>>= λ rows. pure (valid, rows))
            (write_out-IsReadOnly result_dir)
            (λ _.
              bind-IsReadOnly (prepared_rows valid.group_id valid.assignments)
                (λ rows. pure (valid, rows)) (prepare-IsReadOnly valid.group_id valid.assignments)
                (λ rows. lift-IsReadOnly S (ok (valid, rows))))))
    where
      validated : Tool (World S) Valid
      validated =
          validate_plan_for_apply serve verify_digest client_origin create_backup write_file plan

      behind : Valid → Tool (World S) (Valid × List Prepared)
      behind valid = written result_dir >>>= λ _.
          prepared_rows valid.group_id valid.assignments >>>= λ rows. pure (valid, rows)

  backup_if-IsReadOnly :
      (b : Bool)
      → IsReadOnly (backup_if serve verify_digest client_origin create_backup write_file b)
  unfolding backup_if
  backup_if-IsReadOnly true =
      bind-IsReadOnly
        (outside serve verify_digest client_origin create_backup write_file create_backup)
        (λ _. written backup_json) (outside-IsReadOnly create_backup)
        (λ _. write_out-IsReadOnly backup_json)
  backup_if-IsReadOnly false = lift-IsReadOnly S (ok tt)

-- The files about what was done to the accounts.
abbrev pub is_of_run : FileWrite → Bool
is_of_run result_dir = false
is_of_run backup_json = false
is_of_run (results_line item') = true
is_of_run (summary_json summary) = true

module _ {S : Type 0} (write_file : FileWrite → S → Try (Unit {0}) × S) where
  -- The exception of such a file.
  abbrev pub WriteFailed : ToolError → Type 0
  WriteFailed e =
      (file : FileWrite) × (is_of_run file ≡ true) × (s : S) × ((write_file file s).0 ≡ err e)

  -- What a run that raises leaves in the log.
  abbrev Unwritten : World S → Try Report × World S → Type 0
  Unwritten w (ok report, w') = Unit
  Unwritten w (err e, w') = OnlyReads {A = Report} w (err e, w') ⊎ WriteFailed e

  Unwritten-failed :
      (w : World S) (r : Try Report × World S) → WhenErr WriteFailed r → Unwritten w r
  Unwritten-failed w (ok report, w') h = tt
  Unwritten-failed w (err e, w') h = inr h

  bind-Unwritten :
      {A : Type 0} (m : Tool (World S) A) (f : A → Tool (World S) Report) (w : World S)
      → IsReadOnly m
      → ((a : A) (w1 : World S) → Unwritten w1 (f a w1))
      → Unwritten w ((m >>>= f) w)
  unfolding IsReadOnly
  bind-Unwritten {A} m f w h k = go (m w) (h w)
    where
      later :
          (a : A) (w1 : World S) (r : Try Report × World S)
          → OnlyReads {A = A} w (ok a, w1)
          → Unwritten w1 r
          → Unwritten w r
      later a w1 (ok report, w2) read rest = tt
      later a w1 (err e, w2) read (inl rest) =
          inl (OnlyReads-trans {B = Report} (ok a) (err e) w w1 w2 read rest)
      later a w1 (err e, w2) read (inr failed_write) = inr failed_write

      go : (r : Try A × World S) → OnlyReads w r → Unwritten w (continue r.0 f r.1)
      go (ok a, w1) read = later a w1 (f a w1) read (k a w1)
      go (err e, w1) read = inl read

  Unwritten-err :
      (w : World S) (r : Try Report × World S) (e : ToolError)
      → Unwritten w r
      → r.0 ≡ err e
      → ((tried : List Request) × All (λ q. is_write q.method ≡ false) tried
          × (r.1.calls ≡ w.calls ++ tried))
        ⊎ WriteFailed e
  Unwritten-err w (ok report, w') e h raised = cc
  Unwritten-err w (err x, w') e (inl reads) raised = inl reads
  Unwritten-err w (err x, w') e (inr (file, of_run, s, failed_write)) raised =
      inr (file, of_run, s, failed_write ∙ ap err (let same : x ≡ e = cc in same))

module _ {S : Type 0} (serve : Request → S → Reply × S) (verify_digest : Try (Unit {0}))
    (client_origin : Try Text) (create_backup : S → Try (Unit {0}) × S)
    (write_file : FileWrite → S → Try (Unit {0}) × S) (limit : ℤ) where
  Raises-write_out :
      (file : FileWrite)
      → is_of_run file ≡ true
      → Raises
          (WriteFailed write_file)
          (write_out serve verify_digest client_origin create_backup write_file file)
  unfolding write_out
  Raises-write_out file of_run = record {
    at = λ w. WhenErr-all (WriteFailed write_file) _ (λ e raised. (file, of_run, w.server, raised));
  }

  Raises-record_failure :
      (g : ℤ) (row : Prepared) (failures : ℕ) (items : List Item) (exc : ToolError)
      → Raises (WriteFailed write_file) (
          record_failure serve verify_digest client_origin create_backup write_file g limit row
            failures items exc)
  unfolding record_failure
  Raises-record_failure g row failures items exc =
      Raises-bind (Raises-write_out (results_line (failed row.account_id row.proxy_id exc)) refl)
        (λ _. Raises-pure)

  after_try-WriteFailed :
      (g : ℤ) (row : Prepared) (failures : ℕ) (r : Try Applied × World S)
      → WhenErr (WriteFailed write_file) (
          after_try serve verify_digest client_origin create_backup write_file g limit row failures
            r)
  unfolding after_try after_line
  after_try-WriteFailed g row failures (err exc, w) =
      (Raises-record_failure g row failures [] exc).at w
  after_try-WriteFailed g row failures (ok x, w) = go (
      write_out serve verify_digest client_origin create_backup write_file (results_line (done x))
        w)
    where
      go :
          (r : Try (Unit {0}) × World S)
          → WhenErr (WriteFailed write_file) (
              after_line serve verify_digest client_origin create_backup write_file g limit row
                failures x r)
      go (ok _, w1) = tt
      go (err exc, w1) = (Raises-record_failure g row failures (done x ∷ []) exc).at w1

  Raises-run_row :
      (g : ℤ) (row : Prepared) (failures : ℕ)
      → Raises
          (WriteFailed write_file)
          (run_row serve verify_digest client_origin create_backup write_file g limit row failures)
  unfolding run_row
  Raises-run_row g row failures =
      Raises-if row.skip
        (Raises-bind (Raises-write_out (results_line (skipped row)) refl) (λ _. Raises-pure))
        (record { at = λ w. after_try-WriteFailed g row failures _ })

  Raises-run_rows :
      (g : ℤ) (rows : List Prepared) (failures : ℕ)
      → Raises (WriteFailed write_file) (
          run_rows serve verify_digest client_origin create_backup write_file g limit rows failures)
  unfolding run_rows
  Raises-run_rows g [] failures = Raises-pure
  Raises-run_rows g (row ∷ rows) failures = Raises-bind (Raises-run_row g row failures) (λ tried.
      Raises-if tried.stop Raises-pure
        (Raises-bind (Raises-run_rows g rows tried.failures) (λ _. Raises-pure)))

  Raises-run_prepared :
      (valid : Valid) (rows : List Prepared)
      → Raises
          (WriteFailed write_file)
          (run_prepared serve verify_digest client_origin create_backup write_file limit valid rows)
  unfolding run_prepared
  Raises-run_prepared valid rows =
      Raises-bind (Raises-run_rows valid.group_id rows 0)
        (λ results. Raises-bind (Raises-write_out (summary_json _) refl) (λ _. Raises-pure))

  carry_out-Unwritten :
      (valid : Valid) (rows : List Prepared) (w : World S)
      → Unwritten write_file w
          (carry_out serve verify_digest client_origin create_backup write_file limit valid rows w)
  unfolding carry_out
  carry_out-Unwritten valid rows w =
      bind-Unwritten write_file
        (backup_if serve verify_digest client_origin create_backup write_file needed)
        (λ _.
          run_prepared serve verify_digest client_origin create_backup write_file limit valid rows)
        w (backup_if-IsReadOnly serve verify_digest client_origin create_backup write_file needed)
        (λ _ w1. Unwritten-failed write_file w1 _ ((Raises-run_prepared valid rows).at w1))
    where
      needed : Bool
      needed = any_mutating serve verify_digest client_origin create_backup write_file rows

  guarded_run :
      (unconfirmed negative : Bool) (plan : Fields) (w : World S)
      → Unwritten write_file w (
          (if unconfirmed
              then raise no_confirmation
              else if negative
              then raise bad_failure_limit
              else prepare_plan serve verify_digest client_origin create_backup write_file plan
                >>>= λ prepared.
                    carry_out serve verify_digest client_origin create_backup write_file limit
                      prepared.0 prepared.1)
            w)
  guarded_run true negative plan w = inl (OnlyReads-none {A = Report} (err no_confirmation) w)
  guarded_run false true plan w = inl (OnlyReads-none {A = Report} (err bad_failure_limit) w)
  guarded_run false false plan w =
      bind-Unwritten write_file
        (prepare_plan serve verify_digest client_origin create_backup write_file plan)
        (λ prepared.
          carry_out serve verify_digest client_origin create_backup write_file limit prepared.0
            prepared.1)
        w (prepare_plan-IsReadOnly serve verify_digest client_origin create_backup write_file plan)
        (λ prepared w1. carry_out-Unwritten prepared.0 prepared.1 w1)

-- When `apply_plan` raises, all the calls that it made of the Admin API were reads, or what it raised
-- is the exception of a write of a line of its results or of its summary.
pub apply_plan-err :
    {S : Type 0} (serve : Request → S → Reply × S) (verify_digest : Try (Unit {0}))
    (client_origin : Try Text) (create_backup : S → Try (Unit {0}) × S)
    (write_file : FileWrite → S → Try (Unit {0}) × S) (confirmed : Bool) (limit : ℤ) (plan : Fields)
    (w : World S) (e : ToolError)
    → (apply_plan serve verify_digest client_origin create_backup write_file confirmed limit plan
        w).0
      ≡ err e
    → ((tried : List Request) × All (λ q. is_write q.method ≡ false) tried
        × ((apply_plan serve verify_digest client_origin create_backup write_file confirmed limit
              plan w).1.calls
            ≡ w.calls ++ tried))
      ⊎ WriteFailed write_file e
unfolding apply_plan
apply_plan-err serve verify_digest client_origin create_backup write_file confirmed limit plan w e =
    Unwritten-err write_file w
      (apply_plan serve verify_digest client_origin create_backup write_file confirmed limit plan w)
      e
      (guarded_run serve verify_digest client_origin create_backup write_file limit (not confirmed)
        (ltb_ℤ limit (pos 0)) plan w)
