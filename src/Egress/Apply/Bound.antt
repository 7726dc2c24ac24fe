-- ===== src/Egress/Apply/Bound.antt =====
-- What a result of `apply_one_account` shows of the account.
use grok_build_auth.Prelude.{
  int_eq_iff, ℤ, ◌≡◌, refl, ap, inl, inr, Bool, true, false, Option, none, some, List, arith,
  Bool-cases, ok, err,
}
use grok_build_auth.Egress.Account.{
  candidate_reason, in_group, is_int, Account, is_schedulable, already_applied, account_group_ids,
}
use grok_build_auth.Egress.Base.{Reason, mem, Try}
use grok_build_auth.Json.{arr, bool, as_int, int, get, Fields}
use grok_build_auth.Egress.Apply.{
  bound, drifted, roll_back, proceed, apply_one_account, bind_account, decide, mutate, Applied,
  verify,
}
use grok_build_auth.Egress.Snapshot.{
  preserved_status_state, or_null, ints, Preserved, non_secret_before,
}
use grok_build_auth.Egress.Monad.{pure, handled, ◌>>>=◌}
use grok_build_auth.Egress.Client.{
  set_proxy_id, set_schedulable, get_account, World, Reply, Request,
}
use grok_build_auth.Egress.Account.Truthy.{truthy-is_true}
use grok_build_auth.Effect.Returned.{WhenOk-continue, WhenOk-bind, WhenOk, WhenOk-ok}

module _ (p g : ℤ) where
  -- The account is bound to proxy `p`, is scheduled and in group `g`, and the snapshot says so.
  abbrev pub Shows : Fields → Type 0
  Shows after =
      (get "proxy_id" after ≡ int p)
      × (get "schedulable" after ≡ bool true)
      × ((ids : List ℤ) × (get "group_ids" after ≡ arr (ints ids)) × (mem g ids ≡ true))

  non_secret_before-Shows :
      (account : Account)
      → is_int (as_int (get "proxy_id" account)) p ≡ true
      → is_schedulable account ≡ true
      → in_group account g ≡ true
      → Shows (non_secret_before account)
  unfolding non_secret_before is_schedulable in_group
  non_secret_before-Shows account hp hs hg = (
    or_null_lem (as_int (get "proxy_id" account)) hp,
    ap bool (truthy-is_true (get "schedulable" account) hs),
    (account_group_ids account, refl, hg),
  )
    where
      or_null_lem : (o : Option ℤ) → is_int o p ≡ true → or_null o ≡ int p
      or_null_lem none h = cc
      or_null_lem (some n) h = ap int ((int_eq_iff n p).0 h)

  verify-checks :
      (after : Account) (kept : Preserved)
      → verify after kept p g ≡ ok tt
      → (is_int (as_int (get "proxy_id" after)) p ≡ true)
        × (is_schedulable after ≡ true)
        × (in_group after g ≡ true)
  unfolding verify
  verify-checks after kept h = (ground arith, ground arith, ground arith)

  already_applied-checks :
      (account : Account)
      → already_applied account p g ≡ true
      → (is_int (as_int (get "proxy_id" account)) p ≡ true)
        × (is_schedulable account ≡ true)
        × (in_group account g ≡ true)
  unfolding already_applied
  already_applied-checks account h = (ground arith, ground arith, ground arith)

module _ {S : Type 0} (serve : Request → S → Reply × S) (id p g : ℤ) where
  -- The account that the `try` block gives back was checked.
  mutate-Shows :
      (live : Account) (w : World S)
      → WhenOk (λ after. Shows p g (non_secret_before after)) (mutate serve id p g live w)
  unfolding mutate
  mutate-Shows live w = WhenOk-bind _ (set_schedulable serve id false) _ w (λ _ w1.
      WhenOk-bind _ (set_proxy_id serve id p) _ w1 (λ _ w2.
        WhenOk-bind _ (set_schedulable serve id true) _ w2 (λ _ w3.
          WhenOk-bind _ (get_account serve id) _ w3 (λ after w4.
            WhenOk-continue _ (verify after (preserved_status_state live) p g) _ w4 (λ _ passed.
              let checks = verify-checks p g after (preserved_status_state live) passed in
              non_secret_before-Shows p g after checks.0 checks.1 checks.2)))))

  abbrev ShowsBound : Applied → Type 0
  ShowsBound x = Shows p g x.after

  bind_account-Shows :
      (before : Option Fields) (live : Account) (w : World S)
      → WhenOk ShowsBound (bind_account serve id p g before live w)
  unfolding bind_account roll_back
  bind_account-Shows before live w = go (mutate serve id p g live w) (mutate-Shows live w)
    where
      go :
          (r : Try Account × World S)
          → WhenOk (λ after. Shows p g (non_secret_before after)) r
          → WhenOk ShowsBound (
              ((λ _. handled (roll_back serve id p g live) r.0 r.1) >>>= λ after.
              pure (bound serve id p g before live after))
                w)
      go (ok after, w1) h = h
      go (err e, w1) h = tt

  decide-Shows :
      (before : Option Fields) (live : Account) (drift : Bool) (w : World S)
      → WhenOk ShowsBound (decide serve id p g before live drift w)
  unfolding decide proceed
  decide-Shows before live true w = tt
  decide-Shows before live false w = elim (Bool-cases (already_applied live p g)) [
    | inl bound_already ↦
        let checks = already_applied-checks p g live bound_already in
        rw bound_already (non_secret_before-Shows p g live checks.0 checks.1 checks.2)
    | inr unbound ↦ rw unbound (proceed-Shows (candidate_reason live g))
  ]
    where
      proceed-Shows :
          (reason : Option Reason) → WhenOk ShowsBound (proceed serve id p g before live reason w)
      proceed-Shows none = bind_account-Shows before live w
      proceed-Shows (some reason) = tt

  apply_one_account-Shows :
      (before : Option Fields) (w : World S)
      → WhenOk ShowsBound (apply_one_account serve id p g before w)
  unfolding apply_one_account
  apply_one_account-Shows before w = WhenOk-bind _ (get_account serve id) _ w (λ live w1.
      WhenOk-continue _ (drifted before live p (already_applied live p g))
        (decide serve id p g before live) w1 (λ drift _. decide-Shows before live drift w1))

-- When `apply_one_account` returns a result, be it `applied` or `already_bound`, the `after`
-- snapshot that it read back shows the expected proxy, a schedulable account and the expected group
-- among the account's groups.
pub apply_one_account-ok :
    {S : Type 0} (serve : Request → S → Reply × S) (id p g : ℤ) (before : Option Fields)
    (w : World S) (x : Applied)
    → (apply_one_account serve id p g before w).0 ≡ ok x
    → Shows p g x.after
apply_one_account-ok serve id p g before w x =
    WhenOk-ok (ShowsBound serve id p g) (apply_one_account serve id p g before w) x
      (apply_one_account-Shows serve id p g before w)
