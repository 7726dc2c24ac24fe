-- ===== src/Bridge/Rollback/Settled.antt =====
-- How `rollback_import_candidate` and `promote_sub2api_account` of bridge/bridge.py end.
use grok_build_auth.Prelude.{
  [], none, sym, ◌∷◌, refl, inl, inr, false, some, err, ok, true, List, Bool, Option, ℤ, ◌≡◌,
}
use grok_build_auth.Bridge.Calls.{
  set_schedulable, update_account, read_state, find_by_id, row_of, value_of, sub2api_api,
  find_account_snapshot_by_id, World, Reply, Call, Env,
}
use grok_build_auth.Bridge.Rollback.{
  group_list, group_update, is_promoted, promote_sub2api_account, State, quarantined, not_imported,
  reported, created, updated, auth_if, is_isolated, is_rotated, Action, rollback_import_candidate,
}
use grok_build_auth.Bridge.Auth.{Try}
use grok_build_auth.Json.{Fields}
use grok_build_auth.Bridge.Calls.Ran.{
  Ran-call_then, Ran-raise, Told, Ran-pure, Ran-if, Ran-lift_then, Ran-call-lift, Ran-bind, Ran,
  IfTrue,
}
use grok_build_auth.Bridge.Rollback.Undone.{
  Ran-restore_sub2api_account, shown, Ran-delete_sub2api_account, Ran-account_state_fingerprint,
  Ran-quarantine_sub2api_account, RolledBack, Restored, Gone, Shown,
}

module _ {S : Type 0} (env : Env) (serve : Call → S → Reply × S) where
  -- What a run gives, with the world after it, if it returns.
  abbrev pub Gives : {A : Type 0} → (A → World S → Type 0) → Try A → List Call → World S → Type 0
  Gives P (ok a) cs w = P a w
  Gives P (err e) cs w = Unit

  module _ (account_id : ℤ) (snapshot : Option Fields) (auth_data : Fields) (preserve : Bool) where
    undone :
        (done : Bool) (cs : List Call) (w : World S)
        → IfTrue (Gone env serve account_id) (ok done) cs w
        → RolledBack env serve account_id created snapshot auth_data preserve
            (reported not_imported done)
            w
    undone true cs w gone = inl (refl, gone)
    undone false cs w gone = refl

    asked_for :
        (current : Option Fields) (rotated preserve : Bool)
        → is_rotated env current auth_data preserve ≡ ok rotated
        → rotated ≡ true
        → preserve ≡ true
    asked_for current rotated true read h = refl
    asked_for current rotated false read h = cc

    kept :
        preserve ≡ true
        → (done : Bool) (cs : List Call) (w : World S)
        → IfTrue (Shown env serve account_id (λ state. is_isolated state ≡ true)) (ok done) cs w
        → RolledBack env serve account_id created snapshot auth_data preserve
            (reported quarantined done)
            w
    kept asked true cs w isolated = inr (refl, asked, isolated)
    kept asked false cs w isolated = refl

  restored :
      (account_id : ℤ) (before auth_data : Fields) (preserve : Bool) (done : Bool) (cs : List Call)
      (w : World S)
      → IfTrue (Restored env serve before (auth_if preserve auth_data)) (ok done) cs w
      → RolledBack env serve account_id updated
          (some before)
          auth_data
          preserve
          (reported not_imported done)
          w
  restored account_id before auth_data preserve true cs w seen = (refl, before, refl, seen)
  restored account_id before auth_data preserve false cs w seen = refl

  pub Ran-rollback_import_candidate :
      (account_id : ℤ) (action : Action) (snapshot : Option Fields) (auth_data : Fields)
      (preserve : Bool) (w : World S)
      → Ran w
          (Gives (RolledBack env serve account_id action snapshot auth_data preserve))
          (rollback_import_candidate env serve account_id action snapshot auth_data preserve)
  unfolding rollback_import_candidate find_account_snapshot_by_id sub2api_api
  Ran-rollback_import_candidate account_id created snapshot auth_data preserve w =
      Ran-bind (Ran-call-lift env serve value_of row_of (find_by_id account_id) w)
        (λ current cs w1 heard.
          Ran-lift_then
            (λ rotated read.
              Ran-if rotated
                (λ asked.
                  Ran-bind (Ran-quarantine_sub2api_account env serve account_id w1)
                    (λ done ds w2 seen. Ran-pure (
                      kept account_id snapshot auth_data preserve
                        (asked_for account_id snapshot auth_data preserve current rotated preserve
                          read asked)
                        done ds w2 seen))
                    (λ e ds w2 seen. tt))
                (λ _.
                  Ran-bind (Ran-delete_sub2api_account env serve account_id w1)
                    (λ done ds w2 gone.
                      Ran-pure (undone account_id snapshot auth_data preserve done ds w2 gone))
                    (λ e ds w2 gone. tt)))
            (λ e. tt))
        (λ e cs w1 heard. tt)
  Ran-rollback_import_candidate account_id updated none auth_data preserve w = Ran-raise tt
  Ran-rollback_import_candidate account_id updated (some before) auth_data preserve w =
      Ran-bind (Ran-restore_sub2api_account env serve before (auth_if preserve auth_data) w)
        (λ done cs w1 seen.
          Ran-pure (restored account_id before auth_data preserve done cs w1 seen))
        (λ e cs w1 seen. tt)

  -- The calls of a promotion.
  abbrev pub promotion : ℤ → List Call
  promotion account_id =
      read_state account_id
      ∷ update_account account_id (group_update (group_list env))
      ∷ set_schedulable account_id true
      ∷ read_state account_id
      ∷ []

  -- The last answer shows the credentials of an earlier state in use, in the group of the bridge.
  abbrev pub Promoted : ℤ → World S → Type 0
  Promoted account_id w =
      (verified : State) × Shown env serve account_id
        (λ state. is_promoted env verified state ≡ true) w

  abbrev pub Promotion : ℤ → Try Bool → List Call → World S → Type 0
  Promotion account_id (ok true) cs w = (cs ≡ promotion account_id) × Promoted account_id w
  Promotion account_id (ok false) cs w = Unit
  Promotion account_id (err e) cs w = Unit

  promoted :
      (account_id : ℤ) (verified : State) (cs : List Call) (w : World S) (state : Option State)
      → cs ≡ promotion account_id
      → Told env serve (read_state account_id) (λ reply. ok state ≡ shown env serve reply) w
      → (b : Bool) → is_promoted env verified state ≡ b
      → Promotion account_id (ok b) cs w
  promoted account_id verified cs w state logged (s, said, same) true h =
      (logged, (verified, (s, (state, sym said, h), same)))
  promoted account_id verified cs w state logged told false h = tt

  pub Ran-promote_sub2api_account :
      (account_id : ℤ) (w : World S)
      → Ran w (Promotion account_id) (promote_sub2api_account env serve account_id)
  unfolding promote_sub2api_account sub2api_api
  Ran-promote_sub2api_account account_id w =
      Ran-bind (Ran-account_state_fingerprint env serve account_id w)
        (λ before cs w1 (first, _).
          Ran-lift_then
            (λ verified _.
              Ran-call_then env serve value_of
                (update_account account_id (group_update (group_list env)))
                (λ _ w2.
                  Ran-call_then env serve value_of (set_schedulable account_id true)
                    (λ _ w3.
                      Ran-bind (Ran-account_state_fingerprint env serve account_id w3)
                        (λ final ds w4 (last, told). Ran-pure (
                          promoted account_id verified _ w4 final (rw (first, last)) told
                            (is_promoted env verified final) refl))
                        (λ e ds w4 heard. tt))
                    (λ e w3. tt))
                (λ e w2. tt))
            (λ e. tt))
        (λ e cs w1 heard. tt)
