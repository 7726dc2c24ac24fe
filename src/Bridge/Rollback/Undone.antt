-- ===== src/Bridge/Rollback/Undone.antt =====
-- What a rollback that is reported as done has seen, in bridge/bridge.py: the last answer of the
-- services shows that the account is gone, kept out of use or as it was.
use grok_build_auth.Prelude.{
  Bool, not, refl, none, inr, inl, ◌⊎◌, err, some, List, ◌==◌, ==_iff, ap, ◌∙◌, ok-injective, sym,
  ℤ, ◌≡◌, true, false, Option, ok, ◌>>=◌,
}
use grok_build_auth.Json.{truthy, obj, put, get, Items, Fields, nil}
use grok_build_auth.Bridge.Auth.{is_end, credentials_advanced_after_candidate, credentials_of, Try}
use grok_build_auth.Bridge.Calls.{
  find_by_id, row_of, find_account_snapshot_by_id, set_schedulable, update_account, delete_account,
  Call, Env, Reply, World, get_account, read_state, status_of, value_of, sub2api_api,
  sub2api_api_status,
}
use grok_build_auth.Bridge.Calls.Ran.{
  Ran-lift, Ran-lift_then, IfTrue-ok, IfTrue, Ran-pure, Ran-if, Ran-call-lift, Heard, Ran-call_then,
  Ran, Ran-bind, Ran-try_except, Ran-call, Told,
}
use grok_build_auth.Bridge.Rollback.{
  updated, created, auth_if, quarantined, not_imported, unknown, Imported, Action,
  restore_sub2api_account, is_gone, is_restored, list_or_empty, id_of, restore_writes,
  newer_snapshot, group_update, State, account_state_fingerprint, delete_sub2api_account,
  is_isolated, quarantine_sub2api_account, state_of_value,
}
use mathlib.Core.Path.{subst}

module _ {S : Type 0} (env : Env) (serve : Call → S → Reply × S) where
  -- The state that an answer shows.
  abbrev pub shown : Reply → Try (Option State)
  shown reply = value_of reply >>= state_of_value env

  -- The last answer shows the account in a state with `P`.
  abbrev pub Shown : ℤ → (Option State → Type 0) → World S → Type 0
  Shown account_id P w =
      Told env serve (read_state account_id)
        (λ reply. (state : Option State) × (shown reply ≡ ok state) × P state) w

  abbrev pub Gone : ℤ → World S → Type 0
  Gone account_id w = Told env serve (get_account account_id) (λ reply. status_of reply ≡ ok 404) w

  pub Ran-account_state_fingerprint :
      (account_id : ℤ) (w : World S)
      → Ran w
          (Heard env serve shown (read_state account_id))
          (account_state_fingerprint env serve account_id)
  unfolding account_state_fingerprint sub2api_api
  Ran-account_state_fingerprint account_id w =
      Ran-call-lift env serve value_of (state_of_value env) (read_state account_id) w

  pub Ran-delete_sub2api_account :
      (account_id : ℤ) (w : World S)
      → Ran w (IfTrue (Gone account_id)) (delete_sub2api_account env serve account_id)
  unfolding delete_sub2api_account sub2api_api_status
  Ran-delete_sub2api_account account_id w =
      Ran-call_then env serve status_of (delete_account account_id)
        (λ status w1.
          Ran-if (not (is_gone status)) (λ _. Ran-pure tt)
            (λ _.
              Ran-bind (Ran-call env serve status_of (get_account account_id) w1)
                (λ left cs w2 (logged, (s, said, same)). Ran-pure (
                  IfTrue-ok (Gone account_id) _ w2 (ok (left == 404))
                    λ h. (s, sym said ∙ ap ok ((==_iff left 404).0 (ok-injective h)), same)))
                (λ e cs w2 heard. tt)))
        (λ e w1. tt)

  pub Ran-quarantine_sub2api_account :
      (account_id : ℤ) (w : World S)
      → Ran w
          (IfTrue (Shown account_id (λ state. is_isolated state ≡ true)))
          (quarantine_sub2api_account env serve account_id)
  unfolding quarantine_sub2api_account sub2api_api
  Ran-quarantine_sub2api_account account_id w =
      Ran-try_except {P = IfTrue (Shown account_id (λ state. is_isolated state ≡ true))}
        (Ran-call_then env serve value_of (update_account account_id (group_update nil))
          (λ _ w1.
            Ran-call_then env serve value_of (set_schedulable account_id false)
              (λ _ w2.
                Ran-bind (Ran-account_state_fingerprint account_id w2)
                  (λ state cs w3 (logged, (s, said, same)). Ran-pure (
                    IfTrue-ok (Shown account_id (λ st. is_isolated st ≡ true)) _ w3
                      (ok (is_isolated state)) λ h. (s, (state, sym said, ok-injective h), same)))
                  (λ e cs w3 heard. tt))
              (λ e w2. tt))
          (λ e w1. tt))
        (λ a cs w1 q. q) (λ e cs w1 q. Ran-pure tt)

  -- What a snapshot is restored with: its own credentials, or those that the account has by now, if
  -- they are later than the candidate's.
  abbrev pub Newer : Fields → Option Fields → Fields → Type 0
  Newer snapshot none restored = restored ≡ snapshot
  Newer snapshot (some auth_data) restored =
      (restored ≡ snapshot)
      ⊎ ((current : Fields) × (credentials_advanced_after_candidate env.decode_segment current
              auth_data
            ≡ true)
          × (restored ≡ put "credentials" (obj current) snapshot))

  -- The last answer shows the account as the snapshot has it.
  abbrev pub Restored : Fields → Option Fields → World S → Type 0
  Restored snapshot candidate_auth w =
      (account_id : ℤ) × (restored : Fields) × (credentials : Fields) × (expected : Items) × (id_of
          snapshot
        ≡ ok account_id)
      × Newer snapshot candidate_auth restored
      × (credentials_of restored ≡ ok credentials)
      × (list_or_empty (get "group_ids" snapshot) ≡ ok expected)
      × Shown account_id (λ state. is_restored env credentials snapshot expected state ≡ ok true) w

  abbrev Gives : {A : Type 0} → (A → Type 0) → Try A → List Call → World S → Type 0
  Gives P (ok a) cs w = P a
  Gives P (err e) cs w = Unit

  Ran-newer_snapshot :
      (account_id : ℤ) (snapshot : Fields) (candidate_auth : Option Fields) (w : World S)
      → Ran w
          (Gives (Newer snapshot candidate_auth))
          (newer_snapshot env serve account_id snapshot candidate_auth)
  unfolding newer_snapshot find_account_snapshot_by_id sub2api_api
  Ran-newer_snapshot account_id snapshot none w = Ran-pure refl
  Ran-newer_snapshot account_id snapshot (some auth_data) w =
      Ran-if (is_end auth_data) (λ _. Ran-pure (inl refl))
        (λ _.
          Ran-bind (Ran-call-lift env serve value_of row_of (find_by_id account_id) w)
            (λ current cs w1 heard.
              Ran-lift_then
                (λ credentials read.
                  Ran-if
                    (credentials_advanced_after_candidate env.decode_segment credentials auth_data)
                    (λ advanced. Ran-pure (inr (credentials, advanced, refl)))
                    (λ _. Ran-pure (inl refl)))
                (λ e. tt))
            (λ e cs w1 heard. tt))

  abbrev Seen : ℤ → Fields → Fields → World S → Type 0
  Seen account_id snapshot credentials w =
      (expected : Items) × (list_or_empty (get "group_ids" snapshot) ≡ ok expected)
      × Shown account_id (λ state. is_restored env credentials snapshot expected state ≡ ok true) w

  Ran-restore_writes :
      (account_id : ℤ) (snapshot restored credentials : Fields) (w : World S)
      → Ran w
          (IfTrue (Seen account_id snapshot credentials))
          (restore_writes env serve account_id snapshot restored credentials)
  unfolding restore_writes sub2api_api
  Ran-restore_writes account_id snapshot restored credentials w =
      Ran-lift_then
        (λ payload _.
          Ran-call_then env serve value_of (update_account account_id payload)
            (λ _ w1.
              Ran-call_then env serve value_of
                (set_schedulable account_id (truthy (get "schedulable" snapshot)))
                (λ _ w2.
                  Ran-bind (Ran-account_state_fingerprint account_id w2)
                    (λ state cs w3 (logged, (s, said, same)).
                      Ran-lift_then
                        (λ expected groups. Ran-lift (
                          IfTrue-ok _ _ w3 (is_restored env credentials snapshot expected state)
                            λ h. (expected, groups, (s, (state, sym said, h), same))))
                        (λ e. tt))
                    (λ e cs w3 heard. tt))
                (λ e w2. tt))
            (λ e w1. tt))
        (λ e. tt)

  pub Ran-restore_sub2api_account :
      (snapshot : Fields) (candidate_auth : Option Fields) (w : World S)
      → Ran w
          (IfTrue (Restored snapshot candidate_auth))
          (restore_sub2api_account env serve snapshot candidate_auth)
  unfolding restore_sub2api_account
  Ran-restore_sub2api_account snapshot candidate_auth w =
      Ran-lift_then
        (λ account_id identified.
          Ran-bind (Ran-newer_snapshot account_id snapshot candidate_auth w)
            (λ restored cs w1 newer.
              Ran-lift_then
                (λ credentials read.
                  Ran-try_except (Ran-restore_writes account_id snapshot restored credentials w1)
                    (λ done ds w2 left. IfTrue-ok _ _ w2 (ok done) (λ h.
                      let (expected, groups, seen) =
                        subst (λ r. IfTrue (Seen account_id snapshot credentials) r ds w2) h left in
                      (
                        account_id, restored, credentials, expected, identified, newer, read,
                        groups, seen,
                      )))
                    (λ e ds w2 left. Ran-pure tt))
                (λ e. tt))
            (λ e cs w1 newer. tt))
        (λ e. tt)

  -- A rollback is reported as done only when the last answer shows it; one that is not done leaves
  -- the account unknown.
  abbrev pub RolledBack :
      ℤ → Action → Option Fields → Fields → Bool → Bool × Imported → World S → Type 0
  RolledBack account_id action snapshot auth_data preserve (false, state) w = state ≡ unknown
  RolledBack account_id created snapshot auth_data preserve (true, state) w =
      ((state ≡ not_imported) × Gone account_id w)
      ⊎ ((state ≡ quarantined)
          × (preserve ≡ true)
          × Shown account_id (λ st. is_isolated st ≡ true) w)
  RolledBack account_id updated snapshot auth_data preserve (true, state) w =
      (state ≡ not_imported)
      × (before : Fields) × (snapshot ≡ some before)
      × Restored before (auth_if preserve auth_data) w
