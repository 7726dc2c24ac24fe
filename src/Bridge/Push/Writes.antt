-- ===== src/Bridge/Push/Writes.antt =====
-- The writes of the push of bridge/bridge.py and the answers behind them.
use grok_build_auth.Prelude.{
  if◌then◌else◌, inr, refl, inl, ◌⊎◌, none, some, sym, [], Bool, Option, true, false, err, ◌∷◌, ok,
  List, ℤ, Text, ◌≡◌,
}
use grok_build_auth.Bridge.Calls.{
  value_of, sub2api_api, update_account, World, create_account, Reply, Call, Env,
}
use grok_build_auth.Json.{put, Value, nil, Fields}
use grok_build_auth.Bridge.Auth.{auth_subject_mismatch, Try}
use grok_build_auth.Bridge.Push.{
  priority_of, candidate_of, write_update, created_id, candidate_name, import_update,
  isolate_unless, import_new, isolate, isolate_created, ErrorCode, write_failed_create, write_code,
  write_failed_row, write_failed_update, import_failed, rollback_failed, candidate_write_unknown,
  promotion_failed, stale_auth, postimport_probe_error, subject_mismatch, postimport_probe_failed,
  candidate_isolation_failed, candidate_write_failed, probe_failed, is_usable, refused, imported_ok,
  Candidate, Response,
}
use grok_build_auth.Bridge.Rollback.{
  id_of, unknown, Imported, updated, created, build_account_payload, Action,
}
use grok_build_auth.Bridge.Push.Settled.{isolate-Settles, Refusal, isolated_promotion, Settles}
use grok_build_auth.Bridge.Rollback.Settled.{Ran-rollback_import_candidate, Promoted}
use mathlib.Core.Path.{subst}
use grok_build_auth.Bridge.Calls.Ran.{
  Ran-call_then, Ran-try_except, Ran-mono, Ran-if, Behind, Ran-lift_then, Ran-pure, Ran-bind, Ran,
}
use grok_build_auth.Bridge.Calls.Probes.{Ran-find_account_snapshot}
use grok_build_auth.Effect.{pure}

-- Whether the refusal comes after the write of the candidate, or of an exception.
abbrev pub is_late : ErrorCode → Bool
is_late (probe_failed code) = false
is_late subject_mismatch = false
is_late stale_auth = false
is_late _ = true

module _ {S : Type 0} (env : Env) (serve : Call → S → Reply × S) (name : Text)
    (auth_data : Fields) where
  -- The write of the candidate: out of every group and not schedulable.
  abbrev pub Writes : Call → ℤ → Action → Type 0
  Writes c account_id created =
      c ≡ create_account (build_account_payload env name auth_data nil false)
  Writes c account_id updated =
      (title : Text) × (priority : Value) × (c
        ≡ update_account account_id
            (put "priority" priority (build_account_payload env title auth_data nil false)))

  -- An answer of success comes of the write of the candidate, its isolation, test and promotion.
  abbrev pub Imports : Response → List Call → World S → Type 0
  Imports (imported_ok account_id action account_probe) cs w =
      (write : Call) × Writes write account_id action
      × (cs ≡ write ∷ isolated_promotion env serve name auth_data account_id)
      × (is_usable account_probe ≡ true)
      × Promoted env serve account_id w
  Imports (refused code state) cs w = is_late code ≡ true

  abbrev pub Answers : Try Response → List Call → World S → Type 0
  Answers (ok response) cs w = Imports response cs w
  Answers (err e) cs w = Unit

  Refusal-is_late :
      (c : Candidate) (code : ErrorCode) (state : Imported) (w : World S)
      → Refusal env serve name auth_data c code state w
      → is_late code ≡ true
  Refusal-is_late c candidate_write_failed state w h = refl
  Refusal-is_late c candidate_isolation_failed state w h = refl
  Refusal-is_late c postimport_probe_failed state w h = refl
  Refusal-is_late c postimport_probe_error state w h = refl
  Refusal-is_late c promotion_failed state w h = refl
  Refusal-is_late c candidate_write_unknown state w h = refl
  Refusal-is_late c rollback_failed state w h = refl
  Refusal-is_late c import_failed state w h = refl
  Refusal-is_late c (probe_failed code) state w h = absurd h
  Refusal-is_late c subject_mismatch state w h = absurd h
  Refusal-is_late c stale_auth state w h = absurd h

  imports :
      (c : Candidate) (write : Call) (r : Try Response) (cs : List Call) (w : World S)
      → Writes write c.account_id c.action
      → Settles env serve name auth_data c r cs w
      → Answers r (write ∷ cs) w
  imports c write (ok (imported_ok account_id action account_probe)) cs w written
        (same_id, same_action, good, logged, seen) =
      (
        write,
        subst (λ i. Writes write i action) (sym same_id)
            (subst (λ a. Writes write c.account_id a) (sym same_action) written),
        rw (logged, same_id),
        good,
        subst (λ i. Promoted env serve i w) (sym same_id) seen,
      )
  imports c write (ok (refused code state)) cs w written settled =
      Refusal-is_late c code state w settled
  imports c write (err e) cs w written settled = tt

  abbrev Late : Try Response → List Call → World S → Type 0
  Late (ok (imported_ok account_id action account_probe)) cs w = ⊥
  Late (ok (refused code state)) cs w = is_late code ≡ true
  Late (err e) cs w = Unit

  late : (r : Try Response) (cs ds : List Call) (w w1 : World S) → Late r cs w → Answers r ds w1
  late (ok (refused code state)) cs ds w w1 h = h
  late (ok (imported_ok account_id action account_probe)) cs ds w w1 h = absurd h
  late (err e) cs ds w w1 h = tt

  write_code-is_late : (rollback_ok : Bool) → is_late (write_code rollback_ok) ≡ true
  write_code-is_late true = refl
  write_code-is_late false = refl

  Ran-write_failed_update :
      (c : Candidate) (w : World S) → Ran w Late (write_failed_update env serve name auth_data c)
  unfolding write_failed_update
  Ran-write_failed_update c w =
      Ran-bind
        (Ran-rollback_import_candidate env serve c.account_id c.action c.snapshot auth_data false w)
        (λ (rollback_ok, state) cs w1 rolled. Ran-pure (write_code-is_late rollback_ok))
        (λ e cs w1 rolled. tt)

  Ran-write_failed_row :
      (row : Option Fields) (w : World S)
      → Ran w Late (write_failed_row env serve name auth_data row)
  Ran-write_failed_row none w = Ran-pure refl
  Ran-write_failed_row (some row) w =
      Ran-lift_then
        (λ account_id _.
          Ran-write_failed_update
            (record { account_id = account_id; action = created; snapshot = none }) w)
        (λ e. tt)

  refused_before :
      (cs : List Call) (r : Try Response) (ds : List Call) (w : World S)
      → Late r ds w
      → Behind cs Late r ds w
  refused_before cs (ok (refused code state)) ds w h = h
  refused_before cs (ok (imported_ok account_id action account_probe)) ds w h = h
  refused_before cs (err e) ds w h = tt

  Ran-write_failed_create :
      (w : World S) → Ran w Late (write_failed_create env serve name auth_data)
  unfolding write_failed_create
  Ran-write_failed_create w =
      Ran-bind (Ran-find_account_snapshot env serve name [] [] w)
        (λ ambiguous cs w1 searched.
          Ran-lift_then {r = auth_subject_mismatch env.decode_segment ambiguous auth_data}
            {f = λ mismatch.
              if mismatch
              then pure (refused candidate_write_unknown unknown)
              else write_failed_row env serve name auth_data ambiguous}
            (λ mismatch _.
              Ran-if mismatch {m = pure (refused candidate_write_unknown unknown)}
                (λ _. Ran-pure {a = refused candidate_write_unknown unknown} refl)
                (λ _.
                  Ran-mono (Ran-write_failed_row ambiguous w1)
                    (λ r ds w2 h. refused_before cs r ds w2 h)))
            (λ e. tt))
        (λ e cs w1 searched. tt)

  -- After the write: a response is late, and nothing but the write was logged otherwise.
  abbrev Written : {A : Type 0} → Call → Try (Response ⊎ A) → List Call → World S → Type 0
  Written write (ok (inl response)) cs w = Late (ok response) cs w
  Written write (ok (inr a)) cs w = cs ≡ write ∷ []
  Written write (err e) cs w = Unit

  Ran-isolate_created :
      (written : Response ⊎ ℤ) (cs : List Call) (w : World S)
      → Written
          (create_account (build_account_payload env name auth_data nil false))
          (ok written)
          cs
          w
      → Ran w (Behind cs Answers) (isolate_created env serve name auth_data written)
  Ran-isolate_created (inl response) cs w h = Ran-pure (late (ok response) cs _ w w h)
  Ran-isolate_created (inr account_id) cs w logged =
      subst (λ l. Ran w (Behind l Answers) (isolate env serve name auth_data c)) (sym logged)
        (Ran-mono (isolate-Settles env serve name auth_data c w)
          (λ r ds w1 h. imports c _ r ds w1 refl h))
    where
      c : Candidate
      c = record { account_id = account_id; action = created; snapshot = none }

  refused_again :
      (response : Response) (cs ds : List Call) (w : World S)
      → Late (ok response) cs w
      → Late (ok response) ds w
  refused_again (refused code state) cs ds w h = h
  refused_again (imported_ok account_id action account_probe) cs ds w h = h

  pub Ran-import_new : (w : World S) → Ran w Answers (import_new env serve name auth_data)
  unfolding import_new sub2api_api
  Ran-import_new w =
      Ran-bind
        (Ran-try_except
          {P = Written (create_account (build_account_payload env name auth_data nil false))}
          {Q = Written (create_account (build_account_payload env name auth_data nil false))}
          (Ran-call_then env serve value_of
            (create_account (build_account_payload env name auth_data nil false))
            (λ result w1.
              Ran-lift_then {r = created_id result} {f = λ account_id. pure (inr account_id)}
                (λ account_id _. Ran-pure {a = inr account_id} refl) (λ e. tt))
            (λ e w1. tt))
          (λ written cs w1 q. q)
          (λ e cs w1 q.
            Ran-bind (Ran-write_failed_create w1)
              (λ response ds w2 h. Ran-pure (refused_again response ds _ w2 h)) (λ e' ds w2 h. tt)))
        (λ written cs w1 q. Ran-isolate_created written cs w1 q) (λ e cs w1 q. tt)

  abbrev Updated : Call → Try (Option Response) → List Call → World S → Type 0
  Updated write (ok none) cs w = cs ≡ write ∷ []
  Updated write (ok (some response)) cs w = Late (ok response) cs w
  Updated write (err e) cs w = Unit

  Ran-isolate_unless :
      (c : Candidate) (write : Call) (failure : Option Response) (cs : List Call) (w : World S)
      → Writes write c.account_id c.action
      → Updated write (ok failure) cs w
      → Ran w (Behind cs Answers) (isolate_unless env serve name auth_data c failure)
  Ran-isolate_unless c write (some response) cs w written h =
      Ran-pure (late (ok response) cs _ w w h)
  Ran-isolate_unless c write none cs w written logged =
      subst (λ l. Ran w (Behind l Answers) (isolate env serve name auth_data c)) (sym logged)
        (Ran-mono (isolate-Settles env serve name auth_data c w)
          (λ r ds w1 h. imports c write r ds w1 written h))

  Ran-write_update :
      (c : Candidate) (candidate : Fields) (w : World S)
      → Writes (update_account c.account_id candidate) c.account_id c.action
      → Ran w Answers (write_update env serve name auth_data c candidate)
  unfolding write_update sub2api_api
  Ran-write_update c candidate w written =
      Ran-bind
        (Ran-try_except {P = Updated write} {Q = Updated write}
          (Ran-call_then env serve value_of write {f = λ _. pure none}
            (λ _ w1. Ran-pure {a = none} refl) (λ e w1. tt))
          (λ failure cs w1 q. q)
          (λ e cs w1 q.
            Ran-bind (Ran-write_failed_update c w1)
              (λ response ds w2 h. Ran-pure {a = some response} (refused_again response ds _ w2 h))
              (λ e' ds w2 h. tt)))
        (λ failure cs w1 q. Ran-isolate_unless c write failure cs w1 written q) (λ e cs w1 q. tt)
    where
      write : Call
      write = update_account c.account_id candidate

  pub Ran-import_update :
      (snapshot : Fields) (w : World S)
      → Ran w Answers (import_update env serve name auth_data snapshot)
  unfolding import_update
  Ran-import_update snapshot w =
      Ran-lift_then {r = id_of snapshot}
        (λ account_id _.
          Ran-lift_then {r = priority_of env serve name auth_data snapshot}
            (λ priority _.
              Ran-write_update
                (record { account_id = account_id; action = updated; snapshot = some snapshot })
                (candidate_of env serve name auth_data snapshot priority) w
                (candidate_name env serve name auth_data snapshot, priority, refl))
            (λ e. tt))
        (λ e. tt)
