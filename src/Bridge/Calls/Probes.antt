-- ===== src/Bridge/Calls/Probes.antt =====
-- The calls that the probes and the search of bridge/bridge.py make.
use grok_build_auth.Prelude.{
  contains, err, ◌&&◌, is_empty, not, strip, lower, Text, if◌then◌else◌, refl, sym, inr, arith, inl,
  ok, ◌⊎◌, ◌≤◌, false, zero, suc, ◌++◌, Bool, true, ◌∷◌, [], ℕ, List, ◌≡◌,
}
use grok_build_auth.Bridge.Calls.{
  call, only_match, value_of, is_account_name, sub2api_api, find_account_snapshot, find_accounts,
  read_state, find_by_id, test_account, get_account, probe_of, delete_account, is_final,
  set_schedulable, update_account, World, create_account, probe_auth_once, probe_account,
  probe_loop, probe_auth_direct, Reply, Env, Call,
}
use grok_build_auth.Json.{Fields}
use grok_build_auth.Bridge.Auth.{is_address, Try}
use grok_build_auth.Bridge.Calls.Ran.{
  Ran-lift, Ran-call_then, Ran-raise, Ran-pure, Ran-if, Behind, Ran-bind, Ran-mono, Ran,
}
use grok_build_auth.Bridge.Probe.{Probe}
use mathlib.Core.Path.{subst}
use grok_build_auth.Effect.{pure}

abbrev pub copies : ℕ → Call → List Call
copies zero c = []
copies (suc n) c = c ∷ copies n c

-- None of the calls writes.
abbrev pub is_read : Call → Bool
is_read (probe_account auth_data) = true
is_read (create_account payload) = false
is_read (update_account account_id payload) = false
is_read (set_schedulable account_id schedulable) = false
is_read (delete_account account_id) = false
is_read (get_account account_id) = true
is_read (test_account account_id) = true
is_read (find_by_id account_id) = true
is_read (read_state account_id) = true
is_read (find_accounts name email_addr subject) = true

abbrev pub Reads : List Call → Type 0
Reads [] = Unit
Reads (c ∷ cs) = (is_read c ≡ true) × Reads cs

pub Reads-append : (cs ds : List Call) → Reads cs → Reads ds → Reads (cs ++ ds)
Reads-append [] ds r t = t
Reads-append (c ∷ cs) ds (h, r) t = (h, Reads-append cs ds r t)

pub Reads-copies : (n : ℕ) (c : Call) → is_read c ≡ true → Reads (copies n c)
Reads-copies zero c h = tt
Reads-copies (suc n) c h = (h, Reads-copies n c h)

module _ {S : Type 0} (env : Env) (serve : Call → S → Reply × S) where
  module _ (auth_data : Fields) where
    -- The probe that a state of the services answers, and the state after it.
    abbrev pub said : S → Probe
    said s = probe_of env serve (serve (probe_account auth_data) s).0

    abbrev next : S → S
    next s = (serve (probe_account auth_data) s).1

    -- The state after a number of probes.
    unfoldable pub after : ℕ → S → S
    after zero s = s
    after (suc n) s = after n (next s)

    -- None of the first probes was final.
    abbrev pub NotFinal : ℕ → S → Type 0
    NotFinal zero s = Unit
    NotFinal (suc n) s = (is_final env serve (said s) ≡ false) × NotFinal n (next s)

    -- `earlier` probes that were not final and one more, at most `most`, whose result is the
    -- result; fewer only if that one is final.
    abbrev pub Probed : S → ℕ → Try Probe → List Call → World S → Type 0
    Probed s most r cs w =
        (earlier : ℕ) × (r ≡ ok (said (after earlier s)))
        × (cs ≡ copies (suc earlier) (probe_account auth_data))
        × (suc earlier ≤ most)
        × NotFinal earlier s
        × ((suc earlier ≡ most) ⊎ (is_final env serve (said (after earlier s)) ≡ true))

    Probed-suc :
        (s : S) (most : ℕ) (r : Try Probe) (cs : List Call) (w : World S)
        → is_final env serve (said s) ≡ false
        → Probed (next s) most r cs w
        → Probed s (suc most) r (probe_account auth_data ∷ cs) w
    unfolding after
    Probed-suc s most r cs w here (earlier, returned, logged, bound, before, ended) =
        (suc earlier, returned, rw logged, omega arith, (here, before), later ended)
      where
        later :
            (suc earlier ≡ most) ⊎ (is_final env serve (said (after earlier (next s))) ≡ true)
            → (suc (suc earlier) ≡ suc most)
              ⊎ (is_final env serve (said (after earlier (next s))) ≡ true)
        later (inl e) = inl (omega arith)
        later (inr e) = inr e

    -- One probe: its call, its result, and the state after it.
    abbrev One : S → Try Probe → List Call → World S → Type 0
    One s r cs w = (r ≡ ok (said s)) × (cs ≡ probe_account auth_data ∷ []) × (w.server ≡ next s)

    Ran-probe_auth_once : (w : World S) → Ran w (One w.server) (probe_auth_once env serve auth_data)
    unfolding probe_auth_once call
    Ran-probe_auth_once w = record {
      run = (probe_account auth_data ∷ [], refl, (refl, refl, refl));
    }

    final_said :
        (probe : Probe) (w : World S) (b : Bool)
        → ◌≡◌ {A = Try Probe} (ok probe) (ok (said w.server))
        → is_final env serve probe ≡ b
        → is_final env serve (said w.server) ≡ b
    final_said probe w b result h = cc

    Ran-probe_loop :
        (left : ℕ) (w : World S)
        → Ran w (Probed w.server (suc left)) (probe_loop env serve auth_data left)
    unfolding probe_loop after
    Ran-probe_loop zero w =
        Ran-mono (Ran-probe_auth_once w)
          (λ r cs w1 (result, logged, moved). (0, result, logged, omega arith, tt, inl refl))
    Ran-probe_loop (suc left) w =
        Ran-bind (Ran-probe_auth_once w)
          (λ probe cs w1 (result, logged, moved).
            subst
              (λ l. Ran w1 (Behind l (Probed w.server (suc (suc left)))) (
                if is_final env serve probe
                then pure probe
                else probe_loop env serve auth_data left))
              (sym logged)
              (Ran-if (is_final env serve probe)
                (λ final.
                  Ran-pure
                    (0, result, refl, omega arith, tt, inr (final_said probe w true result final)))
                (λ not_final. Ran-mono (Ran-probe_loop left w1) (λ r ds w2 q.
                  Probed-suc w.server (suc left) r ds w2 (final_said probe w false result not_final)
                    (subst (λ s. Probed s (suc left) r ds w2) moved q)))))
          (λ e cs w1 (result, logged, moved). cc)

    -- The result is that of the last probe; every earlier probe was not final, at least one and at
    -- most `attempts` probes are made, fewer only if the last is final, and nothing is raised.
    pub probe_auth_direct-Probed :
        (attempts : ℕ) (w : World S)
        → 1 ≤ attempts
        → Ran w (Probed w.server attempts) (probe_auth_direct env serve auth_data attempts)
    unfolding probe_auth_direct
    probe_auth_direct-Probed zero w h = elim h [ ]
    probe_auth_direct-Probed (suc left) w h =
        subst (λ n. Ran w (Probed w.server (suc left)) (probe_loop env serve auth_data n))
          (omega arith) (Ran-probe_loop left w)

  -- The search makes one call, if it returns.
  abbrev pub Searched : {A : Type 0} → Text → Text → Text → Try A → List Call → World S → Type 0
  Searched name email_addr subject (ok a) cs w =
      cs ≡ find_accounts name (lower (strip email_addr)) (strip subject) ∷ []
  Searched name email_addr subject (err e) cs w = Unit

  searched :
      {A : Type 0} (name email_addr subject : Text) (r : Try A) (w : World S)
      → Searched name email_addr subject r
          (find_accounts name (lower (strip email_addr)) (strip subject) ∷ [])
          w
  searched name email_addr subject (ok a) w = refl
  searched name email_addr subject (err e) w = tt

  pub Ran-find_account_snapshot :
      (name email_addr subject : Text) (w : World S)
      → Ran w
          (Searched name email_addr subject)
          (find_account_snapshot env serve name email_addr subject)
  unfolding find_account_snapshot sub2api_api
  Ran-find_account_snapshot name email_addr subject w =
      Ran-if (not (is_account_name name)) (λ _. Ran-raise tt)
        (λ _.
          Ran-if
            (not (is_empty (lower (strip email_addr)))
              && not (is_address (lower (strip email_addr))))
            (λ _. Ran-raise tt)
            (λ _.
              Ran-if (contains 0 (strip subject)) (λ _. Ran-raise tt)
                (λ _.
                  Ran-call_then env serve value_of
                    (find_accounts name (lower (strip email_addr)) (strip subject))
                    (λ matches w1.
                      Ran-lift {r = only_match matches}
                        (searched name email_addr subject (only_match matches) w1))
                    (λ e w1. tt))))
