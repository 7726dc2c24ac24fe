-- ===== src/Closeout/Resumed.antt =====
-- The clean-up of scripts/finalize_grok_batch.py from its start, however often it was killed before.
use grok_build_auth.Prelude.{
  ◌<◌, arith, true, false, none, some, List, [], ◌∷◌, ◌≡◌, refl, sym, ◌∙◌, ap, All, map, ok, err, ℕ,
  ◌+◌, ◌*◌, ◌≤◌, length, Result,
}
use grok_build_auth.Effect.{◌>>>=◌}
use grok_build_auth.Closeout.Files.{crashed, Fault}
use grok_build_auth.Closeout.Journal.{
  Entry, EntryStatus, pending, quarantined, deleted, Journal, completed, Durable, Prepared, World,
  save_document, Document, checkpoint_doc, handoff_doc, result_doc, manifest_doc, stage_prepared,
  stage_quarantined, stage_completed, purge_quarantine, quarantine_entries, commit_closeout,
}
use grok_build_auth.Closeout.Sound.{Sound, SoundAt, NoLinks, IsPlan}
use grok_build_auth.Closeout.Loop.{AllMoved, is_moving, fixed_of, IsFor, Resumable}
use grok_build_auth.Closeout.Quarantined.{Runs-quarantine_entries}
use grok_build_auth.Closeout.Purged.{IsDeleted}
use grok_build_auth.Closeout.Runs.{Runs-cost, Runs, After, Runs-bind, Runs-given}
use mathlib.Core.Path.{subst}
use grok_build_auth.Closeout.Opened.{
  Opened, Runs-cleanup_journal, Runs-save_document, Finished, Resumable-Opened, Resumable-AllMoved,
  Resumable-Finished, Runs-purge_quarantine, length-map_fixed,
}

module _ (prepared : Prepared) where
  abbrev length_of : ℕ
  length_of = length prepared.cleanup

  same_length :
      (j : Journal) → map fixed_of j.entries ≡ prepared.cleanup → length j.entries ≡ length_of
  same_length j plan = sym (length-map_fixed j.entries) ∙ ap length plan

  -- The disk of a batch whose clean-up is done.
  abbrev pub Closed : Durable → Type 0
  Closed d =
      ((j : Journal) × (d.journal ≡ some j) × (j.status ≡ completed))
      × All (λ f. (d.disk f.source ≡ none) × (d.disk f.quarantine ≡ none)) prepared.cleanup
      × (d.documents manifest_doc ≡ some stage_completed)
      × (d.documents handoff_doc ≡ some stage_completed)
      × (d.documents checkpoint_doc ≡ some stage_completed)

  gone_of :
      (d : Durable) (es : List Entry)
      → All (λ e. IsDeleted e.status × Sound false d.disk e) es
      → All (λ f. (d.disk f.source ≡ none) × (d.disk f.quarantine ≡ none)) (map fixed_of es)
  gone_of d [] h = tt
  gone_of d (e ∷ es) ((del, sound), hs) = (go e.status del sound, gone_of d es hs)
    where
      go :
          (s : EntryStatus)
          → IsDeleted s
          → SoundAt false s e.fixed.sha256 (d.disk e.fixed.source) (d.disk e.fixed.quarantine)
          → (d.disk e.fixed.source ≡ none) × (d.disk e.fixed.quarantine ≡ none)
      go pending h k = (let never : false ≡ true = h in cc)
      go quarantined h k = (let never : false ≡ true = h in cc)
      go deleted h k = (k.1, k.2)

  abbrev Ended : Durable → Type 0
  Ended d = Closed d × (Finished prepared) d

  Runs-documents_completed :
      Runs
        (Resumable prepared)
        3
        (Finished prepared)
        (λ _. Ended)
        (save_document manifest_doc stage_completed >>>= λ _.
          save_document handoff_doc stage_completed >>>= λ _.
          save_document checkpoint_doc stage_completed)
  Runs-documents_completed =
      Runs-bind (Resumable prepared) {c = 1} {d = 2}
        {R = λ _ d. (d.documents manifest_doc ≡ some stage_completed) × (Finished prepared) d}
        ((Runs-save_document prepared) manifest_doc stage_completed (Resumable-Finished prepared)
          (λ d p. (refl, p)))
        (λ _.
          Runs-bind (Resumable prepared) {c = 1} {d = 1}
            {R = λ _ d.
              (d.documents handoff_doc ≡ some stage_completed)
              × (d.documents manifest_doc ≡ some stage_completed)
              × (Finished prepared) d}
            ((Runs-save_document prepared) handoff_doc stage_completed
              (λ d p. (Resumable-Finished prepared) d p.1) (λ d p. (refl, p.0, p.1)))
            (λ _.
              (Runs-save_document prepared) checkpoint_doc stage_completed
                (λ d p. (Resumable-Finished prepared) d p.2)
                (λ d (handoff, manifest, (no_links, (j, found, ours, status, plan, sound))). (
                  (
                    (j, found, status),
                    subst (All _) plan (gone_of d j.entries sound),
                    manifest,
                    handoff,
                    refl,
                  ),
                  (no_links, (j, found, ours, status, plan, sound)),
                ))))

  abbrev bound : ℕ
  bound = 4 * length_of + 12

  Runs-closed :
      IsPlan prepared.cleanup
      → (j : Journal)
      → Runs
          (Resumable prepared)
          (2 * length_of + 8)
          (AllMoved prepared j)
          (λ _. Ended)
          (save_document result_doc stage_quarantined >>>= λ _.
            save_document manifest_doc stage_quarantined >>>= λ _.
            save_document handoff_doc stage_quarantined >>>= λ _.
            save_document checkpoint_doc stage_quarantined >>>= λ _. purge_quarantine j >>>= λ _.
            save_document manifest_doc stage_completed >>>= λ _.
            save_document handoff_doc stage_completed >>>= λ _.
            save_document checkpoint_doc stage_completed)
  Runs-closed shape j = record {
    run = λ w p.
        (Runs-cost (Resumable prepared) {c = 1 + (1 + (1 + (1 + ((2 * length j.entries + 1) + 3))))}
            (omega (arith, same_length j p.0.2))
            (Runs-bind (Resumable prepared) (saved result_doc) (λ _.
              Runs-bind (Resumable prepared) (saved manifest_doc) (λ _.
                Runs-bind (Resumable prepared) (saved handoff_doc) (λ _.
                  Runs-bind (Resumable prepared) (saved checkpoint_doc) (λ _.
                    Runs-bind (Resumable prepared)
                      (record {
                        run = λ w1 q.
                            ((Runs-purge_quarantine prepared) j shape q.0.0 q.0.1 q.0.2).run w1
                              (q.1, q.2, q.3);
                      })
                      (λ _. Runs-documents_completed))))))).run
          w p;
  }
    where
      saved :
          (doc : Document)
          → Runs
              (Resumable prepared)
              1
              (AllMoved prepared j)
              (λ _. AllMoved prepared j)
              (save_document doc stage_quarantined)
      saved doc =
          (Runs-save_document prepared) doc stage_quarantined ((Resumable-AllMoved prepared) j)
            (λ d p. p)

  Runs-from_journal :
      IsPlan prepared.cleanup
      → (j : Journal)
      → Runs
          (Resumable prepared)
          (4 * length_of + 11)
          ((Opened prepared) j)
          (λ _. Ended)
          (save_document checkpoint_doc stage_prepared >>>= λ _.
            save_document handoff_doc stage_prepared >>>= λ _. quarantine_entries j >>>= λ moved.
            save_document result_doc stage_quarantined >>>= λ _.
            save_document manifest_doc stage_quarantined >>>= λ _.
            save_document handoff_doc stage_quarantined >>>= λ _.
            save_document checkpoint_doc stage_quarantined >>>= λ _.
            purge_quarantine moved >>>= λ _. save_document manifest_doc stage_completed >>>= λ _.
            save_document handoff_doc stage_completed >>>= λ _.
            save_document checkpoint_doc stage_completed)
  Runs-from_journal shape j = Runs-given (Resumable prepared) (λ facts.
      Runs-cost (Resumable prepared)
        {c = 1 + (1 + ((2 * length j.entries + 1) + (2 * length_of + 8)))}
        (omega (arith, same_length j facts.1))
        (Runs-bind (Resumable prepared) (saved facts checkpoint_doc) (λ _.
          Runs-bind (Resumable prepared) (saved facts handoff_doc) (λ _.
            Runs-bind (Resumable prepared)
              (Runs-quarantine_entries prepared j facts.0 shape facts.1) (Runs-closed shape)))))
    where
      saved :
          IsFor prepared j × (map fixed_of j.entries ≡ prepared.cleanup)
          → (doc : Document)
          → Runs
              (Resumable prepared)
              1
              (λ d.
                NoLinks d.disk
                × (d.journal ≡ some j)
                × All (Sound (is_moving j.status) d.disk) j.entries)
              (λ _ d.
                NoLinks d.disk
                × (d.journal ≡ some j)
                × All (Sound (is_moving j.status) d.disk) j.entries)
              (save_document doc stage_prepared)
      saved facts doc =
          (Runs-save_document prepared) doc stage_prepared (Resumable-Opened prepared j facts)
            (λ d p. p)

  Runs-commit_closeout :
      IsPlan prepared.cleanup
      → Runs (Resumable prepared) bound (Resumable prepared) (λ _. Ended) (commit_closeout prepared)
  unfolding commit_closeout
  Runs-commit_closeout shape =
      Runs-cost (Resumable prepared) {c = 1 + (4 * length_of + 11)} (omega arith)
        (Runs-bind (Resumable prepared) (Runs-cleanup_journal prepared) (Runs-from_journal shape))

  -- How a run of the clean-up ends.
  abbrev pub Resumes : ℕ → Result Fault (Unit {0}) × World → Type 0
  Resumes n (ok _, w) = Closed w.durable × Resumable prepared w.durable
  Resumes n (err e, w) = (e ≡ crashed) × Resumable prepared w.durable × (n < bound)

  -- From a disk from which the clean-up can start, a run of it is done at the end, with every file of
  -- the batch deleted, the journal and the documents completed; or it was killed after fewer than four
  -- writes for each file and twelve more, and leaves a disk from which it can start.
  pub commit_closeout-Resumes :
      IsPlan prepared.cleanup
      → (w : World) → Resumable prepared w.durable
      → Resumes w.left (commit_closeout prepared w)
  commit_closeout-Resumes shape w p =
      go (commit_closeout prepared w) ((Runs-commit_closeout shape).run w p)
    where
      go :
          (x : Result Fault (Unit {0}) × World)
          → After (Resumable prepared) bound w.left (λ _. Ended) x
          → Resumes w.left x
      go (ok u, w1) (q, used) = (q.0, (Resumable-Finished prepared) w1.durable q.1)
      go (err e, w1) failed = failed

  -- Runs one after the other, each killed after some number of writes.
  abbrev pub restarted : List ℕ → Durable → Durable
  restarted [] d = d
  restarted (n ∷ killed) d =
      restarted killed (commit_closeout prepared (record { durable = d; left = n })).1.durable

  Resumable-restarted :
      IsPlan prepared.cleanup
      → (killed : List ℕ) (d : Durable) → Resumable prepared d
      → Resumable prepared (restarted killed d)
  Resumable-restarted shape [] d p = p
  Resumable-restarted shape (n ∷ killed) d p = Resumable-restarted shape killed _ (
      go (commit_closeout prepared (record { durable = d; left = n }))
        (commit_closeout-Resumes shape (record { durable = d; left = n }) p))
    where
      go : (x : Result Fault (Unit {0}) × World) → Resumes n x → Resumable prepared x.1.durable
      go (ok u, w1) q = q.1
      go (err e, w1) q = q.1

  -- However often and wherever the clean-up was killed, a run with four writes for each file and
  -- twelve more finishes it.
  pub commit_closeout-restarted :
      IsPlan prepared.cleanup
      → (killed : List ℕ) (d : Durable) → Resumable prepared d
      → (n : ℕ) → 4 * length prepared.cleanup + 12 ≤ n
      → ((commit_closeout prepared (record { durable = restarted killed d; left = n })).0 ≡ ok tt)
        × Closed
            (commit_closeout prepared (record { durable = restarted killed d; left = n })).1.durable
  commit_closeout-restarted shape killed d p n enough =
      go (commit_closeout prepared (record { durable = restarted killed d; left = n })) (
        commit_closeout-Resumes shape (record { durable = restarted killed d; left = n })
          (Resumable-restarted shape killed d p))
    where
      go : (x : Result Fault (Unit {0}) × World) → Resumes n x → (x.0 ≡ ok tt) × Closed x.1.durable
      go (ok u, w1) q = (refl, q.0)
      go (err e, w1) (killed_by, kept, few) =
          (let never : ◌≡◌ {A = ℕ} 0 1 = omega (arith, few, enough) in cc)
