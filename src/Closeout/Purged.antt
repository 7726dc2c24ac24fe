-- ===== src/Closeout/Purged.antt =====
-- The deletion of the files in quarantine in scripts/finalize_grok_batch.py, up to a write that fails.
use grok_build_auth.Prelude.{
  arith, text_eq_refl, Bool, true, false, none, List, [], ◌∷◌, ◌≡◌, refl, sym, ◌∙◌, inl, inr, ◌*◌,
  length,
}
use grok_build_auth.Closeout.Files.{unlink}
use grok_build_auth.Closeout.Journal.{
  Fixed, Entry, EntryStatus, pending, quarantined, deleted, onto, Journal, Durable, Prepared, World,
  delete_file, purge_file, purge_entry, purge_loop, save_journal, cleanup_root,
}
use grok_build_auth.Closeout.Sound.{
  NoLinks, IsPlaced, path_eq_refl, map-onto, All-onto, Sound-unlink, NoLinks-unlink,
  require_exact_child-NoLinks,
}
use grok_build_auth.Closeout.Loop.{
  IsMoved, Looped, is_moving, fixed_of, IsFor, Resumable, InLoop, LaidOut, Resumable-InLoop,
  LaidOut-next, ClearOf-map, All-clear,
}
use grok_build_auth.Closeout.Runs.{Runs, After, Runs-bind, Runs-pure, Runs-write, Runs-given}
use mathlib.Core.Path.{subst}

abbrev pub is_deleted : EntryStatus → Bool
is_deleted deleted = true
is_deleted _ = false

abbrev pub IsDeleted : EntryStatus → Type 0
IsDeleted s = is_deleted s ≡ true

purge_file-NoLinks :
    (f : Fixed) (w : World)
    → NoLinks w.durable.disk
    → IsPlaced f
    → purge_file f w ≡ delete_file f (w.durable.disk f.quarantine) w
unfolding purge_file
purge_file-NoLinks f w h (named, placed, inside, other) =
    rw (require_exact_child-NoLinks w.durable.disk cleanup_root f.quarantine h placed inside) refl

module _ (prepared : Prepared) (journal : Journal) (ours : IsFor prepared journal)
    (settled : is_moving journal.status ≡ false) where
  abbrev Waiting : List Entry → List Entry → Durable → Type 0
  Waiting before rest = InLoop IsMoved IsDeleted journal before rest

  abbrev quarantined_entry : Fixed → Entry
  quarantined_entry f = record { fixed = f; status = quarantined }

  -- The file is deleted, and the journal does not say so yet.
  abbrev Between : List Entry → Fixed → List Entry → Durable → Type 0
  Between before f rest d =
      ((d.disk f.source ≡ none) × (d.disk f.quarantine ≡ none))
      × Waiting before (quarantined_entry f ∷ rest) d

  Waiting-deleted :
      (before rest : List Entry) (f : Fixed) (d : Durable)
      → d.disk f.source ≡ none
      → LaidOut prepared before (quarantined_entry f ∷ rest)
      → Waiting before (quarantined_entry f ∷ rest) d
      → Between before f rest (record d { disk = unlink f.quarantine d.disk })
  Waiting-deleted before rest f d gone (plan, (clear, others), (placed, free, shape))
        (no_links, found, done, (moved, waiting)) =
      let still_gone : unlink f.quarantine d.disk f.source ≡ none = rw placed.3 gone in
      let purged : unlink f.quarantine d.disk f.quarantine ≡ none =
        rw (path_eq_refl f.quarantine) refl in
      let kept = Sound-unlink (is_moving journal.status) d.disk f in
      (
        (still_gone, purged),
        (
          NoLinks-unlink d.disk f.quarantine no_links,
          found,
          All-clear IsDeleted _ d.disk _ f kept before clear done,
          (
            (refl, (still_gone, inr (settled, purged))),
            All-clear IsMoved _ d.disk _ f kept rest (ClearOf-map f rest free) waiting,
          ),
        ),
      )

  Runs-delete_file :
      (before rest : List Entry) (f : Fixed) (w : World)
      → LaidOut prepared before (quarantined_entry f ∷ rest)
      → Waiting before (quarantined_entry f ∷ rest) w.durable
      → After
          (Resumable prepared)
          1
          w.left
          (λ _. Between before f rest)
          (delete_file f (w.durable.disk f.quarantine) w)
  unfolding delete_file
  Runs-delete_file before rest f w laid p = elim p.3.0.1.1 [
    | inl there ↦
        rw (there, text_eq_refl f.sha256)
          ((Runs-write (Resumable prepared)
              {P = λ d. (d.disk f.source ≡ none) × Waiting before (quarantined_entry f ∷ rest) d}
              {Q = λ _. Between before f rest} (λ d. record d { disk = unlink f.quarantine d.disk })
              (λ d q.
                Resumable-InLoop prepared journal ours IsMoved IsDeleted before
                  (quarantined_entry f ∷ rest) d laid q.1)
              (λ d q. Waiting-deleted before rest f d q.0 laid q.1)).run
            w (p.3.0.1.0, p))
    | inr (later, purged) ↦ rw purged (((p.3.0.1.0, purged), p), omega arith)
  ]

  Runs-purge_file :
      (before rest : List Entry) (f : Fixed)
      → LaidOut prepared before (quarantined_entry f ∷ rest)
      → Runs
          (Resumable prepared)
          1
          (Waiting before (quarantined_entry f ∷ rest))
          (λ _. Between before f rest)
          (purge_file f)
  Runs-purge_file before rest f laid = record {
    run = λ w p.
        subst (After (Resumable prepared) 1 w.left (λ _. Between before f rest))
          (sym (purge_file-NoLinks f w p.0 laid.2.0)) (Runs-delete_file before rest f w laid p);
  }

  Runs-mark :
      (before rest : List Entry) (f : Fixed)
      → LaidOut prepared before (quarantined_entry f ∷ rest)
      → Runs
          (Resumable prepared)
          1
          (Between before f rest)
          (λ _. Waiting (record { fixed = f; status = deleted } ∷ before) rest)
          (save_journal (record journal {
            entries = onto before (record { fixed = f; status = deleted } ∷ rest);
          }))
  Runs-mark before rest f laid =
      Runs-write (Resumable prepared) _
        (λ d q.
          Resumable-InLoop prepared journal ours IsMoved IsDeleted before
            (quarantined_entry f ∷ rest) d laid q.1)
        (λ d (gone, (no_links, found, done, (moved, waiting))).
          (no_links, refl, ((refl, (settled, gone.0, gone.1)), done), waiting))

  Runs-purge_entry :
      (before rest : List Entry) (f : Fixed) (s : EntryStatus)
      → LaidOut prepared before (record { fixed = f; status = s } ∷ rest)
      → Runs
          (Resumable prepared)
          2
          (Waiting before (record { fixed = f; status = s } ∷ rest))
          (λ next d. (next.fixed ≡ f) × Waiting (next ∷ before) rest d)
          (purge_entry journal before rest f s)
  unfolding purge_entry
  Runs-purge_entry before rest f pending laid = record {
    run = λ w (no_links, found, done, (moved, waiting)). (let never : true ≡ false = moved.0 in cc);
  }
  Runs-purge_entry before rest f quarantined laid =
      Runs-bind (Resumable prepared) (Runs-purge_file before rest f laid) (λ _.
        Runs-bind (Resumable prepared) {c = 1} {d = 0} (Runs-mark before rest f laid)
          (λ _. Runs-pure (Resumable prepared) 0 (λ d p. (refl, p))))
  Runs-purge_entry before rest f deleted laid =
      Runs-pure (Resumable prepared) 2 (λ d (no_links, found, done, (moved, waiting)).
        (refl, (no_links, found, ((refl, moved.1), done), waiting)))

  pub Runs-purge_loop :
      (before rest : List Entry)
      → LaidOut prepared before rest
      → Runs
          (Resumable prepared)
          (2 * length rest)
          (Waiting before rest)
          (Looped prepared journal IsDeleted)
          (purge_loop journal before rest)
  unfolding purge_loop
  Runs-purge_loop before [] laid =
      Runs-pure (Resumable prepared) 0 (λ d (no_links, found, done, waiting).
        (map-onto fixed_of before [] ∙ laid.0, no_links, found, All-onto _ before [] done tt))
  Runs-purge_loop before (e ∷ rest) laid =
      subst
        (λ c.
          Runs (Resumable prepared) c (Waiting before (e ∷ rest))
            (Looped prepared journal IsDeleted) (purge_loop journal before (e ∷ rest)))
        (omega arith)
        (Runs-bind (Resumable prepared) (Runs-purge_entry before rest e.fixed e.status laid)
          (λ next. Runs-given (Resumable prepared) (λ same.
            Runs-purge_loop (next ∷ before) rest
              (LaidOut-next prepared before rest e next same laid))))
