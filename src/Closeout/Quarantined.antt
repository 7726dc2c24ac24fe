-- ===== src/Closeout/Quarantined.antt =====
-- The move of the files into quarantine in scripts/finalize_grok_batch.py, up to a write that fails.
use grok_build_auth.Prelude.{
  ◌+◌, All-map, arith, text_eq_refl, none, some, List, [], ◌∷◌, ◌≡◌, refl, sym, ◌∙◌, inl, inr, All,
  map, ◌*◌, length,
}
use grok_build_auth.Closeout.Files.{regular, replace_file}
use grok_build_auth.Closeout.Journal.{
  in_quarantine, quarantine_entries, Fixed, Entry, EntryStatus, pending, quarantined, deleted, onto,
  Journal, Durable, Prepared, World, move_file, quarantine_file, quarantine_entry, quarantine_loop,
  save_journal, cleanup_root,
}
use grok_build_auth.Closeout.Sound.{
  IsPlan, Sound-settled, Sound, NoLinks, IsPlaced, path_eq_refl, map-onto, All-onto,
  Sound-replace_file, NoLinks-replace_file, require_exact_child-NoLinks,
}
use grok_build_auth.Closeout.Loop.{
  Looped, AllMoved, IsMoved, is_moving, fixed_of, IsFor, Resumable, InLoop, LaidOut,
  Resumable-InLoop, LaidOut-next, LaidOut-start, ClearOf-map, All-clear,
}
use grok_build_auth.Closeout.Runs.{Runs, After, Runs-bind, Runs-pure, Runs-write, Runs-given}
use mathlib.Core.Path.{subst}

abbrev pub AnyStatus : EntryStatus → Type 0
AnyStatus s = Unit

quarantine_file-NoLinks :
    (f : Fixed) (w : World)
    → NoLinks w.durable.disk
    → IsPlaced f
    → quarantine_file f w ≡ move_file f (w.durable.disk f.source) (w.durable.disk f.quarantine) w
unfolding quarantine_file
quarantine_file-NoLinks f w h (named, placed, inside, other) =
    rw
      (
        require_exact_child-NoLinks w.durable.disk [] f.source h refl named,
        require_exact_child-NoLinks w.durable.disk cleanup_root f.quarantine h placed inside,
      )
      refl

module _ (prepared : Prepared) (journal : Journal) (ours : IsFor prepared journal) where
  abbrev Waiting : List Entry → List Entry → Durable → Type 0
  Waiting before rest = InLoop AnyStatus IsMoved journal before rest

  -- The file is in quarantine, and the journal does not say so yet.
  abbrev Between : List Entry → Fixed → List Entry → Durable → Type 0
  Between before f rest d =
      ((d.disk f.source ≡ none) × (d.disk f.quarantine ≡ some (regular f.sha256)))
      × Waiting before (record { fixed = f; status = pending } ∷ rest) d

  Waiting-moved :
      (before rest : List Entry) (f : Fixed) (d : Durable)
      → d.disk f.source ≡ some (regular f.sha256)
      → LaidOut prepared before (record { fixed = f; status = pending } ∷ rest)
      → Waiting before (record { fixed = f; status = pending } ∷ rest) d
      → Between before f rest (record d { disk = replace_file f.source f.quarantine d.disk })
  Waiting-moved before rest f d here (plan, (clear, others), (placed, free, shape))
        (no_links, found, done, (any, waiting)) =
      let source_gone : replace_file f.source f.quarantine d.disk f.source ≡ none =
        rw (placed.3, path_eq_refl f.source) refl in
      let arrived : replace_file f.source f.quarantine d.disk f.quarantine
          ≡ some (regular f.sha256) =
        rw (path_eq_refl f.quarantine) here in
      let kept = Sound-replace_file (is_moving journal.status) d.disk f in
      (
        (source_gone, arrived),
        (
          NoLinks-replace_file d.disk f.source f.quarantine no_links,
          found,
          All-clear IsMoved _ d.disk _ f kept before clear done,
          (
            (tt, inr (source_gone, arrived)),
            All-clear AnyStatus _ d.disk _ f kept rest (ClearOf-map f rest free) waiting,
          ),
        ),
      )

  -- The round of an entry makes two writes at most.
  Runs-move_file :
      (before rest : List Entry) (f : Fixed) (w : World)
      → LaidOut prepared before (record { fixed = f; status = pending } ∷ rest)
      → Waiting before (record { fixed = f; status = pending } ∷ rest) w.durable
      → After
          (Resumable prepared)
          1
          w.left
          (λ _. Between before f rest)
          (move_file f (w.durable.disk f.source) (w.durable.disk f.quarantine) w)
  unfolding move_file
  Runs-move_file before rest f w laid p = elim p.3.0.1 [
    | inl here ↦
        rw (here, text_eq_refl f.sha256)
          ((Runs-write (Resumable prepared)
              {P = λ d.
                (d.disk f.source ≡ some (regular f.sha256))
                × Waiting before (record { fixed = f; status = pending } ∷ rest) d}
              {Q = λ _. Between before f rest}
              (λ d. record d { disk = replace_file f.source f.quarantine d.disk })
              (λ d q.
                Resumable-InLoop prepared journal ours AnyStatus IsMoved before
                  (record { fixed = f; status = pending } ∷ rest) d laid q.1)
              (λ d q. Waiting-moved before rest f d q.0 laid q.1)).run
            w (here, p))
    | inr (gone, there) ↦ rw (gone, there, text_eq_refl f.sha256) (((gone, there), p), omega arith)
  ]

  Runs-quarantine_file :
      (before rest : List Entry) (f : Fixed)
      → LaidOut prepared before (record { fixed = f; status = pending } ∷ rest)
      → Runs
          (Resumable prepared)
          1
          (Waiting before (record { fixed = f; status = pending } ∷ rest))
          (λ _. Between before f rest)
          (quarantine_file f)
  Runs-quarantine_file before rest f laid = record {
    run = λ w p.
        subst (After (Resumable prepared) 1 w.left (λ _. Between before f rest))
          (sym (quarantine_file-NoLinks f w p.0 laid.2.0)) (Runs-move_file before rest f w laid p);
  }

  Runs-mark :
      (before rest : List Entry) (f : Fixed)
      → LaidOut prepared before (record { fixed = f; status = pending } ∷ rest)
      → Runs
          (Resumable prepared)
          1
          (Between before f rest)
          (λ _. Waiting (record { fixed = f; status = quarantined } ∷ before) rest)
          (save_journal (record journal {
            entries = onto before (record { fixed = f; status = quarantined } ∷ rest);
          }))
  Runs-mark before rest f laid =
      Runs-write (Resumable prepared) _
        (λ d q.
          Resumable-InLoop prepared journal ours AnyStatus IsMoved before
            (record { fixed = f; status = pending } ∷ rest) d laid q.1)
        (λ d (there, (no_links, found, done, (any, waiting))).
          (no_links, refl, ((refl, (there.0, inl there.1)), done), waiting))

  Runs-quarantine_entry :
      (before rest : List Entry) (f : Fixed) (s : EntryStatus)
      → LaidOut prepared before (record { fixed = f; status = s } ∷ rest)
      → Runs
          (Resumable prepared)
          2
          (Waiting before (record { fixed = f; status = s } ∷ rest))
          (λ next d. (next.fixed ≡ f) × Waiting (next ∷ before) rest d)
          (quarantine_entry journal before rest f s)
  unfolding quarantine_entry
  Runs-quarantine_entry before rest f pending laid =
      Runs-bind (Resumable prepared) (Runs-quarantine_file before rest f laid) (λ _.
        Runs-bind (Resumable prepared) {c = 1} {d = 0} (Runs-mark before rest f laid)
          (λ _. Runs-pure (Resumable prepared) 0 (λ d p. (refl, p))))
  Runs-quarantine_entry before rest f quarantined laid =
      Runs-pure (Resumable prepared) 2 (λ d (no_links, found, done, (any, waiting)).
        (refl, (no_links, found, ((refl, any.1), done), waiting)))
  Runs-quarantine_entry before rest f deleted laid =
      Runs-pure (Resumable prepared) 2 (λ d (no_links, found, done, (any, waiting)).
        (refl, (no_links, found, ((refl, any.1), done), waiting)))

  pub Runs-quarantine_loop :
      (before rest : List Entry)
      → LaidOut prepared before rest
      → Runs
          (Resumable prepared)
          (2 * length rest)
          (Waiting before rest)
          (Looped prepared journal IsMoved)
          (quarantine_loop journal before rest)
  unfolding quarantine_loop
  Runs-quarantine_loop before [] laid =
      Runs-pure (Resumable prepared) 0 (λ d (no_links, found, done, waiting).
        (map-onto fixed_of before [] ∙ laid.0, no_links, found, All-onto _ before [] done tt))
  Runs-quarantine_loop before (e ∷ rest) laid =
      subst
        (λ c.
          Runs (Resumable prepared) c (Waiting before (e ∷ rest)) (Looped prepared journal IsMoved)
            (quarantine_loop journal before (e ∷ rest)))
        (omega arith)
        (Runs-bind (Resumable prepared) (Runs-quarantine_entry before rest e.fixed e.status laid)
          (λ next. Runs-given (Resumable prepared) (λ same.
            Runs-quarantine_loop (next ∷ before) rest
              (LaidOut-next prepared before rest e next same laid))))

  Runs-save_settled :
      (entries : List Entry)
      → Runs
          (Resumable prepared)
          1
          (Looped prepared journal IsMoved entries)
          (λ _. AllMoved prepared (record journal { entries = entries; status = in_quarantine }))
          (save_journal (record journal { entries = entries; status = in_quarantine }))
  Runs-save_settled entries =
      Runs-write (Resumable prepared) _
        (λ d (plan, no_links, found, done). (
          no_links,
          inr (
            record journal { entries = entries },
            found,
            ours,
            plan,
            All-map _ _ entries (λ e h. h.1) done,
          ),
        ))
        (λ d (plan, no_links, found, done). (
          (ours, refl, plan),
          no_links,
          refl,
          All-map _ _ entries (λ e h. (h.0, Sound-settled _ d.disk e h.1)) done,
        ))

  pub Runs-quarantine_entries :
      IsPlan prepared.cleanup
      → map fixed_of journal.entries ≡ prepared.cleanup
      → Runs
          (Resumable prepared)
          (2 * length journal.entries + 1)
          (λ d.
            NoLinks d.disk
            × (d.journal ≡ some journal)
            × All (Sound (is_moving journal.status) d.disk) journal.entries)
          (AllMoved prepared)
          (quarantine_entries journal)
  unfolding quarantine_entries
  Runs-quarantine_entries shape plan =
      Runs-bind (Resumable prepared) {c = 2 * length journal.entries} {d = 1}
        (record {
          run = λ w (no_links, found, sound).
              (Runs-quarantine_loop [] journal.entries
                  (LaidOut-start prepared journal.entries plan shape)).run
                w (no_links, found, tt, All-map _ _ journal.entries (λ e h. (tt, h)) sound);
        })
        (λ entries.
          Runs-bind (Resumable prepared) {c = 1} {d = 0} (Runs-save_settled entries)
            (λ _. Runs-pure (Resumable prepared) 0 (λ d p. p)))
