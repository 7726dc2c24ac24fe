-- ===== src/Closeout/Opened.antt =====
-- The parts of `commit_closeout` of scripts/finalize_grok_batch.py: the journal is opened, a document
-- is written, the files in quarantine are deleted.
use grok_build_auth.Prelude.{
  arith, suc, text_eq_refl, Bool, true, false, ◌||◌, is_empty, none, some, List, [], ◌∷◌, ◌≡◌, refl,
  sym, ap, inl, inr, All, All-map, map, ℕ, ◌+◌, ◌*◌, length, if◌then◌else◌, ==_iff,
}
use grok_build_auth.Closeout.Files.{regular}
use grok_build_auth.Closeout.Journal.{
  document_eq, Fixed, Entry, Journal, completed, Durable, Prepared, World, save_journal,
  save_document, Document, Stage, purge_quarantine, cleanup_journal, open_journal, is_ours,
  new_journal, start_entry, numbers_eq, same_entries,
}
use grok_build_auth.Closeout.Sound.{Sound-settled, Sound, NoLinks, IsPlan, path_eq_refl}
use grok_build_auth.Closeout.Loop.{
  AllMoved, IsMoved, LaidOut-start, is_moving, fixed_of, IsFor, Resumable,
}
use grok_build_auth.Closeout.Purged.{IsDeleted, Runs-purge_loop}
use grok_build_auth.Closeout.Runs.{Runs, After, Runs-bind, Runs-pure, Runs-write}
use mathlib.Core.Path.{subst}

numbers_eq_refl : (ns : List ℕ) → numbers_eq ns ns ≡ true
numbers_eq_refl [] = refl
numbers_eq_refl (n ∷ ns) = rw ((==_iff n n).1 refl) (numbers_eq_refl ns)

same_entries-map : (es : List Entry) → same_entries es (map fixed_of es) ≡ true
same_entries-map [] = refl
same_entries-map (e ∷ es) =
    rw
      (
        text_eq_refl e.fixed.kind,
        path_eq_refl e.fixed.source,
        path_eq_refl e.fixed.quarantine,
        text_eq_refl e.fixed.sha256,
      )
      (same_entries-map es)

or_true : (b : Bool) → (b || true) ≡ true
or_true true = refl
or_true false = refl

map_fixed-start : (plan : List Fixed) → map fixed_of (map start_entry plan) ≡ plan
map_fixed-start [] = refl
map_fixed-start (f ∷ plan) = ap (λ fs. f ∷ fs) (map_fixed-start plan)

pub length-map_fixed : (es : List Entry) → length (map fixed_of es) ≡ length es
length-map_fixed [] = refl
length-map_fixed (e ∷ es) = ap suc (length-map_fixed es)

module _ (prepared : Prepared) where
  is_ours-IsFor :
      (j : Journal)
      → IsFor prepared j
      → map fixed_of j.entries ≡ prepared.cleanup
      → is_ours prepared j ≡ true
  unfolding is_ours
  is_ours-IsFor j (batch, ids, sha) plan =
      rw
        (
          ← batch,
          ← ids,
          ← sha,
          ← plan,
          text_eq_refl j.batch_id,
          numbers_eq_refl j.account_ids,
          text_eq_refl j.prepared_artifact_sha256,
          or_true (is_empty j.prepared_artifact_sha256),
        )
        (same_entries-map j.entries)

  abbrev pub Opened : Journal → Durable → Type 0
  Opened j d =
      (IsFor prepared j × (map fixed_of j.entries ≡ prepared.cleanup))
      × (NoLinks d.disk × (d.journal ≡ some j) × All (Sound (is_moving j.status) d.disk) j.entries)

  Runs-new_journal :
      Runs
        (Resumable prepared)
        1
        (λ d.
          NoLinks d.disk
          × (d.journal ≡ none)
          × All (λ f. d.disk f.source ≡ some (regular f.sha256)) prepared.cleanup)
        (λ _. Opened (new_journal prepared))
        (save_journal (new_journal prepared))
  Runs-new_journal =
      Runs-write (Resumable prepared) _ (λ d (no_links, found, here). (no_links, inl (found, here)))
        (λ d (no_links, found, here). (
          ((refl, refl, refl), map_fixed-start prepared.cleanup),
          (no_links, refl, started d prepared.cleanup here),
        ))
    where
      started :
          (d : Durable) (plan : List Fixed)
          → All (λ f. d.disk f.source ≡ some (regular f.sha256)) plan
          → All (Sound true d.disk) (map start_entry plan)
      started d [] h = tt
      started d (f ∷ plan) (h, hs) = (inl h, started d plan hs)

  Runs-open_journal :
      (w : World)
      → Resumable prepared w.durable
      → After (Resumable prepared) 1 w.left Opened (open_journal prepared w.durable.journal w)
  unfolding open_journal
  Runs-open_journal w (no_links, inl (found, here)) =
      subst (λ o. After (Resumable prepared) 1 w.left Opened (open_journal prepared o w))
        (sym found)
        ((Runs-bind (Resumable prepared) {c = 1} {d = 0} {Q = Opened} Runs-new_journal (λ _.
            Runs-pure (Resumable prepared) {Q = Opened} 0 {a = new_journal prepared}
              (λ d p. p))).run
          w (no_links, found, here))
  Runs-open_journal w (no_links, inr (j, found, ours, plan, sound)) =
      subst (λ o. After (Resumable prepared) 1 w.left Opened (open_journal prepared o w))
        (sym found)
        (rw (is_ours-IsFor j ours plan) (((ours, plan), (no_links, found, sound)), omega arith))

  pub Runs-cleanup_journal :
      Runs (Resumable prepared) 1 (Resumable prepared) Opened (cleanup_journal prepared)
  unfolding cleanup_journal
  Runs-cleanup_journal = record { run = λ w p. Runs-open_journal w p }

  -- A document beside the journal.
  pub Runs-save_document :
      {P : Durable → Type 0} {Q : Unit {0} → Durable → Type 0} (doc : Document) (stage : Stage)
      → ((d : Durable) → P d → Resumable prepared d)
      → ((d : Durable)
          → P d
          → Q tt (record d {
            documents = λ other. if document_eq other doc then some stage else d.documents other;
          }))
      → Runs (Resumable prepared) 1 P Q (save_document doc stage)
  Runs-save_document doc stage sound changed = Runs-write (Resumable prepared) _ sound changed

  -- The journal is completed.
  abbrev pub Finished : Durable → Type 0
  Finished d =
      NoLinks d.disk
      × ((j : Journal) × (d.journal ≡ some j)
          × IsFor prepared j
          × (j.status ≡ completed)
          × (map fixed_of j.entries ≡ prepared.cleanup)
          × All (λ e. IsDeleted e.status × Sound false d.disk e) j.entries)

  pub Resumable-Opened :
      (j : Journal)
      → IsFor prepared j × (map fixed_of j.entries ≡ prepared.cleanup)
      → (d : Durable)
      → NoLinks d.disk × (d.journal ≡ some j) × All (Sound (is_moving j.status) d.disk) j.entries
      → Resumable prepared d
  Resumable-Opened j (ours, plan) d (no_links, found, sound) =
      (no_links, inr (j, found, ours, plan, sound))

  pub Resumable-AllMoved :
      (j : Journal) (d : Durable) → AllMoved prepared j d → Resumable prepared d
  Resumable-AllMoved j d ((ours, settled, plan), no_links, found, sound) =
      (no_links, inr (j, found, ours, plan, All-map _ _ j.entries (λ e h. h.1) sound))

  pub Resumable-Finished : (d : Durable) → Finished d → Resumable prepared d
  Resumable-Finished d (no_links, (j, found, ours, status, plan, sound)) = (
    no_links,
    inr (
      j,
      found,
      ours,
      plan,
      subst (λ s. All (Sound (is_moving s) d.disk) j.entries) (sym status)
          (All-map _ _ j.entries (λ e h. h.1) sound),
    ),
  )

  pub Runs-purge_quarantine :
      (j : Journal)
      → IsPlan prepared.cleanup
      → IsFor prepared j
      → is_moving j.status ≡ false
      → map fixed_of j.entries ≡ prepared.cleanup
      → Runs
          (Resumable prepared)
          (2 * length j.entries + 1)
          (λ d.
            NoLinks d.disk
            × (d.journal ≡ some j)
            × All (λ e. IsMoved e.status × Sound (is_moving j.status) d.disk e) j.entries)
          (λ _. Finished)
          (purge_quarantine j)
  unfolding purge_quarantine
  Runs-purge_quarantine j shape ours settled plan =
      Runs-bind (Resumable prepared) {c = 2 * length j.entries} {d = 1}
        (record {
          run = λ w (no_links, found, sound).
              (Runs-purge_loop prepared j ours settled [] j.entries
                  (LaidOut-start prepared j.entries plan shape)).run
                w (no_links, found, tt, sound);
        })
        (λ entries.
          Runs-write (Resumable prepared) _
            (λ d (same, no_links, found, sound). (
              no_links,
              inr (
                record j { entries = entries },
                found,
                ours,
                same,
                All-map _ _ entries (λ e h. h.1) sound,
              ),
            ))
            (λ d (same, no_links, found, sound). (
              no_links,
              (
                record j { entries = entries; status = completed },
                refl,
                ours,
                refl,
                same,
                All-map _ _ entries (λ e h. (h.0, Sound-settled _ d.disk e h.1)) sound,
              ),
            )))
