-- ===== src/Closeout/Journal.antt =====
-- `_cleanup_journal`, `_quarantine_entries`, `_purge_quarantine` and `commit_closeout` of
-- scripts/finalize_grok_batch.py. Times, file modes and the removal of empty directories are left
-- out; of the documents beside the journal the stage that they record is kept.
use grok_build_auth.Prelude.{
  is_empty, Text, codes, ℕ, zero, suc, Bool, true, false, ◌&&◌, ◌||◌, Option, none, some, List, [],
  ◌∷◌, ok, err, Result, text_eq, if◌then◌else◌, map, ◌==◌,
}
use grok_build_auth.Effect.{Effect, ◌>>>=◌, pure, raise, lift}
use grok_build_auth.Closeout.Files.{
  Fault, Disk, Node, regular, path_eq, replace_file, unlink, require_exact_child, source_changed,
  both_unavailable, artifact_changed, foreign_journal, crashed,
}

-- The fields of an entry that do not change.
pub record Fixed : Type 0 where
  pub kind : Text
  pub source : List Text
  pub quarantine : List Text
  pub sha256 : Text

pub data EntryStatus : Type 0 where
  pending quarantined deleted : EntryStatus

pub record Entry : Type 0 where
  pub fixed : Fixed
  pub status : EntryStatus

-- The status `quarantined` of a journal is `in_quarantine` here.
pub data JournalStatus : Type 0 where
  quarantining in_quarantine completed : JournalStatus

pub record Journal : Type 0 where
  pub batch_id : Text
  pub account_ids : List ℕ
  pub prepared_artifact_sha256 : Text
  pub status : JournalStatus
  pub entries : List Entry

pub data Document : Type 0 where
  checkpoint_doc handoff_doc result_doc manifest_doc : Document

pub data Stage : Type 0 where
  stage_prepared stage_quarantined stage_completed : Stage

-- What is on the disk, and what survives the process.
pub record Durable : Type 0 where
  pub disk : Disk
  pub journal : Option Journal
  pub documents : Document → Option Stage

-- `left` counts the writes that are made before the process ends.
pub record World : Type 0 where
  pub durable : Durable
  pub left : ℕ

abbrev pub Act : Type 0 → Type 0
Act A = Effect Fault World A

-- The evidence of a batch, as `prepared` holds it.
pub record Prepared : Type 0 where
  pub batch_id : Text
  pub account_ids : List ℕ
  pub artifact_sha256 : Text
  pub cleanup : List Fixed

abbrev written : (Durable → Durable) → Durable → ℕ → Result Fault (Unit {0}) × World
written change durable zero = (err crashed, record { durable = durable; left = 0 })
written change durable (suc n) = (ok tt, record { durable = change durable; left = n })

unfoldable pub write : (Durable → Durable) → Act (Unit {0})
write change w = written change w.durable w.left

abbrev pub read_durable : Act Durable
read_durable w = (ok w.durable, w)

abbrev pub save_journal : Journal → Act (Unit {0})
save_journal journal = write (λ d. record d { journal = some journal })

abbrev pub document_eq : Document → Document → Bool
document_eq checkpoint_doc checkpoint_doc = true
document_eq handoff_doc handoff_doc = true
document_eq result_doc result_doc = true
document_eq manifest_doc manifest_doc = true
document_eq _ _ = false

abbrev pub save_document : Document → Stage → Act (Unit {0})
save_document doc stage = write (λ d. record d {
  documents = λ other. if document_eq other doc then some stage else d.documents other;
})

-- The entries of the journal while one of them is worked on: those before it, last first, and the
-- rest.
abbrev pub onto : {A : Type 0} → List A → List A → List A
onto [] rest = rest
onto (d ∷ before) rest = onto before (d ∷ rest)

-- The move of a file, or the check that it was moved before.
unfoldable pub move_file : Fixed → Option Node → Option Node → Act (Unit {0})
move_file fixed (some (regular sha)) target =
    if text_eq sha fixed.sha256
    then write (λ d. record d { disk = replace_file fixed.source fixed.quarantine d.disk })
    else raise source_changed
move_file fixed _ (some (regular sha)) =
    if text_eq sha fixed.sha256 then pure tt else raise both_unavailable
move_file fixed _ _ = raise both_unavailable

abbrev pub cleanup_root : List Text
cleanup_root = codes "cleanup" ∷ []

unfoldable pub quarantine_file : Fixed → Act (Unit {0})
quarantine_file fixed = read_durable >>>= λ d.
    lift (require_exact_child d.disk [] fixed.source) >>>= λ source.
    lift (require_exact_child d.disk cleanup_root fixed.quarantine) >>>= λ quarantine.
    move_file fixed (d.disk source) (d.disk quarantine)

-- One round of the loop: an entry that was moved before is left as it is.
unfoldable pub quarantine_entry :
    Journal → List Entry → List Entry → Fixed → EntryStatus → Act Entry
quarantine_entry journal before rest fixed pending =
    let next : Entry = record { fixed = fixed; status = quarantined } in
    quarantine_file fixed >>>= λ _.
    save_journal (record journal { entries = onto before (next ∷ rest) }) >>>= λ _. pure next
quarantine_entry journal before rest fixed status = pure (record { fixed = fixed; status = status })

unfoldable pub quarantine_loop : Journal → List Entry → List Entry → Act (List Entry)
quarantine_loop journal before [] = pure (onto before [])
quarantine_loop journal before (entry ∷ rest) =
    quarantine_entry journal before rest entry.fixed entry.status >>>= λ next.
    quarantine_loop journal (next ∷ before) rest

unfoldable pub quarantine_entries : Journal → Act Journal
quarantine_entries journal = quarantine_loop journal [] journal.entries >>>= λ entries.
    let moved = record journal { entries = entries; status = in_quarantine } in
    save_journal moved >>>= λ _. pure moved

-- The deletion of a file in quarantine, which may have been deleted before.
unfoldable pub delete_file : Fixed → Option Node → Act (Unit {0})
delete_file fixed none = pure tt
delete_file fixed (some (regular sha)) =
    if text_eq sha fixed.sha256
    then write (λ d. record d { disk = unlink fixed.quarantine d.disk })
    else raise artifact_changed
delete_file fixed (some _) = raise artifact_changed

unfoldable pub purge_file : Fixed → Act (Unit {0})
purge_file fixed = read_durable >>>= λ d.
    lift (require_exact_child d.disk cleanup_root fixed.quarantine) >>>= λ quarantine.
    delete_file fixed (d.disk quarantine)

unfoldable pub purge_entry : Journal → List Entry → List Entry → Fixed → EntryStatus → Act Entry
purge_entry journal before rest fixed deleted = pure (record { fixed = fixed; status = deleted })
purge_entry journal before rest fixed _ =
    let next : Entry = record { fixed = fixed; status = deleted } in
    purge_file fixed >>>= λ _.
    save_journal (record journal { entries = onto before (next ∷ rest) }) >>>= λ _. pure next

unfoldable pub purge_loop : Journal → List Entry → List Entry → Act (List Entry)
purge_loop journal before [] = pure (onto before [])
purge_loop journal before (entry ∷ rest) =
    purge_entry journal before rest entry.fixed entry.status >>>= λ next.
    purge_loop journal (next ∷ before) rest

unfoldable pub purge_quarantine : Journal → Act (Unit {0})
purge_quarantine journal = purge_loop journal [] journal.entries >>>= λ entries.
    save_journal (record journal { entries = entries; status = completed })

abbrev pub numbers_eq : List ℕ → List ℕ → Bool
numbers_eq [] [] = true
numbers_eq (m ∷ ms) (n ∷ ns) = m == n && numbers_eq ms ns
numbers_eq _ _ = false

abbrev pub fixed_eq : Fixed → Fixed → Bool
fixed_eq f g =
    text_eq f.kind g.kind
    && path_eq f.source g.source
    && path_eq f.quarantine g.quarantine
    && text_eq f.sha256 g.sha256

-- The entries are those of the evidence.
abbrev pub same_entries : List Entry → List Fixed → Bool
same_entries [] [] = true
same_entries (entry ∷ entries) (expected ∷ cleanup) =
    fixed_eq entry.fixed expected && same_entries entries cleanup
same_entries _ _ = false

abbrev pub start_entry : Fixed → Entry
start_entry fixed = record { fixed = fixed; status = pending }

module _ (prepared : Prepared) where
  unfoldable pub is_ours : Journal → Bool
  is_ours journal =
      text_eq journal.batch_id prepared.batch_id
      && numbers_eq journal.account_ids prepared.account_ids
      && (is_empty prepared.artifact_sha256
          || text_eq journal.prepared_artifact_sha256 prepared.artifact_sha256)
      && same_entries journal.entries prepared.cleanup

  abbrev pub new_journal : Journal
  new_journal = record {
    batch_id = prepared.batch_id;
    account_ids = prepared.account_ids;
    prepared_artifact_sha256 = prepared.artifact_sha256;
    status = quarantining;
    entries = map start_entry prepared.cleanup;
  }

  unfoldable pub open_journal : Option Journal → Act Journal
  open_journal (some journal) = if is_ours journal then pure journal else raise foreign_journal
  open_journal none = save_journal new_journal >>>= λ _. pure new_journal

  unfoldable pub cleanup_journal : Act Journal
  cleanup_journal = read_durable >>>= λ d. open_journal d.journal

  unfoldable pub commit_closeout : Act (Unit {0})
  commit_closeout = cleanup_journal >>>= λ journal.
      save_document checkpoint_doc stage_prepared >>>= λ _.
      save_document handoff_doc stage_prepared >>>= λ _. quarantine_entries journal >>>= λ moved.
      save_document result_doc stage_quarantined >>>= λ _.
      save_document manifest_doc stage_quarantined >>>= λ _.
      save_document handoff_doc stage_quarantined >>>= λ _.
      save_document checkpoint_doc stage_quarantined >>>= λ _. purge_quarantine moved >>>= λ _.
      save_document manifest_doc stage_completed >>>= λ _.
      save_document handoff_doc stage_completed >>>= λ _.
      save_document checkpoint_doc stage_completed
