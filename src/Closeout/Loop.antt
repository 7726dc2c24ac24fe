-- ===== src/Closeout/Loop.antt =====
-- The state of the two loops of the clean-up of scripts/finalize_grok_batch.py between two entries.
use grok_build_auth.Prelude.{
  Bool, true, false, none, some, List, [], ◌∷◌, ◌≡◌, sym, ◌∙◌, ◌⊎◌, inr, All, All-map, map,
}
use grok_build_auth.Closeout.Files.{Disk, regular}
use grok_build_auth.Closeout.Journal.{
  pending, Fixed, Entry, EntryStatus, onto, Journal, JournalStatus, quarantining, Durable, Prepared,
}
use grok_build_auth.Closeout.Sound.{Apart-sym, Sound, NoLinks, IsPlan, Apart, map-onto, All-onto}
use mathlib.Core.Path.{subst}

abbrev pub is_moving : JournalStatus → Bool
is_moving quarantining = true
is_moving _ = false

abbrev pub fixed_of : Entry → Fixed
fixed_of e = e.fixed

-- The journal was written for this batch.
abbrev pub IsFor : Prepared → Journal → Type 0
IsFor prepared journal =
    (journal.batch_id ≡ prepared.batch_id)
    × (journal.account_ids ≡ prepared.account_ids)
    × (journal.prepared_artifact_sha256 ≡ prepared.artifact_sha256)

-- A disk from which the clean-up can start: no journal and every file at its source, or a journal of
-- the batch whose entries have the status that the disk shows.
abbrev pub Resumable : Prepared → Durable → Type 0
Resumable prepared d =
    NoLinks d.disk
    × (((d.journal ≡ none) × All (λ f. d.disk f.source ≡ some (regular f.sha256)) prepared.cleanup)
        ⊎ ((journal : Journal) × (d.journal ≡ some journal)
            × IsFor prepared journal
            × (map fixed_of journal.entries ≡ prepared.cleanup)
            × All (Sound (is_moving journal.status) d.disk) journal.entries))

-- The entry and those after it have the status that they start with, those before it the status that
-- they end with.
abbrev pub InLoop :
    (Start End : EntryStatus → Type 0) → Journal → List Entry → List Entry → Durable → Type 0
InLoop Start End journal before rest d =
    NoLinks d.disk
    × (d.journal ≡ some (record journal { entries = onto before rest }))
    × All (λ e. End e.status × Sound (is_moving journal.status) d.disk e) before
    × All (λ e. Start e.status × Sound (is_moving journal.status) d.disk e) rest

-- What holds of the paths alone.
abbrev pub ClearOf : List Entry → Fixed → Type 0
ClearOf entries f = All (λ e. Apart e.fixed f) entries

abbrev pub LaidOut : Prepared → List Entry → List Entry → Type 0
LaidOut prepared before rest =
    (onto (map fixed_of before) (map fixed_of rest) ≡ prepared.cleanup)
    × All (λ e. ClearOf before e.fixed) rest
    × IsPlan (map fixed_of rest)

module _ (prepared : Prepared) (journal : Journal) (ours : IsFor prepared journal)
    (Start End : EntryStatus → Type 0) where
  pub Resumable-InLoop :
      (before rest : List Entry) (d : Durable)
      → LaidOut prepared before rest
      → InLoop Start End journal before rest d
      → Resumable prepared d
  Resumable-InLoop before rest d (plan, apart, shape) (no_links, found, done, waiting) = (
    no_links,
    inr (
      record journal { entries = onto before rest },
      found,
      ours,
      map-onto fixed_of before rest ∙ plan,
      All-onto (Sound (is_moving journal.status) d.disk) before rest
          (All-map _ _ before (λ e h. h.1) done) (All-map _ _ rest (λ e h. h.1) waiting),
    ),
  )

-- The next entry has the paths of this one.
pub LaidOut-next :
    (prepared : Prepared) (before rest : List Entry) (e next : Entry)
    → next.fixed ≡ e.fixed
    → LaidOut prepared before (e ∷ rest)
    → LaidOut prepared (next ∷ before) rest
LaidOut-next prepared before rest e next same (plan, (first, others), (placed, free, shape)) = (
  subst (λ f. onto (f ∷ map fixed_of before) (map fixed_of rest) ≡ prepared.cleanup) (sym same)
      plan,
  subst
      (λ f.
        All (λ r. ClearOf before r.fixed) rest
        → All (λ r. Apart f r.fixed × ClearOf before r.fixed) rest)
      (sym same) (both rest free) others,
  shape,
)
  where
    both :
        (rs : List Entry)
        → All (Apart e.fixed) (map fixed_of rs)
        → All (λ r. ClearOf before r.fixed) rs
        → All (λ r. Apart e.fixed r.fixed × ClearOf before r.fixed) rs
    both [] h k = tt
    both (r ∷ rs) (h, hs) (k, ks) = ((h, k), both rs hs ks)

pub ClearOf-map : (f : Fixed) (es : List Entry) → All (Apart f) (map fixed_of es) → ClearOf es f
ClearOf-map f [] h = tt
ClearOf-map f (e ∷ es) (h, hs) = (Apart-sym f e.fixed h, ClearOf-map f es hs)

-- Entries whose files a change of the disk leaves.
pub All-clear :
    (P : EntryStatus → Type 0) (moving : Bool) (disk changed : Disk) (f : Fixed)
    → ((e : Entry) → Apart e.fixed f → Sound moving disk e → Sound moving changed e)
    → (es : List Entry) → ClearOf es f
    → All (λ e. P e.status × Sound moving disk e) es
    → All (λ e. P e.status × Sound moving changed e) es
All-clear P moving disk changed f keeps [] h k = tt
All-clear P moving disk changed f keeps (e ∷ es) (h, hs) (k, ks) =
    ((k.0, keeps e h k.1), All-clear P moving disk changed f keeps es hs ks)

pub LaidOut-start :
    (prepared : Prepared) (entries : List Entry)
    → map fixed_of entries ≡ prepared.cleanup
    → IsPlan prepared.cleanup
    → LaidOut prepared [] entries
LaidOut-start prepared entries plan shape = (plan, clear entries, subst IsPlan (sym plan) shape)
  where
    clear : (es : List Entry) → All (λ e. ClearOf [] e.fixed) es
    clear [] = tt
    clear (e ∷ es) = (tt, clear es)

abbrev pub is_pending : EntryStatus → Bool
is_pending pending = true
is_pending _ = false

abbrev pub IsMoved : EntryStatus → Type 0
IsMoved s = is_pending s ≡ false

-- The end of a loop.
abbrev pub Looped : Prepared → Journal → (EntryStatus → Type 0) → List Entry → Durable → Type 0
Looped prepared journal End entries d =
    (map fixed_of entries ≡ prepared.cleanup)
    × NoLinks d.disk
    × (d.journal ≡ some (record journal { entries = entries }))
    × All (λ e. End e.status × Sound (is_moving journal.status) d.disk e) entries

-- Every file is in quarantine, and the journal says so.
abbrev pub AllMoved : Prepared → Journal → Durable → Type 0
AllMoved prepared moved d =
    (IsFor prepared moved
      × (is_moving moved.status ≡ false)
      × (map fixed_of moved.entries ≡ prepared.cleanup))
    × NoLinks d.disk
    × (d.journal ≡ some moved)
    × All (λ e. IsMoved e.status × Sound (is_moving moved.status) d.disk e) moved.entries
