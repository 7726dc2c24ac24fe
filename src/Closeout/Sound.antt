-- ===== src/Closeout/Sound.antt =====
-- When the clean-up of scripts/finalize_grok_batch.py can be started again: the journal and the files.
use grok_build_auth.Prelude.{
  Text, text_eq_refl, eq_of_text_eq, text_eq, Bool, true, false, ◌&&◌, Bool-cases, Option, none,
  some, List, [], ◌∷◌, ◌++◌, ◌≡◌, refl, sym, ◌⊎◌, inl, inr, All, map, ok, if◌then◌else◌,
}
use grok_build_auth.Closeout.Files.{
  Disk, Node, regular, path_eq, is_link, replace_file, unlink, starts_below, any_link, below,
  require_exact_child,
}
use grok_build_auth.Closeout.Journal.{
  Fixed, Entry, EntryStatus, pending, quarantined, deleted, cleanup_root, onto,
}
use mathlib.Core.Path.{subst}

pub path_eq_refl : (p : List Text) → path_eq p p ≡ true
path_eq_refl [] = refl
path_eq_refl (s ∷ p) = rw (text_eq_refl s) (path_eq_refl p)

pub eq_of_path_eq : (p q : List Text) → path_eq p q ≡ true → p ≡ q
eq_of_path_eq [] [] h = refl
eq_of_path_eq [] (t ∷ q) h = cc
eq_of_path_eq (s ∷ p) [] h = cc
eq_of_path_eq (s ∷ p) (t ∷ q) h = elim (Bool-cases (text_eq s t)) [
  | inl same ↦
      let head : s ≡ t = eq_of_text_eq s t same in
      let tail : p ≡ q = eq_of_path_eq p q (subst (λ b. (b && path_eq p q) ≡ true) same h) in cc
  | inr other ↦
      (let absurd : (false && path_eq p q) ≡ true =
          subst (λ b. (b && path_eq p q) ≡ true) other h in
        cc)
]

pub path_ne_sym : (p q : List Text) → path_eq p q ≡ false → path_eq q p ≡ false
path_ne_sym p q h = elim (Bool-cases (path_eq q p)) [
  | inl same ↦
      let equal : q ≡ p = eq_of_path_eq q p same in
      let twice : path_eq p q ≡ true =
        subst (λ r. path_eq p r ≡ true) (sym equal) (path_eq_refl p) in
      cc
  | inr other ↦ other
]

-- No path of the first entry is one of the second's.
abbrev pub Apart : Fixed → Fixed → Type 0
Apart f g =
    (path_eq f.source g.source ≡ false)
    × (path_eq f.source g.quarantine ≡ false)
    × (path_eq f.quarantine g.source ≡ false)
    × (path_eq f.quarantine g.quarantine ≡ false)

pub Apart-sym : (f g : Fixed) → Apart f g → Apart g f
Apart-sym f g (a, b, c, d) = (
  path_ne_sym f.source g.source a,
  path_ne_sym f.quarantine g.source c,
  path_ne_sym f.source g.quarantine b,
  path_ne_sym f.quarantine g.quarantine d,
)

-- The paths of an entry are where `require_exact_child` wants them.
abbrev pub IsPlaced : Fixed → Type 0
IsPlaced f =
    (path_eq f.source [] ≡ false)
    × (starts_below cleanup_root f.quarantine ≡ true)
    × (path_eq f.quarantine cleanup_root ≡ false)
    × (path_eq f.source f.quarantine ≡ false)

-- The entries of a batch: each is placed, and no two share a path.
abbrev pub IsPlan : List Fixed → Type 0
IsPlan [] = Unit
IsPlan (f ∷ plan) = IsPlaced f × All (Apart f) plan × IsPlan plan

abbrev pub NoLinks : Disk → Type 0
NoLinks disk = (p : List Text) → is_link (disk p) ≡ false

-- Where the file of an entry is; `moving` until every file is in quarantine.
abbrev pub SoundAt : Bool → EntryStatus → Text → Option Node → Option Node → Type 0
SoundAt moving pending sha source target =
    (source ≡ some (regular sha)) ⊎ ((source ≡ none) × (target ≡ some (regular sha)))
SoundAt moving quarantined sha source target =
    (source ≡ none) × ((target ≡ some (regular sha)) ⊎ ((moving ≡ false) × (target ≡ none)))
SoundAt moving deleted sha source target = (moving ≡ false) × (source ≡ none) × (target ≡ none)

abbrev pub Sound : Bool → Disk → Entry → Type 0
Sound moving disk e =
    SoundAt moving e.status e.fixed.sha256 (disk e.fixed.source) (disk e.fixed.quarantine)

pub SoundAt-same :
    (moving : Bool) (status : EntryStatus) (sha : Text) {a b c d : Option Node}
    → a ≡ c
    → b ≡ d
    → SoundAt moving status sha a b
    → SoundAt moving status sha c d
SoundAt-same moving status sha {a} {b} {c} {d} h k x =
    subst (λ t. SoundAt moving status sha c t) k (subst (λ s. SoundAt moving status sha s b) h x)

-- Sound while files are moved is sound afterwards.
pub SoundAt-settled :
    (moving : Bool) (status : EntryStatus) (sha : Text) (a b : Option Node)
    → SoundAt moving status sha a b
    → SoundAt false status sha a b
SoundAt-settled moving pending sha a b h = h
SoundAt-settled moving quarantined sha a b (gone, inl there) = (gone, inl there)
SoundAt-settled moving quarantined sha a b (gone, inr (later, none_there)) =
    (gone, inr (refl, none_there))
SoundAt-settled moving deleted sha a b (later, gone, none_there) = (refl, gone, none_there)

pub Sound-settled :
    (moving : Bool) (disk : Disk) (e : Entry) → Sound moving disk e → Sound false disk e
Sound-settled moving disk e = SoundAt-settled moving e.status e.fixed.sha256 _ _

-- The files of another entry stay when a file is moved or deleted.
pub Sound-replace_file :
    (moving : Bool) (disk : Disk) (f : Fixed) (e : Entry)
    → Apart e.fixed f
    → Sound moving disk e
    → Sound moving (replace_file f.source f.quarantine disk) e
Sound-replace_file moving disk f e (a, b, c, d) =
    SoundAt-same moving e.status e.fixed.sha256 (rw (b, a) refl) (rw (d, c) refl)

pub Sound-unlink :
    (moving : Bool) (disk : Disk) (f : Fixed) (e : Entry)
    → Apart e.fixed f
    → Sound moving disk e
    → Sound moving (unlink f.quarantine disk) e
Sound-unlink moving disk f e (a, b, c, d) =
    SoundAt-same moving e.status e.fixed.sha256 (rw b refl) (rw d refl)

NoLinks-if :
    (test : Bool) (a b : Option Node)
    → is_link a ≡ false
    → is_link b ≡ false
    → is_link (if test then a else b) ≡ false
NoLinks-if true a b h k = h
NoLinks-if false a b h k = k

pub NoLinks-replace_file :
    (disk : Disk) (s t : List Text) → NoLinks disk → NoLinks (replace_file s t disk)
NoLinks-replace_file disk s t h p =
    NoLinks-if (path_eq p t) _ _ (h s) (NoLinks-if (path_eq p s) _ _ refl (h p))

pub NoLinks-unlink : (disk : Disk) (t : List Text) → NoLinks disk → NoLinks (unlink t disk)
NoLinks-unlink disk t h p = NoLinks-if (path_eq p t) _ _ refl (h p)

any_link-NoLinks :
    (disk : Disk) (root path : List Text) → NoLinks disk → any_link disk root path ≡ false
unfolding any_link
any_link-NoLinks disk root [] h = h root
any_link-NoLinks disk root (s ∷ path) h =
    rw (h root) (any_link-NoLinks disk (root ++ s ∷ []) path h)

pub require_exact_child-NoLinks :
    (disk : Disk) (root path : List Text)
    → NoLinks disk
    → starts_below root path ≡ true
    → path_eq path root ≡ false
    → require_exact_child disk root path ≡ ok path
unfolding require_exact_child
require_exact_child-NoLinks disk root path h placed other =
    rw (placed, any_link-NoLinks disk root (below root path) h, other) refl

module _ {A B : Type 0} where
  pub map-onto :
      (f : A → B) (before rest : List A)
      → map f (onto before rest) ≡ onto (map f before) (map f rest)
  map-onto f [] rest = refl
  map-onto f (a ∷ before) rest = map-onto f before (a ∷ rest)

pub All-onto :
    {A : Type 0} (P : A → Type 0) (before rest : List A)
    → All P before
    → All P rest
    → All P (onto before rest)
All-onto P [] rest h k = k
All-onto P (a ∷ before) rest (h, hs) k = All-onto P before (a ∷ rest) hs (h, k)
