-- ===== src/Closeout/Files.antt =====
-- What the clean-up of scripts/finalize_grok_batch.py reads and writes below the directory of a batch.
-- A path is the list of its parts from that directory on, without `..`; a file is its digest. Each
-- write may be the last one: the process can be killed, or the system call fail.
use grok_build_auth.Prelude.{
  Text, Bool, true, false, not, ◌&&◌, ◌||◌, Option, none, some, List, [], ◌∷◌, ok, err, Result,
  text_eq, if◌then◌else◌, ◌++◌,
}

abbrev pub path_eq : List Text → List Text → Bool
path_eq [] [] = true
path_eq (s ∷ p) (t ∷ q) = text_eq s t && path_eq p q
path_eq _ _ = false

pub data Node : Type 0 where
  regular : Text → Node
  directory symlink : Node

abbrev pub Disk : Type 0
Disk = List Text → Option Node

pub data Fault : Type 0 where
  outside_boundary linked not_below source_changed both_unavailable artifact_changed foreign_journal
        crashed :
      Fault

abbrev pub is_link : Option Node → Bool
is_link (some symlink) = true
is_link _ = false

-- `os.replace(source, target)`
abbrev pub replace_file : List Text → List Text → Disk → Disk
replace_file source target disk p =
    if path_eq p target then disk source else if path_eq p source then none else disk p

abbrev pub unlink : List Text → Disk → Disk
unlink path disk p = if path_eq p path then none else disk p

abbrev pub starts_below : List Text → List Text → Bool
starts_below [] path = true
starts_below (s ∷ root) [] = false
starts_below (s ∷ root) (t ∷ path) = text_eq s t && starts_below root path

-- Whether a symlink is among the components from the root to the path.
unfoldable pub any_link : Disk → List Text → List Text → Bool
any_link disk root [] = is_link (disk root)
any_link disk root (s ∷ below) = is_link (disk root) || any_link disk (root ++ s ∷ []) below

abbrev pub below : List Text → List Text → List Text
below [] path = path
below (s ∷ root) [] = []
below (s ∷ root) (t ∷ path) = below root path

-- `require_exact_child` of a file that need not exist
unfoldable pub require_exact_child : Disk → List Text → List Text → Result Fault (List Text)
require_exact_child disk root path =
    if not (starts_below root path)
    then err outside_boundary
    else if any_link disk root (below root path)
    then err linked
    else if path_eq path root
    then err not_below
    else ok path
