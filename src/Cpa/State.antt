-- ===== src/Cpa/State.antt =====
-- The life of an auth file in clients/windows/cpa/state.py: `transition`, `delete_if_fingerprint` and
-- `replace_if_fingerprint` on a file system, as they run while the lock of the identity is held. A
-- path is a resolved directory with a name in it; a file has its text, as JSON if it is that, and the
-- time of its last change.
pub mod Moved
pub mod Lifecycle
use grok_build_auth.Prelude.{
  ◌||◌, is_empty, [], err, ltb, ◌>>=◌, ◌&&◌, none, ◌∷◌, ok, List, Option, if◌then◌else◌, ◌++◌, some,
  text_eq, Text, codes, ℕ, Bool, true, false, not,
}
use grok_build_auth.Effect.{Effect}
use grok_build_auth.Cpa.Names.{
  newer_exists, value_error, source_changed, os_error, attribute_error, text_field, fingerprint,
  Fault, credential_file_name, identity, Try,
}
use grok_build_auth.Json.{obj, Fields, Value}

pub record FilePath : Type 0 where
  pub dir : Text
  pub name : Text

pub record Stored : Type 0 where
  pub content : Option Value
  pub mtime : ℕ

abbrev pub Files : Type 0
Files = FilePath → Option Stored

abbrev pub path_eq : FilePath → FilePath → Bool
path_eq p q = text_eq p.dir q.dir && text_eq p.name q.name

abbrev pub write : FilePath → Stored → Files → Files
write p stored files q = if path_eq q p then some stored else files q

abbrev pub unlink : FilePath → Files → Files
unlink p files q = if path_eq q p then none else files q

-- The keys of `STATES`.
pub data AuthState : Type 0 where
  verified pending cooldown : AuthState

abbrev pub folder : AuthState → Text
folder verified = codes "/cpa_auths"
folder pending = codes "/cpa_pending"
folder cooldown = codes "/cpa_cooldown"

unfoldable pub state_named : Text → Try AuthState
state_named target =
    if text_eq target (codes "verified")
    then ok verified
    else if text_eq target (codes "pending")
    then ok pending
    else if text_eq target (codes "cooldown")
    then ok cooldown
    else err value_error

-- `json.loads(path.read_text())`
unfoldable pub read_json : Option Stored → Try Value
read_json none = err os_error
read_json (some stored) = elim stored.content [ none ↦ err value_error | some v ↦ ok v ]

-- Only a dict has `get`.
abbrev pub as_dict : Value → Try Fields
as_dict (obj d) = ok d
as_dict _ = err attribute_error

-- What `transition` is called with, and what it takes from outside: the clock, and the paths that
-- cannot be written or removed.
pub record Move : Type 0 where
  pub root : Text
  pub payload : Fields
  pub target : Text
  pub verified_dir : Option Text
  pub source_path : Option FilePath
  pub expected_source_fingerprint : Option Text
  pub now : ℕ
  pub now_ms : ℕ
  pub write_fails : FilePath → Bool
  pub unlink_fails : FilePath → Bool

abbrev pub file_name_of : ℕ → Fields → Text
file_name_of now_ms payload =
    credential_file_name now_ms (text_field "email" payload) (text_field "sub" payload)

abbrev pub verified_folder : Move → Text
verified_folder m = elim m.verified_dir [ none ↦ m.root ++ folder verified | some dir ↦ dir ]

-- The three directories, as the code lists them.
abbrev pub state_dirs : Move → List Text
state_dirs m = (m.root ++ folder pending) ∷ (m.root ++ folder cooldown) ∷ verified_folder m ∷ []

abbrev pub dest_dir : Move → AuthState → Text
dest_dir m verified = verified_folder m
dest_dir m pending = m.root ++ folder pending
dest_dir m cooldown = m.root ++ folder cooldown

abbrev pub path_in : Text → Move → FilePath
path_in dir m = record { dir = dir; name = file_name_of m.now_ms m.payload }

-- Whether another state of the file changed after the source.
abbrev is_newer : ℕ → Option Stored → Bool
is_newer source_mtime none = false
is_newer source_mtime (some other) = ltb source_mtime other.mtime

unfoldable pub any_newer : Files → Move → FilePath → ℕ → List Text → Bool
any_newer files m source source_mtime [] = false
any_newer files m source source_mtime (dir ∷ dirs) =
    (not (path_eq (path_in dir m) source) && is_newer source_mtime (files (path_in dir m)))
    || any_newer files m source source_mtime dirs

-- The two refusals of a source that is there.
abbrev pub refuse_newer : Files → Move → FilePath → Stored → Bool → Try (Unit {0})
refuse_newer files m source stored true = err source_changed
refuse_newer files m source stored false =
    if any_newer files m source stored.mtime (state_dirs m) then err newer_exists else ok tt

module _ (sha256 : Text → Text) where
  abbrev differs : Text → Value → Try Bool
  differs expected current = do
    payload ← as_dict current
    ok (not (text_eq (fingerprint sha256 payload) expected))

  -- `expected and fingerprint(current) != expected`
  abbrev pub is_other : Option Text → Value → Try Bool
  is_other none current = ok false
  is_other (some expected) current =
      if is_empty expected then ok false else differs expected current

  check_stored : Files → Move → FilePath → Option Stored → Try (Unit {0})
  check_stored files m source none = err source_changed
  check_stored files m source (some stored) = read_json (some stored) >>= λ current.
      is_other m.expected_source_fingerprint current >>= refuse_newer files m source stored

  unfoldable pub check_source : Files → Move → Option FilePath → Try (Unit {0})
  unfolding check_stored
  check_source files m none = ok tt
  check_source files m (some source) = check_stored files m source (files source)

  -- `fingerprint(current) != expected` of the file at a path
  unfoldable pub is_expected : Text → Option Stored → Try Bool
  is_expected expected file = do
    current ← read_json file
    payload ← as_dict current
    ok (text_eq (fingerprint sha256 payload) expected)

  unfoldable pub delete_if_fingerprint :
      (FilePath → Bool) → FilePath → Text → Effect Fault Files Bool
  delete_if_fingerprint unlink_fails path expected files =
      elim (identity_at (files path) >>= λ _. is_expected expected (files path)) [
        | err e ↦ (err e, files)
        | ok false ↦ (ok false, files)
        | ok true ↦
            if unlink_fails path then (err os_error, files) else (ok true, unlink path files)
      ]
    where
      identity_at : Option Stored → Try Text
      identity_at file = read_json file >>= λ v. as_dict v >>= identity

  unfoldable pub replace_if_fingerprint :
      (FilePath → Bool) → FilePath → Text → Fields → ℕ → Effect Fault Files Bool
  replace_if_fingerprint write_fails path expected payload now files =
      elim (identity payload >>= λ _. is_expected expected (files path)) [
        | err e ↦ (err e, files)
        | ok false ↦ (ok false, files)
        | ok true ↦
            if write_fails path
            then (err os_error, files)
            else (ok true, write path (record { content = some (obj payload); mtime = now }) files)
      ]

abbrev pub is_there : Option Stored → Bool
is_there none = false
is_there (some _) = true

-- A file that is to be removed and cannot be.
abbrev pub is_stuck : Move → FilePath → Text → Files → Bool
is_stuck m dest dir files =
    not (path_eq (path_in dir m) dest)
    && (is_there (files (path_in dir m)) && m.unlink_fails (path_in dir m))

-- The other states of the file are removed, in turn.
unfoldable pub clear : Move → FilePath → List Text → Effect Fault Files (Unit {0})
clear m dest [] files = (ok tt, files)
clear m dest (dir ∷ dirs) files =
    let rest =
      clear m dest dirs
        (if path_eq (path_in dir m) dest then files else unlink (path_in dir m) files) in
    if is_stuck m dest dir files then (err os_error, files) else rest

-- The file is written to its new state and removed from the others.
unfoldable pub settle : Move → AuthState → Effect Fault Files (Unit {0})
settle m state files =
    let dest = path_in (dest_dir m state) m in
    if m.write_fails dest
    then (err os_error, files)
    else clear m dest (state_dirs m)
        (write dest (record { content = some (obj m.payload); mtime = m.now }) files)

-- What is checked before anything is written.
unfoldable pub prepare : (Text → Text) → Move → Files → Try AuthState
prepare sha256 m files = do
  state ← state_named m.target
  _ ← identity m.payload
  _ ← check_source sha256 files m m.source_path
  ok state

abbrev moved_to : FilePath → Try (Unit {0}) × Files → Try FilePath × Files
moved_to dest (ok _, files) = (ok dest, files)
moved_to dest (err e, files) = (err e, files)

abbrev move_on : Move → Files → Try AuthState → Try FilePath × Files
move_on m files (err e) = (err e, files)
move_on m files (ok state) = moved_to (path_in (dest_dir m state) m) (settle m state files)

unfoldable pub transition : (Text → Text) → Move → Effect Fault Files FilePath
unfolding prepare settle
transition sha256 m files = move_on m files (prepare sha256 m files)
