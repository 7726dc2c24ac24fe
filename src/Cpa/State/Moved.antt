-- ===== src/Cpa/State/Moved.antt =====
-- What `transition` of clients/windows/cpa/state.py leaves at every path.
use grok_build_auth.Prelude.{
  text_eq_refl, ◌⊎◌, ◌>>=◌, ok-injective, bind-ok, ok, err, inr, right_of_and, inl, left_of_and,
  sym, refl, Bool-cases, eq_of_text_eq, Option, ◌∙◌, [], ◌||◌, ◌∷◌, false, none, ap, Bool,
  if◌then◌else◌, Text, true, some, List, ◌≡◌,
}
use grok_build_auth.Cpa.State.{
  is_stuck, moved_to, is_other, refuse_newer, read_json, move_on, state_named, prepare, any_newer,
  check_stored, check_source, transition, write, state_dirs, unlink, dest_dir, path_in, Files,
  AuthState, path_eq, Stored, FilePath, settle, Move, clear,
}
use grok_build_auth.Json.{obj}
use grok_build_auth.Cpa.Names.{os_error, identity, Try}
use mathlib.Core.Path.{subst}

true_ne_false : ◌≡◌ {A = Bool} true false → ⊥
true_ne_false h = cc

eq_of_path_eq : (p q : FilePath) → path_eq p q ≡ true → p ≡ q
eq_of_path_eq p q h =
    let dirs : p.dir ≡ q.dir = eq_of_text_eq _ _ (left_of_and _ _ h) in
    let names : p.name ≡ q.name = eq_of_text_eq _ _ (right_of_and _ _ h) in
    λ i. record { dir = dirs i; name = names i }

path_eq_left : (p q r : FilePath) → path_eq p q ≡ true → path_eq p r ≡ path_eq q r
path_eq_left p q r h = ap (λ t. path_eq t r) (eq_of_path_eq p q h)

-- The paths of the file in the directories.
abbrev pub listed : Move → FilePath → List Text → Bool
listed m p [] = false
listed m p (dir ∷ dirs) = path_eq p (path_in dir m) || listed m p dirs

-- A path is cleared of nothing that is kept: `same` is whether the path is the kept one, `here`
-- whether it is the next to be cleared, and `kept` whether the next to be cleared is the kept one.
pick :
    (same here kept rest : Bool) (file : Option Stored)
    → (here ≡ true → same ≡ kept)
    → (if same
        then (if kept then file else if here then none else file)
        else if rest
        then none
        else (if kept then file else if here then none else file))
      ≡ (if same then file else if here || rest then none else file)
pick true true true rest file h = refl
pick true true false rest file h = absurd (true_ne_false (h refl))
pick true false true rest file h = refl
pick true false false rest file h = refl
pick false true true rest file h = absurd (true_ne_false (sym (h refl)))
pick false true false true file h = refl
pick false true false false file h = refl
pick false false true rest file h = refl
pick false false false rest file h = refl

at_path :
    (kept : Bool) (files cleared : Files) (p : FilePath)
    → (if kept then files else cleared) p ≡ (if kept then files p else cleared p)
at_path true files cleared p = refl
at_path false files cleared p = refl

-- What is left when every file that is to be removed can be.
cleared : Move → FilePath → List Text → Files → Files
cleared m dest [] files = files
cleared m dest (dir ∷ dirs) files =
    cleared m dest dirs
      (if path_eq (path_in dir m) dest then files else unlink (path_in dir m) files)

cleared_lem :
    (m : Move) (dest p : FilePath) (dirs : List Text) (files : Files)
    → cleared m dest dirs files p
      ≡ (if path_eq p dest then files p else if listed m p dirs then none else files p)
unfolding cleared
cleared_lem m dest p [] files = elim (Bool-cases (path_eq p dest)) [ inl e ↦ rw e | inr e ↦ rw e ]
cleared_lem m dest p (dir ∷ dirs) files =
    cleared_lem m dest p dirs
      (if path_eq (path_in dir m) dest then files else unlink (path_in dir m) files)
    ∙ ap (λ t. if path_eq p dest then t else if listed m p dirs then none else t)
        (at_path (path_eq (path_in dir m) dest) files (unlink (path_in dir m) files) p)
    ∙ pick (path_eq p dest) (path_eq p (path_in dir m)) (path_eq (path_in dir m) dest)
        (listed m p dirs) (files p) (path_eq_left p (path_in dir m) dest)

-- A path that a clearing which fails leaves, or has removed.
abbrev pub PartlyCleared : Move → FilePath → List Text → Files → Files → FilePath → Type 0
PartlyCleared m dest dirs files files' p =
    (files' p ≡ files p) ⊎ ((path_eq p dest ≡ false) × (listed m p dirs ≡ true) × (files' p ≡ none))

abbrev ClearedTo : Move → FilePath → List Text → Files → Try (Unit {0}) × Files → Type 0
ClearedTo m dest dirs files (ok _, files') = files' ≡ cleared m dest dirs files
ClearedTo m dest dirs files (err e, files') =
    (e ≡ os_error) × ((p : FilePath) → PartlyCleared m dest dirs files files' p)

-- The removal of one more file.
partly :
    (m : Move) (dest : FilePath) (dir : Text) (dirs : List Text) (files files' : Files)
    (p : FilePath) (kept here : Bool)
    → path_eq (path_in dir m) dest ≡ kept
    → path_eq p (path_in dir m) ≡ here
    → PartlyCleared m dest dirs (if kept then files else unlink (path_in dir m) files) files' p
    → PartlyCleared m dest (dir ∷ dirs) files files' p
partly m dest dir dirs files files' p kept here same at (inr (other, found, gone)) =
    inr (other, or_right (path_eq p (path_in dir m)) found, gone)
  where
    or_right : (a : Bool) {b : Bool} → b ≡ true → (a || b) ≡ true
    or_right true h = refl
    or_right false h = h
partly m dest dir dirs files files' p true here same at (inl left_alone) = inl left_alone
partly m dest dir dirs files files' p false true same at (inl left_alone) = inr (
  path_eq_left p (path_in dir m) dest at ∙ same,
  ap (λ b. b || listed m p dirs) at,
  left_alone ∙ ap (λ b. if b then none else files p) at,
)
partly m dest dir dirs files files' p false false same at (inl left_alone) =
    inl (left_alone ∙ ap (λ b. if b then none else files p) at)

clear_lem :
    (m : Move) (dest : FilePath) (dirs : List Text) (files : Files)
    → ClearedTo m dest dirs files (clear m dest dirs files)
unfolding clear cleared
clear_lem m dest [] files = refl
clear_lem m dest (dir ∷ dirs) files =
    go (is_stuck m dest dir files)
      (clear m dest dirs
        (if path_eq (path_in dir m) dest then files else unlink (path_in dir m) files))
      (clear_lem m dest dirs
        (if path_eq (path_in dir m) dest then files else unlink (path_in dir m) files))
  where
    go :
        (stuck : Bool) (r : Try (Unit {0}) × Files)
        → ClearedTo m dest dirs
            (if path_eq (path_in dir m) dest then files else unlink (path_in dir m) files)
            r
        → ClearedTo m dest (dir ∷ dirs) files (if stuck then (err os_error, files) else r)
    go true r h = (refl, λ p. inl refl)
    go false (ok _, files') h = h
    go false (err e, files') (failed, at) = (
      failed,
      λ p.
          partly m dest dir dirs files files' p (path_eq (path_in dir m) dest)
            (path_eq p (path_in dir m)) refl refl (at p),
    )

abbrev pub new_file : Move → Stored
new_file m = record { content = some (obj m.payload); mtime = m.now }

-- What a path holds when the file was moved.
abbrev pub settled_at : Move → FilePath → Files → FilePath → Option Stored
settled_at m dest files p =
    if path_eq p dest
    then some (new_file m)
    else if listed m p (state_dirs m)
    then none
    else files p

cleared-write :
    (m : Move) (dest : FilePath) (files : Files) (p : FilePath)
    → cleared m dest (state_dirs m) (write dest (new_file m) files) p ≡ settled_at m dest files p
cleared-write m dest files p =
    cleared_lem m dest p (state_dirs m) (write dest (new_file m) files)
    ∙ written (path_eq p dest) (listed m p (state_dirs m))
  where
    written :
        (same rest : Bool)
        → (if same
            then (if same then some (new_file m) else files p)
            else if rest
            then none
            else (if same then some (new_file m) else files p))
          ≡ (if same then some (new_file m) else if rest then none else files p)
    written true rest = refl
    written false rest = refl

-- The file is at its new path; another path holds what it held, or is one of the file that was
-- removed.
abbrev pub HalfMoved : Move → Files → Files → FilePath → Type 0
HalfMoved m files files' dest =
    (files' dest ≡ some (new_file m))
    × ((p : FilePath)
        → (path_eq p dest ≡ true)
          ⊎ ((files' p ≡ files p) ⊎ ((listed m p (state_dirs m) ≡ true) × (files' p ≡ none))))

-- A file that was found for the source has no later copy in another state.
abbrev pub IsLatest : Move → Files → Type 0
IsLatest m files =
    (source : FilePath) (stored : Stored)
    → m.source_path ≡ some source
    → files source ≡ some stored
    → any_newer files m source stored.mtime (state_dirs m) ≡ false

abbrev pub Moved : Move → Files → Try FilePath × Files → Type 0
Moved m files (err e, files') =
    (files' ≡ files)
    ⊎ ((e ≡ os_error)
        × ((state : AuthState) × (state_named m.target ≡ ok state)
            × HalfMoved m files files' (path_in (dest_dir m state) m)))
Moved m files (ok dest, files') =
    (state : AuthState) × (state_named m.target ≡ ok state)
    × (dest ≡ path_in (dest_dir m state) m)
    × ((p : FilePath)
        → files' p ≡ (
            if path_eq p dest
            then some (new_file m)
            else if listed m p (state_dirs m)
            then none
            else files p))
    × IsLatest m files

path_eq_refl : (p : FilePath) → path_eq p p ≡ true
path_eq_refl p = rw (text_eq_refl p.dir) (text_eq_refl p.name)

half_moved :
    (m : Move) (dest : FilePath) (files files' : Files)
    → ((p : FilePath)
        → PartlyCleared m dest (state_dirs m) (write dest (new_file m) files) files' p)
    → HalfMoved m files files' dest
half_moved m dest files files' at = (there (at dest), λ p. go p (path_eq p dest) refl (at p))
  where
    there :
        PartlyCleared m dest (state_dirs m) (write dest (new_file m) files) files' dest
        → files' dest ≡ some (new_file m)
    there (inl same) =
        same ∙ ap (λ b. if b then some (new_file m) else files dest) (path_eq_refl dest)
    there (inr (other, found, gone)) = absurd (true_ne_false (sym (path_eq_refl dest) ∙ other))

    go :
        (p : FilePath) (same : Bool)
        → path_eq p dest ≡ same
        → PartlyCleared m dest (state_dirs m) (write dest (new_file m) files) files' p
        → (path_eq p dest ≡ true)
          ⊎ ((files' p ≡ files p) ⊎ ((listed m p (state_dirs m) ≡ true) × (files' p ≡ none)))
    go p true h k = inl h
    go p false h (inl left_alone) =
        inr (inl (left_alone ∙ ap (λ b. if b then some (new_file m) else files p) h))
    go p false h (inr (other, found, gone)) = inr (inr (found, gone))

not_newer :
    (files : Files) (m : Move) (source : FilePath) (stored : Stored) (other : Bool)
    → refuse_newer files m source stored other ≡ ok tt
    → any_newer files m source stored.mtime (state_dirs m) ≡ false
not_newer files m source stored true h = cc
not_newer files m source stored false h =
    elim (Bool-cases (any_newer files m source stored.mtime (state_dirs m))) [
      | inl newer ↦ cc (rw newer at h)
      | inr latest ↦ latest
    ]

module _ (sha256 : Text → Text) (m : Move) (files : Files) where
  latest_of_check :
      (source : FilePath) (stored : Stored)
      → check_stored sha256 files m source (some stored) ≡ ok tt
      → any_newer files m source stored.mtime (state_dirs m) ≡ false
  unfolding check_stored
  latest_of_check source stored h =
      let (current, read, rest) =
        bind-ok (read_json (some stored))
          (λ v.
            is_other sha256 m.expected_source_fingerprint v >>= refuse_newer files m source stored)
          h in
      let (other, compared, last) =
        bind-ok (is_other sha256 m.expected_source_fingerprint current)
          (refuse_newer files m source stored) rest in
      not_newer files m source stored other last

  IsLatest-check_source : check_source sha256 files m m.source_path ≡ ok tt → IsLatest m files
  unfolding check_source
  IsLatest-check_source h source stored given found = latest_of_check source stored (
      subst (λ file. check_stored sha256 files m source file ≡ ok tt) found
        (subst (λ given_path. check_source sha256 files m given_path ≡ ok tt) given h))

  Moved-settle :
      (state : AuthState)
      → state_named m.target ≡ ok state
      → IsLatest m files
      → Moved m files (moved_to (path_in (dest_dir m state) m) (settle m state files))
  unfolding settle
  Moved-settle state named latest =
      go (m.write_fails dest) (clear m dest (state_dirs m) (write dest (new_file m) files))
        (clear_lem m dest (state_dirs m) (write dest (new_file m) files))
    where
      dest : FilePath
      dest = path_in (dest_dir m state) m

      go :
          (fails : Bool) (r : Try (Unit {0}) × Files)
          → ClearedTo m dest (state_dirs m) (write dest (new_file m) files) r
          → Moved m files (moved_to dest (if fails then (err os_error, files) else r))
      go true r h = inl refl
      go false (ok _, files') h =
          (state, named, refl, λ p. ap (λ f. f p) h ∙ cleared-write m dest files p, latest)
      go false (err e, files') (failed, at) =
          inr (failed, (state, named, half_moved m dest files files' at))

  -- A transition that raises changes no file, or raises an OSError with the payload at the path of
  -- its state, and then any other path is unchanged or is one of the file in another state, removed.
  -- One that returns has written the payload to the path of its state, removed the file from the
  -- other states and changed no other path; and no other state of the file had changed after the
  -- source.
  pub transition-Moved : Moved m files (transition sha256 m files)
  unfolding transition prepare
  transition-Moved = go (prepare sha256 m files) refl
    where
      go : (r : Try AuthState) → prepare sha256 m files ≡ r → Moved m files (move_on m files r)
      go (err e) h = inl refl
      go (ok state) h =
          let (found, named, rest) =
            bind-ok (state_named m.target)
              (λ st. identity m.payload >>= λ _.
                check_source sha256 files m m.source_path >>= λ _. ok st)
              h in
          let (key, identified, later) =
            bind-ok (identity m.payload)
              (λ _. check_source sha256 files m m.source_path >>= λ _. ok found) rest in
          let (checked, passed, last) =
            bind-ok (check_source sha256 files m m.source_path) (λ _. ok found) later in
          Moved-settle state (subst (λ st. state_named m.target ≡ ok st) (ok-injective last) named)
            (IsLatest-check_source passed)
