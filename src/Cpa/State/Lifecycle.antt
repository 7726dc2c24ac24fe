-- ===== src/Cpa/State/Lifecycle.antt =====
-- The store of auth files as a map from names to a state and a payload, which `transition` of
-- clients/windows/cpa/state.py implements with the directories below one root.
use grok_build_auth.Cpa.State.{
  state_dirs, verified_folder, path_in, dest_dir, path_eq, verified, pending, cooldown,
}
use grok_build_auth.Prelude.{
  err, ◌||◌, ◌∙◌, ap, ◌&&◌, false, ==_iff, true, ok, refl, [], ◌∷◌, if◌then◌else◌, none, some, ◌++◌,
  Bool, text_eq, Option, Text, ◌≡◌,
}
use grok_build_auth.Cpa.State.{
  file_name_of, state_named, transition, FilePath, folder, Move, Stored, Files, AuthState,
}
use grok_build_auth.Json.{obj, Value}
use grok_build_auth.Cpa.Names.{Try}
use grok_build_auth.Cpa.State.Moved.{Moved, transition-Moved, listed, new_file}

abbrev pub Lifecycle : Type 0
Lifecycle = Text → Option (AuthState × Value)

abbrev same_state : AuthState → AuthState → Bool
same_state verified verified = true
same_state pending pending = true
same_state cooldown cooldown = true
same_state _ _ = false

abbrev held_in : AuthState → Option (AuthState × Value) → Option Value
held_in state none = none
held_in state (some (where_it_is, payload)) =
    if same_state state where_it_is then some payload else none

abbrev content_of : Option Stored → Option Value
content_of none = none
content_of (some stored) = stored.content

-- The directories hold the map: a name is in the directory of its state and in no other.
abbrev pub Implements : Text → Files → Lifecycle → Type 0
Implements root files lifecycle =
    (name : Text) (state : AuthState)
    → content_of (files (record { dir = root ++ folder state; name = name }))
      ≡ held_in state (lifecycle name)

abbrev pub set_state : Text → AuthState → Value → Lifecycle → Lifecycle
set_state name state payload lifecycle other =
    if text_eq other name then some (state, payload) else lifecycle other

text_eq_append : (a s t : Text) → text_eq (a ++ s) (a ++ t) ≡ text_eq s t
text_eq_append [] s t = refl
text_eq_append (c ∷ a) s t = rw ((==_iff c c).1 refl) (text_eq_append a s t)

folder-same_state : (s t : AuthState) → text_eq (folder s) (folder t) ≡ same_state s t
folder-same_state verified verified = refl
folder-same_state verified pending = refl
folder-same_state verified cooldown = refl
folder-same_state pending verified = refl
folder-same_state pending pending = refl
folder-same_state pending cooldown = refl
folder-same_state cooldown verified = refl
folder-same_state cooldown pending = refl
folder-same_state cooldown cooldown = refl

-- The directory of a state, and the name in it.
path_eq-states :
    (root name file : Text) (s t : AuthState)
    → path_eq
        (record { dir = root ++ folder s; name = name })
        (record { dir = root ++ folder t; name = file })
      ≡ (same_state s t && text_eq name file)
path_eq-states root name file s t =
    ap (λ b. b && text_eq name file)
      (text_eq_append root (folder s) (folder t) ∙ folder-same_state s t)

held :
    (s state : AuthState) (same named : Bool) (m : Move) (file : Option Stored)
    (old : Option (AuthState × Value))
    → same_state s state ≡ same
    → content_of file ≡ held_in s old
    → content_of (if same && named then some (new_file m) else if named then none else file)
      ≡ held_in s (if named then some (state, obj m.payload) else old)
held s state true true m file old same kept = rw same
held s state true false m file old same kept = kept
held s state false true m file old same kept = rw same
held s state false false m file old same kept = kept

every_state :
    (s : AuthState) (named : Bool)
    → ((same_state s pending && named)
        || ((same_state s cooldown && named) || ((same_state s verified && named) || false)))
      ≡ named
every_state verified true = refl
every_state verified false = refl
every_state pending true = refl
every_state pending false = refl
every_state cooldown true = refl
every_state cooldown false = refl

module _ (m : Move) (default : m.verified_dir ≡ none) where
  verified_folder_default : verified_folder m ≡ m.root ++ folder verified
  verified_folder_default = rw default

  dest_dir_default : (state : AuthState) → dest_dir m state ≡ m.root ++ folder state
  dest_dir_default verified = verified_folder_default
  dest_dir_default pending = refl
  dest_dir_default cooldown = refl

  path_eq-dest :
      (name : Text) (s state : AuthState)
      → path_eq (record { dir = m.root ++ folder s; name = name }) (path_in (dest_dir m state) m)
        ≡ (same_state s state && text_eq name (file_name_of m.now_ms m.payload))
  path_eq-dest name s state =
      ap (λ d. path_eq (record { dir = m.root ++ folder s; name = name }) (path_in d m))
        (dest_dir_default state)
      ∙ path_eq-states m.root name (file_name_of m.now_ms m.payload) s state

  listed_default :
      (name : Text) (s : AuthState)
      → listed m (record { dir = m.root ++ folder s; name = name }) (state_dirs m)
        ≡ text_eq name (file_name_of m.now_ms m.payload)
  listed_default name s =
      (λ i.
        path_eq-dest name s pending i
        || (path_eq-dest name s cooldown i || (path_eq-dest name s verified i || false)))
      ∙ every_state s (text_eq name (file_name_of m.now_ms m.payload))

Moved-ok :
    (m : Move) (files : Files) (x : Try FilePath × Files) (dest : FilePath)
    → Moved m files x
    → x.0 ≡ ok dest
    → (state : AuthState) × (state_named m.target ≡ ok state)
      × ((p : FilePath)
          → x.1 p ≡ (
              if path_eq p (path_in (dest_dir m state) m)
              then some (new_file m)
              else if listed m p (state_dirs m)
              then none
              else files p))
Moved-ok m files (err e, files') dest moved h = cc
Moved-ok m files (ok other, files') dest (state, named, at, written, latest) h = (
  state,
  named,
  λ p.
      written p
      ∙ ap
          (λ d.
            if path_eq p d
            then some (new_file m)
            else if listed m p (state_dirs m)
            then none
            else files p)
          at,
)

module _ (sha256 : Text → Text) (m : Move) (files : Files) (lifecycle : Lifecycle) where
  -- In the directories of one root, a transition that returns sets the state and the payload of its
  -- name in the map and leaves every other name.
  pub transition-Implements :
      m.verified_dir ≡ none
      → Implements m.root files lifecycle
      → (dest : FilePath) → (transition sha256 m files).0 ≡ ok dest
      → (state : AuthState) × (state_named m.target ≡ ok state)
        × Implements m.root
            (transition sha256 m files).1
            (set_state (file_name_of m.now_ms m.payload) state (obj m.payload) lifecycle)
  transition-Implements default implements dest done =
      let (state, named, written) =
        Moved-ok m files (transition sha256 m files) dest (transition-Moved sha256 m files) done in
      (
        state,
        named,
        λ name s.
            ap content_of (written (record { dir = m.root ++ folder s; name = name }))
            ∙ ap
                (λ b. content_of (
                  if b
                  then some (new_file m)
                  else if listed m (record { dir = m.root ++ folder s; name = name }) (state_dirs m)
                  then none
                  else files (record { dir = m.root ++ folder s; name = name })))
                (path_eq-dest m default name s state)
            ∙ ap
                (λ b. content_of (
                  if same_state s state && text_eq name (file_name_of m.now_ms m.payload)
                  then some (new_file m)
                  else if b
                  then none
                  else files (record { dir = m.root ++ folder s; name = name })))
                (listed_default m default name s)
            ∙ held s state (same_state s state) (text_eq name (file_name_of m.now_ms m.payload)) m
                (files (record { dir = m.root ++ folder s; name = name })) (lifecycle name) refl
                (implements name s),
      )
