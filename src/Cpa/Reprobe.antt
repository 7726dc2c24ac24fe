-- ===== src/Cpa/Reprobe.antt =====
-- One path of the batch of clients/windows/cpa_reprobe.py: `process_locked`, with `push_auth_file` of
-- clients/windows/cpa/client.py. The services are a parameter; writing the checkpoint file does not
-- fail, and the pauses between the probes are left out.
pub mod Process
pub mod Counts
pub mod Branches
pub mod Batch
use grok_build_auth.Prelude.{
  [], none, some, ltb, is_empty, err, Option, ◌>>=◌, ◌&&◌, if◌then◌else◌, ok, leb, Text, ℕ, Bool,
}
use grok_build_auth.Cpa.Schema.{Clock}
use grok_build_auth.Cpa.State.{path_eq, as_dict, FilePath, read_json, Files}
use grok_build_auth.Json.{end, str, obj, Value, field, Fields, get}
use grok_build_auth.Cpa.Preprobe.{no_answer, answered, Answer}
use grok_build_auth.Effect.{Effect}
use grok_build_auth.Cpa.Names.{push_error, text_field, Fault, Try}

-- The counters of `new_result`.
pub record Stats : Type 0 where
  pub passed : ℕ
  pub cooldown : ℕ
  pub pending : ℕ
  pub revoked_deleted : ℕ
  pub revoked_preserved : ℕ
  pub verified_skipped : ℕ
  pub errors : ℕ
  pub pushed : ℕ
  pub push_failed : ℕ
  pub push_skipped : ℕ
  pub stale_rejected : ℕ
  pub terminal_skipped : ℕ

abbrev pub new_result : Stats
new_result = record {
  passed = 0;
  cooldown = 0;
  pending = 0;
  revoked_deleted = 0;
  revoked_preserved = 0;
  verified_skipped = 0;
  errors = 0;
  pushed = 0;
  push_failed = 0;
  push_skipped = 0;
  stale_rejected = 0;
  terminal_skipped = 0;
}

pub data NetCall : Type 0 where
  probe_call : Fields → NetCall
  refresh_call : Fields → NetCall
  push_call : Text → Text → Fields → NetCall

-- The services, the files, the checkpoint and the counters of the path.
pub record World (S : Type 0) : Type 0 where
  pub server : S
  pub files : Files
  pub checkpoint : FilePath → Fields
  pub result : Stats

pub record Args : Type 0 where
  pub root : Text
  pub attempts : ℕ
  pub remote_base : Text
  pub remote_secret : Text
  pub require_created : Bool
  pub push_cooldown : Bool

-- What the program takes from its libraries, the clock and the file system.
pub record Env : Type 0 where
  pub clock : Clock
  pub sha256 : Text → Text
  pub dumps : Fields → Text
  pub loads : Text → Option Value
  pub marker : Text
  pub now : ℕ
  pub now_ms : ℕ
  pub write_fails : FilePath → Bool
  pub unlink_fails : FilePath → Bool

abbrev pub Step : Type 0 → Type 0 → Type 0
Step S A = Effect Fault (World S) A

unfoldable pub push_fingerprint : Env → Fields → Text
push_fingerprint env payload = env.sha256 (
    env.dumps (
      field "access_token" (str (text_field "access_token" payload)) (
        field "refresh_token" (str (text_field "refresh_token" payload))
          (field "sub" (str (text_field "sub" payload)) end))))

-- `json.loads(body or "{}")`, if it is a dict.
abbrev answer_dict : Env → Text → Option Fields
answer_dict env body =
    if is_empty body then some end else elim (env.loads body) [ none ↦ none | some v ↦ dict_of v ]
  where
    dict_of : Value → Option Fields
    dict_of (obj d) = some d
    dict_of _ = none

unfoldable pub push_error_code : Env → Text → Text
unfolding get
push_error_code env body = elim (answer_dict env body) [
  | none ↦ []
  | some d ↦ text_field "error_code" d
]

unfoldable pub bridge_metadata : Env → Text → Fields
unfolding get
bridge_metadata env body = elim (answer_dict env body) [
  | none ↦ end
  | some d ↦
      field "action" (get "action" d)
        (field "account_id" (get "account_id" d) (field "probe" (get "probe" d) end))
]

abbrev is_ok_status : ℕ → Bool
is_ok_status status = leb 200 status && ltb status 300

unfoldable pub read_push : Answer → Try (Bool × ℕ × Text)
read_push no_answer = err push_error
read_push (answered status text json) = ok (is_ok_status status, status, text)

module _ {S : Type 0} where
  unfoldable pub count : (Stats → Stats) → Step S (Unit {0})
  count f w = (ok tt, record w { result = f w.result })

  unfoldable pub save : FilePath → Fields → Step S (Unit {0})
  save path record_of w =
      (ok tt, record w { checkpoint = λ p. if path_eq p path then record_of else w.checkpoint p })

  -- A step on the files alone.
  unfoldable pub on_files : {A : Type 0} → Effect Fault Files A → Step S A
  on_files m w = let (r, files') = m w.files in (r, record w { files = files' })

  unfoldable pub old_record : FilePath → Step S Fields
  old_record path w = (ok (w.checkpoint path), w)

  unfoldable pub read_path : FilePath → Step S Fields
  unfolding read_json
  read_path path w = (read_json (w.files path) >>= as_dict, w)

  module _ (serve : NetCall → S → Answer × S) where
    unfoldable pub ask : {A : Type 0} → NetCall → (Answer → Try A) → Step S A
    ask c read w =
        let (answer, server') = serve c w.server in (read answer, record w { server = server' })
