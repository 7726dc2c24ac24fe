-- ===== src/Cpa/Names.antt =====
-- The names that clients/windows/cpa gives to auth files: `_sanitize_file_segment` and
-- `credential_file_name` of schema.py, `identity` and `fingerprint` of state.py. The clock and the
-- hash are parameters.
pub mod Safe
use grok_build_auth.Prelude.{
  ok, map, err, contains, ◌||◌, [], ◌==◌, is_empty, ◌&&◌, show_nat, strip, if◌then◌else◌, ◌∷◌, leb,
  ◌++◌, Result, lower, Text, codes, ℕ, Bool, not,
}
use grok_build_auth.Json.{or_value, text_or_empty, get, Fields}
use Prim.Native.String.{String}

-- The exceptions of the store.
pub data Fault : Type 0 where
  value_error attribute_error type_error os_error source_changed newer_exists push_error
        invariant_failed :
      Fault

abbrev pub Try : Type 0 → Type 0
Try A = Result Fault A

abbrev pub is_kept : ℕ → Bool
is_kept c =
    (leb b'a' c && leb c b'z')
    || (leb b'A' c && leb c b'Z')
    || (leb b'0' c && leb c b'9')
    || contains c (codes "@._-")

abbrev pub kept_or_dash : ℕ → ℕ
kept_or_dash c = if is_kept c then c else b'-'

-- `s.strip("-")`
abbrev pub lstrip_dash : Text → Text
lstrip_dash [] = []
lstrip_dash (c ∷ s) = if c == b'-' then lstrip_dash s else c ∷ s

abbrev pub rstrip_dash : Text → Text
rstrip_dash [] = []
rstrip_dash (c ∷ s) =
    let rest = rstrip_dash s in if c == b'-' && is_empty rest then [] else c ∷ rest

unfoldable pub sanitize_file_segment : Text → Text
unfolding strip
sanitize_file_segment value =
    if is_empty (strip value)
    then []
    else rstrip_dash (lstrip_dash (map kept_or_dash (strip value)))

abbrev pub file_name : Text → Text
file_name segment = codes "xai-" ++ segment ++ codes ".json"

-- The name for an address or a subject, or else for a time in milliseconds.
unfoldable pub credential_file_name : ℕ → Text → Text → Text
unfolding sanitize_file_segment show_nat
credential_file_name now email sub =
    if not (is_empty (sanitize_file_segment email))
    then file_name (sanitize_file_segment email)
    else if not (is_empty (sanitize_file_segment sub))
    then file_name (sanitize_file_segment sub)
    else file_name (show_nat now)

-- `str(payload.get("email") or payload.get("sub") or "").strip().lower()`
unfoldable pub identity : Fields → Try Text
unfolding lower strip get
identity payload =
    let value =
      lower (strip (text_or_empty (or_value (get "email" payload) (get "sub" payload)))) in
    if is_empty value then err value_error else ok value

abbrev pub text_field : String → Fields → Text
text_field key payload = text_or_empty (get key payload)

unfoldable pub fingerprint : (Text → Text) → Fields → Text
fingerprint sha256 payload = sha256 (text_field "refresh_token" payload)
