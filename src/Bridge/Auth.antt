-- ===== src/Bridge/Auth.antt =====
-- The decisions on credentials of bridge/bridge.py: `token_times`, `auth_subject`, `auth_is_stale`,
-- `validate_auth_data` and what they call. How a segment of a token is decoded, by base64 and JSON,
-- is the parameter `decode_segment`; `none` is an exception.
use grok_build_auth.Prelude.{
  split_char, split_once, contains, replicate, int_eq, ltb_ℤ, text_eq, is_empty, strip, lower, ℤ,
  pos, negsuc, Text, codes, ℕ, ◌+◌, ◌-◌, ◌%◌, Bool, true, false, not, ◌&&◌, ◌||◌, Option, none,
  some, List, [], ◌∷◌, ◌++◌, ltb, leb, if◌then◌else◌, length, ok, err, ◌>>=◌, Result,
}
use grok_build_auth.Json.{
  Value, Fields, obj, end, field, get, truthy, text_or_empty, or_value, int_or_0,
}
use Prim.Native.String.{String}

-- The exceptions, as far as a caller can tell them apart.
pub data Exc : Type 0 where
  value_error type_error attribute_error key_error runtime_error api_error : Exc

abbrev pub Try : Type 0 → Type 0
Try A = Result Exc A

abbrev pub dict_of : Value → Option Fields
dict_of (obj d) = some d
dict_of _ = none

abbrev pub is_end : Fields → Bool
is_end end = true
is_end (field _ _ _) = false

-- `snapshot.get("credentials") or {}`, of which only a dict has `get`.
abbrev pub credentials_of : Fields → Try Fields
credentials_of snapshot =
    if truthy (get "credentials" snapshot)
    then elim (dict_of (get "credentials" snapshot)) [ none ↦ err attribute_error | some d ↦ ok d ]
    else ok end

-- `str(d.get(key) or "")`
abbrev pub text_field : String → Fields → Text
text_field key d = text_or_empty (get key d)

-- The padding to a multiple of four.
unfoldable pub pad_segment : Text → Text
pad_segment part = part ++ replicate ((4 - length part % 4) % 4) b'='

abbrev pub is_in_range : ℕ → ℕ → ℕ → Bool
is_in_range lo hi c = leb lo c && leb c hi

-- `[a-z0-9]`
abbrev pub is_lower_or_digit : ℕ → Bool
is_lower_or_digit c = is_in_range b'a' b'z' c || is_in_range b'0' b'9' c

abbrev pub all_of : (ℕ → Bool) → Text → Bool
all_of p [] = true
all_of p (c ∷ s) = p c && all_of p s

-- `[a-z0-9][a-z0-9._+-]{0,63}`
unfoldable pub is_local_part : Text → Bool
is_local_part [] = false
is_local_part (c ∷ s) =
    is_lower_or_digit c
    && leb (length s) 63
    && all_of (λ d. is_lower_or_digit d || contains d (codes "._+-")) s

-- `[a-z0-9.-]+`
unfoldable pub is_domain : Text → Bool
is_domain s = not (is_empty s) && all_of (λ d. is_lower_or_digit d || contains d (codes ".-")) s

-- The full match of an address: neither part can hold an `@`.
unfoldable pub is_address : Text → Bool
unfolding split_once is_local_part is_domain
is_address s = elim (split_once b'@' s) [
  | none ↦ false
  | some (local, domain) ↦ is_local_part local && is_domain domain
]

abbrev pub is_nonzero : ℤ → Bool
is_nonzero n = not (int_eq n (pos 0))

module _ (decode_segment : Text → Option Value) where
  segment_of : List Text → Option Value
  unfolding pad_segment
  segment_of (header ∷ payload ∷ signature ∷ []) = decode_segment (pad_segment payload)
  segment_of _ = none

  unfoldable pub decode_jwt_payload : Text → Option Value
  unfolding split_char segment_of
  decode_jwt_payload token = segment_of (split_char b'.' token)

  -- `claims = decode_jwt_payload(...)` and the `get` of a dict after it.
  unfoldable pub claims_of : Fields → Option Fields
  claims_of credentials = elim (decode_jwt_payload (text_field "access_token" credentials)) [
    | none ↦ none
    | some claims ↦ dict_of claims
  ]

  abbrev both : Option ℤ → Option ℤ → ℤ × ℤ
  both (some iat) (some exp) = (iat, exp)
  both _ _ = (pos 0, pos 0)

  unfoldable pub token_times : Fields → ℤ × ℤ
  token_times credentials = elim (claims_of credentials) [
    | none ↦ (pos 0, pos 0)
    | some claims ↦ both (int_or_0 (get "iat" claims)) (int_or_0 (get "exp" claims))
  ]

  unfoldable pub auth_subject : Fields → Text
  auth_subject credentials = elim (claims_of credentials) [
    | none ↦ strip (text_field "sub" credentials)
    | some claims ↦ strip (text_or_empty (or_value (get "sub" claims) (get "principal_id" claims)))
  ]

  abbrev differ : Text → Text → Bool
  differ current_sub candidate_sub =
      not (is_empty current_sub)
      && not (is_empty candidate_sub)
      && not (text_eq current_sub candidate_sub)

  unfoldable pub auth_subject_mismatch : Option Fields → Fields → Try Bool
  auth_subject_mismatch none auth_data = ok false
  auth_subject_mismatch (some snapshot) auth_data = do
    current ← credentials_of snapshot
    ok (differ (auth_subject current) (auth_subject auth_data))

  -- The tests of `auth_is_stale` on the credentials that are there.
  unfoldable pub is_stale : Fields → Fields → Bool
  is_stale current candidate =
      let current_refresh = text_field "refresh_token" current in
      let candidate_refresh = text_field "refresh_token" candidate in
      let current_access = text_field "access_token" current in
      let current_iat = (token_times current).0 in
      let candidate_iat = (token_times candidate).0 in
      if is_empty current_refresh
        || is_empty candidate_refresh
        || text_eq current_refresh candidate_refresh
      then false
      else if not (is_empty current_access)
          && text_eq current_access (text_field "access_token" candidate)
      then true
      else is_nonzero current_iat
        && is_nonzero candidate_iat
        && not (ltb_ℤ current_iat candidate_iat)

  unfoldable pub auth_is_stale : Option Fields → Fields → Try Bool
  auth_is_stale none auth_data = ok false
  auth_is_stale (some snapshot) auth_data = do
    current ← credentials_of snapshot
    ok (is_stale current auth_data)

  unfoldable pub credentials_advanced_after_candidate : Fields → Fields → Bool
  credentials_advanced_after_candidate current candidate =
      let current_iat = (token_times current).0 in
      let candidate_iat = (token_times candidate).0 in
      if is_end current || is_end candidate
      then false
      else if text_eq (text_field "refresh_token" current) (text_field "refresh_token" candidate)
      then false
      else if is_nonzero current_iat && is_nonzero candidate_iat
      then ltb_ℤ candidate_iat current_iat
      else truthy (get "_token_version" current)

  -- The claims of an access token that is not expired at `now`, with its subject.
  abbrev usable_claims : ℤ → Fields → Bool
  usable_claims now claims = elim (int_or_0 (get "exp" claims)) [
    | none ↦ false
    | some exp ↦ ltb_ℤ (plus_60 now) exp && not (is_empty (strip (text_field "sub" claims)))
  ]
    where
      plus_60 : ℤ → ℤ
      plus_60 (pos n) = pos (n + 60)
      plus_60 (negsuc n) = if leb n 59 then pos (59 - n) else negsuc (n - 60)

  abbrev email_of : Fields → Text
  email_of auth_data = lower (strip (text_field "email" auth_data))

  unfoldable pub is_valid_auth : ℤ → Fields → Bool
  is_valid_auth now auth_data =
      let access_token = strip (text_field "access_token" auth_data) in
      let refresh_token = strip (text_field "refresh_token" auth_data) in
      is_address (email_of auth_data)
      && not (ltb (length access_token) 100 || ltb (length refresh_token) 20)
      && elim (decode_jwt_payload access_token) [
        | none ↦ false
        | some claims ↦ elim (dict_of claims) [ none ↦ false | some c ↦ usable_claims now c ]
      ]

  -- The address, or the exception that is answered with 400.
  unfoldable pub validate_auth_data : ℤ → Value → Try Text
  validate_auth_data now (obj auth_data) =
      if is_valid_auth now auth_data then ok (email_of auth_data) else err value_error
  validate_auth_data now _ = err attribute_error
