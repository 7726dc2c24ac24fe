-- ===== src/Cpa/Schema.antt =====
-- `build_cpa_xai_auth` and `expired_from_access_token` of clients/windows/cpa/schema.py. The decoding
-- of a token's segment, the format of a time and the text of the current time are parameters; a time
-- out of range has no text.
use grok_build_auth.Prelude.{
  none, ◌%◌, ◌&&◌, length, some, ◌>>=◌, [], ◌-ℤ◌, is_empty, negsuc, ◌==◌, int_eq, ◌-◌, pos,
  if◌then◌else◌, ◌||◌, err, ok, replicate, ◌++◌, split_char, Option, List, ◌∷◌, has_suffix, strip,
  ℤ, Text, codes, Bool, not,
}
use grok_build_auth.Json.{
  or_value, int, text_or_empty, null, str, to_int, get, obj, end, field, Fields, find, Value,
}
use grok_build_auth.Cpa.Names.{attribute_error, value_error, os_error, Try}

pub record Clock : Type 0 where
  pub decode_segment : Text → Option Value
  pub rfc3339 : ℤ → Option Text
  pub now_text : Text

-- The keyword arguments that the program gives.
pub record Tokens : Type 0 where
  pub email : Text
  pub access_token : Text
  pub refresh_token : Text
  pub id_token : Option Text
  pub expires_in : Option ℤ
  pub base_url : Text
  pub token_endpoint : Text
  pub redirect_uri : Text

-- `exp` and `iat` of the claims.
abbrev int_or_fault : Option ℤ → Try ℤ
int_or_fault none = err value_error
int_or_fault (some n) = ok n

abbrev exp_of : Option Value → Try ℤ
exp_of none = err os_error
exp_of (some v) = int_or_fault (to_int v)

abbrev iat_of : Value → ℤ → Try ℤ
iat_of null exp = ok (exp -ℤ pos 21600)
iat_of v exp = int_or_fault (to_int v)

abbrev max_0 : ℤ → ℤ
max_0 (pos n) = pos n
max_0 (negsuc n) = pos 0

-- `s.rstrip("/")`
abbrev pub rstrip_slash : Text → Text
rstrip_slash [] = []
rstrip_slash (c ∷ s) =
    let rest = rstrip_slash s in if c == b'/' && is_empty rest then [] else c ∷ rest

-- `re.search(r"/v1$", url)`, whose `$` also stands before a line feed at the end.
abbrev pub ends_in_v1 : Text → Bool
ends_in_v1 url = has_suffix (codes "/v1") url || has_suffix (codes "/v1" ++ 10 ∷ []) url

abbrev pub cli_base_url : Text
cli_base_url = codes "https://cli-chat-proxy.grok.com/v1"

unfoldable pub normalised_base_url : Text → Text
unfolding has_suffix
normalised_base_url base_url =
    let base = rstrip_slash (if is_empty base_url then cli_base_url else base_url) in
    if not (ends_in_v1 base) && has_suffix (codes "cli-chat-proxy.grok.com") base
    then base ++ codes "/v1"
    else base

module _ (clock : Clock) where
  abbrev pad : Text → Text
  pad part = part ++ replicate ((4 - length part % 4) % 4) b'='

  abbrev payload_of : List Text → Try Value
  payload_of (header ∷ payload ∷ rest) = elim (clock.decode_segment (pad payload)) [
    | none ↦ err value_error
    | some v ↦ ok v
  ]
  payload_of _ = err value_error

  abbrev dict_or_fault : Value → Try Fields
  dict_or_fault (obj d) = ok d
  dict_or_fault _ = err attribute_error

  abbrev time_text : Option Text → Try Text
  time_text none = err value_error
  time_text (some text) = ok text

  unfoldable pub expired_from_access_token : Text → Try (Text × ℤ × Text)
  unfolding split_char find get ◌-ℤ◌ strip
  expired_from_access_token access_token = do
    v ← payload_of (split_char b'.' access_token)
    pl ← dict_or_fault v
    exp ← exp_of (find "exp" pl)
    iat ← iat_of (get "iat" pl) exp
    expired ← time_text (clock.rfc3339 exp)
    ok (
      expired,
      max_0 (exp -ℤ iat),
      strip (text_or_empty (or_value (get "sub" pl) (get "principal_id" pl))),
    )

  abbrev or_unknown : Try (Text × ℤ × Text) → Text × ℤ × Text
  or_unknown (err e) = ([], pos 21600, [])
  or_unknown (ok times) = times

  abbrev with_id_token : Option Text → Fields
  with_id_token none = end
  with_id_token (some id_token) =
      if is_empty id_token then end else field "id_token" (str (strip id_token)) end

  abbrev seconds_or : Option ℤ → ℤ → ℤ
  seconds_or none exp_in = if int_eq exp_in (pos 0) then pos 21600 else exp_in
  seconds_or (some n) exp_in = n

  unfoldable pub token_storage : Tokens → Text × ℤ × Text → Fields
  unfolding normalised_base_url strip
  token_storage t (expired, exp_in, sub) = field "type" (str (codes "xai")) (
      field "auth_kind" (str (codes "oauth")) (
        field "access_token" (str (strip t.access_token)) (
          field "refresh_token" (str (strip t.refresh_token)) (
            field "token_type" (str (codes "Bearer")) (
              field "expires_in" (int (seconds_or t.expires_in exp_in)) (
                field "expired" (str expired) (
                  field "last_refresh" (str clock.now_text) (
                    field "email" (str (strip t.email)) (
                      field "sub" (str (strip sub)) (
                        field "base_url" (str (normalised_base_url t.base_url)) (
                          field "token_endpoint" (str t.token_endpoint) (
                            field "redirect_uri" (str t.redirect_uri)
                              (with_id_token t.id_token)))))))))))))

  unfoldable pub build_cpa_xai_auth : Tokens → Try Fields
  unfolding expired_from_access_token token_storage
  build_cpa_xai_auth t =
      if is_empty (strip t.access_token)
      then err value_error
      else if is_empty (strip t.refresh_token)
      then err value_error
      else ok (token_storage t (or_unknown (expired_from_access_token (strip t.access_token))))
