-- ===== src/Cpa/Refresh.antt =====
-- The refresh of an auth file in clients/windows/cpa/preprobe.py: `try_refresh_access_token`,
-- `_refresh_with_requests` and `_rebuild_refreshed_auth`. The HTTP exchange is outside the program.
use grok_build_auth.Prelude.{
  take, strip, lower, ◌==◌, err, some, ◌>>=◌, ok, none, ℤ, is_empty, ◌||◌, if◌then◌else◌, has_infix,
  Option, Text, codes,
}
use grok_build_auth.Json.{
  null, or_value, text_or_empty, obj, to_int, show_text, get, truthy, Fields, Value,
}
use grok_build_auth.Cpa.Schema.{Clock, build_cpa_xai_auth}
use grok_build_auth.Cpa.Preprobe.{no_answer, answered, Answer}
use grok_build_auth.Cpa.Names.{attribute_error, value_error, text_field, Try}

pub data RefreshCode : Type 0 where
  malformed probe_network_error token_invalid refresh_failed invalid_response : RefreshCode

pub data Refreshed : Type 0 where
  refreshed : Fields → Refreshed
  not_refreshed : RefreshCode → Refreshed

abbrev refusal_code : Text → RefreshCode
refusal_code low =
    if has_infix (codes "revok") low || has_infix (codes "invalid_grant") low
    then token_invalid
    else refresh_failed

abbrev text_or : Text → Value → Text
text_or default v = if truthy v then show_text v else default

abbrev non_empty : Text → Option Text
non_empty text = if is_empty text then none else some text

-- `int(token["expires_in"]) if token.get("expires_in") is not None else None`
abbrev seconds_of : Value → Try (Option ℤ)
seconds_of null = ok none
seconds_of v = elim (to_int v) [ none ↦ err value_error | some n ↦ ok (some n) ]

unfoldable pub rebuild_refreshed_auth : Clock → Fields → Fields → Try Fields
unfolding build_cpa_xai_auth get
rebuild_refreshed_auth clock auth token = do
  expires_in ← seconds_of (get "expires_in" token)
  build_cpa_xai_auth clock (record {
    email = text_field "email" auth;
    access_token = show_text (get "access_token" token);
    refresh_token = text_or_empty (or_value (get "refresh_token" token) (get "refresh_token" auth));
    id_token = non_empty (text_or_empty (or_value (get "id_token" token) (get "id_token" auth)));
    expires_in = expires_in;
    base_url = text_field "base_url" auth;
    token_endpoint = text_or (codes "https://auth.x.ai/oauth2/token") (get "token_endpoint" auth);
    redirect_uri = text_or (codes "http://127.0.0.1:56121/callback") (get "redirect_uri" auth);
  })

-- The answer of status 200.
unfoldable pub read_token : Clock → Fields → Option Value → Try Refreshed
unfolding rebuild_refreshed_auth
read_token clock auth none = ok (not_refreshed invalid_response)
read_token clock auth (some (obj token)) =
    if is_empty (strip (text_field "access_token" token))
    then ok (not_refreshed token_invalid)
    else (rebuild_refreshed_auth clock auth token >>= λ new_auth. ok (refreshed new_auth))
read_token clock auth (some _) = err attribute_error

unfoldable pub read_refresh : Clock → Fields → Answer → Try Refreshed
unfolding has_infix
read_refresh clock auth no_answer = ok (not_refreshed probe_network_error)
read_refresh clock auth (answered status text json) =
    if status == 200
    then read_token clock auth json
    else ok (not_refreshed (refusal_code (lower (take 4000 text))))
