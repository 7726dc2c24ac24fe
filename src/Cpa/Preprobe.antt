-- ===== src/Cpa/Preprobe.antt =====
-- The probe of an auth file in clients/windows/cpa/preprobe.py: `probe_auth` and
-- `_assistant_output_texts`. The HTTP exchange is outside the program; its answer is an argument.
use grok_build_auth.Prelude.{
  ◌>>=◌, take, none, err, some, text_eq, lower, [], ◌++◌, ◌&&◌, ok, ◌||◌, ◌∷◌, strip, ◌==◌,
  is_empty, List, if◌then◌else◌, Option, has_infix, Text, codes, ℕ, Bool, true, false,
}
use grok_build_auth.Cpa.Names.{type_error, attribute_error, text_field, Try}
use grok_build_auth.Json.{
  field_equals, item, nil, show_text, arr, Items, str, obj, truthy, get, value_eq, Value, Fields,
}

pub data Decision : Type 0 where
  pass reject retry cool_down refresh : Decision

pub data ProbeCode : Type 0 where
  probe_passed malformed_auth probe_network_error invalid_response incomplete_response : ProbeCode
  rate_limited token_invalid permission_denied upstream_error : ProbeCode

pub record ProbeResult : Type 0 where
  pub decision : Decision
  pub code : ProbeCode
  pub status : ℕ

-- An answer with its status, its text and the text as JSON, if it is that; or no answer.
pub data Answer : Type 0 where
  answered : ℕ → Text → Option Value → Answer
  no_answer : Answer

abbrev pub result_of : Decision → ProbeCode → ℕ → ProbeResult
result_of decision code status = record { decision = decision; code = code; status = status }

unfoldable pub is_rate_limited : ℕ → Text → Bool
unfolding has_infix
is_rate_limited status low =
    status == 402
    || status == 429
    || has_infix (codes "free-usage") low
    || has_infix (codes "resource_exhausted") low
    || has_infix (codes "quota") low
    || has_infix (codes "spending-limit") low

unfoldable pub is_token_invalid : ℕ → Text → Bool
unfolding has_infix
is_token_invalid status low =
    status == 401
    || has_infix (codes "invalid_grant") low
    || has_infix (codes "revok") low
    || has_infix (codes "invalid credentials") low

unfoldable pub is_denied : Text → Bool
unfolding has_infix
is_denied low =
    has_infix (codes "permission-denied") low
    || has_infix (codes "access to the chat endpoint is denied") low

-- An answer of a status other than 200.
unfoldable pub classify : ℕ → Text → ProbeResult
classify status low =
    if is_rate_limited status low
    then result_of cool_down rate_limited status
    else if is_token_invalid status low
    then result_of refresh token_invalid status
    else if is_denied low
    then result_of retry permission_denied status
    else result_of retry upstream_error status

abbrev text_in : Value → List Text
text_in (str s) = s ∷ []
text_in _ = []

-- `for item in v or []`: the parts of a text or a dict are texts, which the loops pass over; a number
-- is not iterated.
abbrev items_in : Value → Try Items
items_in v = if truthy v then iterated v else ok nil
  where
    iterated : Value → Try Items
    iterated (arr xs) = ok xs
    iterated (str s) = ok nil
    iterated (obj d) = ok nil
    iterated _ = err type_error

abbrev content_texts_of : Value → List Text
content_texts_of (obj d) =
    if field_equals "type" (codes "output_text") d then text_in (get "text" d) else []
content_texts_of _ = []

unfoldable pub texts_of_contents : Items → List Text
unfolding value_eq get
texts_of_contents nil = []
texts_of_contents (item v xs) = content_texts_of v ++ texts_of_contents xs

-- `str(item.get("role") or "assistant") == "assistant"`
abbrev is_assistant : Fields → Bool
is_assistant d =
    if truthy (get "role" d) then text_eq (show_text (get "role" d)) (codes "assistant") else true

abbrev message_texts_of : Value → Try (List Text)
message_texts_of (obj d) =
    if field_equals "type" (codes "message") d && is_assistant d
    then (items_in (get "content" d) >>= λ contents. ok (texts_of_contents contents))
    else ok []
message_texts_of _ = ok []

unfoldable pub texts_of_items : Items → Try (List Text)
unfolding texts_of_contents value_eq get truthy
texts_of_items nil = ok []
texts_of_items (item v xs) = do
  texts ← message_texts_of v
  rest ← texts_of_items xs
  ok (texts ++ rest)

unfoldable pub assistant_output_texts : Value → Try (List Text)
unfolding texts_of_items get truthy
assistant_output_texts (obj d) = do
  items ← items_in (get "output" d)
  texts ← texts_of_items items
  ok (text_in (get "output_text" d) ++ texts)
assistant_output_texts _ = ok []

abbrev any_is : Text → List Text → Bool
any_is marker [] = false
any_is marker (text ∷ texts) = text_eq (strip text) marker || any_is marker texts

unfoldable pub is_completed : Fields → Text → Try Bool
unfolding assistant_output_texts value_eq get strip
is_completed d marker = do
  texts ← assistant_output_texts (obj d)
  ok (field_equals "status" (codes "completed") d && any_is marker texts)

abbrev completion_of : Bool → ProbeResult
completion_of true = result_of pass probe_passed 200
completion_of false = result_of retry incomplete_response 200

-- An answer of status 200; what is no dict has no `get`.
unfoldable pub read_completion : Text → Option Value → Try ProbeResult
read_completion marker none = ok (result_of retry invalid_response 200)
read_completion marker (some (obj d)) = do
  completed ← is_completed d marker
  ok (completion_of completed)
read_completion marker (some _) = err attribute_error

unfoldable pub read_answer : Text → Answer → Try ProbeResult
read_answer marker no_answer = ok (result_of retry probe_network_error 0)
read_answer marker (answered status text json) =
    if status == 200
    then read_completion marker json
    else ok (classify status (lower (take 1048576 text)))

unfoldable pub is_malformed : Fields → Bool
is_malformed auth =
    is_empty (strip (text_field "access_token" auth))
    || is_empty (strip (text_field "refresh_token" auth))
