-- ===== src/Bridge/Probe.antt =====
-- What bridge/bridge.py makes of the answers to its probes: `classify_probe_payload`,
-- `extract_assistant_text`, `account_test_result`. `json.loads` is the parameter `loads`, of which
-- `none` is a JSONDecodeError.
use grok_build_auth.Prelude.{
  starts_with, has_infix, text_eq, is_empty, strip, lower, Text, codes, ℕ, Bool, true, false, ◌&&◌,
  ◌||◌, Option, none, some, List, [], ◌∷◌, ◌++◌, leb, ◌==◌, if◌then◌else◌, drop, ok, err, ◌>>=◌,
}
use grok_build_auth.Json.{
  field_equals, Value, Fields, Items, obj, arr, str, bool, item, nil, get, value_eq, truthy,
}
use grok_build_auth.Bridge.Auth.{dict_of, type_error, Try}

pub data Category : Type 0 where
  passed invalid_response rate_limited permission_denied token_bad forbidden : Category
  network_error upstream_error : Category

pub data Code : Type 0 where
  no_code invalid_probe_response rate_limited_code permission_denied_code token_invalid : Code
  upstream_forbidden probe_network_error upstream_error_code : Code

pub record Probe : Type 0 where
  pub is_ok : Bool
  pub category : Category
  pub error_code : Code
  pub http_status : ℕ

-- The words that tell that the free usage is used up.
unfoldable pub says_limited : Text → Bool
unfolding has_infix
says_limited low =
    has_infix (codes "free-usage") low
    || has_infix (codes "resource_exhausted") low
    || has_infix (codes "quota") low
    || has_infix (codes "spending-limit") low
    || has_infix (codes "run out of credit") low

unfoldable pub says_denied : Text → Bool
unfolding has_infix
says_denied low =
    has_infix (codes "permission-denied") low
    || has_infix (codes "access to the chat endpoint is denied") low

unfoldable pub says_revoked : Text → Bool
unfolding has_infix
says_revoked low = has_infix (codes "invalid_grant") low || has_infix (codes "revok") low

unfoldable pub classify_probe_payload : ℕ → Text → Category × Code
classify_probe_payload status_code body_text =
    let low = lower body_text in
    if status_code == 429 || status_code == 402 || says_limited low
    then (rate_limited, rate_limited_code)
    else if says_denied low
    then (permission_denied, permission_denied_code)
    else if status_code == 401 || says_revoked low
    then (token_bad, token_invalid)
    else if status_code == 403
    then (forbidden, upstream_forbidden)
    else if status_code == 0
    then (network_error, probe_network_error)
    else (upstream_error, upstream_error_code)

-- `v or []` as a loop goes over it: the parts of a text or a dict are texts, which the loops pass
-- over; a number is not iterated.
abbrev items_of : Value → Try Items
items_of v = if truthy v then iterated v else ok nil
  where
    iterated : Value → Try Items
    iterated (arr xs) = ok xs
    iterated (str s) = ok nil
    iterated (obj d) = ok nil
    iterated _ = err type_error

-- The text of a content of type `output_text`.
abbrev content_text : Value → Text
content_text (obj d) =
    if field_equals "type" (codes "output_text") d then text_of (get "text" d) else []
  where
    text_of : Value → Text
    text_of (str s) = s
    text_of _ = []
content_text _ = []

unfoldable pub content_texts : Items → Text
unfolding value_eq get
content_texts nil = []
content_texts (item v xs) = content_text v ++ content_texts xs

abbrev message_text : Value → Try Text
message_text (obj d) =
    if field_equals "type" (codes "message") d && field_equals "role" (codes "assistant") d
    then (items_of (get "content" d) >>= λ contents. ok (content_texts contents))
    else ok []
message_text _ = ok []

unfoldable pub message_texts : Items → Try Text
unfolding content_texts value_eq get truthy
message_texts nil = ok []
message_texts (item v xs) = do text ← message_text v; rest ← message_texts xs; ok (text ++ rest)

-- The texts of the answer, joined.
unfoldable pub extract_assistant_text : Value → Try Text
unfolding message_texts get truthy
extract_assistant_text (obj d) = direct (get "output_text" d) d
  where
    direct : Value → Fields → Try Text
    direct (str s) d = ok s
    direct _ d = items_of (get "output" d) >>= message_texts
extract_assistant_text _ = ok []

abbrev is_line_break : ℕ → Bool
is_line_break c =
    (leb 10 c && leb c 13) || (leb 28 c && leb c 30) || c == 0x85 || c == 0x2028 || c == 0x2029

abbrev onto_line : ℕ → List Text → List Text
onto_line c [] = (c ∷ []) ∷ []
onto_line c (line ∷ lines) = (c ∷ line) ∷ lines

-- `text.splitlines()`
unfoldable pub splitlines : Text → List Text
splitlines [] = []
splitlines (c ∷ []) = (if is_line_break c then [] else c ∷ []) ∷ []
splitlines (c ∷ d ∷ s) = elim (c == 13 && d == 10) [
  | true ↦ [] ∷ splitlines s
  | false ↦ let rest = splitlines (d ∷ s) in if is_line_break c then [] ∷ rest else onto_line c rest
]

abbrev is_success : Value → Bool
is_success (bool true) = true
is_success _ = false

-- `result.get("success") is True` of a dict
abbrev dict_success : Option Fields → Bool
dict_success none = false
dict_success (some d) = is_success (get "success" d)

pub data TestResult : Type 0 where
  usable usable_exhausted failed : TestResult

module _ (loads : Text → Option Value) where
  -- The event of a line that is not the end of the stream.
  abbrev line_event : Text → Option Fields
  line_event line = if starts_with (codes "data:") line then event (strip (drop 5 line)) else none
    where
      event : Text → Option Fields
      event line =
          if is_empty line || text_eq line (codes "[DONE]")
          then none
          else elim (loads line) [ none ↦ none | some v ↦ dict_of v ]

  abbrev is_complete : Option Fields → Bool
  is_complete none = false
  is_complete (some d) =
      field_equals "type" (codes "test_complete") d && is_success (get "success" d)

  unfoldable pub any_complete : List Text → Bool
  unfolding strip value_eq get
  any_complete [] = false
  any_complete (line ∷ lines) = is_complete (line_event line) || any_complete lines

  abbrev result_success : Value → Bool
  result_success (obj d) = is_success (get "success" d) || dict_success (dict_of (get "data" d))
  result_success _ = false

  unfoldable pub account_test_succeeded : Text → Bool
  unfolding any_complete splitlines get
  account_test_succeeded text = elim (loads text) [
    | none ↦ any_complete (splitlines text)
    | some result ↦ result_success result
  ]

  unfoldable pub says_exhausted : Text → Bool
  unfolding has_infix
  says_exhausted low =
      has_infix (codes "free-usage") low
      || has_infix (codes "rolling 24") low
      || has_infix (codes "resource_exhausted") low
      || has_infix (codes "spending-limit") low
      || has_infix (codes "run out of credit") low
      || has_infix (codes "quota exhausted") low

  unfoldable pub account_test_result : Text → TestResult
  unfolding account_test_succeeded says_exhausted lower
  account_test_result text =
      if account_test_succeeded text
      then usable
      else if says_exhausted (lower text)
      then usable_exhausted
      else failed
