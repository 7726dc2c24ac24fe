-- ===== src/Egress/Client.antt =====
-- `AdminClient` of bind_quota_egress.py. The Admin API is not part of the program: how it answers a
-- request and what it does is the parameter `serve`.
pub mod Paths
use grok_build_auth.Prelude.{
  starts_with, has_infix, has_suffix, lower, show_int, ℤ, pos, Text, codes, ℕ, ◌+◌, ◌-◌, ◌/◌, Bool,
  true, false, not, ◌&&◌, ◌||◌, Option, none, some, List, [], ◌∷◌, ◌++◌, leb, if◌then◌else◌, ok,
  err, ◌>>=◌,
}
use grok_build_auth.Egress.Base.{
  other_error, network_error, api_code, http_status, not_an_object, refused_call, Try,
}
use grok_build_auth.Egress.Monad.{pure, lift, ◌>>>=◌, Tool}
use grok_build_auth.Json.{null, str, bool, obj, field, find, int, get, end, value_eq, Value, Fields}

pub data Method : Type 0 where
  get_method post put delete : Method

pub record Request : Type 0 where
  pub method : Method
  pub path : Text
  pub query : Fields
  pub body : Option Fields

-- What `http_do` gives back: a status with a JSON object, or one of its exceptions.
pub data Reply : Type 0 where
  answer : ℕ → Fields → Reply
  http_exception : ℕ → Reply
  url_exception other_exception : Reply

abbrev is_delete : Method → Bool
is_delete delete = true
is_delete _ = false

abbrev pub is_write : Method → Bool
is_write get_method = false
is_write _ = true

-- The guards of `request`, in its order.
unfoldable pub is_refused : Method → Text → Bool
is_refused method lowered =
    has_suffix (codes "/test") lowered
    || has_infix (codes "/test?") lowered
    || is_delete method
    || has_infix (codes "clear-rate-limit") lowered
    || has_infix (codes "clear_rate_limit") lowered
    || (has_infix (codes "temp-unschedulable") lowered && is_write method)
    || has_infix (codes "clear-error") lowered

-- `if not path.startswith("/"): path = "/" + path`
abbrev pub rooted : Text → Text
rooted path = if starts_with (codes "/") path then path else b'/' ∷ path

-- `code not in (0, "0", None)`
unfoldable pub is_error_code : Value → Bool
unfolding value_eq
is_error_code code =
    not (value_eq code (int (pos 0)) || value_eq code (str (codes "0")) || value_eq code null)

abbrev data_or : Fields → Option Value → Value
data_or payload none = obj payload
data_or payload (some v) = v

unfoldable pub outcome : Reply → Try Value
unfolding is_error_code get find
outcome (answer status payload) =
    if leb 400 status
    then err (http_status status)
    else if is_error_code (get "code" payload)
    then err api_code
    else ok (data_or payload (find "data" payload))
outcome (http_exception status) = err (http_status status)
outcome url_exception = err network_error
outcome other_exception = err other_error

-- The Admin API with its state, and the calls that the client has logged.
pub record World (S : Type 0) : Type 0 where
  pub server : S
  pub calls : List Request

abbrev pub dict_or_raise : Value → Try Fields
dict_or_raise (obj d) = ok d
dict_or_raise _ = err not_an_object

abbrev pub dict_or_empty : Value → Fields
dict_or_empty (obj d) = d
dict_or_empty _ = end

abbrev pub account_path : ℤ → Text
account_path id = codes "/api/v1/admin/accounts/" ++ show_int id

abbrev pub get_request : ℤ → Request
get_request id = record { method = get_method; path = account_path id; query = end; body = none }

abbrev pub schedulable_request : ℤ → Bool → Request
schedulable_request id schedulable = record {
  method = post;
  path = account_path id ++ codes "/schedulable";
  query = end;
  body = some (field "schedulable" (bool schedulable) end);
}

abbrev pub proxy_request : ℤ → ℤ → Request
proxy_request id proxy_id = record {
  method = put;
  path = account_path id;
  query = end;
  body = some (field "proxy_id" (int proxy_id) end);
}

module _ {S : Type 0} (serve : Request → S → Reply × S) where
  unfoldable pub send : Request → Tool (World S) Value
  send r w =
      let (reply, server') = serve r w.server in
      (outcome reply, record { server = server'; calls = w.calls ++ r ∷ [] })

  -- A refused call is neither logged nor sent.
  unfoldable pub request : Request → Tool (World S) Value
  unfolding send
  request r w =
      let path = rooted r.path in
      if is_refused r.method (lower path)
      then (err refused_call, w)
      else send (record r { path = path }) w

  unfoldable pub get_account : ℤ → Tool (World S) Fields
  get_account id = request (get_request id) >>>= λ v. lift (dict_or_raise v)

  unfoldable pub set_schedulable : ℤ → Bool → Tool (World S) Fields
  set_schedulable id schedulable =
      request (schedulable_request id schedulable) >>>= λ v. pure (dict_or_empty v)

  unfoldable pub set_proxy_id : ℤ → ℤ → Tool (World S) Fields
  set_proxy_id id proxy_id = request (proxy_request id proxy_id) >>>= λ v. pure (dict_or_empty v)
