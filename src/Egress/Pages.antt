-- ===== src/Egress/Pages.antt =====
-- The lists that `AdminClient` of bind_quota_egress.py reads page by page: `iter_accounts` and
-- `verify_proxies_active`.
pub mod Accounts
pub mod Proxies
use grok_build_auth.Prelude.{
  ◌++◌, int_eq, ltb_ℤ, ℤ, pos, Text, codes, ℕ, zero, suc, ◌+◌, Bool, true, false, not, ◌&&◌, ◌||◌,
  Option, none, some, List, [], ◌∷◌, map, ltb, if◌then◌else◌, length, ok, err, ◌>>=◌,
}
use grok_build_auth.Egress.Monad.{Tool, ◌>>>=◌, pure, raise, lift, try_except}
use grok_build_auth.Egress.Client.{Reply, request, Request, World, get_method}
use grok_build_auth.Json.{
  str, int, end, field, nil, as_int, get, arr, item, obj, Value, Items, Fields,
}
use grok_build_auth.Egress.Account.{Account, field_is}
use grok_build_auth.Egress.Base.{
  duplicate_ids, items_missing, list_not_object, proxies_not_active, id_missing, bad_page_size,
  proxies_not_object, proxies_not_found, item_not_object, no_proxy_ids, pagination_guard, ToolError,
  Try, sorted_set, mem,
}
use Prim.Native.String.{String}

abbrev pub get_path : String → Fields → Request
get_path path query = record { method = get_method; path = codes path; query = query; body = none }

abbrev pub dict_or : ToolError → Value → Try Fields
dict_or exc (obj d) = ok d
dict_or exc _ = err exc

abbrev pub list_or : ToolError → Value → Try Items
list_or exc (arr xs) = ok xs
list_or exc _ = err exc

abbrev pub count_items : Items → ℕ
count_items nil = 0
count_items (item v xs) = suc (count_items xs)

abbrev pub some_or_raise {ℓ} : {A : Type ℓ} → ToolError → Option A → Try A
some_or_raise exc none = err exc
some_or_raise exc (some a) = ok a

-- `seen_ids`, in the order in which they were added, with the accounts.
pub record Listed : Type 0 where
  pub seen_ids : List ℤ
  pub items : List Account

abbrev pub listed : ℤ → Account → Listed → Listed
listed account_id account l = record {
  seen_ids = l.seen_ids ++ account_id ∷ [];
  items = l.items ++ account ∷ [];
}

-- `for item in batch`
unfoldable pub collect : Listed → Items → Try Listed
unfolding as_int get
collect l nil = ok l
collect l (item v xs) = do
  account ← dict_or item_not_object v
  account_id ← some_or_raise id_missing (as_int (get "id" account))
  let rest = collect (listed account_id account l) xs
  if mem account_id l.seen_ids then err duplicate_ids else rest

-- `total`, which the first page sets.
abbrev pub total_or : Option ℤ → Fields → Items → ℤ
total_or (some total) data' batch = total
total_or none data' batch = elim (as_int (get "total" data')) [
  | none ↦ pos (count_items batch)
  | some total ↦ total
]

abbrev no_items : Items → Bool
no_items nil = true
no_items (item _ _) = false

-- Whether the page is the last.
abbrev is_last_page : Items → ℤ → Listed → Bool
is_last_page batch total l = no_items batch || not (ltb_ℤ (pos (length l.items)) total)

-- What a round makes of its page.
pub record Page : Type 0 where
  pub listing : Listed
  pub total : ℤ
  pub is_last : Bool

unfoldable pub read_page : Option ℤ → Listed → Value → Try Page
unfolding get collect
read_page total l answered = do
  data' ← dict_or list_not_object answered
  batch ← list_or items_missing (get "items" data')
  l' ← collect l batch
  ok (record {
    listing = l';
    total = total_or total data' batch;
    is_last = is_last_page batch (total_or total data' batch) l';
  })

abbrev pub Found : Type 0
Found = List (ℤ × Fields)

-- `found[pid] = row`
unfoldable pub set_found : ℤ → Fields → Found → Found
set_found pid row [] = (pid, row) ∷ []
set_found pid row ((p, r) ∷ found) =
    if int_eq p pid then (p, row) ∷ found else (p, r) ∷ set_found pid row found

abbrev pub is_found : ℤ → Found → Bool
is_found pid [] = false
is_found pid ((p, r) ∷ found) = int_eq p pid || is_found pid found

abbrev note : List ℤ → Fields → Option ℤ → Found → Found
note wanted row none found = found
note wanted row (some pid) found = if mem pid wanted then set_found pid row found else found

abbrev note_value : List ℤ → Value → Found → Found
note_value wanted (obj row) found = note wanted row (as_int (get "id" row)) found
note_value wanted _ found = found

-- `for row in rows`
unfoldable pub note_rows : List ℤ → Items → Found → Found
unfolding set_found as_int get
note_rows wanted nil found = found
note_rows wanted (item v xs) found = note_rows wanted xs (note_value wanted v found)

-- The rows of the first answer, in either of its two forms.
abbrev pub rows_of : Value → Items
rows_of (arr xs) = xs
rows_of (obj d) = list_of (get "items" d)
  where
    list_of : Value → Items
    list_of (arr xs) = xs
    list_of _ = nil
rows_of _ = nil

-- `data.get("items") or []`, or `none` where the loop breaks off.
abbrev pub batch_of : Value → Option Items
batch_of (arr (item v xs)) = some (item v xs)
batch_of _ = none

pub record Proxy : Type 0 where
  pub id : ℤ
  pub name : Value
  pub status : Value
  pub protocol : Value

abbrev pub safe : ℤ × Fields → Proxy
safe (pid, row) = record {
  id = pid;
  name = get "name" row;
  status = get "status" row;
  protocol = get "protocol" row;
}

unfoldable pub all_found : List ℤ → Found → Bool
all_found [] found = true
all_found (pid ∷ wanted) found = is_found pid found && all_found wanted found

unfoldable pub all_active : Found → Bool
unfolding field_is
all_active [] = true
all_active ((pid, row) ∷ found) = field_is "status" (codes "active") row && all_active found

-- The two checks on what was found.
unfoldable pub check_found : List ℤ → Found → Try (List Proxy)
check_found wanted found =
    if not (all_found wanted found)
    then err proxies_not_found
    else if not (all_active found)
    then err proxies_not_active
    else ok (map safe found)

module _ {S : Type 0} (serve : Request → S → Reply × S) where
  module _ (platform account_type : Text) (group_id : ℤ) (page_size : ℕ) where
    abbrev pub accounts_request : ℕ → Request
    accounts_request page = get_path "/api/v1/admin/accounts" (
        field "page" (int (pos page)) (
          field "page_size" (int (pos page_size)) (
            field "platform" (str platform) (
              field "type" (str account_type) (
                field "group" (int group_id) (
                  field "sort_by" (str (codes "id"))
                    (field "sort_order" (str (codes "asc")) end)))))))

    -- `while True`, with the number of pages that `page` may still take.
    unfoldable pub accounts_loop : ℕ → ℕ → Option ℤ → Listed → Tool (World S) (List Account)
    accounts_loop zero page total l = raise pagination_guard
    accounts_loop (suc left) page total l = request serve (accounts_request page) >>>= λ answered.
        lift (read_page total l answered) >>>= λ read.
        if read.is_last
        then pure read.listing.items
        else accounts_loop left (page + 1) (some read.total) read.listing

    unfoldable pub iter_accounts : Tool (World S) (List Account)
    iter_accounts =
        if ltb page_size 1 || ltb 1000 page_size
        then raise bad_page_size
        else accounts_loop 100000 1 none (record { seen_ids = []; items = [] })

  abbrev pub proxies_request : ℕ → Request
  proxies_request page = get_path "/api/v1/admin/proxies" (
      field "page" (int (pos page)) (
        field "page_size" (int (pos 100)) (
          field "status" (str (codes "active"))
            (field "sort_by" (str (codes "id")) (field "sort_order" (str (codes "asc")) end)))))

  -- `break`, or the rest of the loop with the batch.
  abbrev pub go_on : Found → (Items → Tool (World S) Found) → Option Items → Tool (World S) Found
  go_on found rest none = pure found
  go_on found rest (some batch) = rest batch

  -- `while len(found) < len(wanted) and page <= 10000`, with the pages that are left.
  unfoldable pub proxies_loop : List ℤ → ℕ → ℕ → Found → Tool (World S) Found
  proxies_loop wanted zero page found = pure found
  proxies_loop wanted (suc left) page found =
      if not (ltb (length found) (length wanted))
      then pure found
      else (request serve (proxies_request page) >>>= λ answered.
          lift (dict_or proxies_not_object answered) >>>= λ data'.
          go_on found (λ batch. proxies_loop wanted left (page + 1) (note_rows wanted batch found))
            (batch_of (get "items" data')))

  -- The first answer, of which an error is dropped, then the pages.
  unfoldable pub find_proxies : List ℤ → Tool (World S) Found
  find_proxies wanted =
      try_except
        (request serve (get_path "/api/v1/admin/proxies/all" end) >>>= λ answered.
          pure (note_rows wanted (rows_of answered) []))
        (λ exc. pure [])
      >>>= proxies_loop wanted 10000 1

  unfoldable pub verify_proxies_active : List ℤ → Tool (World S) (List Proxy)
  verify_proxies_active [] = raise no_proxy_ids
  verify_proxies_active (p ∷ ps) =
      let wanted = sorted_set (p ∷ ps) in
      find_proxies wanted >>>= λ found. lift (check_found wanted found)
