-- ===== src/Closeout/Mapping.antt =====
-- `map_sources_to_accounts` of scripts/finalize_grok_batch.py: the auth files of a batch and the rows
-- of its accounts. The rows are in the order of the dict, each under its own id; of a source the
-- digests are kept.
pub mod Sorted
pub mod Mapped
use grok_build_auth.Prelude.{
  Text, codes, text_eq, is_empty, ℕ, Bool, true, false, not, ◌&&◌, ◌||◌, Option, none, some, List,
  [], ◌∷◌, ok, err, Result, if◌then◌else◌, ◌==◌, leb, ◌>>=◌,
}

pub record AccountRow : Type 0 where
  pub id : ℕ
  pub token_sha256 : Text
  pub refresh_sha256 : Text
  pub identity_sha256 : Text
  pub subject_sha256 : Text
  pub platform : Text
  pub type : Text
  pub status : Text
  pub base_url : Text
  pub is_schedulable : Bool
  pub is_bound_grok : Bool
  pub proxy_id : ℕ
  pub group_count : ℕ
  pub global_identity_count : ℕ

pub record Source : Type 0 where
  pub token_sha256 : Text
  pub refresh_sha256 : Text
  pub identity_sha256 : Text
  pub subject_sha256 : Text

pub record Mapping : Type 0 where
  pub source : Source
  pub account_id : ℕ
  pub production_token_match : Bool
  pub production_refresh_match : Bool

pub data MappingFault : Type 0 where
  duplicate_hash no_refresh_token no_stable_identity identities_differ duplicate_account unverified
        mappings_differ :
      MappingFault

-- `by_hash.get(token_hash)`
unfoldable pub by_hash : Text → List AccountRow → Option AccountRow
by_hash token [] = none
by_hash token (row ∷ rows) = if text_eq row.token_sha256 token then some row else by_hash token rows

abbrev pub is_some : Option AccountRow → Bool
is_some none = false
is_some (some _) = true

-- The rows of `by_hash`, last first.
unfoldable pub hashed_rows :
    List AccountRow → List AccountRow → Result MappingFault (List AccountRow)
hashed_rows hashed [] = ok hashed
hashed_rows hashed (row ∷ rows) =
    let is_new : Bool = not (is_empty row.token_sha256) in
    let rest = hashed_rows (if is_new then row ∷ hashed else hashed) rows in
    if is_new && is_some (by_hash row.token_sha256 hashed)
    then err duplicate_hash
    else if is_empty row.refresh_sha256
    then err no_refresh_token
    else rest

abbrev pub same_identity : AccountRow → Source → Bool
same_identity row source =
    text_eq row.identity_sha256 source.identity_sha256
    && text_eq row.subject_sha256 source.subject_sha256

-- `by_identity.get(key, [])`
unfoldable pub by_identity : Source → List AccountRow → List AccountRow
by_identity source [] = []
by_identity source (row ∷ rows) =
    if same_identity row source then row ∷ by_identity source rows else by_identity source rows

abbrev pub only_candidate : List AccountRow → Result MappingFault AccountRow
only_candidate (row ∷ []) = ok row
only_candidate _ = err no_stable_identity

abbrev pub row_of : List AccountRow → Source → Option AccountRow → Result MappingFault AccountRow
row_of rows source (some row) = ok row
row_of rows source none = only_candidate (by_identity source rows)

abbrev pub grok_cli_base_url : Text
grok_cli_base_url = codes "https://cli-chat-proxy.grok.com/v1"

unfoldable pub is_verified : AccountRow → Bool
is_verified row =
    text_eq row.platform (codes "grok")
    && text_eq row.type (codes "oauth")
    && text_eq row.status (codes "active")
    && row.is_schedulable
    && text_eq row.base_url grok_cli_base_url
    && row.proxy_id == 0
    && row.group_count == 1
    && row.is_bound_grok
    && row.global_identity_count == 1

abbrev pub has_id : ℕ → List Mapping → Bool
has_id id [] = false
has_id id (m ∷ mappings) = m.account_id == id || has_id id mappings

-- The checks of a source's row; `mapped` has the mappings of the sources before it.
unfoldable pub map_source : List Mapping → Source → AccountRow → Result MappingFault Mapping
map_source mapped source row =
    if not (same_identity row source)
    then err identities_differ
    else if has_id row.id mapped
    then err duplicate_account
    else if not (is_verified row)
    then err unverified
    else ok (record {
      source = source;
      account_id = row.id;
      production_token_match = text_eq row.token_sha256 source.token_sha256;
      production_refresh_match = text_eq row.refresh_sha256 source.refresh_sha256;
    })

unfoldable pub map_sources :
    List AccountRow
    → List AccountRow
    → List Mapping
    → List Source
    → Result MappingFault (List Mapping)
map_sources rows hashed mapped [] = ok mapped
map_sources rows hashed mapped (source ∷ sources) =
    row_of rows source (by_hash source.token_sha256 hashed) >>= λ row.
    map_source mapped source row >>= λ m. map_sources rows hashed (m ∷ mapped) sources

-- The row of every account has a mapping; every mapping has the id of a row.
abbrev pub all_mapped : List AccountRow → List Mapping → Bool
all_mapped [] mapped = true
all_mapped (row ∷ rows) mapped = has_id row.id mapped && all_mapped rows mapped

unfoldable pub insert_mapping : Mapping → List Mapping → List Mapping
insert_mapping m [] = m ∷ []
insert_mapping m (n ∷ sorted) =
    if leb m.account_id n.account_id then m ∷ n ∷ sorted else n ∷ insert_mapping m sorted

unfoldable pub sort_mappings : List Mapping → List Mapping
sort_mappings [] = []
sort_mappings (m ∷ mappings) = insert_mapping m (sort_mappings mappings)

abbrev pub sorted_if : List AccountRow → List Mapping → Result MappingFault (List Mapping)
sorted_if rows mapped =
    if all_mapped rows mapped then ok (sort_mappings mapped) else err mappings_differ

unfoldable pub map_sources_to_accounts :
    List Source → List AccountRow → Result MappingFault (List Mapping)
map_sources_to_accounts sources rows =
    hashed_rows [] rows >>= λ hashed. map_sources rows hashed [] sources >>= sorted_if rows
