-- ===== src/Closeout/Examples.antt =====
-- The clean-up of a batch with one file, killed and started again.
use grok_build_auth.Prelude.{
  length, All, true, false, codes, [], ◌∷◌, none, some, Bool-cases, inl, inr, ◌≡◌, refl, ok,
  if◌then◌else◌, arith,
}
use grok_build_auth.Closeout.Files.{Disk, regular, path_eq}
use grok_build_auth.Closeout.Journal.{Fixed, Prepared, Durable, World, commit_closeout}
use grok_build_auth.Closeout.Sound.{NoLinks, IsPlan}
use grok_build_auth.Closeout.Mapping.{
  map_sources_to_accounts, hashed_rows, by_hash, by_identity, map_source, map_sources, is_verified,
  sort_mappings, insert_mapping, AccountRow, Source, Mapping, has_id, grok_cli_base_url,
}
use grok_build_auth.Closeout.Mapping.Sorted.{IsAscending}
use grok_build_auth.Closeout.Mapping.Mapped.{VerifiedBy, IsRow, map_sources_to_accounts-ok}
use grok_build_auth.Closeout.Loop.{Resumable}
use grok_build_auth.Closeout.Resumed.{
  Resumes, restarted, Closed, commit_closeout-Resumes, commit_closeout-restarted,
}

abbrev auth_file : Fixed
auth_file = record {
  kind = codes "oauth_source";
  source = codes "auth" ∷ codes "a.json" ∷ [];
  quarantine = codes "cleanup" ∷ codes "quarantine" ∷ codes "0000-a.json" ∷ [];
  sha256 = codes "5e";
}

abbrev prepared : Prepared
prepared = record {
  batch_id = codes "b";
  account_ids = 4 ∷ [];
  artifact_sha256 = codes "a1";
  cleanup = auth_file ∷ [];
}

abbrev one_file : Disk
one_file p = if path_eq p auth_file.source then some (regular (codes "5e")) else none

abbrev at_start : Durable
at_start = record { disk = one_file; journal = none; documents = λ doc. none }

prepared-IsPlan : IsPlan prepared.cleanup
prepared-IsPlan = ((refl, refl, refl, refl), tt, tt)

one_file-NoLinks : NoLinks one_file
one_file-NoLinks p = elim (Bool-cases (path_eq p auth_file.source)) [
  | inl here ↦ rw here refl
  | inr other ↦ rw other refl
]

at_start-Resumable : Resumable prepared at_start
at_start-Resumable = (one_file-NoLinks, inl (refl, (refl, tt)))

abbrev killed_late : World
killed_late = record { durable = at_start; left = 9 }

commit_closeout-Resumes_example : Resumes prepared 9 (commit_closeout prepared killed_late)
commit_closeout-Resumes_example =
    commit_closeout-Resumes prepared prepared-IsPlan killed_late at_start-Resumable

abbrev last_run : World
last_run = record { durable = restarted prepared (4 ∷ 9 ∷ []) at_start; left = 16 }

commit_closeout-restarted_example :
    ((commit_closeout prepared last_run).0 ≡ ok tt)
    × Closed prepared (commit_closeout prepared last_run).1.durable
commit_closeout-restarted_example =
    commit_closeout-restarted prepared prepared-IsPlan (4 ∷ 9 ∷ []) at_start at_start-Resumable 16
      (omega arith)

abbrev account : AccountRow
account = record {
  id = 4;
  token_sha256 = codes "t1";
  refresh_sha256 = codes "r1";
  identity_sha256 = codes "i";
  subject_sha256 = codes "s";
  platform = codes "grok";
  type = codes "oauth";
  status = codes "active";
  base_url = grok_cli_base_url;
  is_schedulable = true;
  is_bound_grok = true;
  proxy_id = 0;
  group_count = 1;
  global_identity_count = 1;
}

-- Its token was renewed since, so that it is found by its identity.
abbrev source : Source
source = record {
  token_sha256 = codes "t0";
  refresh_sha256 = codes "r1";
  identity_sha256 = codes "i";
  subject_sha256 = codes "s";
}

abbrev mapping : Mapping
mapping = record {
  source = source;
  account_id = 4;
  production_token_match = false;
  production_refresh_match = true;
}

maps_by_identity : map_sources_to_accounts (source ∷ []) (account ∷ []) ≡ ok (mapping ∷ [])
unfolding map_sources_to_accounts hashed_rows by_hash by_identity map_source map_sources is_verified
    sort_mappings insert_mapping
maps_by_identity = refl

map_sources_to_accounts-ok_example :
    IsAscending (mapping ∷ [])
    × All (VerifiedBy (IsRow (account ∷ []))) (mapping ∷ [])
    × (length (mapping ∷ []) ≡ length (source ∷ []))
    × All (λ row. has_id row.id (mapping ∷ []) ≡ true) (account ∷ [])
map_sources_to_accounts-ok_example =
    map_sources_to_accounts-ok (source ∷ []) (account ∷ []) (mapping ∷ []) maps_by_identity
