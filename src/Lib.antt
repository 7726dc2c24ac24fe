-- ===== src/Lib.antt =====
-- The verification library of grok-build-auth.
--
-- The program registers accounts and keeps a pool of them. The parts that this library models are
-- the codec of its calls, the pool of proxies that it leases, the tool that binds accounts to
-- egress proxies, the bridge that takes the accounts in, the client that keeps the auth files,
-- probes them and pushes them to the bridge, and the clean-up of a batch.
--
-- Wire models xconsole_client/grpcweb.py, the codec of the gRPC-web calls. Wire/Varint.antt has
-- `encode_varint`, `_tag` and `_read_varint`, Wire/Utf8.antt the UTF-8 codec of Python that it
-- calls, Wire/Message.antt the `encode_` functions and `decode_message`, Wire/Frame.antt
-- `frame_request` and `parse_response`. A position in `data` is the rest of the list from there.
-- Exceptions are values. The loops on positions recurse on fuel, which is the length of the input:
-- each round takes a byte at least. Python's `isprintable` is a parameter.
--
-- Egress models skills/grok-sub2api-ops/scripts/bind_quota_egress.py, which binds accounts to
-- egress proxies over an Admin API. Egress/Balance.antt has `compute_balanced_quotas`,
-- Egress/Assign.antt `assign_candidates_to_proxies`, Egress/Account.antt the decisions on an
-- account (`account_group_ids`, `candidate_reason`, `already_applied`), Egress/Snapshot.antt the
-- snapshots that are recorded and compared, Egress/Client.antt `AdminClient` with its refused
-- paths, Egress/Apply.antt `apply_one_account` with its rollback, Egress/Pages.antt
-- `iter_accounts` and `verify_proxies_active`, Egress/Plan.antt the checks of
-- `validate_plan_for_apply`, and Egress/Run.antt `apply_plan`. The page loops recurse on the
-- number of pages that the code allows, 100000 and 10000. The `already_applied` status is
-- `already_bound` here. `steps` and `outcome` of the result of an account are constants, and are
-- left out. Json.antt has Python's values as the tool reads them from JSON, with `as_int`.
--
-- Pool models `acquire` and `release` of `ProxyPool` in xconsole_client/proxy_pool.py. The scan of
-- the offsets from the cursor is the list of the specs from the cursor on and then from the start.
-- The dict of the leases is an association list, the rotation file the ref that it holds.
--
-- Bridge models the push of an account to bridge/bridge.py. Bridge/Auth.antt has the decisions on
-- credentials (`auth_is_stale`, `auth_subject_mismatch`, `validate_auth_data`), Bridge/Probe.antt
-- what is made of the answers to a probe, Bridge/Calls.antt the calls of Sub2API, of its database
-- and of the probed service with `probe_auth_direct` and `find_account_snapshot`,
-- Bridge/Rollback.antt the candidate, its promotion and `rollback_import_candidate`, and
-- Bridge/Push.antt the branch of `handle_request` for `/v0/management/auth-files` from the
-- validated body on, one function for each of its `try` blocks and handlers. A call is logged with
-- its arguments; the text of its query or body is left to the service. A probe is sent with a
-- marker that is a parameter. The texts of the answers, and what is repeated in them of the
-- request, are left out. What `isolate` or another part raises reaches the outer handler of
-- `push_auth`, which answers `IMPORT_FAILED`.
--
-- Cpa models the auth files of the Windows client and their reprobe. Cpa/Names.antt has the names
-- of a file and of an identity, Cpa/State.antt `transition`, `delete_if_fingerprint` and
-- `replace_if_fingerprint` of clients/windows/cpa/state.py, Cpa/Schema.antt `build_cpa_xai_auth`
-- of clients/windows/cpa/schema.py, Cpa/Preprobe.antt and Cpa/Refresh.antt what
-- clients/windows/cpa/preprobe.py makes of the answers to a probe and a refresh, Cpa/Reprobe.antt
-- and Cpa/Reprobe/Process.antt `push_auth_file` of clients/windows/cpa/client.py and
-- `process_locked` of clients/windows/cpa_reprobe.py with the check at the end of `run`. The files
-- are a function from resolved paths, with one directory for each state; they change as they do
-- while the lock of the identity is held, and a path may be one that cannot be written or removed.
-- Each path of a batch meets a world of its own, which stands for what the other threads did
-- before. Of a record of the checkpoint the fields that are read again are kept, and its writing
-- does not fail. The pauses and the locks are left out. SHA-256, JSON, base64, the clock and the
-- services are parameters.
--
-- Closeout models the clean-up of a batch in scripts/finalize_grok_batch.py. Closeout/Files.antt
-- has `require_exact_child` and the files, Closeout/Journal.antt `_cleanup_journal`,
-- `_quarantine_entries`, `_purge_quarantine` and `commit_closeout`. Every write, that of the
-- journal included, may be the last that the process makes; a number of writes that are left
-- stands for this. A file is its digest, a document beside the journal the stage that it records,
-- and the cleaned files of the evidence are an argument. Directories, times and file modes are
-- left out. The paths of the cleaned files differ, and lie where `require_exact_child` wants them,
-- by hypothesis. Closeout/Mapping.antt has `map_sources_to_accounts` of the same script.
--
-- Effect.antt has calls that may raise and change the world outside; what was done before an
-- exception stays done. Egress, Bridge, Cpa and Closeout are written in it.
--
-- The Admin API is a parameter: a function from a request and a state to a reply and a state. The
-- two shuffles of a seeded generator are parameters that reorder. The digest of a plan, the origin
-- of the client's URL, the database backup and the file system are parameters of `apply_plan`: the
-- directory of its results, `backup.json`, each line of the results and the summary are written
-- where the code writes them, and every such write may raise.
--
-- Not modelled: files, digests, the database backup, clocks and HTTP transport, which are outside
-- the program; `build_plan`, the loader of the proxy pool, the mail routes of the bridge, the
-- choice of the candidates of a reprobe and the export of auth files, the OAuth flows and the
-- registration runs; the Windows client, which drives a browser.
pub mod Bridge
pub mod Closeout
pub mod Cpa
pub mod Effect
pub mod Egress
pub mod Json
pub mod Pool
pub mod Prelude
pub mod Wire
