-- ===== src/Lib.antt =====
-- Verification of the Python tools of krg-infra, the infrastructure repository of a research group.
--
-- The program is a set of command line tools that bring a running system to a declared state. This
-- library models:
--
-- compose-reload (nix/modules/services/compose-stack/compose-reload.py), in Compose.antt and
-- Compose/. It applies a changed docker compose stack. `Compose/Docker.antt` has class `Stack`: each
-- method is a definition of its name (`changed_services`, `build_missing`, `running`, `health`, ...);
-- `Compose/Docker/Recreated.antt` is the regular expression that reads compose's dry run.
-- `Compose/Mounts.antt` has `mount_fingerprints`, `mounts_changed`, `load_state` and `save_state`,
-- `Compose/Plan.antt` has `ineligible`, `changed_oneshots` and `plan`, `Compose/Handoff.antt` has
-- `handoff`, `_drain`, `_abort` and `_safe_handoff`, and `Compose/Reload.antt` has `main`. `main` asks
-- `plan` for the services to hand off, gives each to `_safe_handoff`, and runs the final `up` only if
-- all of them have succeeded.
--
-- outline-group-sync (nix/docker-compose/outline-group-sync/sync.py), in OutlineSync.antt and
-- OutlineSync/. It brings the groups of an Outline server in line with a directory.
-- `OutlineSync/Pages.antt` has `API.authentik_list` and `API.outline_list`, `OutlineSync/Rows.antt`
-- the rows of the two servers, `index_unique` and `email`, `OutlineSync/Plan.antt` has `plan_sync`,
-- which turns a snapshot of both sides into calls or refuses it, and `OutlineSync/Reconcile.antt` has
-- `assert_sync_healthy`, `apply_plan` and `reconcile`, which reads the snapshot, plans, and applies the
-- plan if it is asked to. `OutlineSync/Plan/Replay.antt` says what the calls do to the members of a
-- group.
--
-- scratch-overflow and scratch-restore (nix/modules/scratch/scratch-overflow.py and
-- nix/modules/scratch/scratch-restore.py), in Scratch.antt and Scratch/. The first moves files that
-- have long not been used to a network file system and leaves links in their place, the second brings
-- them back. `Scratch/Os.antt` has the calls of the operating system that both make,
-- `Scratch/Paths.antt` the functions of os.path, and `Scratch/Copying.antt` the helpers that both
-- files declare: `copy_and_hash`, `tmp_sibling`, `fd_sha256` and `fsync_dir`. `Scratch/Overflow.antt`
-- has `open_manifest`, `write_note`, `makedirs_mirror`, `last_use` and `archive_one`,
-- `Scratch/Overflow/Candidates.antt` has `gather_candidates`, and `Scratch/Overflow/Sweep.antt` has
-- `pool_bytes` and `main`. `Scratch/Restore.antt` has `under_any` and `restore_one`, and
-- `Scratch/Restore/Command.antt` has `walk_links` and `main`.
--
-- The drift detector (drift/drift_detector.py), in Drift.antt and Drift/. It compares snapshots of the
-- live state of a NAS with the declared one. `Drift/Parsers.antt` has `webapi_data`, `parse_enum` and
-- `parse_list_acl`, `Drift/State.antt` the files that are read and the drifts, `Drift/Rules.antt`
-- `_norm_rules`, `Drift/Diffs.antt` the `diff_` functions and `desired_tiers`, and `Drift/Report.antt`
-- has `run`, `render_prometheus` and `main`. `Drift/Json.antt` has the values of JSON.
--
-- synology_acls (ansible/synology/roles/synology_acls/files/apply_acls.py), in ShareAcls.antt and
-- ShareAcls/. It sets the grants of a share on the NAS. ShareAcls.antt has `do_setuser`,
-- `do_admin_grants`, `do_recursive_stamp` and `main`; the output of `synoshare` and the grants are
-- read by the definitions of the drift detector, whose code is the same but for the exception. A run is
-- an `Exec` over the system, which may answer each command in any way, and the commands that were run,
-- each with its exit code and its output.
--
-- How compose-reload is modelled. The tool runs on a record of the functions that it calls and does
-- not implement (`Compose.Docker.Host`: commands, clock, files), whose state is left open. An
-- action of the tool is an `Exec` (Effects.antt): from the state before to its result, a value or
-- the exception that leaves it, beside the state after. The tool's state is a `World`: the host's,
-- and the trace of what the tool has done, the last first. The exceptions that the code tells apart
-- are the constructors of `Failure`. Effects/Triple.antt has the rules by which what an action
-- guarantees follows from what its parts guarantee. What a theorem says of containers and of the
-- configuration is what calls of the trace have put out (Compose/Handoff/Listed.antt and Seen.antt,
-- Compose/Docker/Reported.antt). That a file gives back what is written to it, or what replaces it, is
-- assumed only where the state file is read again, as the host's laws `KeepsFiles`
-- (Compose/Mounts/RoundTrip.antt).
--
-- Bounds. Times are counted in ticks of one length, of which the polling interval, the timeout and the
-- drain time are multiples; the source's seconds are floats, of which it only adds and compares. The
-- two polling loops run on fuel. A loop that spends it raises `fuel_spent`, a failure that Python does
-- not have; `handoff_total` shows that a round for each poll that fits into the timeout, and one more,
-- is enough. The texts of regular expressions are read with ASCII word characters.
--
-- How outline-group-sync is modelled. The rows are records with the fields that the source reads. The
-- two servers behind the HTTP client are the record `OutlineSync.Reconcile.Servers`, with the clock,
-- `datetime.fromisoformat` and `str.casefold`; an action is an `Exec` too, over the servers' state and
-- the changing calls that were sent. The loops over pages run on fuel: a round for each page that the
-- first page announces, or for each row of its total, is enough (`authentik_list_total`,
-- `outline_list_total`).
--
-- How the scratch tools are modelled. A tool is an `Exec` over a `Scratch.Os.World`: the state of the
-- system, and the trace of the calls with their outcomes. The system (`Scratch.Os.Host`) may answer
-- each call in any way, with any value or error, so that a theorem on the trace holds whatever other
-- processes do to the files meanwhile. What it says of a file is what the calls have reported: that a
-- file is as it was is an answer of `stat`, what was read and written are the answers of `read` and
-- `write`. `sha256` and `os.path.relpath` are functions that the host brings along. The loops that
-- read, write and hash, and the walks over directories, run on fuel, and raise `fuel_spent` when it is
-- gone; the theorems on them hold for every fuel and of every outcome, that one included. Times are
-- nanoseconds and the marks of the pool whole percents, where the source has floats, and `zpool list`
-- is read in plain digits.
--
-- How the drift detector is modelled. It only reads files, so that it is a function: of a record
-- `Drift.Report.Files`, which has what `yaml.safe_load` and `json.loads` give, to a result or an
-- exception. The exceptions are those that `run` catches (`caught`) and others. A file is a record of the
-- keys that the code reads, where `none` and the empty list are a missing key, and the values of keys
-- have the types that the code expects of them; numbers are natural, and the `client` of an NFS rule is
-- a text. A set is the list of its elements. `json.dumps` is compared by the values that it writes out,
-- with their keys in order.
--
-- Not modelled: log messages, the printed report of the drift detector, the reading of the command line by argparse, and `content_hash`,
-- which is a field of `Compose.Mounts.Files`. Of sync.py, the HTTP client `API.request` and
-- `from_env`. The printed lines of apply_acls.py. The other tools of the
-- repository, its Nix and Terraform configuration and its other Ansible roles are not modelled.
pub mod Prelude
pub mod Text
pub mod Effects
pub mod Sorted
pub mod Compose
pub mod OutlineSync
pub mod Scratch
pub mod Drift
pub mod ShareAcls
