-- ===== src/Lib.antt =====
-- Vibe Verifier, the parts that decide: what a gate reports and exits with, which gates judge a pull
-- request, which pull requests are updated, when a slow suite may be skipped, when a pin bump is
-- merged by itself, when a policy lets the lead merge, and what the dashboard may show as ready.
--
-- The runner (bin/cli/runner.py) reads a repository's manifest, takes its union with the one at the
-- base, and runs one process for each line; each process is a gate built on gates/_contract.py, which
-- prints its findings and turns them into an exit code that the runner reads. Pull-sync
-- (actions/pull-sync/pull_sync.py) and suite-scope (actions/suite-scope/suite_scope.py) are steps of
-- the same workflows: the first keeps open pull requests current, the second says whether a diff can
-- change what a suite verifies, with the globs of gates/_contract.py. The pin merge
-- (gates/_pin_merge.py) merges the tool's own pull requests once the gate job passed on them.
--
-- Base: shared names, lists, texts (lists of code points), JSON values, shlex and URL quoting, as the
--   Python library has them.
-- Contract: gates/_contract.py. Contract.Escape has _esc_data and _esc_prop, Contract.Report has
--   Finding, _annotation, report and run_gate, Contract.Glob has glob_to_regex and matches, and
--   Contract.History has resolve_base, _tracked_at and planted.
-- PullSync: actions/pull-sync/pull_sync.py. PullSync.Pull has what is read of a pull request,
--   PullSync.Judge has judge and tier, PullSync.Plan has plan, and PullSync.Write has write and sync.
-- SuiteScope: actions/suite-scope/suite_scope.py. SuiteScope.InertList has parse_list and is_inert,
--   SuiteScope.Reads has base_list and changed_paths, SuiteScope.Decide has judge and decide, and
--   SuiteScope.Publish has report, send, post and check.
-- Runner: bin/cli/runner.py. Runner.Manifest has parse_entries and judged_entries, and Runner.Run has
--   run_entry and run.
-- Descriptors: gates/_descriptors.py, gates that are data. Descriptors.Problem has _problem,
--   Descriptors.Conflicts has repository_files and conflicts, and Descriptors.Conflicts.Chosen has
--   descriptor_for, and Descriptors.Run has run_tool and the check.
-- FileSize: gates/max_file_lines.py, a gate that no changed file over the limit may grow: size, judge
--   and check.
-- Ratchet: gates/_ratchet.py, by which a tool's findings of a rule in a file may not become more.
-- Schema: gates/_schema_subset.py, which checks a report by its schema: schema_problem.
-- Shards: bin/cli/qae_shards.py, which shares a pull request's criteria across explorers:
--   criterion_chains, shard_shares and explorer_turns.
-- HeadState: dashboard/head_state.py, which check readings the dashboard may show as ready.
--   HeadState.Search has load_heads, HeadState.Sample has sample_heads, HeadState.Collect has queue_pulls,
--   HeadState.Detail has remember_pull, HeadState.Pull has withhold_stale_pulls, HeadState.Unseen has
--   unseen_pull, and HeadState.Reading has apply_head_reading.
-- MergeGrant: gates/_merge_grant.py, by which a policy lets the lead merge. MergeGrant.Policy has a
--   policy, MergeGrant.Content the conditions on JSON files, MergeGrant.Lines the changed lines, and
--   MergeGrant.Decide has decide.
-- PinBump: gates/_pin_bump.py, when pins are bumped (when, lane) and which open bumps one replaces
--   (supersede).
-- PinMerge: gates/_pin_merge.py. PinMerge.Pin has PIN and moved_pin, PinMerge.Changes has not_pins,
--   PinMerge.Checks has paged, checks and reviews, and PinMerge.Merge has judge and merge_pass.
-- Tests: the theorems at concrete inputs.
--
-- State and the world. A call of gh, git or a gate is a parameter: a function from what is asked to
-- what is answered, an error included, so a theorem holds for every answer. Where one question can be
-- asked twice the function takes the attempt too (Posts of SuiteScope.Publish, Processes of
-- Runner.Run). A write is recorded in the order it is made. An exception is a value: Result of Base,
-- with Fault of SuiteScope.Reads and Stop of PinMerge.Changes for the classes that the code tells
-- apart, and Stop of Descriptors.Conflicts.Chosen.
--
-- The dashboard counts time in microseconds, and its dicts keep the order that Python gives them. The pages
-- of the search for heads are at most two, the bound of the code.
--
-- Loops are by recursion on what they go through. The pages of a listing are a number that the code
-- computes (SuiteScope.Reads.changed_paths) or a list of answers, past which a listing is empty
-- (PinMerge.Checks.paged). A status is sent at most three times, the bound of the code. No function
-- runs on fuel that could end early: the digits of a number are counted down from one above it, the
-- chains of criteria from the length of the list, and the rounds of difflib's matcher (Base.Diff) from
-- the length of the first list, behind which another round changes nothing (Base.Diff.Rounds).
--
-- Not modelled: argument parsing, the query of pull-sync and how its answer is paged, most of the lines
-- printed for a reader, base64, the `%r` quoting of a message, sleeping between attempts, and what
-- git, gh, json.loads and a compiled pattern do, which are parameters. The character class of `\w` is a parameter too.
-- Code that draws on other programs or only serves a page is left out: the tools under gates/_tools.py,
-- the rest of the dashboard, the lanes.
pub mod Base
pub mod Contract
pub mod PullSync
pub mod SuiteScope
pub mod Descriptors
pub mod FileSize
pub mod HeadState
pub mod MergeGrant
pub mod PinBump
pub mod PinMerge
pub mod Ratchet
pub mod Runner
pub mod Schema
pub mod Shards
pub mod Tests
