-- ===== src/Lib.antt =====
-- A verification library for gonf, which configures hosts from recipes: a recipe is recorded as a plan
-- of ops, the plan is split into chunks by privilege, and the destination walks a chunk's ops, each
-- applied by its resource's handler.
--
-- Parts and files. Paths are those of the repository.
--   Base: Boolean tests, results, lists and texts as lists of bytes. `trim_space` follows
--     the standard library's documented behaviour in UTF-8. `to_lower` lowers ASCII letters and the two
--     other letters that become ASCII, which is all that the names of a crontab's fields depend on; a
--     condition on a host name with other letters is outside the model.
--   Shellwords (internal/shellwords/shellwords.go): `split` is Split, `run` and `step` its scanner's
--     loop, `quote` is Quote. A position in the line is the text left from it on.
--   Base.Paths: Clean and Dir of Go's package path, as documented.
--   Plan (plan/types.go, plan/op_payload.go): the ops with the fields that the engine reads. Plan.Guards models the
--     predicates (plan/apply.go, plan/negated_os.go, internal/platform/platform.go), Plan.Require
--     requirement blocks and the check before an apply (plan/require.go), Plan.Walk applyBody and
--     applyLine, Plan.Order kahnStable and the edges it sorts by, on the positions of a run
--     (plan/apply.go), Plan.ParentDirs the edges from an op to the ops that create its directory, with
--     the search that keeps them from closing a cycle (plan/pathdeps.go), Plan.Runs sortRunByDeps and
--     sortedApplyOrder, which cuts a body into runs and puts these together (plan/apply.go), Plan.Split
--     privilege chunks, hoisting and the checks of a split plan (plan/split.go, plan/require.go).
--     On top of these, Plan.Preflight has ValidateChunks and the checks of a header, of negated
--     conditions and of services (plan/split.go, plan/codec.go, plan/negated_os.go,
--     plan/service_enable_only.go), and Plan.Apply is ApplyWithContext (plan/apply.go): `check_plan` is
--     what it does before the report is reset, `check_body` the sort and the check of requirements.
--     Plan.Versions is RequiredVersion, the version that a recorded plan gets (plan/sensitive.go).
--   FileEdit (resource/file/lineedit.go): the line edits of a file and the validation of keyed lines;
--     FileEdit.Blocks managed blocks and FileEdit.Ownership validateBlocks (resource/file/blockedit.go).
--   Cron (resource/cron): Cron.Fields the five-field syntax (crontab_fields.go), Cron.Markers the
--     markers and the protected lines (crontab_markers.go), Cron.Job a job and its block (cron.go),
--     Cron.Lines a crontab as lines, Cron.Merge mergeCrontab and Cron.Adopt adoptUnmanaged
--     (crontab_merge.go), Cron.Validate the validation of a job and Cron.Reconcile its apply (cron.go).
--   PathTokens (internal/pathtoken/pathtoken.go): the tokens in paths, `expand` is Expand and
--     `resolve_home` resolveHome.
--   Report (resource/report.go): the outcomes that a run notes, ChangedSince and the summary; Mutate and
--     Converge (resource/mutate.go, resource/converge.go), the change gate (resource/embed/embed.go) and
--     apply of a daemon reload (resource/systemd/daemon_reload.go), which read and write them;
--     Report.Targets is RegisteredWatchTargets (resource/amend.go).
--   Exclude (internal/sourceexclude/exclude.go): what a directory sync leaves out, `matches` is Matches and
--     `validate_patterns` Validate; path.Match and path.Base are parameters.
--   Tests: the theorems at concrete inputs.
--
-- How the code is rendered. A Go string is a list of bytes, an error is a constructor with the values
-- of its message, an early return is an err or an if. A loop over a slice is a recursion on the list;
-- indexes into the rest of a slice become the rest itself, or a count of lines to skip. A stack is a
-- list with its top first. The destination of an apply (the handlers, os.Stat, the context) is a
-- record of functions over a state of any type, since that code is outside the plan engine.
--
-- What a mutation of a resource does is a function on a state of any type, which may fail; the account of
-- PathTokens is what the environment and the user database answer; a Crontab is what the crontab command
-- and the lock do, and that a table holds what was last written to it is a hypothesis. A
-- map of positions by path is the list of its entries.
--
-- Bounds and fuel. The scanner of Shellwords and the loop of Expand run on fuel, one more than the text
-- has bytes, since each round takes at least one. The sort of Plan.Order has one more than there are
-- ops, since each round emits one, and so has the search of Plan.ParentDirs, whose queue takes each op
-- once. The walk up from a path has two more than the path's bytes, since Dir of a path is shorter, but
-- for the last step to a dot. That this is enough is shown in Shellwords.Scan, PathTokens.Expanded,
-- and, below Plan, in Order.Sorts, ParentDirs.Reach and ParentDirs.Nearest. The walk of Exclude has as
-- much, and Exclude.Below shows that it ends below an excluded directory. Decimal fields
-- of a crontab are read by strconv.Atoi, whose int has 64 bits, so values from 2 ^ 63 on are refused.
--
-- What is not modelled: the JSON codecs, the payloads of the kinds, but for the fields that the versions
-- and the edges to parent directories depend on; reading, writing and locking of files and
-- crontabs; logging and printing; the merging of reloads when a recipe is declared; sealed plans; remote execution; the recipe
-- DSL and the command line. These are input and output, code of other packages, or code that the
-- modelled code takes as given.
pub mod Base
pub mod Shellwords
pub mod Plan
pub mod FileEdit
pub mod Cron
pub mod PathTokens
pub mod Report
pub mod Exclude
pub mod Tests
