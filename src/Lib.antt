-- ===== src/Lib.antt =====
-- ofborg: the workers that build and label pull requests against nixpkgs.
--
-- The parts talk over a message broker. A web hook's events reach two filters. The comment filter
-- reads instructions from a comment, asks the access list which machines its author may use, and
-- sends build jobs to these machines' queues and evaluation jobs to the evaluators. The evaluation
-- filter sends an evaluation job for each change of a pull request's code. A builder merges the pull
-- request, builds what evaluates, and tells of each line of its log and of the result. The log
-- collector keeps the lines in a file per attempt; the comment poster shows queued jobs and results
-- as check runs on GitHub. The evaluators label pull requests with the taggers.
--
-- - Base: tests, lists, texts as lists of code points, sorting.
-- - Message: ofborg/src/message/. The structs are records, the enums data types; a result's two
--   versions share the record ResultBody.
-- - Worker: `Action` and `Worker::handle_delivery` of ofborg/src/worker.rs; Worker.Notify:
--   `NotifyWorker::handle_delivery` of ofborg/src/notifyworker.rs. A delivery is the list of calls on
--   the channel, and whether the handler came to its end.
-- - Access: `System` of ofborg/src/systems.rs and `ACL` of ofborg/src/acl.rs.
-- - GhEvent: ofborg/src/ghevent/.
-- - CommentFilter: ofborg/src/tasks/githubcommentfilter.rs, and `parse` of
--   ofborg/src/commentparser.rs. The consumer is a function to the actions it returns.
--   CommentFilter.Grammar: the grammar of a line, over a record of nom's macros; what nom documents of
--   them is in Grammar.Documented, and Grammar.Spoken writes lines for it.
-- - EvaluationFilter: ofborg/src/tasks/evaluationfilter.rs.
-- - Build: `JobActions` of ofborg/src/tasks/build.rs, as a state that carries what was told;
--   Build.Run: `BuildWorker::consumer`. What git and nix answer, their panics included, is the record
--   Machine.
-- - LogFile: `LineWriter` of ofborg/src/writetoline.rs. The state is the file's text, the buffer of
--   lines and the last line written; a panic is none.
-- - LogCollector: ofborg/src/tasks/log_message_collector.rs. The state is the content of the files and
--   the cache of writers, a parameter.
-- - Nix: ofborg/src/nix.rs. A command is its program, arguments, environment and directory, and a run
--   of it what it writes to its two streams. Nix.Settings reads an argument list as nix does.
-- - NixEnv: ofborg/src/nixenv.rs, with the state of the file system and `none` for a panic; NixStats:
--   ofborg/src/nixstats.rs, its table in NixStats.Table; EvalChecker: ofborg/src/evalchecker.rs.
-- - Clone, Checkout: ofborg/src/clone.rs and checkout.rs. An operation is a function on the state of
--   the operating system that leaves a trace of locks taken, locks given back and runs of git;
--   Checkout.Exclusion interleaves the traces of processes as a step relation.
-- - AsyncCmd: ofborg/src/asynccmd.rs. Its threads, its two channels and its caller make the steps of
--   AsyncCmd.Steps.
-- - Config: ofborg/src/config.rs; Config.Vending: its GithubAppVendingMachine.
-- - EasyAmqp: the wrappers of ofborg/src/easyamqp.rs; Programs: the set-up of the seven workers in
--   ofborg/src/bin/, as the calls on a channel up to the first that the broker refuses.
-- - Stats: ofborg/src/stats.rs and ofborg/src/tasks/statscollector.rs. Metrics: ofborg/build.rs, with
--   the text of the file that it writes in Metrics.Generated. What that file's record function does is in
--   Stats.Recorded.
-- - Stdenvs: ofborg/src/tasks/eval/stdenvs.rs.
-- - Tagger: the five taggers of ofborg/src/tagger.rs, each in a module of its own.
-- - OutPathDiff: ofborg/src/outpathdiff.rs; a hash map is the list of its entries.
-- - Maintainers: ofborg/src/maintainers.rs, its run of nix in Maintainers.Calculate.
-- - Evaluation: the free functions of ofborg/src/tasks/evaluate.rs; Evaluation.Effects: what GitHub is
--   told, as a monad of effects that may panic (ofborg/src/commitstatus.rs); Evaluation.Run: the
--   consumer, over a strategy with its state (ofborg/src/tasks/eval/mod.rs); Evaluation.Nixpkgs: the
--   strategy for nixpkgs (ofborg/src/tasks/eval/nixpkgs.rs), its last step in Nixpkgs.Passed and the
--   interface filled in Nixpkgs.Steps; Evaluation.Commits: its reading of commit messages;
--   Evaluation.Generic: ofborg/src/tasks/eval/generic.rs and the choice of the strategy.
-- - CommentPoster: ofborg/src/tasks/githubcommentposter.rs.
--
-- Numbers. Identifiers and counts are natural numbers. The log's line counter is a `u64` and wraps
-- around, as `% 2 ^ 64`; the theorems on it ask for fewer lines. The counts of the statistics are `u64`
-- too, whose overflow panics where the build checks for it and wraps around otherwise. The binary search
-- of the taggers is its documented result on a sorted vector, and a panic on any other.
--
-- Fuel. Two loops run on fuel. `pad_to` of LogFile has as many rounds as the line's number plus one,
-- and each round adds a line. `decimal` of Base.Texts has as many as the number plus one, and each
-- divides by ten.
--
-- Parameters. serde_json's readings and writings, Unicode's lower case and white space, GitHub's
-- answers, the broker's refusals, the operating system (files, locks, processes) and what git
-- and nix print, the clock, fresh identifiers, checksums, floating-point arithmetic and the
-- grouping of digits, the LRU cache, and nom's macros. The evaluation asks git through a record
-- of its answers, not through Checkout. The runs of nix on a checkout before and after the merge
-- are two functions, since the merge changes the files.
--
-- Not modelled: the session of the broker (in ofborg/src/easyamqp.rs), the server that shows the
-- metrics, the tools for trying the system out (in ofborg/src/bin/), and the lock of
-- ofborg/src/locks.rs, which is that of clone.rs again; log lines, and what the mass rebuilder's
-- consumer reports to the statistics.
pub mod Base
pub mod Message
pub mod Worker
pub mod Access
pub mod GhEvent
pub mod CommentFilter
pub mod EvaluationFilter
pub mod Build
pub mod LogFile
pub mod Stdenvs
pub mod Tagger
pub mod CommentPoster
pub mod LogCollector
pub mod Evaluation
pub mod OutPathDiff
pub mod Nix
pub mod Clone
pub mod Checkout
pub mod AsyncCmd
pub mod NixStats
pub mod Config
pub mod NixEnv
pub mod Programs
pub mod Stats
pub mod Metrics
pub mod EasyAmqp
pub mod EvalChecker
pub mod Maintainers
