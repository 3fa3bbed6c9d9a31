-- ===== src/Lib.antt =====
-- Verification of the core of dataform: the commands that choose which actions of a compiled graph to
-- run and that run them against a warehouse, the session that links actions and checks them, the
-- adapters that write their SQL, and the encoding of protocol buffers, with the helpers they stand on.
--
-- Parts. The code of a project registers actions with a `Session`, which resolves their references,
-- links each action to the actions it depends on, and reports errors. A compiled graph has tables, operations and assertions, each with a name, tags and
-- dependencies by name. `prune` restricts it to the actions that a run configuration selects. The
-- pruned graph is built into an execution graph, whose actions have tasks, the SQL statements that the adapter of
-- the warehouse writes. `Runner` executes these: it
-- starts the actions whose dependencies have succeeded, runs their tasks one after another with
-- `retry`, and looks for what can be started each time an action ends. Its run cache, a
-- `StringifiedMap` by target, lets it pass over actions whose inputs have not changed.
--
-- Files.
--   Prelude      Lists, results of code that throws, counting, and membership.
--   Proto        protos/core.proto: the messages that the modelled code reads, as records.
--                Proto/Core has those that the session and the adapters read.
--   Names        core/utils.ts: `targetToName` is target_to_name and `matchPatterns` is
--                match_patterns. A string is the list of its characters.
--   Stringified  common/strings/stringifier.ts: `StringifiedMap` and `StringifiedSet` over a
--                stringifier, which is a parameter.
--   Promises     common/promises/index.ts: `retry`, with the calls of its function as attempts by number.
--   Prune        api/commands/prune.ts: `prune` is prune, `computeIncludedActionNames` is
--                compute_included_action_names with select_actions, expand_selection and
--                add_auto_assertions as its three parts. Prune/Worklist has the loop of both closures.
--   Run          api/commands/run.ts. Run/State has the fields of `Runner`, its constructor (create),
--                `stop` and `cancel`. Run/Schedule has `executeAllActionsReadyForExecution`
--                (execute_ready), the start of `executeAction` (start) and its end (finish_action), and
--                the runner as a relation of steps: JavaScript runs the code between two awaits in one
--                piece, so a step is the end of one action's promise with all that follows it at once,
--                or a call of `stop`, of `cancel` or of the timeout. These three may also come before
--                the first action, while the schemas are prepared (Prepared). The loop over the tasks
--                leaves an action running, failed or cancelled (is_left), which is all that a step
--                asks of its outcome. Run/Cache has `shouldCacheSkip`,
--                Run/Tasks has `executeTask` and the loop over the tasks of an action, and Run/Schemas
--                has `prepareAllSchemas`.
--   Build        api/commands/build.ts: the tasks of an operation. Build/Inputs has
--                `computeAllTransitiveInputs`, which notes for each action what its cache depends on,
--                with `actionsByTarget` of api/utils/graphs.ts.
--   Wire         protoc-gen-ts/runtime/serialize.ts: the serializer and the deserializer. Wire/Bytes has
--                varints, Wire/Scalars the decoders of numbers, Wire/Fields tags and fields,
--                Wire/Messages messages and maps, Wire/Serializer the `Serializer`.
--   Adapters     core/adapters/base.ts and core/tasks.ts, whose `Tasks` is a list of tasks; an `Adapter`
--                is a record of the operations of `IAdapter`. Adapters/BigQuery, Presto, Redshift,
--                Snowflake and SqlDataWarehouse are the files of these names in core/adapters, with
--                publish_tasks, assert_tasks and drop for `publishTasks`, `assertTasks` and
--                `dropIfExists`; Adapters/Registry is core/adapters/index.ts.
--   Session      core/session.ts and the helpers of core/utils.ts: `findActions` (find_actions),
--                `resolve`, `target` (target_in), `setNameAndTarget`. Session/Linking has
--                `fullyQualifyDependencies`, Session/Altering has `alterActionName`, Session/Checks
--                and Session/Tables the checks on compiled actions, Session/Compile `compile`, and
--                Session/Sqlx the checks of `sqlxAction`. Tables, operations, assertions and declarations
--                are one record with a class; the errors that a function reports are part of its result.
--
-- Bounds. The loops of Prune pop names from an array to which each name is pushed at most once, so their
-- fuel is the length of the array and the number of actions. `executeAllActionsReadyForExecution` calls
-- itself only after actions were skipped, which are then no longer pending, so its fuel is one more than
-- the number of pending actions. The depth of `computeTransitiveInputsForAction` is a parameter, since
-- dependencies that form a cycle make the code recur for ever; without cycles a bound on the length of
-- their chains is enough. The loop over the dependencies of an action in Session/Linking goes over an
-- array to which it pushes, and may not end; its fuel is a parameter, and without inline tables one more
-- than the number of dependencies is enough. All other recursion is on lists.
--
-- Numbers. Times, counts and retries are natural numbers, since the code reads none that is negative.
-- A time that an earlier result lacks is 0, as in a decoded message; `shouldCacheSkip` would throw on
-- a plain object without `postExecutionTimestampMillis`.
--
-- Parameters. What the code calls outside the repository is a parameter: `JSON.stringify` of targets and
-- the encoding of an action as a protocol buffer (Encodings), the comparison of versions by `semver`,
-- the rows or errors of the warehouse client (Moment), and the metadata that it finds after an action
-- (Outcome), the comparisons of versions in the adapters (Semver), `toUpperCase`, the cycles that
-- tarjan-graph finds, and what compiling an action throws, which is code of the project. No law of
-- theirs is assumed but that a stringifier's parser gives back what was stringified, in Stringified,
-- Build/Inputs and Session/Altering.
--
-- Not modelled. Listeners and their throttling, timings, the labels and the cancel handlers passed to
-- warehouse clients; the builders of actions in core/table.ts and its siblings, with the methods of the
-- session that make them; the floating-point numbers of the wire format; the code generators, the SQL
-- builders and the formatter. The command line, the web pages and the drivers are input and output.
pub mod Prelude
pub mod Proto
pub mod Names
pub mod Stringified
pub mod Promises
pub mod Prune
pub mod Run
pub mod Build
pub mod Wire
pub mod Adapters
pub mod Session
