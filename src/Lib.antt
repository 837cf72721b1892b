-- ===== src/Lib.antt =====
-- coagent: a daemon, in Go, that runs coding agents. A session is one conversation with a model. Its
-- loop (internal/session) asks the model for an answer, runs the tool calls of the answer as one turn,
-- watches for repetition, and goes on until the answer has no calls. A session can spawn subagents,
-- which are sessions of their own; the daemon (internal/daemon) starts, stops and resumes the
-- sessions, and all state that must survive a restart is in a SQLite database.
--
-- This library models twelve parts of that program and the names they share:
--
-- * LoopDetector models internal/session/loopdetect.go. `LoopDetector` is the struct loopDetector, and
--   `record_round`, `check`, `reset_window` and `clear_force_text_only` are its methods record, check,
--   resetWindow and clearForceTextOnly. The session loop records each round of tool calls and asks for
--   a verdict: continue, warn, block, force an answer in text, or terminate. Arguments and results are
--   compared by fingerprints, which are numbers here. The thresholds of jaccardSimilarityArgs and
--   uniqueArgsFraction, floating-point fractions in the code, are compared by cross-multiplication.
-- * SessionStore models the rows of internal/sessionstore that a subagent's life touches: a session's
--   status and its inbox. `enqueue_tx`, `update_session_status_tx`, `mark_session_killed_tx` and
--   `create_subagent_session_tx` are EnqueueTx, UpdateSessionStatusTx, MarkSessionKilledTx and
--   CreateSubagentSessionTx, each the body of a transaction from rows to rows.
-- * Subagent models internal/subagent: the ledger of links between a parent and its children.
--   Subagent.Ledger holds the state and the transactions on one link, Subagent.Derive outcome.go,
--   Subagent.Transitions the transactions Create, Finalize, FailResume, Kill, Resume and Rearm of
--   transitions.go, and Subagent.Delivery the delivery of a completion to the parent's inbox.
--   Subagent.Steps makes them one transition system, so that the theorems hold for every order in which
--   the daemon runs them. A transaction that the database rejects changes nothing, and its error is a
--   value of `Result`.
-- * Stage models internal/tool/stage.go, the scheduler of the calls of one turn: planStages, Schedule,
--   invoke and the bookkeeping of their results. A call carries what executing its tool does. When the
--   context is done is a function that the theorems leave open. Stage.Overlap models the goroutines of
--   runParallelStage as a step relation over all interleavings, with MaxParallelPerStage = 4 slots: the
--   return of a tool and the end of the context are steps of their own, which may come at any time or
--   never, and Stage.Waits says what a stage can wait for.
-- * Transcript models internal/session/transcript.go. `repair_transcript` is repairTranscript, which
--   pairs calls and results before a transcript is sent to a model. Transcript.Pending is
--   pendingInLoopCalls, pendingExternalCalls and unansweredWork, with unresolvedToolCalls of
--   internal/session/session.go, and Transcript.Sizes the estimates estimateTokens and imagePressure.
--   `WireMessage` is llmwire.Message without the fields that none of these reads.
-- * ToolTurn models internal/session/step_tools.go, the step that runs the calls of one answer:
--   `execute_tool_calls_internal` is executeToolCallsInternal, which hands the calls to Stage,
--   ToolTurn.Commit is runToolCalls and recordToolResults, which ask LoopDetector, and toolStep, and
--   ToolTurn.Truncate is truncateHeadTail, by which a long result is cut. The table of messages is
--   there a list of rows, of which the active ones are the transcript; `insert_tool_result_once` is
--   insertToolResultOnceAt of internal/sessionstore. The texts of errors and warnings and the escaping
--   of untrusted output are functions.
-- * Checkpoint models how a session compacts its transcript. Checkpoint is internal/session/
--   checkpoint.go: parseCheckpointPrefix and selectCurrentSkill; Checkpoint.Split the search for the
--   cut, selectCheckpointSplit, with rawCutLegal; Checkpoint.Assemble assembleCheckpointLocked; and
--   Checkpoint.Compact compactLocked of compaction.go. The summary that a model gives is a function of
--   the split, and what the renderer of skills finds in a text is a pair of functions. A fraction of
--   the window, a float in the code, is a number that the caller gives.
-- * ApplyPatch models internal/tool/builtin/apply_patch.go: the search for the place of a hunk, the
--   application of hunks to the lines of a file and the plan for a file. ApplyPatch.Parse is parsePatch,
--   with the scanner of the standard library's bufio as it is documented. ApplyPatch.Transaction is the
--   writing of all files with its rollback, and ApplyPatch.Execute the tool from the parsed patch on.
--   A text is a list of bytes and an `int` a 64-bit word. ApplyPatch.Matches says apart from the loops
--   of findHunkAnchor when lines match at a place, and ApplyPatch.Distance how far a place is from the
--   hint. The file mutator, the removal of a file and the ledger of reads are a record of functions:
--   that a write changes no other file, and that the bytes a file held can be written to it again, are
--   hypotheses. The context is not modelled, so a patch is not cancelled on its way, and the rollback,
--   which the code runs under the same context, is not either.
-- * Sandbox models internal/sandboxpolicy: `decide` is the decision of an ordered policy on a path,
--   `effective_entries` is EffectiveEntries, and Sandbox.Compile is Compile, with the resolution of
--   rules and anchors and ValidateMounts, and Sandbox.Compile.Sections ValidateSection and
--   SelectProjectRules. A path is its bytes. What the path library, the symbolic links and the objects
--   of the file system answer is a record of functions, of which `HostLaws` says what is documented.
-- * Catalog models internal/catalog/effort.go: `sort_efforts` is SortEfforts and `clamp_effort` is
--   ClampEffort, by which the level of reasoning effort that a session asks for becomes one that its
--   model accepts.
-- * Budget models internal/budget and the transactions of internal/sessionstore on a budget: Budget is
--   CrossingReason, Remaining and Admit of record.go and budget.go; Budget.Store the rows, with the
--   CHECK constraints of migrations/00027_session_operator_contract.sql, and the statements on outputs
--   and grants; Budget.Observe fireBudgetTx, ObserveBudget and the commit of a step; Budget.Mutate Arm
--   and Clear; Budget.Park the drain, the park and the releases. Budget.Steps runs them in any order. A
--   cost is a whole number of millionths of a micro-dollar, a time one of nanoseconds.
-- * Retry models Chat of internal/llm/retry.go, with retryable and shouldRetry. What the provider, the
--   contexts and the clock do at an attempt is an argument.
-- * Base holds the library names, the Boolean tests, and the lists, words and texts that these share.
--
-- The loops of the source are structural recursion on the list or the number they go over, so every
-- function is total, and only canonicalAnchor has fuel: a round that does not end takes a part off the
-- path, so that there cannot be more rounds than the path has bytes and one more. (The printer of
-- decimals, against which ApplyPatch.Parse is read, has more rounds than the number has digits.) The
-- loop of planStages jumps from stage to stage and is two mutual functions. Counters and activation
-- numbers of the ledger and of the loop detector are natural numbers: the source's int64 rowids and
-- small counters are not wrapped.
--
-- Not modelled: errors of the database and of the context inside a transaction; the fingerprints; the
-- texts shown to a model or a user; durations and logging; the explicit stop of a session, which also
-- releases its budget; the waking of a session whose budget changes; the locks on the files of a patch;
-- the capacities that `make` is given. The other packages of the repository are not modelled.
pub mod Base
pub mod LoopDetector
pub mod SessionStore
pub mod Subagent
pub mod Stage
pub mod Transcript
pub mod ToolTurn
pub mod Checkpoint
pub mod ApplyPatch
pub mod Sandbox
pub mod Catalog
pub mod Budget
pub mod Retry
