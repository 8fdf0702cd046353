-- ===== src/Lib.antt =====
-- docbuilder turns the Markdown of many Git repositories into one Hugo site, once or as a daemon.
-- The daemon hears requests for builds (webhooks, schedules, discovery), gathers those that come
-- close together, queues one build job for them, and a worker runs the job's stages, retrying a
-- build that failed for a passing reason.
--
-- How the files correspond to the code:
--   Common: lists, bytes, maps keyed by text, and Go's integers, whose products and shifts wrap.
--   Debouncer: internal/daemon/build_debouncer.go. `Debouncer` is the struct, with one function per
--     method (onRequest, tryEmit, tryEmitAfterRunning, PlannedJobID). Debouncer.Loop is the select
--     loop of Run: a round is one case taken, with the clock, the build that may be running and the
--     bus as inputs. Armed tells when a pending build will be sent, Account counts requests, Burst
--     follows a burst of requests to its one event.
--   Queue: internal/build/queue/build_queue.go. A job is a number that a store maps to the record,
--     so that the channel, the active map and the history share it. Each operation is atomic, as
--     under the lock. Queue.Execute is executeBuild, Queue.Process the worker's processJob,
--     Queue.Bounds any interleaving of the operations.
--   Retry: internal/retry/policy.go, with int64 durations.
--   Errors: internal/foundation/errors and internal/hugo/models/{stages,errors}.go: error values as
--     trees, errors.Is and errors.As on them, and which stage errors are transient.
--   Stages: internal/hugo/models/report.go and internal/hugo/stages/{runner,classification}.go: the
--     report, the classification of a stage's result (Classify), the outcome (Outcome), and
--     RunStages (Runner) over stages that are functions.
--   Heads: internal/hugo/models/build_state.go, the heads of the repositories of a build.
--   FrontMatter: internal/frontmatter/frontmatter.go, over bytes.
--   Markdown: internal/markdown/edits.go: Splice describes the result of ApplyEdits, Accept says
--     which edits it accepts.
--   Document: internal/docmodel, the parsed document over FrontMatter and Markdown: its edits, the
--     line on which its body begins (Offset), and the search for a line of the body (Lines).
--   Projection: internal/eventstore/projection.go, the build history that events make up.
--   Patch: internal/hugo/models/{frontmatter,patch}.go, typed front matter and patches of it. Fields
--     has the values and the overlay that Overlay shows Apply to be, Union the union of lists, Twice
--     a patch after itself, Build the setters, Maps the conversions from and to maps.
--   Config: internal/config, with internal/foundation/normalization (Enums). Normalize, Slices,
--     Defaults and Validate are the passes over the decoded configuration, Load their composition in
--     LoadWithResult; Load.Policies and Load.Windows show what the queue and the debouncer get.
--   Bus: internal/daemon/events/bus.go, typed subscriptions. Steps cuts the operations at the bus's
--     lock and at the sends, so that a run is any sequence of steps; Invariant holds in every state,
--     and Serving follows one Publish.
--   Versioning: internal/versioning. discover_versions is DiscoverVersionsWithAuth and
--     cleanup_old_versions CleanupOldVersions, both by the order of Sorting; Changes is about
--     calculateVersionChanges. Expand is ExpandRepositoriesWithVersions over a store of tag maps.
--
-- How they interact: the queue takes its delays from Retry, asks Errors whether an error in the
-- report of Stages is transient, and keeps that report with the job.
--
-- Loops are structural recursion, but for two that recurse on fuel: executeBuild, where one attempt
-- more than the retries of its policy is enough, and the search of FindNextLineContaining in one
-- line, where one round more than the bytes of the line is enough. Time is a number of nanoseconds;
-- the zero time is 0.
--
-- Not modelled: log lines, metrics that no state depends on, the file system, git, HTTP, YAML and
-- Hugo itself. The builder of the queue, the stages of the runner and the answers of the clock and
-- of the bus are parameters.
pub mod Common
pub mod Retry
pub mod Debouncer
pub mod FrontMatter
pub mod Errors
pub mod Stages
pub mod Queue
pub mod Projection
pub mod Markdown
pub mod Document
pub mod Heads
pub mod Patch
pub mod Config
pub mod Bus
pub mod Versioning
