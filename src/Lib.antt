-- ===== src/Lib.antt =====
-- A verification library for mosemo, a service that records what a user does on a computer, projects
-- the records into a timeline, and labels the timeline's segments.
--
-- The parts, and how they interact. A device sends batches of activity records (Observation). A batch is
-- claimed by a receipt, its records are stored and checked, and the account's timeline is updated: a
-- projection folds records into segments, resuming from the last stored row when the records are the
-- newest, and replaying from an earlier segment otherwise; the rows that changed are replaced and keep
-- their identifiers where they can. Labeling reads the timeline through ObservationTimeline, confirms
-- a user's labels for segments, keeps the state machine of AI proposals, sweeps the closed segments for
-- those that need one, asks a model with recent confirmed examples, and groups the segments of a day.
-- Labels is the catalog of an account's labels, which labeling and focus sessions ask for active labels.
-- Identity signs accounts in with one-time codes, gives a new account its default labels and registers
-- devices, whose owners the batches are checked against.
--
-- Files and sources (paths below src/mosemo/):
--   Prelude          shared notation, comparisons, lists, results that may be errors, and
--                    unit_of_work of platform/database/transactions.py as commit or rollback
--   Shared/Time      aware datetimes, timedeltas and UUIDs as numbers; shared/domain/timezones.py
--   Shared/Windows   the day of a timezone; shared/domain/timezones.py
--   Labels           labels/domain, labels/application and labels/infrastructure
--   Identity         identity/domain, identity/application (sign_in.py, devices.py, tokens.py) and
--                    identity/infrastructure; Codes and Accounts hold the proofs
--   Observation/Activities   observation/domain/activities.py
--   Observation/Segments     the stored segments of observation/domain/timeline.py, the constraints of
--                    observation/infrastructure/tables.py, and the WHERE clauses of
--                    observation/infrastructure/timeline_segments.py
--   Observation/Projected    ProjectedActivity and ProjectedGap of observation/domain/timeline.py, and
--                    segment_seed of observation/application/batches.py
--   Observation/Projection   TimelineProjection and project_events of observation/domain/timeline.py
--   Observation/Observed     observation/application/timeline.py
--   Observation/Records      storing a batch's records in observation/application/batches.py, with
--                    observation/infrastructure/activity_records.py
--   Observation/Merge        the merge order of records and the queries that are read page by page: observation_key
--                    of observation/domain/timeline.py, list_record_page of activity_records.py and
--                    list_segment_range and its neighbors of timeline_segments.py
--   Observation/Replacing    replace_account_segments of observation/infrastructure/timeline_segments.py
--   Observation/Receipts     observation/infrastructure/batch_receipts.py and the tables of the processor
--   Observation/Updating     rebuilding, appending and replaying in observation/application/batches.py
--   Observation/Batches      ActivityBatchProcessor.process and the use cases of the same file
--   Observation/Recording    RecordActivity of observation/application/activities.py
--   Observation/Days         GetObservationTimeline of the same file and ListCompletedFocusSessions of
--                    observation/application/focus_sessions.py
--   Observation/Focus        observation/domain/focus_sessions.py, application/focus_sessions.py and
--                    infrastructure/focus_sessions.py
--   Labeling/Proposals       labeling/domain/proposals.py
--   Labeling/Confirmations   labeling/domain/confirmations.py
--   Labeling/States          labeling/application/states.py
--   Labeling/Confirming      labeling/application/confirmations.py
--   Labeling/Attempts        claiming and finishing an attempt in labeling/application/proposals.py
--   Labeling/Retrieval       the examples and the input for the model, in the same file, with
--                    labeling/domain/suggestions.py
--   Labeling/Scanning        ScanLabelProposals and SweepLabelProposals, over a record of operations
--   Labeling/Proposing       ProposeLabel and the scan's page; Paged fills the operations of Scanning
--   Labeling/Timeline        labeling/application/timeline.py
--   Hooks/StopGate           .codex/hooks/stop_gate.py of the root, which lets a coding agent stop only
--                    when its changes pass the checks
-- The children of a module hold its theorems, and its Examples their witnesses and runs.
--
-- State is passed: a table is a list of records in the order of insertion, a repository's query a
-- search of that list, and a use case a function from a store to its result and the store after it.
-- Exceptions are the errors of a Result; where the only exception is a failed assertion or a
-- ValueError, the result is an Option and the exception is none. An instant is a natural number of
-- microseconds from datetime.min, so that a difference that would be negative is 0 where the code only
-- asks whether it is greater than a positive bound. Most recursions are structural, on a list of
-- records, rows, selections or segments. Fuel bounds the loops over pages: visit_pages has fuel for one
-- page more than there are rows, since a page that is not empty has a row; scan has fuel for one segment
-- more than it may scan, by the same reason; sweep has fuel for one batch more than there are segments,
-- since its cursor moves past a segment in each batch; and find_from has fuel for one page more than
-- there are confirmations, since a page that is not the last moves the offset.
--
-- Parameters stand for libraries: SHA-256 and JSON (the digest of a segment's version and of a code),
-- the PKCE pattern and hash, the signing of a token, and the time zone database. What a constructor generates (UUIDs, codes) or
-- the database sets (times) is an argument. They carry no hypotheses, but the time zone database, whose dates begin with their midnights
-- (AreZones); where a theorem needs that a
-- generated code is not in use, it says so, and where rows get new identifiers, the generator is
-- injective and does not return one that is in use. Also parameters are the text that summarize_context
-- makes of a context and the model behind the LabelSuggester port, and, for an execution of
-- ProposeLabel, what other transactions do to the tables between its own two.
--
-- Not modelled: that a replay which converges leaves the timeline that a rebuild gives; the prompt and the
-- call of the model; the tracking of aggregates and the dispatch of domain events; HTTP routes and
-- schemas, Kafka, scheduling and startup; the scripts of the repository itself and the other hooks; row locks,
-- whose effect is that a use case runs alone on the rows it locked. The advisory lock of a timeline is an
-- argument where it can fail: whether it was taken in time.
pub mod Prelude
pub mod Labels
pub mod Shared
pub mod Identity
pub mod Observation
pub mod Labeling
pub mod Hooks
