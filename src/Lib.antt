-- ===== src/Lib.antt =====
-- trouveur: a job finder that sweeps job boards into one table, derives and embeds the postings
-- through a work queue, and scores for each reader those that a search retrieves.
--
-- The parts that are modelled, and how they interact. A sweep of a source (Sources) lists postings
-- and hands them in batches to a sink, which archives and persists them (Ingest); the sweep's
-- outcome says which scopes were seen in full, and what those no longer list is closed (Ingest).
-- What is left to do for a posting stands in the queue (Queue), which workers claim from and
-- complete (Workers). A search fuses ranked lists (Retrieval) into a reader's matches (Matches),
-- and scores for them are bought in blocks within the reader's money (Scoring). A run through all
-- of this is itself queued, claimed and finished (Runs), in the order that the runner gives its
-- calls (Runner).
--
--   Prelude     lists, Boolean tests, tables, sorting and batches that the parts share
--   Db          trouveur/db/schema.py: the rows of work_item, job, job_facet and job_embedding, with
--               the columns that the statements below use, and what a transaction sees
--   Queue       trouveur/work/queue.py: enqueue, claim, claim_across_boards, mark_ready, complete and
--               fail, of which Queue/Ready is about the posting's ready_at; Queue/Upkeep has
--               pause_source, requeue_parked, release_stale, refill, refill_all, waiting_since and
--               backlog. trouveur/db/queries/freshness.py is is_fresh.
--   Sources     trouveur/sources/base.py and errors.py: outcomes and failures; Sources/Board is
--               trouveur/sources/board.py (sweep_boards), Sources/Feed is trouveur/sources/feed.py
--               (sweep_feed), each over an adapter's functions; Sources/Client is
--               trouveur/sources/http.py: keys, spacing, retries and the reading of JSON
--   Ingest      trouveur/db/queries/ingest.py: upsert_jobs, ensure_facet_rows, touch_seen and the three
--               closing statements; Ingest/Blocks is block_history with the pauses of
--               trouveur/ingest/pipeline.py, Ingest/Pipeline its _sweep_source, _apply_lifecycle and
--               sweep_sources. Ingest/Archive is archive_documents and latest_documents, over the
--               documents of trouveur/models/raw.py; Ingest/Persist is trouveur/ingest/persist.py with
--               fresh_subset of trouveur/db/queries/jobs.py
--   Workers     trouveur/ingest/workers.py with the statements of trouveur/db/queries/jobs.py:
--               drain_derive, drain_dedup and drain_embed; Workers/Details is drain_detail, its
--               concurrent fetches a list of steps
--   Runs        the statements on pipeline_run in trouveur/db/queries/admin.py: enqueue_run,
--               claim_next_run, finish_run, request_cancel, fail_orphaned_runs and the progress of a
--               run; Runs/States has them as steps
--   Runner      trouveur/runner/service.py: the slot of the nightly run, _execute with the exceptions
--               that leave it, the verdict of a run and prepare_arrivals
--   Health      record_scope_health and prune_scope_health of trouveur/db/queries/admin.py
--   Scoring     _score_pending of trouveur/match/pipeline.py, with trouveur/match/rerank.py's affordable
--               and add_spend of trouveur/db/queries/users.py
--   Retrieval   trouveur/match/fuse.py, the fusing of trouveur/match/retrieve.py and the positions
--               of trouveur/match/recall.py
--   Matches     the statements on user_job_match in trouveur/db/queries/match.py
--   Timeline    step_spans of trouveur/web/timeline.py
--
-- A statement of SQL is a function from tables to tables, in the words of its Python function; its
-- WHERE is a Boolean test. A table is a list of rows in the order of insertion. Statements run one
-- after another; what other transactions hold locked is a parameter (Tx). A time is a number of
-- microseconds, and a difference of times that the code cannot make negative stops at 0.
--
-- Bounds and fuel. refill_all runs on fuel, which Queue/Refill gives a sufficient number for, and
-- what its rounds read off the clock is a function of the rounds that are left. The pages of
-- sweep_feed are bounded by the code itself (max_pages), and its batches by the number of
-- documents that wait, which Sources/Feed/Batching shows to be enough. chunks takes as many rounds
-- as there are elements. prepare_arrivals runs on fuel for its rounds, which the deadline bounds
-- (Runner/Waiting). A request makes as many attempts as its client allows.
--
-- Not modelled. httpx, the adapters of the single boards and PostgreSQL itself are not: an adapter,
-- a request, a clock, a parser and a model's answer are parameters. The sink does not fail in a
-- sweep, and a drainer is one transaction. A process that is stopped in the middle of a run (an
-- exception that is no Exception) is not. A score and a distance are of any type with a
-- comparison. The text rules that derive facets, the embedding of texts, the searches, discovery,
-- the reports, the rest of the web pages and the command line are left out.
mod Prelude
pub mod Db
pub mod Queue
pub mod Runs
pub mod Runner
pub mod Workers
pub mod Ingest
pub mod Health
pub mod Sources
pub mod Scoring
pub mod Retrieval
pub mod Matches
pub mod Timeline
