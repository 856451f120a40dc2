-- ===== src/Lib.antt =====
-- Verification of why-combinator: the control plane of a hackathon simulation, in which hacker agents
-- hand in submissions to the runs of a challenge, a scheduler has them scored at checkpoints, and the
-- accepted ones are ranked.
--
-- The program is a set of services over two stores: a SQL database, whose rows are the classes of
-- app/db/models.py, and a Redis server for locks, times and caches. A component is a function from
-- what it reads of the two to what it returns and what it leaves in them; exceptions are values
-- (`Outcome` of Prelude.Results), so that every branch has its result.
--
-- Prelude holds the tests, lists, sorting and member lemmas that all parts share. Platform holds the
-- interfaces of what the program calls, as records of operations with laws:
--   Platform.Sql     a table is the list of its rows; a query returns exactly the rows that pass its
--                    clause, in an order that the engine chooses
--   Platform.Redis   keys and values, with reads that find what was last written
--   Platform.Hashes  Redis hashes, whose listing has exactly the fields that are set
--   Platform.Json    JSON values as data
--   Platform.Uuids   uuids and their texts
--   Platform.Floats  Python's floats, without NaN and with 0.0 and -0.0 as one value
-- Each interface has an instance, with which the examples compute. Db holds the rows, the states
-- (app/db/enums.py), and what changing loaded rows does to a table whose id is a key (Db.Tables).
--
-- Parts of the program:
--   Validation.RunState         app/validation/run_state_machine.py
--   Validation.SubmissionState  app/validation/submission_state_machine.py
--     The tables of legal transitions, the guard, and the time stamps that a transition writes.
--   Orchestrator.SubagentGraph  app/orchestrator/subagent_graph.py
--     The adjacency of a run's edges, the breadth-first search, and the insertion that it guards.
--   Scheduler.LeaderElection    app/scheduler/leader_election.py
--   Scheduler.FairOrder, Interval, Checkpoints   app/scheduler/checkpoints.py
--     A tick: election, heartbeat, query, due runs, fair order, limit, next times. What is handed to
--     Celery is the list that the tick returns.
--   Scheduler.RunTimeout        app/scheduler/run_timeout.py
--   Scheduler.Heartbeat         app/scheduler/heartbeat.py, which runs the tick of Checkpoints
--   Scoring.Penalties           app/scoring/penalties.py
--   Scoring.FinalScore          app/scoring/final_score.py
--   Scoring.FrozenScores, Replay   app/scoring/replay.py, which composes stored scores again
--   Scoring.Events              app/scoring/events.py, over Db.Idempotency (app/db/idempotency.py)
--   Db.ConfigTimeline           app/db/config_timeline.py
--   Judging.Versioning          app/judging/versioning.py
--   Judging.Bootstrap           app/orchestrator/judge_bootstrap.py, which takes the snapshots
--   Judging.RunStart            app/orchestrator/run_validation.py
--   Leaderboard.Cache           app/leaderboard/cache.py
--   Leaderboard.Materializer    app/leaderboard/materializer.py, which writes the cache; what an entry
--     has to show, and before which entries, is told in Materializer.Shown and Order
--     without its functions
--   Leaderboard.Segments, Api   app/api/leaderboard.py, which reads entries and cache, and writes the
--     snapshots that its cursors point to
--   Orchestrator.RunCompletion  app/orchestrator/run_completion.py, which uses the two state machines,
--     Scoring.Penalties and Leaderboard.Materializer
--   Orchestrator.SpawnPolicy    app/orchestrator/spawn_policy.py
--   Orchestrator.Admission      app/orchestrator/admission.py
--   Orchestrator.SubagentQuota  app/orchestrator/subagent_quota.py
--   Events.Outbox               app/events/outbox.py
--   Auth.Quotas                 app/auth/quotas.py
--   Queue.Budget                app/queue/budget.py
--   Queue.Dedup                 app/queue/dedup.py
--   Queue.Recovery              app/queue/recovery.py, and the tasks of app/queue/jobs.py that use it
--   Queue.Backfill              app/queue/checkpoint_backfill.py, and its task of app/queue/jobs.py
--   Storage.Presign             app/storage/presign.py
--   Sandbox.Concurrency         app/sandbox/concurrency.py, and the steps of workers that use it
-- Functions have the names of the source, without a leading underscore; a loop is a function of its
-- own. The files under a module that are named for a property hold proofs, Examples the runs.
--
-- Fuel: the search of a graph has one unit for every entry and neighbor of the adjacency and one more
-- (`search_fuel`), and the fair order one unit for every queue and queued run (`weight`); that this is
-- enough is proved (`has_path_decides`, `fair_order_complete`). A client that follows cursors asks at
-- most once for each row (`pages_show_leaderboard`). All other loops run over a list.
--
-- Conventions: a `datetime` is a number of microseconds since the start of the year 1, in UTC; a uuid
-- is its number. The values of environment variables, `datetime.now`, new ids, digests, the semantic
-- summary of a submission and the answers of Celery's inspection are arguments. Redis keys and JSON
-- texts are data with a constructor for each form that the code distinguishes. A command of Redis takes
-- effect or does not; keys that expire between two commands are outside of a step, so a theorem on the
-- keys of Events.Outbox or Queue.Dedup supposes where it starts that they are as it says. A session
-- flushes before each query, as SQLAlchemy's does by default, with the unique and foreign keys that a
-- component's error depends on, and what is not committed is lost.
--
-- Integers that the source allows to be negative are natural numbers where a negative value acts as 0
-- does, and of the type of Prelude.Integers where the source clamps them.
--
-- Not modelled: the other HTTP routes (app/api), the other Celery tasks (app/queue/jobs.py,
-- app/orchestrator/jobs.py), how components are scored at a checkpoint (the rest of app/scoring), the
-- sandbox, the validators of artifacts, object storage, ingestion, and the clients of other services. They call
-- the parts above, run other programs, or filter texts.
pub mod Prelude
pub mod Platform
pub mod Db
pub mod Validation
pub mod Orchestrator
pub mod Sandbox
pub mod Scheduler
pub mod Leaderboard
pub mod Events
pub mod Scoring
pub mod Judging
pub mod Auth
pub mod Queue
pub mod Storage
