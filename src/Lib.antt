-- ===== src/Lib.antt =====
-- CineForge: the coordination core of a local video production service, in Python. Workers take
-- rendering jobs from a queue in the database and submit them to ComfyUI; voice previews and video
-- work share the GPU through leases; planning runs are executed by workers that hold a lease on
-- them; a headless orchestrator runs development tasks in a bounded number of worker processes; and
-- a storyboard and its managed media are what a user plans with.
-- What is modelled is the state that these parts keep in the database and every change of it.
--
-- The files:
--
-- Prelude (children Tests, Lists, Json, Session): names that all files share, lists measured by
--   native numbers, JSON values, and calls on a database session: a session sees its own
--   uncommitted changes (`db`), other sessions what is committed (`durable`).
-- Queue: the render queue.
--   States, Status and Machine are backend/app/queue/state_machine.py and the column values of
--   backend/app/db/base.py: `JobState`, `VALID_TRANSITIONS`, `transition`. Transitions is about
--   histories of changes. Store has the rows and the session. Service and Recovery are
--   `claim_next_pending_job`, `heartbeat_job`, `transition_job`, `reserve_job` and
--   `recover_stale_reserved_jobs` of backend/app/services/queue/service.py, Readiness its
--   `evaluate_submission_readiness`; Worker is backend/app/services/queue/worker.py, and Submission
--   backend/app/services/comfy/submission.py. Kept is about one operation and Lawful about sequences of them.
--   The worker and the submission call the service, which calls the state machine.
-- Leases: backend/app/services/runtime/gpu_leases.py, with the two partial unique indexes of the
--   table. Exclusion, Outcomes, Heartbeats and Handover are about sequences of calls.
-- Planning: States is backend/app/services/planning/state_machine.py, Tables the rows, Repository
--   the leases, runs, steps and events of backend/app/services/planning/repository.py, and Engine
--   `claim_run` and `cancel_run` of backend/app/services/planning/engine.py; Executor is the registry
--   of backend/app/services/planning/executor.py.
-- Assets: backend/app/services/reference_assets.py. Bytes has Python's reads of a byte string, with
--   the exceptions they raise, and Images `_png_dimensions`, `_jpeg_dimensions`, `_webp_dimensions`
--   and `_image_dimensions` (Total and RoundTrip are about them). Uri is `build_managed_uri` and
--   `resolve_managed_path`, Policy `KIND_POLICY` and the checks of an upload, Rows the tables and
--   their queries, World a session together with the files, which no rollback brings back, and Store
--   the operations: Uploads (`upload_asset`, `upload_asset_from_fileobj`), Approvals (`transition_starting_image_approval`,
--   `archive_asset`, `delete_asset`, `open_asset_for_stream`) and Links (`link_character_reference`,
--   `unlink_character_reference`). Its other children are about the rows that they leave.
-- Storyboard: Order is `_reindex_active_siblings` of backend/app/services/storyboard.py, and
--   Order/Reordering the part of its `reorder` from the test on the identities to the second flush.
-- Headless: Tasks, Ledger and Controller are models.py, ledger.py and `run_task` of controller.py in
--   scripts/headless_orchestrator.
-- Routing: backend/app/services/planning/profiles.py and routing.py, which the execution loop of
--   planning calls for each task and each repair.
-- The modules called Tests run the definitions on small databases.
--
-- Conventions: identifiers and instants are natural numbers, and the instant that a call reads from
-- the clock is its argument. A query without an order returns rows in the order of the table. A row
-- is named by its identifier, so that an attribute assignment is an update of that row. What other
-- sessions commit in the middle of a call is an argument where the code reads or writes around it:
-- `meanwhile` of a submission and of the acquisition of a GPU lease. One definition runs on fuel,
-- the loop over the segments of a JPEG, with as many rounds as there are bytes: each round moves the
-- offset forward, so that is enough, as Images/Total shows. Any other loop of the source is over a
-- list that it has read, and `run_batch` over its own limit.
--
-- Arguments that stand for other code: the handler of a queue worker, the ComfyUI adapter, the
-- check of a workflow template, the sanitizers of messages, what the headless orchestrator's
-- worker process, worktree and tests do, and for assets the file system's links, file names, MIME
-- types, hashing, Pillow and the wave module (`Host`), and whether the database or the disk fails while
-- an upload or a change is written (`Moment`). `arrange` is the order in which the object
-- mapper writes the rows of a flush. The theorems hold for all of them.
--
-- Not modelled: the rest of the storyboard, proposals, voice design, workflow templates and the
-- execution loop of planning; clients of the network, files and processes; HTTP routes, schemas,
-- migrations and the user interface. Texts are not shortened to the width of their columns. Of the
-- commits of assets those of an upload and of a recorded change can fail, not those of a deletion or
-- of a link.
pub mod Prelude
pub mod Queue
pub mod Leases
pub mod Planning
pub mod Assets
pub mod Storyboard
pub mod Headless
pub mod Routing
