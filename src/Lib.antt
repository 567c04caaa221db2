-- ===== src/Lib.antt =====
-- Wanderbound turns the export of a travel diary into a printed album. This library models the
-- backend's own decisions: how photos are put on pages, how an album is divided into chapters, how
-- a new upload is fitted to an album that the user has edited, how an archive is imported, how its
-- trips are divided into movements and saved, and how the processing of an upload is recorded and
-- followed. Databases, files, web services and the browser that renders pages are outside of it:
-- what the code asks of them is an argument of the definitions.
--
-- The parts, and the files that model them:
--   * Layout: backend/app/logic/layout/builder.py. `build_pages` puts the portraits and landscapes
--     of a step on pages, with the number of mixed pages that `optimal_mixed_count` searches for.
--     Layout/Step.antt is `build_step_layout`, which chooses the cover.
--   * Chapters: backend/app/logic/chapters.py and album_scope.py. The checks of an update
--     (Chapters.antt), the update (Chapters/Update.antt), and what is printed with one chapter
--     (Chapters/Scope.antt).
--   * Reconcile: backend/app/logic/reconcile.py. One step (Reconcile.antt), the steps that are new
--     (Reconcile/Assignment.antt), the covers of chapters (Reconcile/Covers.antt). It changes the
--     pages that Layout built and the chapters that Chapters checks.
--   * Operations: backend/app/logic/processing_operations.py with the tables of
--     backend/app/models/processing.py. The statuses (Operations.antt), the event rows and the loop
--     of backend/app/logic/workflows/processing.py that appends them (Operations/Events.antt), and
--     the loop of backend/app/logic/session.py that a client follows them by (Operations/Poll.antt).
--     Operations/Workflow.antt is the end of the workflow.
--   * StepMedia: backend/app/logic/step_media.py with the tables of backend/app/models/album_media.py.
--     The rows of a layout and what is read from them (StepMedia.antt); the tables are those of one
--     album. `ORDER BY` is a stable sort for each column, the last one first.
--     StepMedia/Replace.antt is the replacement of the layout of a step.
--   * Tokens: backend/app/core/tokens.py, and Uploads: backend/app/logic/uploads/capacity.py.
--   * Imports: the upload session of an archive. Imports.antt has the row and the requests that change
--     it, of backend/app/api/v1/routes/uploads.py and backend/app/logic/uploads/cleanup.py;
--     Imports/Steps.antt the steps of backend/app/logic/workflows/uploads.py. A request, and a step
--     that ends the upload, reads the row in one action and writes it in a later one
--     (Imports/Transitions.antt), so that others may come in between. The workflow that calls the
--     steps, and the engine that repeats them, are not modelled.
--   * Folders: `replace_folder_once` of backend/app/logic/uploads/finalize.py, as a machine that makes
--     one change to the disk at a time and can be stopped between any two, or within a removal. It
--     needs at most seven changes from its start.
--   * Trips: backend/app/logic/trip_processing.py, the ranges of dates, the countries of steps at sea,
--     the time zone of a segment, the media and the first chapter of an album. Distances and the
--     calendar are arguments.
--   * Pipeline: backend/app/logic/trip_pipeline.py, the events of a run and the save of its rows. The
--     seven tables are one list of rows; the delete of an album takes its rows with it.
--   * Segments: backend/app/logic/spatial/segments.py with the thresholds of
--     backend/app/logic/spatial/segment_rules.py, up to the runs that are left by the validation.
--     Distances are whole metres and times whole seconds, where the program has floats.
--   * Matching: backend/app/logic/media_upgrade/phash_matching.py. The bipartite matching of the
--     library is an argument, whose promise is a record of hypotheses (Matching/Optimal.antt).
--   * Routes: Routes.antt, Routes/Plan.antt and Routes/Execution.antt have the plan, the budget and
--     the requests of backend/app/services/mapbox.py; Routes/Enrichment.antt and Routes/Workflow.antt
--     the rows and the workflow of backend/app/logic/segment_routes.py; Routes/Answers.antt the requests
--     for the parts of a route and what is made of their answers. The answers of the map
--     service, the lock and the exceptions of each round are arguments. The workflow's fuel is the
--     number of its rounds, one more than the segments that are left.
--   * MediaHashes: backend/app/logic/workflows/media_hashes.py. MediaHashes.antt has the candidates,
--     the conditional writes and the batches of a run, MediaHashes/Targets.antt the albums that are to
--     be hashed, MediaHashes/Enqueue.antt the start of the runs. The files, the hashes and the workflow
--     engine are arguments, and so is what others change between two batches.
--   * MatchRun: `run_matching` of backend/app/logic/media_upgrade/matching.py, the events of a run over
--     photos and picked items, with the matching of Matching.antt. The hashes and the order in which
--     they are computed are arguments.
--   * Prelude: lists measured by native numbers, Boolean equality as an interface, lists read as
--     sets and multisets, a stable sort. Tests: runs at concrete inputs.
--
-- How the code is rendered:
--   * A function is a function by clauses. A failed lookup is `none`, a raised error a value of a
--     result type. Shared objects that a function changes are returned instead.
--   * A Python set is a list that is only asked for membership, or sorted. Where the code takes any
--     element of a set, the head of the list stands for it.
--   * A SQL statement is one atomic step on the list of a table's rows; the database's current time
--     is an argument. Concurrent requests are sequences of such steps.
--   * `ceil` of a quotient is integer division. Aspect ratios are compared by cross-multiplication,
--     which is what the division of doubles gives for sides below 2^26 pixels. Timestamps and dates
--     are compared only, and stand as natural numbers.
--   * The batches of a list are taken with the length of the list as fuel, and each batch is not
--     empty, so the fuel is enough.
--   * Sums and lengths in floating point, the change of settings by the ORM, and the conversion of
--     events to JSON are parameters; that an event can be read back from its JSON is a hypothesis
--     where it is used.
--
-- Not modelled: the numeric filters on tracks, the partition of movements into traces and their
-- simplification, the workflow that calls the steps of an import and the engine that repeats steps,
-- geometry of panoramas, image and video files, the retention of video posters, the
-- object store, the other web services, the API routes but for those of an upload, migrations and the
-- frontend.
mod Prelude
pub mod Layout
pub mod Chapters
pub mod Reconcile
pub mod Operations
pub mod StepMedia
pub mod Tokens
pub mod Uploads
mod Tests
pub mod Imports
pub mod Folders
pub mod Trips
pub mod Pipeline
pub mod Segments
pub mod Matching
pub mod Routes
pub mod MediaHashes
pub mod MatchRun
