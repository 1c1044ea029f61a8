-- ===== src/Lib.antt =====
-- A model of the core of AllDebrid Proxy: an API that takes magnet links and URLs, a worker that has
-- a debrid provider resolve them and the aria2 daemon download their files, and a database that the
-- two share.
--
-- How the parts interact. A client posts a source. The API validates it (app/validation.py), finds its
-- identifier (app/utils.py), names the task (app/task_naming.py) and writes a row with the status
-- QUEUED, unless a task for the source can be reused (app/api.py). The worker (worker/worker.py) takes
-- queued tasks, asks the provider for the files and lists them; it waits for a selection or selects
-- all, and starts downloads as space (worker/scheduler.py) and slots allow. A monitor thread watches
-- the files that are downloading, a cleanup thread removes old tasks. All of them commit to the same
-- tables and publish events.
--
-- Files and code.
-- - Base: shared names, lists, texts as lists of code points, results; Base.Unicode: the parameter for
--   the case and word tables of Unicode, with the documented behaviour on ASCII; Base.Decimal: `str`
--   and `int` of numbers; Base.Sorting: ORDER BY.
-- - Constants, Models: app/constants.py and the rows of app/models.py. `Db` holds the four tables that
--   are used, and `World` adds the events sent so far (`publish` of worker/scheduler.py).
-- - Validation.Names, .Ids, .Sources, .Paths: the validators of app/validation.py, one function each;
--   `Invalid` has a constructor for each message.
-- - TaskNaming, Identifiers: app/task_naming.py, and the identifiers of app/utils.py.
-- - Scheduler: worker/scheduler.py.
-- - Worker.Resolve, .Start, .Monitor, .Cleanup, .Loop: `resolve_task`, `start_next_files`,
--   `_progress_monitor_loop`, `_retention_cleanup_loop` and `worker_loop` of worker/worker.py.
--   Worker.Client is what they ask of the provider and the daemon, which answer as they like.
--   Worker.Frame and Worker.Skipped are about rows that a step leaves alone, Worker.Skipped.Runs about
--   whole runs, Worker.Finished and its child Pass about tasks whose files are all there.
-- - Provider: the provider's client, app/providers/alldebrid.py, over the JSON values of Provider.Values;
--   Provider.Tree has the format of its file lists, Provider.Links the use that the worker makes of it.
-- - Api.Tasks, Api.Uploads, Api.Users: the handlers of app/api.py that change tasks and users; Api.Errors
--   has the HTTP errors. Api.Tasks.Readers has the handlers that show tasks, Api.Stats the numbers of
--   the dashboard, and Api.Stream the event stream, whose loop is a step for each round.
-- - Auth: app/auth.py over `Keys`, the keys of Redis with their documented expiry.
-- - Frontend.Submit: `create_task` of frontend/app.py, the form that posts sources to the API, over a
--   `Backend` that Frontend.Submit.Again fills with the API; Frontend.Submit.Recorded has the bookkeeping
--   of the answers. Frontend.Streaming: the answer of `stream_video` to a range request. Frontend.Login:
--   the login with its rate limit, as one process of the frontend keeps it, and the first-time setup, on
--   top of the user handlers. Frontend.Share: the files that the file share lists and serves.
-- - RateLimiter: app/rate_limiter.py over `SortedSets`, the commands of Redis with their documented
--   effects; RateLimiter.Memory keeps these promises in memory.
-- - UserManager: app/user_manager.py, and how it agrees with the API and the monitor.
-- - WsManager: the registry of websockets of app/ws_manager.py.
-- - Tests: the theorems at concrete inputs.
--
-- State and errors. An operation takes a database or a world and returns the next one; what raises
-- returns an error and no new state. A row is found by its primary key, so an update changes the first
-- row with the key. Times and sizes are natural numbers; where the source subtracts and cuts off at 0,
-- so does the subtraction here, and where a negative number could occur the comparison is moved.
-- Of the database's constraints, an upload has the foreign key of the task's user; `create_task` of the API
-- is taken for users that have a row, as the one who is logged in to the frontend. The order of rows that an ORDER BY leaves open is a
-- parameter of `list_tasks`.
-- Floating-point percentages and speeds are parameters of which nothing is assumed.
--
-- Bounds. The polling loop of `resolve_task` is structural recursion on the rounds left, 240 at the
-- start, as in the source. `decimal` prints a number with fuel one above the number, which has fewer
-- digits than that. The chunks of a video are sent with fuel for the bytes that remain, and each chunk
-- has at least one byte. Every other loop is recursion on a list. What other processes commit while the
-- worker sleeps is an arbitrary function of the round and the world.
--
-- Not modelled: directories but for that of an upload, metadata files and logs; the Redis list
-- `queue:tasks`, which no part reads; the pages of the frontend that show what the API answers or pass
-- forms on to it; the archives of the file share; the aria2 client; configuration,
-- migrations and logging. A commit succeeds, but for that of the cleanup and that of an upload.
pub mod Base
pub mod Constants
pub mod Validation
pub mod TaskNaming
pub mod Models
pub mod World
pub mod Scheduler
pub mod Worker
pub mod Identifiers
pub mod Api
pub mod Auth
pub mod RateLimiter
pub mod UserManager
pub mod WsManager
pub mod Frontend
pub mod Provider
mod Tests
