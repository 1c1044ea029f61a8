-- ===== src/Worker.antt =====
-- worker/worker.py: the download worker. `Client` is what the worker calls of the provider
-- (app/providers/alldebrid.py) and of the aria2 daemon (worker/downloader.py); a call that raises
-- answers `none` or `false`.
pub mod Client
pub mod Start
pub mod Resolve
pub mod Frame
pub mod Monitor
pub mod Cleanup
pub mod Loop
pub mod Skipped
pub mod Finished
