-- ===== src/Api.antt =====
-- app/api.py: the handlers for tasks and users, behind the worker key (app/auth.py).
pub mod Errors
pub mod Tasks
pub mod Stats
pub mod Stream
pub mod Uploads
pub mod Users
