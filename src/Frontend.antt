-- ===== src/Frontend.antt =====
-- frontend/app.py: the web interface in front of the API. Templates, sessions and redirects are Flask's;
-- the children hold what the handlers decide.
pub mod Streaming
pub mod Submit
pub mod Login
pub mod Share
