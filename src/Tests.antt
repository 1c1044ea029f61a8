-- ===== src/Tests.antt =====
-- The theorems at concrete inputs, with the data that they use.
mod Data
mod Downloads
mod Resolving
mod Handlers
mod Texts
mod Limits
mod Accounts
mod Sockets
mod Web
mod Logins
mod Streams
mod Provided
