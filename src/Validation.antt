-- ===== src/Validation.antt =====
-- app/validation.py: the guards in front of every handler and of the worker. The children hold the
-- validators by what they check; the modules named Laws or after a property hold the proofs.
pub mod Invalid
pub mod Names
pub mod Ids
pub mod Sources
pub mod Paths
