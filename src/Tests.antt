-- ===== src/Tests.antt =====
-- Runs and instances at concrete inputs: a small vault, a graph library of fixed answers, and the
-- theorems applied to them.
pub mod Fixtures
pub mod Validation
mod Watching
mod Compiling
mod Serving
mod Running
mod Access
pub mod Tools
mod Starting
mod Threads
mod Service
