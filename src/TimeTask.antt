-- ===== src/TimeTask.antt =====
-- tools/task: repeated tasks by name.
pub mod Service
mod Laws
mod Samples
