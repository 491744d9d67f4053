-- ===== src/Lucslot.antt =====
-- tools/lucslot: the timing wheel of delayed tasks.
pub mod Wheel
mod Agenda
mod Seconds
mod Adding
mod Events
mod Dropped
mod Samples
