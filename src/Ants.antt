-- ===== src/Ants.antt =====
-- tools/ants: the wrapper of the goroutine pool of panjf2000/ants.
pub mod Types
pub mod Pool
pub mod Options
pub mod Metrics
pub mod System
mod Accounting
mod Window
mod History
mod Extremes
pub mod Context
pub mod Func
mod Late
pub mod Global
mod Monitor
mod Samples
