-- ===== src/Parser.antt =====
-- ext/oj_windows/parser.c: the incremental parser.
pub mod Tables
pub mod State
pub mod Unicode
pub mod Num
pub mod Step
pub mod Run
pub mod Trace
pub mod Progress
pub mod Leads
pub mod Closed
pub mod Replay
pub mod Stream
pub mod Doc
mod Tests
