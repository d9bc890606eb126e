-- ===== src/Parser/Replay.antt =====
-- ext/oj_windows/parser.c: a delegate sees the parser only through what its callbacks read. The calls
-- that `parse` makes are the same for every delegate, as long as it raises nothing.
pub mod Rules
pub mod Cases
pub mod Whole
