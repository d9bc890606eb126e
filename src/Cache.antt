-- ===== src/Cache.antt =====
-- The string cache of ext/oj_windows/cache.c: a hash table of the values that a function forms of short
-- keys, with chains, a list of slots to use again, and counters by which a mark drops what is not used.
pub mod Hash
pub mod Table
pub mod Intern
pub mod Mark
pub mod Chains
pub mod Sound
pub mod Grown
pub mod Forms
pub mod Hit
pub mod Ways
pub mod Interned
pub mod Swept
pub mod Left
mod Tests
