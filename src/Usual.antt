-- ===== src/Usual.antt =====
-- The usual delegate of ext/oj_windows/usual.c, which builds Ruby objects from the parser's calls.
pub mod Ruby
pub mod Stacks
pub mod State
pub mod Keys
pub mod Handlers
pub mod Close
pub mod Calls
pub mod Stage
pub mod Kept
pub mod Ends
pub mod Value
pub mod Facts
pub mod Build
pub mod Made
pub mod Whole
pub mod Cached
pub mod Options
pub mod Option
pub mod Set
pub mod Dangling
pub mod Objects
mod Tests
