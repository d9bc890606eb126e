-- ===== src/Lib.antt =====
-- A model of the C extension in ext/oj_windows: the incremental JSON parser, the byte buffer that it
-- reads strings and keys into, the usual delegate that builds Ruby objects from its calls, the string
-- cache that both strings and keys come from, the array of objects by id that resolves circular
-- references, and the calendar arithmetic of its times.
--
-- The parser (ext/oj_windows/parser.c, parser.h) is a machine driven by tables: the byte at hand, looked
-- up in the table of the state, names a case of one switch. `parser_parse` resets the parser, starts the
-- delegate, runs `parse` over the text up to its NUL, and checks that the document is complete. A
-- delegate is a set of callbacks, one table for each kind of surrounding container. It is a parameter of
-- the model (`Delegate`): a function of the callback table, the callback, the parser it may read and its
-- own context. The delegate `tracer` records the calls with what a callback can read.
--
-- The usual delegate (ext/oj_windows/usual.c, usual.h) keeps a stack of values, a stack of open collections
-- and a stack of keys; a closing bracket takes what stands above its collection's mark and puts one array
-- or hash in its place. The functions of Ruby that it calls are a parameter, the record `Ruby` over a type of
-- values, and the string cache is the record `Interner`: operations and laws, which `Usual.Cached` fills by the
-- model of ext/oj_windows/cache.c. What an option puts in the parser's callback tables is kept in the
-- delegate's own `Options`, by name. The parser's calls reach the delegate by way of `tracer`: Parser/Replay
-- carries the recorded calls over to any delegate, so that Usual/Made needs the calls of a document only.
--
-- The safe delegate (ext/oj_windows/safe.c, safe.h) counts members of arrays and objects, checks its limits
-- and hands the call on to the usual delegate, whose state it has as its own first member.
--
-- The string cache (ext/oj_windows/cache.c) is a table of chains by hash, four times as large once it has more
-- than four slots for each chain. `locking_intern` is modelled in the two parts that it holds the lock for,
-- `look_up` and `enter`, since other threads may come between them.
--
-- Which file models what:
--   Parser/Tables and below: the tables and the action codes, byte by byte as in the source.
--   Parser/State: the struct `_ojParser`, the results of a call, and `parser_reset`.
--   Parser/Num: `calc_num`, `big_change` and the digit loops.
--   Parser/Unicode: `unicodeToUtf8`.
--   Parser/Step and below: one function for each case of the switch in `parse`; Step/Nest has separators
--     and brackets, Step/Digits numbers, Step/Text strings and keys, Step/Word the words null, true
--     and false. `dispatch` is the switch and `step` one pass of the loop.
--   Parser/Run: the loop on fuel, the end of the input, `validate_document_end` and `parser_parse`.
--   Parser/Stream: `parser_load` and `parser_file`, over what the reader and the file answer, and
--     `just_one`.
--   Parser/Trace: the recording delegate.
--   Parser/Doc: the specification, documents in the compact form, their text and the calls for them.
--   Parser/Replay: the same calls to every delegate: proofs.
--   Parser/Progress, Parser/Leads, Parser/Closed and the children of Parser/Doc: proofs.
--   Buf: the growing buffer of ext/oj_windows/buf.h; Buf/Append: proofs.
--   CircArray: ext/oj_windows/circarray.c; CircArray/Lookup and CircArray/Store: proofs.
--   Time: `sec_as_time` of ext/oj_windows/util.c; Time/Calendar: proofs.
--   Usual/Ruby: the parameters of usual.c; Usual/Stacks: the growing stacks; Usual/State: `struct _usual` and
--     `oj_init_usual`; Usual/Keys, Usual/Handlers, Usual/Close: the callbacks; Usual/Calls: the callback tables,
--     `start`, `result` and `mark`; Usual/Options and Usual/Option: the options;
--     Usual/Value: the value of a document, the specification; Usual/Cached: the caches.
--   The other children of Usual: proofs.
--   Safe: the delegate of ext/oj_windows/safe.c; its children: proofs.
--   Validate: the delegate of ext/oj_windows/validate.c.
--   Cache/Hash, Cache/Table, Cache/Intern, Cache/Mark: the hash, the table, interning and marking; the other
--     children of Cache: proofs.
--   Cells: arrays whose entries hold nothing until they are written.
--
-- State and outcomes: an operation takes the parser, the delegate's context, the position and the bytes
-- that are left, and gives `ok` with the new ones, `raised` with the exception, or `fault` for an access
-- outside an array or through a null pointer. A byte string is a list of numbers. Machine integers keep
-- their wrap-around: `num.fixnum` in 64 bits, `num.exp` in 16, `num.shift` in 8. A `long double` is kept
-- as the expression that the code evaluates, since its rounding is the machine's. In the parser the two
-- buffers are the lists that they hold; the buffer's own model has the array, its growth and the size
-- arithmetic in 64 bits. An `unsigned long`, an id of the array of objects, has the 32 bits of Windows.
--
-- Fuel: `run` has three passes for each byte and three more. A pass takes at least one byte, except a few
-- that change the table and look at the same byte again: a weight of the table, at most two, goes down with
-- each of those.
--
-- Ruby's values: an array or a hash stands for what it was made of, since usual.c writes nothing to one that it
-- has made; the functions that make strings, symbols, arrays and hashes are taken to return, and calls of
-- methods may raise. Memory is taken to be there.
--
-- Not modelled: freeing; options that are set on a safe delegate, which put usual callbacks back in
-- the tables; of usual.c, objects of a class named by create_id (close_object_create,
-- add_str_key_create, the resolution of class names and the options for them); the other delegates
-- (saj2.c, debug.c); the other parsers and writers of the extension (parse.c, fast.c, sparse.c, dump.c
-- and the modes on top of them); and the calls of the Ruby API.
pub mod Base
pub mod Buf
pub mod Cache
pub mod Cells
pub mod CircArray
pub mod Parser
pub mod Safe
pub mod Time
pub mod Usual
pub mod Validate
