-- ===== src/Parser/Trace.antt =====
-- A delegate that records its calls: what a callback of ext/oj_windows/parser.c can read, the key when
-- it is called for a member of an object.
use oj_windows.Base.{List, [], ◌∷◌, ◌++◌, Bytes}
use oj_windows.Base.Int.{ℤ}
use oj_windows.Parser.State.{
  Fun, top_fun, array_fun, object_fun, LongDouble, Parser, ok, Call, add_null, add_true, add_false,
  add_int, add_float, add_big, add_str, open_array, close_array, open_object, close_object,
  Delegate,
}

pub data Event : Type 0 where
  null true_value false_value array_end object_end array_start object_start : Event
  int : ℤ → Event
  float : LongDouble → Event
  big : Bytes → Event
  str : Bytes → Event

-- The event under its callback table. A member's first event comes with its key; the key of a
-- container's end is whatever key came last.
pub data Entry : Type 0 where
  top elem member_end : Event → Entry
  member : Bytes → Event → Entry

abbrev pub place : Fun → Bytes → Event → Entry
place top_fun k e = top e
place array_fun k e = elem e
place object_fun k e = member k e

abbrev pub place_end : Fun → Event → Entry
place_end top_fun e = top e
place_end array_fun e = elem e
place_end object_fun e = member_end e

abbrev pub event : Call → Parser → Event
event add_null p = null
event add_true p = true_value
event add_false p = false_value
event add_int p = int p.num.fixnum
event add_float p = float p.num.dub
event add_big p = big p.buf
event add_str p = str p.buf
event open_array p = array_start
event close_array p = array_end
event open_object p = object_start
event close_object p = object_end

abbrev pub entry : Fun → Call → Parser → Entry
entry fun close_array p = place_end fun array_end
entry fun close_object p = place_end fun object_end
entry fun f p = place fun p.key (event f p)

abbrev pub tracer : Delegate (List Entry)
tracer = record { call = λ fun f p c. ok (c ++ entry fun f p ∷ []); start = λ p c. ok [] }
