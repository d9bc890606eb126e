-- ===== src/Usual/Calls.antt =====
-- ext/oj_windows/usual.c as a delegate of the parser: the callback tables of `oj_init_usual` with what the
-- options put in them, `start`, `result` and `mark`.
use oj_windows.Base.{◌≡◌, refl, Option, none, some, List, [], ◌∷◌, ◌++◌, Bytes, if◌then◌else◌}
use oj_windows.Parser.State.{
  Fun, top_fun, array_fun, object_fun, Parser, Call, Result, ok, raised, Delegate, empty_string,
}
use oj_windows.Parser.Trace.{Event, Entry, entry, top, elem, member, member_end}
use oj_windows.Usual.Ruby.{Ruby, Interner}
use oj_windows.Usual.State.{Usual}
use oj_windows.Usual.Handlers.{
  push, push_member, open_object, open_object_key, open_array, open_array_key, add_float,
  add_float_key, add_big, add_big_key, add_str, add_str_key,
}
use oj_windows.Usual.Close.{close_object, close_object_class, close_array, close_array_class}

module _ {V : Type 0} (r : Ruby V) (i : Interner V) where
  open i use {Cache}

  -- `close_array` and `close_object` of all three tables.
  unfoldable pub ends_array : Usual V Cache → Result (Usual V Cache)
  unfolding close_array close_array_class
  ends_array d = if d.options.class_array then close_array_class r i d else close_array r i d

  unfoldable pub ends_object : Usual V Cache → Result (Usual V Cache)
  unfolding close_object close_object_class
  ends_object d = if d.options.class_hash then close_object_class r i d else close_object r i d

  -- p->funcs[TOP_FUN] and p->funcs[ARRAY_FUN].
  plain_call : Call → Parser → Usual V Cache → Result (Usual V Cache)
  unfolding push add_float add_big add_str open_array open_object ends_array
  plain_call Call.add_null p d = push r r.nil d
  plain_call Call.add_true p d = push r r.true_object d
  plain_call Call.add_false p d = push r r.false_object d
  plain_call Call.add_int p d = push r (r.long_num p.num.fixnum) d
  plain_call Call.add_float p d = add_float r d.options.decimal p.num.dub d
  plain_call Call.add_big p d = add_big r d.options.decimal p.buf d
  plain_call Call.add_str p d = add_str r i p.buf d
  plain_call Call.open_array p d = open_array r d
  plain_call Call.close_array p d = ends_array d
  plain_call Call.open_object p d = open_object r d
  plain_call Call.close_object p d = ends_object d

  -- add_null_key, or `noop`.
  unfoldable pub add_null_key : Bytes → Usual V Cache → Result (Usual V Cache)
  unfolding push_member
  add_null_key k d = if d.options.omit_null then ok d else push_member r k r.nil d

  -- p->funcs[OBJECT_FUN].
  key_call : Call → Parser → Usual V Cache → Result (Usual V Cache)
  unfolding push_member add_float_key add_big_key add_str_key open_array_key open_object_key
      ends_array
  key_call Call.add_null p d = add_null_key p.key d
  key_call Call.add_true p d = push_member r p.key r.true_object d
  key_call Call.add_false p d = push_member r p.key r.false_object d
  key_call Call.add_int p d = push_member r p.key (r.long_num p.num.fixnum) d
  key_call Call.add_float p d = add_float_key r d.options.decimal p.key p.num.dub d
  key_call Call.add_big p d = add_big_key r d.options.decimal p.key p.buf d
  key_call Call.add_str p d = add_str_key r i p.key p.buf d
  key_call Call.open_array p d = open_array_key r p.key d
  key_call Call.close_array p d = ends_array d
  key_call Call.open_object p d = open_object_key r p.key d
  key_call Call.close_object p d = ends_object d

  unfoldable pub usual_call : Fun → Call → Parser → Usual V Cache → Result (Usual V Cache)
  unfolding plain_call key_call
  usual_call object_fun f p d = key_call f p d
  usual_call _ f p d = plain_call f p d

  -- start: the stacks are emptied.
  unfoldable pub start : Usual V Cache → Usual V Cache
  start d = record d {
    values = record (d.values) { items = [] };
    cols = record (d.cols) { items = [] };
    keys = record (d.keys) { items = [] };
  }

  abbrev pub usual : Delegate (Usual V Cache)
  usual = record { call = usual_call; start = λ p d. ok (start d) }

  -- result: a single value, or an array of several.
  results : List V → Usual V Cache → Result V
  results [] d = if d.options.raise_on_empty then raised empty_string else ok r.nil
  results (v ∷ []) d = ok v
  results vs d = ok (r.array vs)

  unfoldable pub result : Usual V Cache → Result V
  unfolding results
  result d = results d.values.items d

  -- mark: what the caches mark, and the values on the stack that are not place holders.
  held : List V → List V
  held [] = []
  held (v ∷ vs) = if r.is_undef v then held vs else v ∷ held vs

  mark_symbols : Option Cache → Option Cache × List V
  mark_symbols none = (none, [])
  mark_symbols (some c) = let (e, vs) = i.mark c in (some e, vs)

  unfoldable pub mark : Usual V Cache → Usual V Cache × List V
  unfolding held mark_symbols
  mark d =
      let (s, vs) = i.mark d.str_cache in
      let (t, ws) = mark_symbols d.sym_cache in
      (record d { str_cache = s; sym_cache = t }, vs ++ (ws ++ held d.values.items))

  -- The callbacks read nothing that the recording delegate does not.
  unfoldable pub react_plain : Event → Usual V Cache → Result (Usual V Cache)
  unfolding push add_float add_big add_str open_array open_object ends_array
  react_plain Event.null d = push r r.nil d
  react_plain Event.true_value d = push r r.true_object d
  react_plain Event.false_value d = push r r.false_object d
  react_plain (Event.int n) d = push r (r.long_num n) d
  react_plain (Event.float x) d = add_float r d.options.decimal x d
  react_plain (Event.big s) d = add_big r d.options.decimal s d
  react_plain (Event.str s) d = add_str r i s d
  react_plain Event.array_start d = open_array r d
  react_plain Event.array_end d = ends_array d
  react_plain Event.object_start d = open_object r d
  react_plain Event.object_end d = ends_object d

  unfoldable pub react_key : Bytes → Event → Usual V Cache → Result (Usual V Cache)
  unfolding push_member add_float_key add_big_key add_str_key open_array_key open_object_key
      ends_array
  react_key k Event.null d = add_null_key k d
  react_key k Event.true_value d = push_member r k r.true_object d
  react_key k Event.false_value d = push_member r k r.false_object d
  react_key k (Event.int n) d = push_member r k (r.long_num n) d
  react_key k (Event.float x) d = add_float_key r d.options.decimal k x d
  react_key k (Event.big s) d = add_big_key r d.options.decimal k s d
  react_key k (Event.str s) d = add_str_key r i k s d
  react_key k Event.array_start d = open_array_key r k d
  react_key k Event.array_end d = ends_array d
  react_key k Event.object_start d = open_object_key r k d
  react_key k Event.object_end d = ends_object d

  unfoldable pub react : Entry → Usual V Cache → Result (Usual V Cache)
  unfolding react_plain react_key
  react (top e) d = react_plain e d
  react (elem e) d = react_plain e d
  react (member_end e) d = react_plain e d
  react (member k e) d = react_key k e d

  pub react-call :
      (fun : Fun) (f : Call) (p : Parser) (d : Usual V Cache)
      → usual_call fun f p d ≡ react (entry fun f p) d
  unfolding usual_call react plain_call key_call react_plain react_key
  react-call top_fun Call.add_null p d = refl
  react-call top_fun Call.add_true p d = refl
  react-call top_fun Call.add_false p d = refl
  react-call top_fun Call.add_int p d = refl
  react-call top_fun Call.add_float p d = refl
  react-call top_fun Call.add_big p d = refl
  react-call top_fun Call.add_str p d = refl
  react-call top_fun Call.open_array p d = refl
  react-call top_fun Call.close_array p d = refl
  react-call top_fun Call.open_object p d = refl
  react-call top_fun Call.close_object p d = refl
  react-call array_fun Call.add_null p d = refl
  react-call array_fun Call.add_true p d = refl
  react-call array_fun Call.add_false p d = refl
  react-call array_fun Call.add_int p d = refl
  react-call array_fun Call.add_float p d = refl
  react-call array_fun Call.add_big p d = refl
  react-call array_fun Call.add_str p d = refl
  react-call array_fun Call.open_array p d = refl
  react-call array_fun Call.close_array p d = refl
  react-call array_fun Call.open_object p d = refl
  react-call array_fun Call.close_object p d = refl
  react-call object_fun Call.add_null p d = refl
  react-call object_fun Call.add_true p d = refl
  react-call object_fun Call.add_false p d = refl
  react-call object_fun Call.add_int p d = refl
  react-call object_fun Call.add_float p d = refl
  react-call object_fun Call.add_big p d = refl
  react-call object_fun Call.add_str p d = refl
  react-call object_fun Call.open_array p d = refl
  react-call object_fun Call.close_array p d = refl
  react-call object_fun Call.open_object p d = refl
  react-call object_fun Call.close_object p d = refl
