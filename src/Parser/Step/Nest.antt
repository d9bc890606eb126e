-- ===== src/Parser/Step/Nest.antt =====
-- ext/oj_windows/parser.c, parse: blanks, separators and brackets.
use oj_windows.Base.{ℕ, ◌+◌, ◌-◌, not, ◌&&◌, ◌||◌, Bytes, ltb, ◌==◌, if◌then◌else◌}
use oj_windows.Base.Int.{pos, ◌+ℤ◌, ◌-ℤ◌}
use oj_windows.Parser.Tables.{Map, at_value, at_comma, at_key, at_key1}
use oj_windows.Parser.State.{
  array_fun, object_fun, Parser, Message, unexpected_object_close, unexpected_array_close, Result,
  ok, ◌>>=◌, open_array, close_array, open_object, close_object, Delegate, invoke, parse_error,
  push_fun,
}
use oj_windows.Parser.Num.{calc_num}
use oj_windows.Parser.Step.Loop.{Machine, machine, skip_space, moved, is_object, is_array, map_at}

-- The error of a closing bracket; the column is counted from the last newline.
abbrev close_error : {C : Type 0} → Parser → ℕ → Message → Result (Machine C)
close_error p i m = parse_error (record p { col = pos i -ℤ p.col +ℤ pos 1 }) m

-- The table that follows a comma.
abbrev pub comma_to : Parser → Map
comma_to p = if ltb 0 p.depth && is_object (p.stack p.depth) then at_key else at_comma

module _ {C : Type 0} (d : Delegate C) where
  unfoldable pub skip_newline : Parser → C → ℕ → Bytes → Result (Machine C)
  skip_newline p c i bs =
      let left = skip_space bs in
      ok (machine (record p { line = p.line + 1; col = pos i }) c (moved (i + 1) bs left) left)

  unfoldable pub after_comma : Parser → C → ℕ → Bytes → Result (Machine C)
  after_comma p c i bs = ok (machine (record p { map = comma_to p }) c (i + 1) bs)

  unfoldable pub num_comma : Parser → C → ℕ → Bytes → Result (Machine C)
  num_comma p c i bs = do
    (q, c') ← calc_num d (record p { cur = i }) c
    ok (machine (record q { map = comma_to q }) c' (i + 1) bs)

  unfoldable pub open_object_step : Parser → C → ℕ → Bytes → Result (Machine C)
  unfolding invoke push_fun
  open_object_step p c i bs = do
    c' ← invoke d open_object (record p { cur = i }) c
    q ← push_fun object_fun (record p { cur = i })
    ok (machine (record q { map = at_key1 }) c' (i + 1) bs)

  unfoldable pub open_array_step : Parser → C → ℕ → Bytes → Result (Machine C)
  unfolding invoke push_fun
  open_array_step p c i bs = do
    c' ← invoke d open_array (record p { cur = i }) c
    q ← push_fun array_fun (record p { cur = i })
    ok (machine (record q { map = at_value }) c' (i + 1) bs)

  unfoldable pub close_object_step : Parser → C → ℕ → Bytes → Result (Machine C)
  unfolding invoke
  close_object_step p c i bs =
      if (p.depth == 0) || not (is_object (p.stack p.depth))
      then close_error (record p { map = map_at 1 p }) i unexpected_object_close
      else (do
        c' ← invoke d close_object (record p { map = map_at 1 p; depth = p.depth - 1; cur = i }) c
        ok (machine (record p { map = map_at 1 p; depth = p.depth - 1; cur = i }) c' (i + 1) bs))

  unfoldable pub close_array_step : Parser → C → ℕ → Bytes → Result (Machine C)
  unfolding invoke
  close_array_step p c i bs =
      if (p.depth == 0) || not (is_array (p.stack p.depth))
      then close_error (record p { map = map_at 1 p }) i unexpected_array_close
      else (do
        c' ← invoke d close_array (record p { map = map_at 1 p; depth = p.depth - 1; cur = i }) c
        ok (machine (record p { map = map_at 1 p; depth = p.depth - 1; cur = i }) c' (i + 1) bs))

  -- NUM_CLOSE_OBJECT and NUM_CLOSE_ARRAY flow through to the cases above.
  unfoldable pub num_close_object : Parser → C → ℕ → Bytes → Result (Machine C)
  num_close_object p c i bs = do
    (q, c') ← calc_num d (record p { cur = i }) c
    close_object_step q c' i bs

  unfoldable pub num_close_array : Parser → C → ℕ → Bytes → Result (Machine C)
  num_close_array p c i bs = do
    (q, c') ← calc_num d (record p { cur = i }) c
    close_array_step q c' i bs

  unfoldable pub num_spc : Parser → C → ℕ → Bytes → Result (Machine C)
  num_spc p c i bs = do (q, c') ← calc_num d (record p { cur = i }) c; ok (machine q c' (i + 1) bs)

  -- The line and the column stay as they are.
  unfoldable pub num_newline : Parser → C → ℕ → Bytes → Result (Machine C)
  num_newline p c i bs = do
    (q, c') ← calc_num d (record p { cur = i }) c
    let left = skip_space bs
    ok (machine q c' (moved (i + 1) bs left) left)
