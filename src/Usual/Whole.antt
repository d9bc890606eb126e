-- ===== src/Usual/Whole.antt =====
-- The parser of ext/oj_windows/parser.c with the delegate of ext/oj_windows/usual.c, at a whole document.
use oj_windows.Base.{◌<◌, ◌≡◌, refl, ap, ◌∙◌, Bool, true, some, List, [], ◌∷◌, arith}
use oj_windows.Parser.State.{Parser, top_fun, ok, ◌>>=◌}
use oj_windows.Parser.Run.{parser_parse}
use oj_windows.Parser.Doc.{Json, IsJson, height, print, events}
use oj_windows.Parser.Doc.Whole.{IsReady, parser_parse-print}
use oj_windows.Parser.Replay.Whole.{parser_parse-replay}
use oj_windows.Usual.Ruby.{Ruby, Interner}
use oj_windows.Usual.State.{Col, Key, Options, Usual, default_options, oj_init_usual}
use oj_windows.Usual.Calls.{usual, start, result, react, react-call}
use oj_windows.Usual.Stage.{Stage}
use oj_windows.Usual.Value.{value, HasKeys, IsPlainOptions}
use oj_windows.Usual.Build.{top-IsOuter}
use oj_windows.Usual.Made.{value-Adds}

module _ {V : Type 0} (r : Ruby V) (i : Interner V) where
  open i use {Cache}

  -- A delegate with these options, between documents or behind one that has failed: whatever is on its
  -- stacks, they have room, the caches keep what they are for, and nothing has been yielded.
  abbrev pub IsSound : Options V → Usual V Cache → Type 0
  IsSound o d = (vs : List V) × (cs : List Col) × (ks : List Key) × Stage r i o vs cs ks d

  -- A delegate that has just been made.
  pub oj_init_usual-IsSound : (b : Bool) → IsSound (default_options r b) (oj_init_usual r i b)
  unfolding oj_init_usual
  oj_init_usual-IsSound b = (
    [],
    [],
    [],
    record {
      values = refl;
      cols = refl;
      keys = refl;
      options = refl;
      values_room = record { two = omega arith; within = omega arith };
      cols_room = record { two = omega arith; within = omega arith };
      keys_room = record { two = omega arith; within = omega arith };
      strings = i.create-Holds (λ s. r.freeze (r.utf8_str s)) true;
      symbols = tt;
      nothing = refl;
    },
  )

  start-Stage :
      (o : Options V) (d : Usual V Cache) → IsSound o d → Stage r i o [] [] [] (start r i d)
  unfolding start
  start-Stage o d (vs, cs, ks, s) = record {
    values = refl;
    cols = refl;
    keys = refl;
    options = s.options;
    values_room = record { two = s.values_room.two; within = omega arith };
    cols_room = record { two = s.cols_room.two; within = omega arith };
    keys_room = record { two = s.keys_room.two; within = omega arith };
    strings = s.strings;
    symbols = s.symbols;
    nothing = s.nothing;
  }

  result-single :
      {o : Options V} {cs : List Col} {ks : List Key} (v : V) (d : Usual V Cache)
      → Stage r i o (v ∷ []) cs ks d
      → result r i d ≡ ok v
  unfolding result
  result-single v d s = rw s.values refl

  -- For a document in the compact form of fewer than 1,024 levels and with keys of at most 32,000 bytes,
  -- a ready parser and a sound delegate that builds plain arrays and hashes and has no block, the parse
  -- returns, `result` is the document's value under the delegate's options, and the parser is ready and
  -- the delegate sound again.
  pub parser_parse-usual :
      (v : Json) (o : Options V) (p : Parser) (d : Usual V Cache)
      → IsJson v
      → height v < 1024
      → HasKeys v
      → IsReady p
      → IsPlainOptions o
      → IsSound o d
      → (q : Parser) × (e : Usual V Cache) × (parser_parse (usual r i) p d (print v)
          ≡ some (ok (q, e)))
        × (result r i e ≡ ok (value r o v))
        × IsReady q
        × IsSound o e
  parser_parse-usual v o p d j h k y plain s =
      let (q, y', f) = parser_parse-print v p [] j h y in
      let (e, g, t) =
        value-Adds r i plain v top_fun [] (top-IsOuter r i plain []) j k [] [] [] (start r i d)
          (start-Stage o d s) in
      (
        q,
        e,
        parser_parse-replay (react r i) (usual r i) (react-call r i) p q d (start r i d)
              (events top_fun [] v) (print v) refl f
            ∙ ap (λ x. some (x >>= λ e. ok (q, e))) g,
        result-single (value r o v) e t,
        y',
        (value r o v ∷ [], [], [], t),
      )
