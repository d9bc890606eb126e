-- ===== src/Usual/Keys.antt =====
-- ext/oj_windows/usual.c: the key stack, and how a key becomes a Ruby string or symbol.
use oj_windows.Base.{ℕ, Bytes, Option, none, some, ltb, length, if◌then◌else◌}
use oj_windows.Parser.State.{Result, ok, raised, fault, ◌>>=◌, key_too_long}
use oj_windows.Usual.Ruby.{Ruby, Interner}
use oj_windows.Usual.Stacks.{grow, put}
use oj_windows.Usual.State.{
  Key, inline, copied, GetKey, cache_key, str_key, sym_key, KeyCache, of_strings, of_symbols, Usual,
}

-- sizeof(kp->buf).
abbrev pub key_room : ℕ
key_room = 30

abbrev pub max_key : ℕ
max_key = 32000

unfoldable pub key_of : Bytes → Key
key_of k = if ltb (length k) key_room then inline k else copied k

-- The bytes of a key, where its length says that they are.
unfoldable pub key_text : Key → Result Bytes
key_text (inline k) = if ltb (length k) key_room then ok k else fault
key_text (copied k) = if ltb (length k) key_room then fault else ok k

-- push_key.
unfoldable pub push_key : {V S : Type 0} → Bytes → Usual V S → Result (Usual V S)
unfolding key_of
push_key k d =
    if ltb max_key (length k)
    then raised key_too_long
    else do s ← put (key_of k) (grow 0 d.keys); ok (record d { keys = s })

module _ {V : Type 0} (r : Ruby V) (i : Interner V) where
  open i use {Cache, intern}

  -- `cache_intern(d->key_cache, ...)`, where a cache that is no longer there is a fault.
  unfoldable pub symbol_key : Option Cache → Bytes → Usual V Cache → Result (V × Usual V Cache)
  symbol_key none k d = fault
  symbol_key (some c) k d = do (v, e) ← intern c k; ok (v, record d { sym_cache = some e })

  unfoldable pub cached_key : KeyCache → Bytes → Usual V Cache → Result (V × Usual V Cache)
  unfolding symbol_key
  cached_key of_strings k d = do (v, e) ← intern d.str_cache k; ok (v, record d { str_cache = e })
  cached_key of_symbols k d = symbol_key d.sym_cache k d

  unfoldable pub form_key : GetKey → KeyCache → Bytes → Usual V Cache → Result (V × Usual V Cache)
  unfolding cached_key
  form_key cache_key c k d = cached_key c k d
  form_key str_key c k d = ok (r.freeze (r.utf8_str k), d)
  form_key sym_key c k d = ok (r.freeze (r.str_intern (r.utf8_str k)), d)

  -- `d->get_key(p, kp)`.
  unfoldable pub get_key : Key → Usual V Cache → Result (V × Usual V Cache)
  unfolding form_key key_text
  get_key k d = key_text k >>= λ t. form_key d.options.get_key d.options.key_cache t d
