-- ===== src/Usual/Dangling.antt =====
-- ext/oj_windows/usual.c, opt_symbol_keys_set: the symbol cache is freed and `key_cache` is not reset.
use oj_windows.Base.{◌≡◌, refl, ap, ◌∙◌, true, false, none, Bytes, if◌then◌else◌}
use oj_windows.Parser.State.{ok, fault, ◌>>=◌}
use oj_windows.Usual.Ruby.{Ruby, Interner}
use oj_windows.Usual.State.{
  GetKey, cache_key, str_key, sym_key, KeyCache, of_strings, of_symbols, Usual,
}
use oj_windows.Usual.Keys.{key_of, get_key, form_key, cached_key, symbol_key}
use oj_windows.Usual.Options.{symbol_keys_set}
use oj_windows.Usual.Kept.{key_text-key_of}

module _ {V : Type 0} (r : Ruby V) (i : Interner V) where
  open i use {Cache}

  freed :
      (g : GetKey) (c : KeyCache) (k : Bytes) (e : Usual V Cache)
      → g ≡ cache_key
      → c ≡ of_symbols
      → e.sym_cache ≡ none
      → form_key r i g c k e ≡ fault
  unfolding form_key cached_key symbol_key
  freed cache_key of_symbols k e p q n = ap (λ x. symbol_key r i x k e) n
  freed cache_key of_strings k e p q n = cc
  freed str_key c k e p q n = cc
  freed sym_key c k e p q n = cc

  -- Where keys come from the symbol cache, as they do once symbol_keys has been set with cache_keys on,
  -- setting symbol_keys to anything but true and with cache_keys still on returns, and every key that is
  -- made into a Ruby value after that is looked up in the cache that has been freed.
  pub symbol_keys-dangling :
      (v : V) (d : Usual V Cache) (k : Bytes)
      → r.is_true v ≡ false
      → d.options.cache_keys ≡ true
      → d.options.get_key ≡ cache_key
      → d.options.key_cache ≡ of_symbols
      → (e : Usual V Cache) × (symbol_keys_set r i v d ≡ ok (r.false_object, e))
        × (get_key r i (key_of k) e ≡ fault)
  unfolding symbol_keys_set get_key
  symbol_keys-dangling v d k t on g c =
      let o = d.options in
      let e = record d {
        sym_cache = none;
        options = record o { get_key = if o.cache_keys then o.get_key else str_key };
      } in
      (
        e,
        rw t refl,
        ap (λ x. x >>= λ t. form_key r i e.options.get_key e.options.key_cache t e)
              (key_text-key_of k)
            ∙ freed (if o.cache_keys then o.get_key else str_key) o.key_cache k e
                (ap (λ b. if b then o.get_key else str_key) on ∙ g) c refl,
      )
