-- ===== src/Usual/Cached.antt =====
-- The caches of ext/oj_windows/usual.c are those of ext/oj_windows/cache.c, with no lock.
use oj_windows.Base.{false}
use oj_windows.Cache.Table.{Cache, cache_create, cache_set_expunge_rate}
use oj_windows.Cache.Intern.{cache_intern}
use oj_windows.Cache.Mark.{cache_mark}
use oj_windows.Cache.Sound.{Holds}
use oj_windows.Cache.Interned.{cache_intern-form}
use oj_windows.Cache.Swept.{cache_mark-Holds, cache_create-Holds, set_rate-Holds}
use oj_windows.Usual.Ruby.{Interner}

abbrev pub string_cache : (V : Type 0) → Interner V
string_cache V = record {
  Cache = Cache V;
  Holds = Holds;
  create = λ f m. cache_create 0 f m false;
  intern = cache_intern;
  set_rate = λ n c. cache_set_expunge_rate c n;
  mark = cache_mark;
  create-Holds = λ f m. cache_create-Holds f 0 m false;
  intern-Holds = cache_intern-form;
  set_rate-Holds = set_rate-Holds;
  mark-Holds = cache_mark-Holds;
}
