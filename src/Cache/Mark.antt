-- ===== src/Cache/Mark.antt =====
-- ext/oj_windows/cache.c, cache_mark: slots that are not used any more are dropped, and the others count
-- down and are marked.
use oj_windows.Base.{
  ℕ, ◌+◌, ◌-◌, ◌/◌, ◌%◌, ◌^◌, Bool, List, [], ◌∷◌, ◌++◌, length, ◌==◌, if◌then◌else◌,
}
use oj_windows.Cache.Table.{Slot, Cache}

-- `use_cnt` by the rate of the cache, a uint32_t.
unfoldable pub count_down : ℕ → ℕ → ℕ
count_down rate n =
    if rate == 0
    then n
    else if rate == 2
    then (n + 2 ^ 32 - 2) % 2 ^ 32
    else if rate == 3
    then n / 2
    else (n + 2 ^ 32 - 1) % 2 ^ 32

-- What a run over some slots has made: those that stay, `reuse`, and the values given to rb_gc_mark.
pub record Swept (V S : Type 0) : Type 0 where
  pub stay : S
  pub reuse : List (Slot V)
  pub marks : List V

module _ {V : Type 0} where
  abbrev kept : ℕ → Bool → Slot V → Swept V (List (Slot V)) → Swept V (List (Slot V))
  kept rate mark s r = record r {
    stay = record s { use_cnt = count_down rate s.use_cnt } ∷ r.stay;
    marks = if mark then s.val ∷ r.marks else r.marks;
  }

  -- The inner loop, over a chain.
  unfoldable pub sweep : ℕ → Bool → List (Slot V) → List (Slot V) → Swept V (List (Slot V))
  unfolding count_down
  sweep rate mark [] reuse = record { stay = []; reuse = reuse; marks = [] }
  sweep rate mark (s ∷ chain) reuse =
      let drop = sweep rate mark chain (s ∷ reuse) in
      let keep = kept rate mark s (sweep rate mark chain reuse) in
      if s.use_cnt == 0 then drop else keep

  -- The outer loop.
  unfoldable pub sweep_all :
      ℕ → Bool → List (List (Slot V)) → List (Slot V) → Swept V (List (List (Slot V)))
  unfolding sweep
  sweep_all rate mark [] reuse = record { stay = []; reuse = reuse; marks = [] }
  sweep_all rate mark (chain ∷ slots) reuse =
      let one = sweep rate mark chain reuse in
      let more = sweep_all rate mark slots one.reuse in
      record { stay = one.stay ∷ more.stay; reuse = more.reuse; marks = one.marks ++ more.marks }

  -- `cnt` goes down and `rcnt` up with every slot that is put on `reuse`.
  unfoldable pub marked : Cache V → Cache V × List V
  unfolding sweep_all
  marked c =
      let r = sweep_all c.xrate c.mark c.slots c.reuse in
      let n = length r.reuse - length c.reuse in
      (
        record c {
          slots = r.stay;
          cnt = (c.cnt + 2 ^ 64 - n) % 2 ^ 64;
          reuse = r.reuse;
          rcnt = c.rcnt + n;
        },
        r.marks,
      )

  unfoldable pub cache_mark : Cache V → Cache V × List V
  unfolding marked
  cache_mark c = if c.cnt == 0 then (c, []) else marked c
