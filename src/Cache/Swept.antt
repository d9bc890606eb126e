-- ===== src/Cache/Swept.antt =====
-- A mark of ext/oj_windows/cache.c, and cache_create and cache_set_expunge_rate, keep the table's invariant.
use oj_windows.Base.{
  ℕ, suc, ◌^◌, ◌≡◌, refl, sym, ap, ◌∙◌, subst, Bool, List, [], ◌∷◌, Bytes, All, length, ◌==◌,
  if◌then◌else◌, Bool-cases, inl, inr,
}
use oj_windows.Cache.Table.{Slot, Cache, cache_create, cache_set_expunge_rate, shift_for, min_shift}
use oj_windows.Cache.Mark.{sweep, sweep_all, marked, cache_mark, count_down}
use oj_windows.Cache.Chains.{Each, Each-replicate}
use oj_windows.Cache.Sound.{IsHome, Holds}
use oj_windows.Cache.Forms.{counted-IsSlot}
use oj_windows.Base.{length-replicate, ltb}

module _ {V : Type 0} (f : Bytes → V) (size rate : ℕ) (mark : Bool) where
  sweep-IsHome :
      (at : ℕ) (chain reuse : List (Slot V))
      → All (IsHome f size at) chain
      → All (IsHome f size at) (sweep rate mark chain reuse).stay
  unfolding sweep
  sweep-IsHome at [] reuse h = tt
  sweep-IsHome at (s ∷ chain) reuse h = elim (Bool-cases (s.use_cnt == 0)) [
    | inl e ↦ rw e (sweep-IsHome at chain (s ∷ reuse) h.1)
    | inr e ↦ rw e (
      (counted-IsSlot f s (count_down rate s.use_cnt) h.0.0, h.0.1),
      sweep-IsHome at chain reuse h.1,
    )
  ]

  sweep_all-Each :
      (j : ℕ) (slots : List (List (Slot V))) (reuse : List (Slot V))
      → Each (IsHome f size) j slots
      → Each (IsHome f size) j (sweep_all rate mark slots reuse).stay
        × (length (sweep_all rate mark slots reuse).stay ≡ length slots)
  unfolding sweep_all
  sweep_all-Each j [] reuse h = (tt, refl)
  sweep_all-Each j (chain ∷ slots) reuse h =
      let (a, b) = sweep_all-Each (suc j) slots (sweep rate mark chain reuse).reuse h.1 in
      ((sweep-IsHome j chain reuse h.0, a), ap suc b)

module _ {V : Type 0} (f : Bytes → V) where
  pub cache_mark-Holds : (c : Cache V) → Holds f c → Holds f (cache_mark c).0
  unfolding cache_mark
  cache_mark-Holds c h =
      let (a, b) = sweep_all-Each f c.size c.xrate c.mark 0 c.slots c.reuse h.slots in
      elim (Bool-cases (c.cnt == 0)) [
        | inl e ↦ subst (λ b. Holds f (if b then (c, []) else marked c).0) (sym e) h
        | inr e ↦
            subst (λ b. Holds f (if b then (c, []) else marked c).0) (sym e)
              (record {
                shift = h.shift;
                size = h.size;
                mask = h.mask;
                form = h.form;
                length = b ∙ h.length;
                slots = a;
              })
      ]

  pub cache_create-Holds : (n : ℕ) (mark locking : Bool) → Holds f (cache_create n f mark locking)
  unfolding cache_create
  cache_create-Holds n mark locking =
      let s = shift_for n n 0 in
      let shift = if ltb s min_shift then min_shift else s in
      record {
        shift = shift;
        size = refl;
        mask = refl;
        form = refl;
        length = length-replicate (2 ^ shift) [];
        slots = Each-replicate (IsHome f (2 ^ shift)) (2 ^ shift);
      }

  pub set_rate-Holds : (n : ℕ) (c : Cache V) → Holds f c → Holds f (cache_set_expunge_rate c n)
  unfolding cache_set_expunge_rate
  set_rate-Holds n c h = record {
    shift = h.shift;
    size = h.size;
    mask = h.mask;
    form = h.form;
    length = h.length;
    slots = h.slots;
  }
