-- ===== src/Cache/Left.antt =====
-- What ext/oj_windows/cache.c's cache_mark leaves in the table and what it marks.
use oj_windows.Base.{
  ℕ, suc, ◌+◌, ◌-◌, ◌/◌, ◌%◌, ◌^◌, ◌≤◌, ◌<◌, ◌≡◌, ◌≢◌, ◌⊎◌, refl, sym, ap, ◌∙◌, Bool, true, false,
  List, [], ◌∷◌, ◌++◌, Bytes, All, length, ◌==◌, if◌then◌else◌, Bool-cases, inl, inr, arith,
}
use oj_windows.Cache.Table.{Slot, Cache}
use oj_windows.Cache.Mark.{count_down, sweep, sweep_all, marked, cache_mark}
use oj_windows.Cache.Chains.{Each, weight, weights}
use oj_windows.Cache.Sound.{Holds}
use oj_windows.Cache.Swept.{cache_mark-Holds}

-- A counter lowered by the rate, which stops at 0.
abbrev pub lowered : ℕ → ℕ → ℕ
lowered rate n =
    if rate == 0 then n else if rate == 2 then n - 2 else if rate == 3 then n / 2 else n - 1

module _ {V : Type 0} where
  -- A uint32_t that the rate 2 does not take below 0.
  abbrev pub IsRegular : ℕ → Slot V → Type 0
  IsRegular rate s = (s.use_cnt < 2 ^ 32) × ((rate ≢ 2) ⊎ (s.use_cnt ≢ 1))

  abbrev pub lower : ℕ → Slot V → Slot V
  lower rate s = record s { use_cnt = lowered rate s.use_cnt }

  -- The slots whose counter is not 0, in their order, with their counters lowered.
  abbrev pub left : ℕ → List (Slot V) → List (Slot V)
  left rate [] = []
  left rate (s ∷ chain) = if s.use_cnt == 0 then left rate chain else lower rate s ∷ left rate chain

  abbrev pub table_left : ℕ → List (List (Slot V)) → List (List (Slot V))
  table_left rate [] = []
  table_left rate (chain ∷ slots) = left rate chain ∷ table_left rate slots

  abbrev pub chain_values : List (Slot V) → List V
  chain_values [] = []
  chain_values (s ∷ chain) = s.val ∷ chain_values chain

  abbrev pub slot_values : List (List (Slot V)) → List V
  slot_values [] = []
  slot_values (chain ∷ slots) = chain_values chain ++ slot_values slots

  -- The number of slots.
  abbrev pub one : Slot V → ℕ
  one s = 1

  count_down-lowered :
      (rate : ℕ) (s : Slot V)
      → IsRegular rate s
      → (s.use_cnt == 0) ≡ false
      → count_down rate s.use_cnt ≡ lowered rate s.use_cnt
  unfolding count_down
  count_down-lowered rate s (b, inl h) e = ground (arith, b, h, e)
  count_down-lowered rate s (b, inr h) e = ground (arith, b, h, e)

  marked_one :
      (m : Bool) (v : V) {xs : List V} (ys : List V)
      → xs ≡ (if m then ys else [])
      → (if m then v ∷ xs else xs) ≡ (if m then v ∷ ys else [])
  marked_one true v ys e = ap (λ t. v ∷ t) e
  marked_one false v ys e = e

  marked_more :
      (m : Bool) {xs zs : List V} (ys ws : List V)
      → xs ≡ (if m then ys else [])
      → zs ≡ (if m then ws else [])
      → xs ++ zs ≡ (if m then ys ++ ws else [])
  marked_more true ys ws e h i = e i ++ h i
  marked_more false ys ws e h i = e i ++ h i

  module _ (rate : ℕ) (mark : Bool) where
    sweep-left :
        (chain reuse : List (Slot V))
        → All (IsRegular rate) chain
        → ((sweep rate mark chain reuse).stay ≡ left rate chain)
          × ((sweep rate mark chain reuse).marks
              ≡ (if mark then chain_values (left rate chain) else []))
          × (length (sweep rate mark chain reuse).reuse + weight one (left rate chain)
              ≡ length reuse + weight one chain)
    unfolding sweep
    sweep-left [] reuse h = (refl, ground arith, refl)
    sweep-left (s ∷ chain) reuse h = elim (Bool-cases (s.use_cnt == 0)) [
      | inl e ↦ let (a, b, c) = sweep-left chain (s ∷ reuse) h.1 in rw e (a, b, omega (arith, c))
      | inr e ↦
          let (a, b, c) = sweep-left chain reuse h.1 in
          rw e (
            λ i. record s { use_cnt = count_down-lowered rate s h.0 e i } ∷ a i,
            marked_one mark s.val _ b,
            omega (arith, c),
          )
    ]

    sweep_all-left :
        (j : ℕ) (slots : List (List (Slot V))) (reuse : List (Slot V))
        → Each (λ _. IsRegular rate) j slots
        → ((sweep_all rate mark slots reuse).stay ≡ table_left rate slots)
          × ((sweep_all rate mark slots reuse).marks
              ≡ (if mark then slot_values (table_left rate slots) else []))
          × (length (sweep_all rate mark slots reuse).reuse + weights one (table_left rate slots)
              ≡ length reuse + weights one slots)
    unfolding sweep_all
    sweep_all-left j [] reuse h = (refl, ground arith, refl)
    sweep_all-left j (chain ∷ slots) reuse h =
        let (a, b, c) = sweep-left chain reuse h.0 in
        let (x, y, z) = sweep_all-left (suc j) slots (sweep rate mark chain reuse).reuse h.1 in
        ((λ i. a i ∷ x i), marked_more mark _ _ b y, omega (arith, c, z))

  left-le : (rate : ℕ) (chain : List (Slot V)) → weight one (left rate chain) ≤ weight one chain
  left-le rate [] = omega arith
  left-le rate (s ∷ chain) = ground (arith, left-le rate chain)

  table_left-le :
      (rate : ℕ) (slots : List (List (Slot V)))
      → weights one (table_left rate slots) ≤ weights one slots
  table_left-le rate [] = omega arith
  table_left-le rate (chain ∷ slots) = omega (arith, left-le rate chain, table_left-le rate slots)

  -- A table without slots.
  none_left :
      (rate : ℕ) (mark : Bool) (slots : List (List (Slot V)))
      → weights one slots ≡ 0
      → (slots ≡ table_left rate slots)
        × ([] ≡ (if mark then slot_values (table_left rate slots) else []))
  none_left rate mark [] e = (refl, ground arith)
  none_left rate mark ([] ∷ slots) e =
      let (a, b) = none_left rate mark slots (omega (arith, e)) in (ap (λ t. [] ∷ t) a, b)
  none_left rate mark ((s ∷ chain) ∷ slots) e = absurd (omega (arith, e))

  -- What a mark leaves: the slots whose counter is not 0, each in its chain, in their order and with its
  -- counter lowered, the numbers of slots in the table and to be used again, and
  -- the values that are marked.
  pub record Leaves (c d : Cache V) (values : List V) : Type 0 where
    pub slots : d.slots ≡ table_left c.xrate c.slots
    pub cnt : d.cnt ≡ weights one d.slots
    pub rcnt : d.rcnt + d.cnt ≡ c.rcnt + c.cnt
    pub reuse : length d.reuse + d.cnt ≡ length c.reuse + c.cnt
    pub marks : values ≡ (if c.mark then slot_values d.slots else [])

  module _ (c : Cache V) where
    marked-Leaves :
        c.cnt ≡ weights one c.slots
        → c.cnt < 2 ^ 64
        → Each (λ _. IsRegular c.xrate) 0 c.slots
        → Leaves c (marked c).0 (marked c).1
    unfolding marked
    marked-Leaves n b h =
        let (x, y, z) = sweep_all-left c.xrate c.mark 0 c.slots c.reuse h in
        let r = sweep_all c.xrate c.mark c.slots c.reuse in
        let w : weights one r.stay ≡ weights one (table_left c.xrate c.slots) =
          ap (weights one) x in
        let l = table_left-le c.xrate c.slots in
        let k : (c.cnt + 2 ^ 64 - (length r.reuse - length c.reuse)) % 2 ^ 64
            ≡ weights one (table_left c.xrate c.slots) =
          omega (arith, n, b, z, l) in
        record {
          slots = x;
          cnt = k ∙ sym w;
          rcnt = omega (arith, n, k, z, l);
          reuse = omega (arith, n, k, z, l);
          marks = y ∙ ap (λ t. if c.mark then slot_values t else []) (sym x);
        }

    none-Leaves : c.cnt ≡ weights one c.slots → c.cnt ≡ 0 → Leaves c c []
    none-Leaves n e =
        let (x, y) = none_left c.xrate c.mark c.slots (sym n ∙ e) in
        record {
          slots = x;
          cnt = n;
          rcnt = refl;
          reuse = refl;
          marks = y ∙ ap (λ t. if c.mark then slot_values t else []) (sym x);
        }

    cache_mark-Leaves :
        c.cnt ≡ weights one c.slots
        → c.cnt < 2 ^ 64
        → Each (λ _. IsRegular c.xrate) 0 c.slots
        → Leaves c (cache_mark c).0 (cache_mark c).1
    unfolding cache_mark
    cache_mark-Leaves n b h = by (c.cnt == 0) refl
      where
        by :
            (z : Bool)
            → (c.cnt == 0) ≡ z
            → Leaves c (if z then (c, []) else marked c).0 (if z then (c, []) else marked c).1
        by true e = none-Leaves n (ground (arith, e))
        by false e = marked-Leaves n b h

-- Of a table with the invariant, whose `cnt` is the number of its slots, with counters that fit 32 bits and
-- that the rate 2 does not take below 0: a mark keeps the invariant, drops the slots whose counter
-- is 0 and no others, lowers the counters of the rest by the rate, keeps `cnt` the number of the slots, and marks
-- the values of all that stay, if it is to mark any.
pub cache_mark-left :
    {V : Type 0} (f : Bytes → V) (c : Cache V)
    → Holds f c
    → c.cnt ≡ weights one c.slots
    → c.cnt < 2 ^ 64
    → Each (λ _. IsRegular c.xrate) 0 c.slots
    → Holds f (cache_mark c).0 × Leaves c (cache_mark c).0 (cache_mark c).1
cache_mark-left f c g n b h = (cache_mark-Holds f c g, cache_mark-Leaves c n b h)
