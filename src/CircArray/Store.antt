-- ===== src/CircArray/Store.antt =====
-- ext/oj_windows/circarray.c: storing an object under an id.
use oj_windows.Base.{
  ℕ, zero, suc, ◌+◌, ◌-◌, ◌%◌, ◌^◌, ◌≤◌, ◌<◌, ◌≡◌, ◌∙◌, refl, sym, ap, true, false, inl, inr,
  Option, none, some, List, [], ◌∷◌, ◌++◌, length, get_or, take, set, replicate, leb, ltb, ◌==◌,
  if◌then◌else◌, map, arith, leb→le, Bool-cases, length-take, length-set, length-replicate,
  append_assoc, lt→ltb, ltb→lt,
}
use oj_windows.Cells.{copy_to, copy_to-ok, take-kept, length-filled, take-set_next, map_some-append}
use oj_windows.Parser.State.{ok}
use oj_windows.CircArray.{CircArray, enlarge, place_at, oj_circ_array_set, oj_circ_array_get}
use oj_windows.CircArray.Lookup.{Has, put, word, get_or-put, oj_circ_array_get-Has}

module _ {V : Type 0} (nil : V) where
  put-append :
      (xs : List V) (k : ℕ) (v : V) (i : ℕ)
      → i ≡ length xs + k
      → put nil xs i v ≡ xs ++ (replicate k nil ++ v ∷ [])
  put-append [] zero v zero e = refl
  put-append [] zero v (suc i) e = absurd (omega arith)
  put-append [] (suc k) v zero e = absurd (omega arith)
  put-append [] (suc k) v (suc i) e = ap (λ t. nil ∷ t) (put-append [] k v i (omega arith))
  put-append (x ∷ xs) k v zero e = absurd (omega arith)
  put-append (x ∷ xs) k v (suc i) e = ap (λ t. x ∷ t) (put-append xs k v i (omega arith))

  length-put :
      (xs : List V) (i : ℕ) (v : V)
      → length (put nil xs i v) ≡ (if leb (length xs) i then i + 1 else length xs)
  length-put [] zero v = refl
  length-put [] (suc i) v = ground (arith, length-put [] i v)
  length-put (x ∷ xs) zero v = ground arith
  length-put (x ∷ xs) (suc i) v = ground (arith, length-put xs i v)

  -- An entry that is there.
  take-put :
      (xs : List V) (i : ℕ) (v : V) (cells : List (Option V))
      → i < length xs
      → take (length xs) cells ≡ map some xs
      → take (length xs) (set cells i (some v)) ≡ map some (put nil xs i v)
  take-put [] i v cells h e = absurd (omega arith)
  take-put (x ∷ xs) i v [] h e = cc
  take-put (x ∷ xs) zero v (c ∷ cells) h e = cc
  take-put (x ∷ xs) (suc i) v (c ∷ cells) h e =
      let rest = take-put xs i v cells (omega arith) cc in cc

  -- The writes behind the last entry: a gap of nil, and the new entry.
  new-objects :
      (xs : List V) (ca : CircArray V) (i : ℕ) (v : V) (filled : List (Option V))
      → Has nil xs ca
      → ca.cnt ≤ i
      → i < length filled
      → take (ca.cnt + length (replicate (i - ca.cnt) nil)) filled
        ≡ take ca.cnt ca.objs ++ map some (replicate (i - ca.cnt) nil)
      → take (i + 1) (set filled i (some v)) ≡ map some (put nil xs i v)
  new-objects xs ca i v filled h l r e =
      let gap = replicate (i - ca.cnt) nil in
      let at_i : i ≡ ca.cnt + length gap = omega (arith, length-replicate (i - ca.cnt) nil) in
      take-set_next filled i (some v) r
      ∙ ap (λ t. t ++ some v ∷ [])
          (ap (λ n. take n filled) at_i ∙ e ∙ ap (λ t. t ++ map some gap) h.objects)
      ∙ append_assoc (map some xs) (map some gap) (some v ∷ [])
      ∙ ap (λ t. map some xs ++ t) (sym (map_some-append gap (v ∷ [])))
      ∙ sym (map_some-append xs (gap ++ v ∷ []))
      ∙ ap (map some) (sym (put-append xs (i - ca.cnt) v i (omega (arith, h.count))))

  place_at-new :
      (xs : List V) (ca : CircArray V) (i : ℕ) (v : V)
      → Has nil xs ca
      → i < ca.size
      → ca.cnt ≤ i
      → leb ca.cnt i ≡ true
      → (q : CircArray V) × (place_at nil i v ca ≡ ok q) × Has nil (put nil xs i v) q
  unfolding place_at copy_to
  place_at-new xs ca i v h l le e =
      let (filled, f, lf, tf) =
        copy_to-ok ca.cnt (replicate (i - ca.cnt) nil) ca.objs
          (omega (arith, length-replicate (i - ca.cnt) nil, h.space)) in
      let inside : i < length filled = omega (arith, lf, h.space) in
      (
        record ca { objs = set filled i (some v); cnt = i + 1 },
        rw (f, lt→ltb i (length filled) inside, e),
        record {
          space = length-set filled i (some v) ∙ lf ∙ h.space;
          count = ground (arith, length-put xs i v, h.count);
          fits = omega arith;
          objects = new-objects xs ca i v filled h le inside tf;
        },
      )

  no_gap : (n i : ℕ) → i < n → replicate (i - n) nil ≡ []
  no_gap n i h = ap (λ k. replicate k nil) {y = 0} (omega arith)

  place_at-old :
      (xs : List V) (ca : CircArray V) (i : ℕ) (v : V)
      → Has nil xs ca
      → i < ca.cnt
      → leb ca.cnt i ≡ false
      → (q : CircArray V) × (place_at nil i v ca ≡ ok q) × Has nil (put nil xs i v) q
  unfolding place_at copy_to
  place_at-old xs ca i v h l e =
      let inside : i < length ca.objs = omega (arith, h.space, h.fits) in
      (
        record ca { objs = set ca.objs i (some v) },
        rw (no_gap ca.cnt i l, lt→ltb i (length ca.objs) inside, e),
        record {
          space = length-set ca.objs i (some v) ∙ h.space;
          count = ground (arith, length-put xs i v, h.count);
          fits = h.fits;
          objects =
              ap (λ n. take n (set ca.objs i (some v))) h.count
              ∙ take-put xs i v ca.objs (omega (arith, h.count)) (rw h.count at h.objects);
        },
      )

  place_at-Has :
      (xs : List V) (ca : CircArray V) (i : ℕ) (v : V)
      → Has nil xs ca
      → i < ca.size
      → (q : CircArray V) × (place_at nil i v ca ≡ ok q) × Has nil (put nil xs i v) q
  place_at-Has xs ca i v h l = elim (Bool-cases (leb ca.cnt i)) [
    | inl e ↦ place_at-new xs ca i v h l (leb→le ca.cnt i e) e
    | inr e ↦ place_at-old xs ca i v h (ground arith) e
  ]

  enlarge-Has :
      (xs : List V) (ca : CircArray V) (n : ℕ)
      → Has nil xs ca
      → ca.size ≤ n
      → Has nil xs (enlarge nil n ca)
  unfolding enlarge
  enlarge-Has xs ca n h l =
      let m = if ca.heap then n else ca.cnt in
      let enough : ca.cnt ≤ m = ground (arith, h.fits) in
      let small : m ≤ n = ground (arith, h.fits) in
      record {
        space = length-filled n m ca.objs none (omega (arith, length-take m ca.objs));
        count = h.count;
        fits = omega (arith, h.fits);
        objects = take-kept ca.cnt m ca.objs _ enough (omega (arith, h.space, h.fits)) ∙ h.objects;
      }

  set_eq :
      (ca : CircArray V) (v : V) (id : ℕ)
      → 0 < id
      → id < 2 ^ 32
      → oj_circ_array_set nil ca v id
        ≡ place_at nil
            (id - 1)
            v
            (if ltb ca.size id then enlarge nil ((id + 512) % 2 ^ 32) ca else ca)
  unfolding oj_circ_array_set enlarge place_at
  set_eq ca v id h b = rw (word nil id b, lt→ltb 0 id h)

  in_enlarged : (ca : CircArray V) (n i : ℕ) → i < n → i < (enlarge nil n ca).size
  unfolding enlarge
  in_enlarged ca n i h = h

  in_place : (a b : ℕ) → ltb a b ≡ false → 0 < b → b - 1 < a
  in_place a b h z = ground arith

  -- With an id of 1 or more that leaves room for 512 more in an unsigned long, `oj_circ_array_set` writes nothing
  -- outside the array, and the object is under its id, with nil in a gap before it.
  pub oj_circ_array_set-Has :
      (xs : List V) (ca : CircArray V) (id : ℕ) (v : V)
      → Has nil xs ca
      → 0 < id
      → id + 512 < 2 ^ 32
      → (q : CircArray V) × (oj_circ_array_set nil ca v id ≡ ok q)
        × Has nil (put nil xs (id - 1) v) q
  oj_circ_array_set-Has xs ca id v h z r =
      rw (set_eq ca v id z (omega (arith, r))) (elim (Bool-cases (ltb ca.size id)) [
        | inl e ↦
            let n = (id + 512) % 2 ^ 32 in
            rw e (
              place_at-Has xs (enlarge nil n ca) (id - 1) v
                (enlarge-Has xs ca n h (omega (arith, ltb→lt ca.size id e)))
                (in_enlarged ca n (id - 1) (omega arith)))
        | inr e ↦ rw e (place_at-Has xs ca (id - 1) v h (in_place ca.size id e z))
      ])

  same_id : (k id : ℕ) → 0 < k → 0 < id → (k - 1 == id - 1) ≡ (k == id)
  same_id k id h z = ground arith

  -- Under the same conditions: looking up an id of 1 or more, an unsigned long too, behind that gives the object at its own id,
  -- and elsewhere what was there, nil where nothing was.
  pub oj_circ_array_get-set :
      (xs : List V) (ca : CircArray V) (id k : ℕ) (v : V)
      → Has nil xs ca
      → 0 < id
      → id + 512 < 2 ^ 32
      → 0 < k
      → k < 2 ^ 32
      → (q : CircArray V) × (oj_circ_array_set nil ca v id ≡ ok q)
        × (oj_circ_array_get nil q k ≡ ok (if k == id then v else get_or xs (k - 1) nil))
  oj_circ_array_get-set xs ca id k v h z r y x =
      let (q, e, g) = oj_circ_array_set-Has xs ca id v h z r in
      (
        q,
        e,
        oj_circ_array_get-Has nil (put nil xs (id - 1) v) q k g y x
            ∙ ap ok (get_or-put nil xs (id - 1) (k - 1) v ∙ rw (same_id k id y z)),
      )
