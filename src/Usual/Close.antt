-- ===== src/Usual/Close.antt =====
-- ext/oj_windows/usual.c: the callbacks for closing brackets.
use oj_windows.Base.{
  ℕ, ◌+◌, ◌-◌, ◌&&◌, List, [], ◌∷◌, ◌++◌, length, take, drop, get_elem?, ltb, ◌==◌, if◌then◌else◌,
}
use oj_windows.Parser.State.{Result, ok, fault, ◌>>=◌}
use oj_windows.Cells.{there}
use oj_windows.Usual.Ruby.{Ruby, Interner}
use oj_windows.Usual.State.{Col, Key, Usual}
use oj_windows.Usual.Keys.{get_key}

-- `d->ctail--` and the collection that it uncovers.
unfoldable pub pop_last : {A : Type 0} → List A → Result (A × List A)
pop_last l =
    let n = length l in
    if n == 0 then fault else (there (get_elem? l (n - 1)) >>= λ a. ok (a, take (n - 1) l))

module _ {V S : Type 0} where
  unfoldable pub pop_col : Usual V S → Result (Col × Usual V S)
  unfolding pop_last
  pop_col d = do
    (c, cs) ← pop_last d.cols.items
    ok (c, record d { cols = record (d.cols) { items = cs } })

  -- The values from `head = vhead + vi + 1` on.
  unfoldable pub region : Col → Usual V S → Result (List V)
  region c d =
      if ltb c.vi (length d.values.items) then ok (drop (c.vi + 1) d.values.items) else fault

  -- `vtail = head; head--; *head = obj`.
  unfoldable pub replace : Col → V → Usual V S → Usual V S
  replace c v d = record d {
    values = record (d.values) { items = take c.vi d.values.items ++ v ∷ [] };
  }

  -- The keys from `khead + ki` on, and `ktail = khead + ki`.
  unfoldable pub keys_from : ℕ → Usual V S → Result (List Key)
  keys_from k d = if ltb (length d.keys.items) k then fault else ok (drop k d.keys.items)

  unfoldable pub drop_keys : ℕ → Usual V S → Usual V S
  drop_keys k d = record d { keys = record (d.keys) { items = take k d.keys.items } }

  -- `if (1 == vtail - vhead && rb_block_given_p()) { vtail = vhead; rb_yield(obj); }`
  unfoldable pub yield_object : V → Usual V S → Usual V S
  yield_object v d =
      if (length d.values.items == 1) && d.options.block
      then record d { values = record (d.values) { items = [] }; yielded = d.yielded ++ v ∷ [] }
      else d

module _ {V : Type 0} (r : Ruby V) (i : Interner V) where
  open i use {Cache}

  -- `for (vp = head; kp < ktail; kp++, vp += 2) { *vp = d->get_key(p, kp); ... }`
  unfoldable pub fill_keys : List Key → List V → Usual V Cache → Result (List V × Usual V Cache)
  unfolding get_key
  fill_keys [] vs d = ok (vs, d)
  fill_keys (k ∷ ks) (x ∷ v ∷ vs) d = do
    (a, e) ← get_key r i k d
    (ws, f) ← fill_keys ks vs e
    ok (a ∷ v ∷ ws, f)
  fill_keys (k ∷ ks) _ d = fault

  -- `rb_funcall(obj, hset_id, 2, d->get_key(p, kp), *(vp + 1))` for each key.
  unfoldable pub set_members : List Key → List V → V → Usual V Cache → Result (V × Usual V Cache)
  unfolding get_key
  set_members [] vs obj d = ok (obj, d)
  set_members (k ∷ ks) (x ∷ v ∷ vs) obj d = do
    (a, e) ← get_key r i k d
    o ← r.set_member obj a v
    set_members ks vs o e
  set_members (k ∷ ks) _ obj d = fault

  unfoldable pub close_object : Usual V Cache → Result (Usual V Cache)
  unfolding pop_col region keys_from fill_keys drop_keys replace yield_object
  close_object d = do
    (c, e) ← pop_col d
    k ← there c.ki
    ks ← keys_from k e
    vs ← region c e
    (ws, f) ← fill_keys ks vs e
    let obj = r.hash ws
    ok (yield_object obj (replace c obj (drop_keys k f)))

  unfoldable pub close_object_class : Usual V Cache → Result (Usual V Cache)
  unfolding pop_col region keys_from set_members drop_keys replace
  close_object_class d = do
    (c, e) ← pop_col d
    k ← there c.ki
    ks ← keys_from k e
    vs ← region c e
    new ← r.new_instance d.options.hash_class
    (obj, f) ← set_members ks vs new e
    ok (replace c obj (drop_keys k f))

  unfoldable pub close_array : Usual V Cache → Result (Usual V Cache)
  unfolding pop_col region replace
  close_array d = do (c, e) ← pop_col d; vs ← region c e; ok (replace c (r.array vs) e)

  -- `for (vp = head; vp < vtail; vp++) { rb_funcall(a, ltlt_id, 1, *vp); }`
  unfoldable pub push_elements : List V → V → Result V
  push_elements [] a = ok a
  push_elements (v ∷ vs) a = r.push_element a v >>= push_elements vs

  unfoldable pub close_array_class : Usual V Cache → Result (Usual V Cache)
  unfolding pop_col region push_elements replace
  close_array_class d = do
    (c, e) ← pop_col d
    vs ← region c e
    new ← r.new_instance d.options.array_class
    a ← push_elements vs new
    ok (replace c a e)
