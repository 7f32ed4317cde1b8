-- ===== src/Map/Insert.antt =====
-- `client::insert` and `client::m1Update` of src/client.cpp. `m1` is the vector of the `midNode1`s on
-- the path, one for each level. `L - 5` and `L - 4` are levels counted from 0, so that a loop down
-- from one of them runs that many rounds and one more.
pub mod Levels
pub mod Path
pub mod Back
use bomap.Base.{
  ℕ, zero, suc, ◌+◌, ◌-◌, ◌==◌, if◌then◌else◌, Bool, true, false, not, List, [], ◌∷◌, Option, none,
  some, get_elem?, ℤ, ltb,
}
use bomap.Bid.{Bid}
use bomap.Slots.{write}
use bomap.Leaf
use bomap.Leaf.{LeafNode, empty_leaf, single_leaf}
use bomap.Mid2
use bomap.Mid2.{MidNode2, empty_mid2}
use bomap.Mid1
use bomap.Mid1.{MidNode1, empty_mid1}
use bomap.Root
use bomap.Map.{
  World, Store, Action, ◌>>=◌, ◌>>◌, lift, pure, when, at_leaf, at_mid2, at_mid1, forget,
  leaf_random_pos, mid2_random_pos, mid1_random_pos, read_leaf, read_mid2, read_mid1, write_leaf,
  write_mid2, write_mid1,
}
use bomap.Map.Insert.Levels.{
  root_search, root_insert_mid2, root_update_mid2, root_insert_mid1, root_update_first, level,
  set_level, update_from_mid2, update_up, fresh_mid1s, read_down, chain, write_levels,
}

module _ (w : World) where
  -- the branch of `insert` for an empty map, after the leaf and where the root is above `mid2`
  unfoldable pub first_below_root : MidNode2 → Action (Unit {0})
  unfolding root_insert_mid2
  first_below_root mid2 = do
    m ← root_insert_mid2 mid2
    _ ← write_mid2 w false m.max_value m
    pure tt

  -- the same where `midNode1`s are above `mid2`
  unfoldable pub first_below_mid1 : MidNode2 → Action (Unit {0})
  unfolding empty_mid1 Mid1.insert_mid2 root_insert_mid1 fresh_mid1s chain level set_level
  first_below_mid1 mid2 = do
    mid1 ← fresh_mid1s w (w.levels - 3) 0
    n ← mid1_random_pos w (w.levels - 4)
    last ← level mid1 (w.levels - 4)
    (a, _, m) ← lift (Mid1.insert_mid2 last (record empty_mid1 { pos = n }) mid2)
    mid1' ← set_level mid1 (w.levels - 4) a
    _ ← write_mid2 w false m.max_value m
    chained ← chain w (w.levels - 4) mid1'
    first ← level chained 0
    b ← root_insert_mid1 first
    _ ← write_mid1 w false b.max_value b 0
    pure tt

  -- the branch of `insert` for an empty map
  unfoldable pub insert_first : Bid → ℤ → Action (Unit {0})
  unfolding single_leaf empty_mid2 Mid2.insert first_below_root first_below_mid1
  insert_first key value = do
    p ← leaf_random_pos w
    q ← mid2_random_pos w
    r ← mid2_random_pos w
    (mid2, _, leaf) ← lift (
        Mid2.insert (record empty_mid2 { pos = q }) (record empty_mid2 { pos = r })
          (record (single_leaf key value) { pos = p }))
    _ ← write_leaf w false key leaf
    if w.levels - 3 == 0 then first_below_root mid2 else first_below_mid1 mid2

  -- `m1Update(m1L, newNode, m1)` at the level `m1L + 1`; the result is `m1`
  unfoldable pub m1_update : ℕ → MidNode1 → List MidNode1 → Action (List MidNode1)
  unfolding Mid1.update_mid1 Mid1.insert_mid1 empty_mid1 root_insert_mid1 root_update_first level
      set_level update_up
  m1_update zero new m1 = do
    m1' ← root_update_first m1
    when (not (new.p2 == 0))
        (do b ← root_insert_mid1 new; _ ← write_mid1 w false b.max_value b 0; pure tt)
    pure m1'
  m1_update (suc i) new m1 = do
    a ← level m1 i
    b ← level m1 (suc i)
    (a', b') ← lift (Mid1.update_mid1 a b)
    m1' ← set_level m1 (suc i) b'
    let split : Action (List MidNode1) = do
      p ← mid1_random_pos w i
      (a2, new4, new') ← lift (Mid1.insert_mid1 a' (record empty_mid1 { pos = p }) new)
      m1'' ← set_level m1' i a2
      _ ← write_mid1 w false new'.max_value new' (suc i)
      m1_update i new4 m1''
    let whole : Action (List MidNode1) = do
      m1'' ← set_level m1' i a'
      up ← update_up i m1''
      root_update_first up
    if new.p2 == 0 then whole else split

  -- the first half of `insert`: the nodes on the path, taken out of the caches
  unfoldable pub take_path : Bid → Action (List MidNode1 × MidNode2 × LeafNode)
  unfolding empty_mid2 empty_leaf root_search Mid1.search Mid2.search fresh_mid1s read_down level
  take_path key = do
    m1 ← fresh_mid1s w (w.levels - 3) 0
    q ← mid2_random_pos w
    let m2 : MidNode2 = record empty_mid2 { pos = q }
    let below_mid1 : Action (List MidNode1 × MidNode2) = do
      c ← root_search key
      m1' ← read_down w (w.levels - 3) 0 m1 c key
      last ← level m1' (w.levels - 4)
      c2 ← lift (Mid1.search last key)
      m2' ← read_mid2 w m2 c2.key c2.pos
      at_mid2 (forget c2.key)
      pure (m1', m2')
    let below_root : Action (List MidNode1 × MidNode2) = do
      c2 ← root_search key
      m2' ← read_mid2 w m2 c2.key c2.pos
      at_mid2 (forget c2.key)
      pure (m1, m2')
    (m1', m2') ← if ltb 0 (w.levels - 3) then below_mid1 else below_root
    c ← lift (Mid2.search m2' key)
    p ← leaf_random_pos w
    l ← read_leaf w (record empty_leaf { pos = p }) c.key c.pos
    at_leaf (forget c.key)
    pure (m1', m2', l)

  -- the second half, below levels of `midNode1`s: the parents of the leaf `l`, and the new leaf
  unfoldable pub put_below_mid1 : List MidNode1 → MidNode2 → LeafNode → Action (Unit {0})
  unfolding Mid2.insert Mid1.insert_mid2 empty_mid2 empty_mid1 update_from_mid2 update_up
      root_update_first root_insert_mid1 m1_update level set_level write_levels
  put_below_mid1 m1 m2 new = do
    let split : Action (List MidNode1 × MidNode2) = do
      q ← mid2_random_pos w
      (m2', new2, new') ← lift (Mid2.insert m2 (record empty_mid2 { pos = q }) new)
      _ ← write_leaf w false new'.max_value new'
      (m1', m2'') ← update_from_mid2 (w.levels - 4) m1 m2'
      let deeper : Action (List MidNode1) = do
        p ← mid1_random_pos w (w.levels - 4)
        last ← level m1' (w.levels - 4)
        (a, new3, new2') ← lift (Mid1.insert_mid2 last (record empty_mid1 { pos = p }) new2)
        ms ← set_level m1' (w.levels - 4) a
        _ ← write_mid2 w false new2'.max_value new2'
        m1_update (w.levels - 4) new3 ms
      let shallow : Action (List MidNode1) = do
        up ← update_up (w.levels - 4) m1'
        root_update_first up
      ms ← if new2.p2 == 0 then shallow else deeper
      pure (ms, m2'')
    let whole : Action (List MidNode1 × MidNode2) = do
      (m1', m2') ← update_from_mid2 (w.levels - 4) m1 m2
      up ← update_up (w.levels - 4) m1'
      ms ← root_update_first up
      pure (ms, m2')
    (ms, m2') ← if new.c == 0 then whole else split
    _ ← write_mid2 w true m2'.max_value m2'
    write_levels w (w.levels - 3) ms

  -- the same below the root
  unfoldable pub put_below_root : MidNode2 → LeafNode → Action (Unit {0})
  unfolding Mid2.insert empty_mid2 root_update_mid2 root_insert_mid2
  put_below_root m2 new = do
    let split : Action MidNode2 = do
      q ← mid2_random_pos w
      (m2', new2, new') ← lift (Mid2.insert m2 (record empty_mid2 { pos = q }) new)
      _ ← write_leaf w false new'.max_value new'
      m2'' ← root_update_mid2 m2'
      when (not (new2.p2 == 0))
          (do n ← root_insert_mid2 new2; _ ← write_mid2 w false n.max_value n; pure tt)
      pure m2''
    m2' ← if new.c == 0 then root_update_mid2 m2 else split
    _ ← write_mid2 w true m2'.max_value m2'
    pure tt

  -- `insert` into a map that is not empty
  unfoldable pub insert_more : Bid → ℤ → Action (Unit {0})
  unfolding take_path put_below_mid1 put_below_root Leaf.insert Mid2.update empty_leaf
  insert_more key value = do
    (m1, m2, l) ← take_path key
    p ← leaf_random_pos w
    (l', new) ← lift (Leaf.insert l (record empty_leaf { pos = p }) key value)
    (m2', l'') ← lift (Mid2.update m2 l')
    _ ← write_leaf w true l''.max_value l''
    if ltb 0 (w.levels - 3) then put_below_mid1 m1 m2' new else put_below_root m2' new

  -- `insert(key, value)`
  unfoldable pub insert : Bid → ℤ → Action (Unit {0})
  unfolding insert_first insert_more
  insert key value s =
      let first = insert_first key value s in
      let more = insert_more key value s in if s.root.p1 == 0 then first else more
