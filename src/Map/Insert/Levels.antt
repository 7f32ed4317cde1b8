-- ===== src/Map/Insert/Levels.antt =====
-- What `client::insert` of src/client.cpp does with the root and with the vector of the `midNode1`s.
use bomap.Base.{ℕ, zero, suc, true, false, List, [], ◌∷◌, none, some, get_elem?}
use bomap.Bid.{Bid}
use bomap.Node.{KpPair}
use bomap.Slots.{write}
use bomap.Mid2.{MidNode2}
use bomap.Mid1
use bomap.Mid1.{MidNode1, empty_mid1}
use bomap.Root
use bomap.Map.{
  World, Action, ◌>>=◌, ◌>>◌, lift, pure, at_root, at_mid1, forget, mid1_random_pos, read_mid1,
  write_mid1,
}

-- `root.Search(key, ...)`
unfoldable pub root_search : Bid → Action KpPair
unfolding Root.search
root_search key s = lift (Root.search s.root key) s

-- `root.Insert(m)` and `root.Update(m)`: the result is the child
unfoldable pub root_insert_mid2 : MidNode2 → Action MidNode2
unfolding Root.insert_mid2
root_insert_mid2 m =
    at_root λ r. elim (Root.insert_mid2 r m) [ none ↦ none | some (_, r', m') ↦ some (m', r') ]

unfoldable pub root_update_mid2 : MidNode2 → Action MidNode2
unfolding Root.update_mid2
root_update_mid2 m =
    at_root λ r. elim (Root.update_mid2 r m) [ none ↦ none | some (r', m') ↦ some (m', r') ]

unfoldable pub root_insert_mid1 : MidNode1 → Action MidNode1
unfolding Root.insert_mid1
root_insert_mid1 m =
    at_root λ r. elim (Root.insert_mid1 r m) [ none ↦ none | some (_, r', m') ↦ some (m', r') ]

unfoldable pub root_update_mid1 : MidNode1 → Action MidNode1
unfolding Root.update_mid1
root_update_mid1 m =
    at_root λ r. elim (Root.update_mid1 r m) [ none ↦ none | some (r', m') ↦ some (m', r') ]

-- `m1[i]` and `m1[i] = m`
unfoldable pub level : List MidNode1 → ℕ → Action MidNode1
level m1 i = lift (get_elem? m1 i)

unfoldable pub set_level : List MidNode1 → ℕ → MidNode1 → Action (List MidNode1)
set_level m1 i m = lift (write m1 i m)

-- `root.Update(m1[0])`
unfoldable pub root_update_first : List MidNode1 → Action (List MidNode1)
unfolding level set_level root_update_mid1
root_update_first m1 = do a ← level m1 0; a' ← root_update_mid1 a; set_level m1 0 a'

-- `m1[i].Update(m1[i + 1])`
unfoldable pub update_level : ℕ → List MidNode1 → Action (List MidNode1)
unfolding level set_level Mid1.update_mid1
update_level i m1 = do
  a ← level m1 i
  b ← level m1 (suc i)
  (a', b') ← lift (Mid1.update_mid1 a b)
  m1' ← set_level m1 i a'
  set_level m1' (suc i) b'

-- `for (int j = rounds - 1; j >= 0; j--) m1[j].Update(m1[j + 1]);`
unfoldable pub update_up : ℕ → List MidNode1 → Action (List MidNode1)
unfolding update_level
update_up zero m1 = pure m1
update_up (suc j) m1 = do m1' ← update_level j m1; update_up j m1'

-- `m1[i].Update(m2)`
unfoldable pub update_from_mid2 : ℕ → List MidNode1 → MidNode2 → Action (List MidNode1 × MidNode2)
unfolding level set_level Mid1.update_mid2
update_from_mid2 i m1 m2 = do
  a ← level m1 i
  (a', m2') ← lift (Mid1.update_mid2 a m2)
  m1' ← set_level m1 i a'
  pure (m1', m2')

module _ (w : World) where
  -- `midNode1`s with random positions for the levels from `i` on
  unfoldable pub fresh_mid1s : ℕ → ℕ → Action (List MidNode1)
  unfolding empty_mid1
  fresh_mid1s zero i = pure []
  fresh_mid1s (suc rounds) i = do
    p ← mid1_random_pos w i
    rest ← fresh_mid1s rounds (suc i)
    pure (record empty_mid1 { pos = p } ∷ rest)

  -- `Readmid1Node(m1[i], ...)` and the removal from the cache, from the level `i` on, where `c` is the
  -- key and the position of the node on the level `i`
  unfoldable pub read_down : ℕ → ℕ → List MidNode1 → KpPair → Bid → Action (List MidNode1)
  unfolding level set_level Mid1.search
  read_down zero i m1 c key = pure m1
  read_down (suc rounds) i m1 c key = do
    a ← level m1 i
    a' ← read_mid1 w a c.key c.pos i
    at_mid1 i (forget c.key)
    m1' ← set_level m1 i a'
    let below : Action (List MidNode1) = do
      c' ← lift (Mid1.search a' key)
      read_down rounds (suc i) m1' c' key
    elim rounds [ zero ↦ pure m1' | suc _ ↦ below ]

  -- The levels from `rounds - 1` down to 0 of a new path: each takes the node below it as a child.
  unfoldable pub chain : ℕ → List MidNode1 → Action (List MidNode1)
  unfolding level set_level Mid1.insert_mid1 empty_mid1
  chain zero m1 = pure m1
  chain (suc i) m1 = do
    p ← mid1_random_pos w i
    a ← level m1 i
    b ← level m1 (suc i)
    (a', _, b') ← lift (Mid1.insert_mid1 a (record empty_mid1 { pos = p }) b)
    m1' ← set_level m1 i a'
    m1'' ← set_level m1' (suc i) b'
    _ ← write_mid1 w false b'.max_value b' (suc i)
    chain i m1''

  -- `for (int i = rounds - 1; i >= 0; i--) Writemid1Node(true, m1[i].max_value, m1[i], i);`
  unfoldable pub write_levels : ℕ → List MidNode1 → Action (Unit {0})
  unfolding level
  write_levels zero m1 = pure tt
  write_levels (suc i) m1 = do
    a ← level m1 i
    _ ← write_mid1 w true a.max_value a i
    write_levels i m1
