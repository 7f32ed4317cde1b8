-- ===== src/Map/Delete/Settle.antt =====
-- What `client::Delete` of src/client.cpp does on the way up: the updates of the parents and the
-- writes of the nodes and their neighbours. A neighbour's parent is the parent's neighbour, unless
-- the two are brothers.
use bomap.Base
use bomap.Base.{
  ℕ, zero, suc, ◌+◌, ◌-◌, ◌==◌, if◌then◌else◌, Bool, true, false, not, ◌&&◌, List, Option, none,
  some,
}
use bomap.Bid.{Bid}
use bomap.Leaf.{LeafNode}
use bomap.Mid2
use bomap.Mid2.{MidNode2}
use bomap.Mid1
use bomap.Root
use bomap.Map.{World, Action, ◌>>=◌, lift, pure, at_root, write_mid2, write_mid1}
use bomap.Map.Insert.Levels.{level, set_level, root_update_mid2, root_update_mid1}
use bomap.Map.Delete.Path.{Levels, brother_of}

-- `root.Delete(key)`
unfoldable pub root_delete : Bid → Action (Unit {0})
unfolding Root.delete
root_delete key =
    at_root λ r. elim (Root.delete r key) [ none ↦ none | some (_, r') ↦ some (tt, r') ]

-- the neighbour of a leaf: its parent is updated
unfoldable pub share_leaf :
    Bool → MidNode2 → MidNode2 → LeafNode → Option (MidNode2 × MidNode2 × LeafNode)
unfolding Mid2.update
share_leaf brother m2 m2_nb l_nb =
    if not brother && not (m2_nb.p2 == 0)
    then Base.◌>>=◌ (Mid2.update m2_nb l_nb) (λ r. some (m2, r.0, r.1))
    else if brother && not (l_nb.c == 0)
    then Base.◌>>=◌ (Mid2.update m2 l_nb) (λ r. some (r.0, m2_nb, r.1))
    else some (m2, m2_nb, l_nb)

-- the neighbour of a `midNode1` on the level `i + 1`
unfoldable pub share_below : ℕ → Levels → Action Levels
unfolding Mid1.update_mid1 level set_level brother_of
share_below i v = do
  m ← level v.nodes i
  nb ← level v.neighbors i
  below ← level v.neighbors (suc i)
  brother ← brother_of v (suc i)
  let of_neighbor : Action Levels = do
    (nb', below') ← lift (Mid1.update_mid1 nb below)
    nbs ← set_level v.neighbors i nb'
    nbs' ← set_level nbs (suc i) below'
    pure (record v { neighbors = nbs' })
  let of_node : Action Levels = do
    (m', below') ← lift (Mid1.update_mid1 m below)
    ms ← set_level v.nodes i m'
    nbs ← set_level v.neighbors (suc i) below'
    pure (record v { nodes = ms; neighbors = nbs })
  (if not brother && not (nb.p2 == 0)
      then of_neighbor
      else if brother && not (below.p2 == 0)
      then of_node
      else pure v)

-- the neighbour of the `midNode2`, below the level `i`
unfoldable pub share_from_mid2 : ℕ → Levels → MidNode2 → Action (Levels × MidNode2)
unfolding Mid1.update_mid2 level set_level brother_of
share_from_mid2 i v m2_nb = do
  m ← level v.nodes i
  nb ← level v.neighbors i
  brother ← brother_of v (suc i)
  let of_neighbor : Action (Levels × MidNode2) = do
    (nb', below) ← lift (Mid1.update_mid2 nb m2_nb)
    nbs ← set_level v.neighbors i nb'
    pure (record v { neighbors = nbs }, below)
  let of_node : Action (Levels × MidNode2) = do
    (m', below) ← lift (Mid1.update_mid2 m m2_nb)
    ms ← set_level v.nodes i m'
    pure (record v { nodes = ms }, below)
  (if not brother && not (nb.p2 == 0)
      then of_neighbor
      else if brother && not (m2_nb.p2 == 0)
      then of_node
      else pure (v, m2_nb))

module _ (w : World) where
  -- one round of the loops over the levels of `midNode1`s
  unfoldable pub update_pair : ℕ → Levels → Action Levels
  unfolding level set_level Mid1.update_mid1 share_below
  update_pair i v = do
    m ← level v.nodes i
    child ← level v.nodes (suc i)
    (m', child') ← lift (Mid1.update_mid1 m child)
    ms ← set_level v.nodes i m'
    ms' ← set_level ms (suc i) child'
    v' ← share_below i (record v { nodes = ms' })
    nb ← level v'.neighbors (suc i)
    _ ← write_mid1 w true child'.max_value child' (suc i)
    _ ← write_mid1 w true nb.max_value nb (suc i)
    pure v'

  -- `for (int i = rounds - 1; i >= 0; i--)`
  unfoldable pub update_pairs : ℕ → Levels → Action Levels
  unfolding update_pair
  update_pairs zero v = pure v
  update_pairs (suc i) v = do v' ← update_pair i v; update_pairs i v'

  -- The loop of `m1Delete` that counts up: `for (int i = t; i >= 0; i++)`. It leaves the vectors
  -- before the rounds, one for each level, are over.
  unfoldable pub run_away : ℕ → ℕ → Levels → Action Levels
  unfolding update_pair
  run_away zero t v = lift none
  run_away (suc rounds) t v = do v' ← update_pair t v; run_away rounds (suc t) v'

  -- the root and the `midNode1`s below it
  unfoldable pub update_root : Levels → Action (Unit {0})
  unfolding level root_update_mid1
  update_root v = do
    m ← level v.nodes 0
    nb ← level v.neighbors 0
    m' ← root_update_mid1 m
    nb' ← if nb.p2 == 0 then pure nb else root_update_mid1 nb
    _ ← write_mid1 w true m'.max_value m' 0
    _ ← write_mid1 w true nb'.max_value nb' 0
    pure tt

  -- the way up from the `midNode2`s, where no more node is deleted
  unfoldable pub settle : Levels → MidNode2 → MidNode2 → Action (Unit {0})
  unfolding level set_level Mid1.update_mid2 share_from_mid2 update_pairs update_root
      root_update_mid2
  settle v m2 m2_nb = do
    let under_root : Action (Unit {0}) = do
      m ← root_update_mid2 m2
      nb ← if m2_nb.p2 == 0 then pure m2_nb else root_update_mid2 m2_nb
      _ ← write_mid2 w true m.max_value m
      _ ← write_mid2 w true nb.max_value nb
      pure tt
    let under_mid1 : Action (Unit {0}) = do
      last ← level v.nodes (w.levels - 4)
      (last', m) ← lift (Mid1.update_mid2 last m2)
      ms ← set_level v.nodes (w.levels - 4) last'
      (v', nb) ← share_from_mid2 (w.levels - 4) (record v { nodes = ms }) m2_nb
      _ ← write_mid2 w true m.max_value m
      _ ← write_mid2 w true nb.max_value nb
      v'' ← update_pairs (w.levels - 4) v'
      update_root v''
    if w.levels == 3 then under_root else under_mid1
