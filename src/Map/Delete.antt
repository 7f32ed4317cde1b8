-- ===== src/Map/Delete.antt =====
-- `client::Delete` and `client::m1Delete` of src/client.cpp.
pub mod Path
pub mod Settle
use bomap.Base.{
  ℕ, zero, suc, ◌+◌, ◌-◌, ◌==◌, if◌then◌else◌, Bool, true, false, not, List, [], ◌∷◌, Option, none,
  some, ltb,
}
use bomap.Bid.{Bid}
use bomap.Node.{Side}
use bomap.Leaf
use bomap.Leaf.{Deleted, absent, kept, merged}
use bomap.Mid2
use bomap.Mid2.{MidNode2}
use bomap.Mid1
use bomap.Root
use bomap.Map.{World, Action, ◌>>=◌, ◌>>◌, lift, pure, when, write_leaf, write_mid2, write_mid1}
use bomap.Map.Insert.Levels.{level, set_level, root_update_mid2, root_update_mid1}
use bomap.Map.Delete.Path.{Levels, Taken, side_of, brother_of, take_pairs}
use bomap.Map.Delete.Settle.{
  root_delete, update_pair, update_pairs, update_root, share_leaf, share_below, share_from_mid2,
  settle, run_away,
}

module _ (w : World) where
  -- `m1Delete(m1L, m1, m1_neighbor, f, brother)` at the level `m1L + 1`
  unfoldable pub m1_delete : ℕ → Levels → Action (Unit {0})
  unfolding level set_level root_update_mid1 root_delete Mid1.delete side_of share_below run_away
      update_root
  m1_delete zero v = do
    nb ← level v.neighbors 0
    m ← level v.nodes 0
    nb' ← if nb.p2 == 0 then pure nb else root_update_mid1 nb
    root_delete m.max_value
    _ ← write_mid1 w true nb'.max_value nb' 0
    pure tt
  m1_delete (suc i) v = do
    v' ← share_below i v
    below ← level v'.neighbors (suc i)
    _ ← write_mid1 w true below.max_value below (suc i)
    m ← level v'.nodes i
    nb ← level v'.neighbors i
    child ← level v'.nodes (suc i)
    side ← side_of v' i
    (d, m', nb') ← lift (Mid1.delete m nb side child.max_value)
    ms ← set_level v'.nodes i m'
    nbs ← set_level v'.neighbors i nb'
    let v'' : Levels = record v' { nodes = ms; neighbors = nbs }
    let stop : Action (Unit {0}) = do
      done ← elim i [ zero ↦ pure v'' | suc t ↦ run_away w (w.levels - 3) t v'' ]
      update_root w done
    let up = m1_delete i v''
    elim d [ absent ↦ pure tt | kept ↦ stop | merged ↦ up ]

  -- `Delete` where the leaf was merged into its neighbour
  unfoldable pub delete_merged : Taken → Action (Unit {0})
  unfolding share_leaf Mid2.delete Mid1.delete root_update_mid2 root_delete m1_delete settle
      share_from_mid2 update_pairs update_root side_of level set_level
  delete_merged p = do
    (m2, m2_nb, l_nb) ← lift (share_leaf p.leaf_brother p.mid2 p.mid2_neighbor p.leaf_neighbor)
    side ← side_of p.levels (w.levels - 3)
    (d, m2', m2_nb') ← lift (Mid2.delete m2 m2_nb side p.leaf.max_value)
    _ ← write_leaf w true l_nb.max_value l_nb
    let under_root : Action (Unit {0}) = do
      nb ← root_update_mid2 m2_nb'
      root_delete m2'.max_value
      _ ← write_mid2 w true nb.max_value nb
      pure tt
    let under_mid1 : Action (Unit {0}) = do
      (v, nb) ← share_from_mid2 (w.levels - 4) p.levels m2_nb'
      m ← level v.nodes (w.levels - 4)
      m_nb ← level v.neighbors (w.levels - 4)
      side1 ← side_of v (w.levels - 4)
      (d', m', m_nb') ← lift (Mid1.delete m m_nb side1 m2'.max_value)
      ms ← set_level v.nodes (w.levels - 4) m'
      nbs ← set_level v.neighbors (w.levels - 4) m_nb'
      _ ← write_mid2 w true nb.max_value nb
      let v' : Levels = record v { nodes = ms; neighbors = nbs }
      let stop : Action (Unit {0}) = do done ← update_pairs w (w.levels - 4) v'; update_root w done
      elim d' [ absent ↦ pure tt | kept ↦ stop | merged ↦ m1_delete (w.levels - 4) v' ]
    elim d [
      | absent ↦ pure tt
      | kept ↦ settle w p.levels m2' m2_nb'
      | merged ↦ if w.levels == 3 then under_root else under_mid1
    ]

  -- `Delete` where the leaf stays
  unfoldable pub delete_kept : Taken → Action (Unit {0})
  unfolding share_leaf Mid2.update settle
  delete_kept p = do
    (m2, l) ← lift (Mid2.update p.mid2 p.leaf)
    (m2', m2_nb, l_nb) ← lift (share_leaf p.leaf_brother m2 p.mid2_neighbor p.leaf_neighbor)
    _ ← write_leaf w true l.max_value l
    _ ← write_leaf w true l_nb.max_value l_nb
    settle w p.levels m2' m2_nb

  -- `Delete(key)`
  unfoldable pub delete : Bid → Action Bool
  unfolding take_pairs Leaf.delete delete_merged delete_kept
  delete key = do
    empty ← λ s. some (s.root.p1 == 0, s)
    let from_root : Action Bool = do
      p ← take_pairs w key
      (d, l, nb) ← lift (Leaf.delete p.leaf p.leaf_neighbor p.leaf_side key)
      let p' : Taken = record p { leaf = l; leaf_neighbor = nb }
      let found : Action Bool = do delete_kept p'; pure true
      let joined : Action Bool = do delete_merged p'; pure true
      elim d [ absent ↦ pure false | kept ↦ found | merged ↦ joined ]
    if empty then pure false else from_root
