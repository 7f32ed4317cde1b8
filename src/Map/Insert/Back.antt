-- ===== src/Map/Insert/Back.antt =====
-- The steps of `client::insert` in src/client.cpp from the update of the root on, where the paths on the
-- service hold no block.
use bomap.Base.{suc, ◌==◌, ◌≡◌, refl, Bool, false, some, ℤ, pos, ap, not}
use bomap.Bid
use bomap.Bid.{Bid}
use bomap.Leaf.{LeafNode}
use bomap.Mid2
use bomap.Mid2.{MidNode2, empty_mid2}
use bomap.Root
use bomap.Root.{RootNode}
use bomap.TreePath.{mid2_size}
use bomap.Client.{Tree, Outside, assign, mark, write_node, NodeClass, fetch_path, add_leaf}
use bomap.Slots.Holds.{Yields}
use bomap.Client.Trees.{write_leaf_node, write_mid2_node, leaf_class, mid2_class}
use bomap.Map.{World, Store, Action, ◌>>=◌, pure, at_root, at_mid2, when, write_leaf, write_mid2}
use bomap.Map.Steps.{at_leaf-some, at_mid2-some}
use bomap.Map.Insert.{put_below_root}
use bomap.Map.Insert.Levels.{root_update_mid2, root_insert_mid2}
use bomap.Map.Insert.Path.{given, shallow}

-- the state at the end of the way up
abbrev pub mid2_back : Store → MidNode2 → Store
mid2_back s m = record s { mid2 = given s.mid2 m.max_value m }

-- what the root does with the second half of a `midNode2`
abbrev pub add_to_root : World → MidNode2 → Action (Unit {0})
add_to_root w new =
    when (not (new.p2 == 0))
      (do n ← root_insert_mid2 new; _ ← write_mid2 w false n.max_value n; pure tt)

module _ (w : World) (s : Store) (m new2 m2 : MidNode2) (new : LeafNode) (r : RootNode) where
  pub put_below_root-whole :
      new.c ≡ 0
      → Root.update_mid2 s.root m ≡ some (r, m2)
      → Bid.eq_int m2.max_value (pos 0) ≡ false
      → put_below_root (shallow w) m new s ≡ some (tt, mid2_back (record s { root = r }) m2)
  unfolding put_below_root root_update_mid2 write_mid2_node write_node
  put_below_root-whole whole top real =
      rw (◌>>=◌, whole, root_update_mid2, at_root, top, at_mid2, real) refl

  pub put_below_root-split :
      (m' : MidNode2) (new' : LeafNode) (a : ℤ) (s1 s2 : Store)
      → (new.c == 0) ≡ false
      → Mid2.insert m (record empty_mid2 { pos = w.draw (mid2_size 3) s.drawn }) new
        ≡ some (m', new2, new')
      → write_leaf (shallow w) false new'.max_value new' (record s { drawn = suc s.drawn })
        ≡ some (a, s1)
      → Root.update_mid2 s1.root m' ≡ some (r, m2)
      → add_to_root (shallow w) new2 (record s1 { root = r }) ≡ some (tt, s2)
      → Bid.eq_int m2.max_value (pos 0) ≡ false
      → put_below_root (shallow w) m new s ≡ some (tt, mid2_back s2 m2)
  unfolding put_below_root root_update_mid2 root_insert_mid2 write_mid2_node write_node
  put_below_root-split m' new' a s1 s2 split done wrote top added real =
      rw (◌>>=◌, split, done, wrote, root_update_mid2, at_root, top, added, at_mid2, real) refl

pub add_to_root-none :
    (w : World) (s : Store) (new : MidNode2) → new.p2 ≡ 0 → add_to_root w new s ≡ some (tt, s)
add_to_root-none w s new e = rw (add_to_root, e) refl

pub add_to_root-some :
    (w : World) (s s' : Store) (new new' : MidNode2) (b : Bool) (r : RootNode) (a : ℤ)
    → (new.p2 == 0) ≡ false
    → Root.insert_mid2 s.root new ≡ some (b, r, new')
    → write_mid2 w false new'.max_value new' (record s { root = r }) ≡ some (a, s')
    → add_to_root w new s ≡ some (tt, s')
unfolding root_insert_mid2
add_to_root-some w s s' new new' b r a e done wrote =
    rw (add_to_root, e, ◌>>=◌, root_insert_mid2, at_root, done, wrote) refl

-- The paths of a tree on the service hold no block: a read leaves the cache as it is.
abbrev pub Quiet : {N : Type 0} → NodeClass N → Outside N → Type 0
Quiet {N} cls out =
    (t : Tree N) (p : ℤ) → Yields (λ t'. t'.cache ≡ t.cache) (fetch_path cls out t p)

module _ {N : Type 0} (cls : NodeClass N) (out : Outside N) where
  write_node-Quiet :
      Quiet cls out
      → (t : Tree N) (bid : Bid) (node : N) → Bid.eq_int bid (pos 0) ≡ false
      → Yields (λ r. r.0.cache ≡ assign t.cache bid node) (write_node cls out t false bid node)
  unfolding write_node
  write_node-Quiet quiet t bid node real =
      let (t', e, same) = quiet (record t { modified = mark t.modified bid }) (cls.pos_of node) in
      (
        (
          record t' {
            cache = assign t'.cache bid node;
            leaf_list = add_leaf t'.leaf_list (cls.pos_of node);
          },
          cls.pos_of node,
        ),
        rw (real, e) refl,
        ap (λ c. assign c bid node) same,
      )

module _ (w : World) (s : Store) (bid : Bid) (real : Bid.eq_int bid (pos 0) ≡ false) where
  pub write_leaf-Quiet :
      Quiet (leaf_class w.leaf_bytes w.levels) w.leaves
      → (l : LeafNode)
      → (t : Tree LeafNode) × (a : ℤ) × (write_leaf w false bid l s
          ≡ some (a, record s { leaf = t }))
        × (t.cache ≡ assign s.leaf.cache bid l)
  unfolding write_leaf_node
  write_leaf-Quiet quiet l =
      let ((t, a), e, same) =
        write_node-Quiet (leaf_class w.leaf_bytes w.levels) w.leaves quiet s.leaf bid l real in
      (
        t,
        a,
        at_leaf-some s a (λ u. write_leaf_node w.leaf_bytes w.levels w.leaves u false bid l) t e,
        same,
      )

  pub write_mid2-Quiet :
      Quiet (mid2_class w.mid2_bytes w.levels) w.mid2s
      → (m : MidNode2)
      → (t : Tree MidNode2) × (a : ℤ) × (write_mid2 w false bid m s
          ≡ some (a, record s { mid2 = t }))
        × (t.cache ≡ assign s.mid2.cache bid m)
  unfolding write_mid2_node
  write_mid2-Quiet quiet m =
      let ((t, a), e, same) =
        write_node-Quiet (mid2_class w.mid2_bytes w.levels) w.mid2s quiet s.mid2 bid m real in
      (
        t,
        a,
        at_mid2-some s a (λ u. write_mid2_node w.mid2_bytes w.levels w.mid2s u false bid m) t e,
        same,
      )
