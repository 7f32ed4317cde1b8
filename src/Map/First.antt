-- ===== src/Map/First.antt =====
-- `client::insert` of src/client.cpp into an empty map with a root, one level of `midNode2`s and the
-- leaves.
pub mod Finds
pub mod Runs
use mathlib.Core.Path.{subst}
use bomap.Base
use bomap.Base.{
  ℕ, suc, ◌-◌, ◌≡◌, refl, sym, ◌∙◌, true, false, List, ◌∷◌, replicate, some, ℤ, pos, arith, ◌==◌,
  if◌then◌else◌,
}
use bomap.Bid
use bomap.Bid.{Bid}
use bomap.Bid.Order.{eq-value}
use bomap.Node.{KpPair, no_child, mid_slots, root_slots}
use bomap.Slots.{insert_at}
use bomap.Slots.Holds.{Yields}
use bomap.Leaf
use bomap.Leaf.{LeafNode, single_leaf}
use bomap.Inner
use bomap.Inner.{Inner, empty_inner, place}
use bomap.Mid2
use bomap.Mid2.{MidNode2, empty_mid2}
use bomap.Root
use bomap.Root.{RootNode, empty_root}
use bomap.Client.{NodeClass, Tree, Outside, find, assign, write_node, mark, add_leaf}
use bomap.Client.Access.{find-assign}
use bomap.Client.Reads.{IsReply, fetch_path-Counted}
use bomap.Client.Trees.{leaf_class, mid2_class, write_leaf_node, write_mid2_node}
use bomap.TreePath.{leaf_size, mid2_size}
use bomap.Map.{Store, World, Action, ◌>>=◌, ◌>>◌, write_leaf, write_mid2, pure, at_root}
use bomap.Map.Steps.{bind-some, lift-bind, at_leaf-some, at_mid2-some}
use bomap.Map.Insert.{insert_first, first_below_root, first_below_mid1, insert}
use bomap.Map.Insert.Levels.{root_insert_mid2}

-- an array whose first slot alone is used
abbrev pub one : ℕ → KpPair → List KpPair
one n c = c ∷ replicate n no_child

-- the first leaf, and the `midNode2` above it
abbrev pub first_leaf : Bid → ℤ → ℤ → LeafNode
first_leaf k v p = record (single_leaf k v) { pos = p }

abbrev pub first_mid2 : Bid → ℤ → ℤ → MidNode2
first_mid2 k p q = record {
  child_map = one (mid_slots - 1) (record { key = k; pos = p });
  old_max = empty_mid2.old_max;
  max_value = k;
  pos = q;
  p2 = 1;
}

mid2_takes :
    (k : Bid) (v p q r : ℤ)
    → Mid2.insert (record empty_mid2 { pos = q }) (record empty_mid2 { pos = r }) (first_leaf k v p)
      ≡ some (
        first_mid2 k p q,
        record empty_mid2 { pos = r },
        record (first_leaf k v p) { old_max = k },
      )
unfolding Mid2.insert empty_mid2 empty_inner Inner.insert_child place insert_at single_leaf
mid2_takes k v p q r = refl

abbrev pub first_root : Bid → ℤ → RootNode
first_root k q = record {
  child_map = one (root_slots - 1) (record { key = k; pos = q });
  max_value = k;
  p1 = 1;
}

root_takes :
    (k : Bid) (p q : ℤ)
    → Root.insert_mid2 empty_root (first_mid2 k p q)
      ≡ some (true, first_root k q, record (first_mid2 k p q) { old_max = k })
unfolding Root.insert_mid2 Root.insert_child place insert_at empty_root
root_takes k p q = refl

module _ {N : Type 0} (cls : NodeClass N) (out : Outside N) where
  -- a node that is written without its tree's path being read before
  write_node-find :
      (t : Tree N) (bid : Bid) (node : N)
      → Bid.eq_int bid (pos 0) ≡ false
      → IsReply cls out (out.reply t.read_cnt (cls.pos_of node))
      → Yields (λ r. find r.0.cache bid ≡ some node) (write_node cls out t false bid node)
  unfolding write_node
  write_node-find t bid node real reply =
      let (t', e, _) =
        fetch_path-Counted cls out (record t { modified = mark t.modified bid }) (cls.pos_of node)
          reply in
      let same : Bid.eq bid bid ≡ true = ground (arith, eq-value bid bid) in
      (
        (
          record t' {
            cache = assign t'.cache bid node;
            leaf_list = add_leaf t'.leaf_list (cls.pos_of node);
          },
          cls.pos_of node,
        ),
        rw (real, e) refl,
        find-assign t'.cache bid bid node ∙ rw same refl,
      )

module _ (w : World) where
  -- the service answers each read of the leaves with whole buckets, or not at all
  abbrev pub LeavesReply : Type 0
  LeavesReply =
      (i : ℕ) (p : ℤ) → IsReply (leaf_class w.leaf_bytes w.levels) w.leaves (w.leaves.reply i p)

  abbrev pub Mid2sReply : Type 0
  Mid2sReply =
      (i : ℕ) (p : ℤ) → IsReply (mid2_class w.mid2_bytes w.levels) w.mid2s (w.mid2s.reply i p)

  write_leaf-find :
      LeavesReply
      → (s : Store) (key : Bid) (l : LeafNode) → Bid.eq_int key (pos 0) ≡ false
      → (t : Tree LeafNode) × (a : ℤ) × (write_leaf_node w.leaf_bytes w.levels w.leaves s.leaf false
            key l
          ≡ some (t, a))
        × (find t.cache key ≡ some l)
  unfolding write_leaf_node
  write_leaf-find replies s key l real =
      let ((t, a), e, f) =
        write_node-find (leaf_class w.leaf_bytes w.levels) w.leaves s.leaf key l real
          (replies s.leaf.read_cnt ((leaf_class w.leaf_bytes w.levels).pos_of l)) in
      (t, a, e, f)

  write_mid2-find :
      Mid2sReply
      → (s : Store) (key : Bid) (m : MidNode2) → Bid.eq_int key (pos 0) ≡ false
      → (t : Tree MidNode2) × (a : ℤ) × (write_mid2_node w.mid2_bytes w.levels w.mid2s s.mid2 false
            key m
          ≡ some (t, a))
        × (find t.cache key ≡ some m)
  unfolding write_mid2_node
  write_mid2-find replies s key m real =
      let ((t, a), e, f) =
        write_node-find (mid2_class w.mid2_bytes w.levels) w.mid2s s.mid2 key m real
          (replies s.mid2.read_cnt ((mid2_class w.mid2_bytes w.levels).pos_of m)) in
      (t, a, e, f)

  -- what the branch for an empty map leaves, with only `midNode2`s between the root and the leaves
  pub record First (key : Bid) (value : ℤ) (s s' : Store) : Type 0 where
    pub leaf_pos : ℤ
    pub mid2_pos : ℤ
    pub root : s'.root ≡ first_root key mid2_pos
    pub mid1 : s'.mid1 ≡ s.mid1
    pub mid2 :
        find s'.mid2.cache key ≡ some (record (first_mid2 key leaf_pos mid2_pos) { old_max = key })
    pub leaf :
        find s'.leaf.cache key ≡ some (record (first_leaf key value leaf_pos) { old_max = key })

  root_insert-First :
      (s : Store) (k : Bid) (p q : ℤ)
      → s.root ≡ empty_root
      → root_insert_mid2 (first_mid2 k p q) s
        ≡ some (record (first_mid2 k p q) { old_max = k }, record s { root = first_root k q })
  unfolding root_insert_mid2
  root_insert-First s k p q empty =
      let e : Root.insert_mid2 s.root (first_mid2 k p q)
          ≡ some (true, first_root k q, record (first_mid2 k p q) { old_max = k }) =
        subst
          (λ r.
            Root.insert_mid2 r (first_mid2 k p q)
            ≡ some (true, first_root k q, record (first_mid2 k p q) { old_max = k }))
          (sym empty) (root_takes k p q) in
      rw (at_root, e) refl

  first_below_root-First :
      (s : Store) (k : Bid) (p q : ℤ) (t : Tree MidNode2) (b : ℤ)
      → s.root ≡ empty_root
      → write_mid2_node w.mid2_bytes w.levels w.mid2s s.mid2 false k
          (record (first_mid2 k p q) { old_max = k })
        ≡ some (t, b)
      → first_below_root w (first_mid2 k p q) s
        ≡ some (tt, record s { root = first_root k q; mid2 = t })
  unfolding first_below_root
  first_below_root-First s k p q t b empty e =
      let s1 = record s { root = first_root k q } in
      let m = record (first_mid2 k p q) { old_max = k } in
      bind-some (root_insert_mid2 (first_mid2 k p q))
        (λ n. write_mid2 w false n.max_value n >>= λ _. pure tt) s s1 m
        (root_insert-First s k p q empty)
      ∙ bind-some (write_mid2 w false k m) (λ _. pure tt) s1 (record s1 { mid2 = t }) b
          (at_mid2-some s1 b (λ u. write_mid2_node w.mid2_bytes w.levels w.mid2s u false k m) t e)

  pub insert_first-First :
      (key : Bid) (value : ℤ) (s : Store)
      → (w.levels - 3 == 0) ≡ true
      → s.root ≡ empty_root
      → Bid.eq_int key (pos 0) ≡ false
      → LeavesReply
      → Mid2sReply
      → Yields (λ r. First key value s r.1) (insert_first w key value s)
  unfolding insert_first
  insert_first-First key value s between empty real leaves mid2s =
      let p = w.draw (leaf_size w.levels) s.drawn in
      let q = w.draw (mid2_size w.levels) (suc s.drawn) in
      let r = w.draw (mid2_size w.levels) (suc (suc s.drawn)) in
      let l = record (first_leaf key value p) { old_max = key } in
      let s1 = record s { drawn = suc (suc (suc s.drawn)) } in
      let (tl, a, el, fl) = write_leaf-find leaves s key l real in
      let (tm, b, em, fm) =
        write_mid2-find mid2s s key (record (first_mid2 key p q) { old_max = key }) real in
      let rest : MidNode2 → ℤ → Action (Unit {0}) =
        λ m _. if w.levels - 3 == 0 then first_below_root w m else first_below_mid1 w m in
      (
        (tt, record s1 { root = first_root key q; leaf = tl; mid2 = tm }),
        lift-bind
              (Mid2.insert (record empty_mid2 { pos = q }) (record empty_mid2 { pos = r })
                (first_leaf key value p))
              (λ x. write_leaf w false key x.2 >>= rest x.0) s1
              (first_mid2 key p q, record empty_mid2 { pos = r }, l) (mid2_takes key value p q r)
            ∙ bind-some (write_leaf w false key l) (rest (first_mid2 key p q)) s1
                (record s1 { leaf = tl }) a
                (at_leaf-some s1 a
                  (λ t. write_leaf_node w.leaf_bytes w.levels w.leaves t false key l) tl el)
            ∙ rw between (first_below_root-First (record s1 { leaf = tl }) key p q tm b empty em),
        record { leaf_pos = p; mid2_pos = q; root = refl; mid1 = refl; mid2 = fm; leaf = fl },
      )
