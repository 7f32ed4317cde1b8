-- ===== src/Map/Shallow.antt =====
-- The nodes on the path of an insertion without a split, by `leafNode::Insert`, `midNode2::Update` and
-- `rootNode::Update` of src/node.cpp.
use mathlib.Core.Path.{subst}
use bomap.Base.{◌<◌, ◌≡◌, refl, sym, ◌∙◌, List, [], ◌∷◌, ◌++◌, length, ℤ, ◌>>=◌}
use bomap.Bid.{Bid}
use bomap.Node.{KpPair, KvPair}
use bomap.Slots.Holds.{Yields}
use bomap.Leaf
use bomap.Leaf.{LeafNode, empty_leaf}
use bomap.Leaf.Spec.{IsLeaf, max_key, max_key_any, upsert}
use bomap.Leaf.Correct.{Inserted, insert_correct}
use bomap.Inner.Insert.{IsParent}
use bomap.Inner.Place.{IsFresh}
use bomap.Inner.Update.{Ascends, update_child_correct}
use bomap.Mid2
use bomap.Mid2.{MidNode2}

pub empty_leaf-IsLeaf : (p : ℤ) → IsLeaf (record empty_leaf { pos = p }) []
unfolding empty_leaf
empty_leaf-IsLeaf p = record {
  holds = record { rest = empty_leaf.arr; layout = refl; count = refl; size = refl };
  sorted = tt;
  largest = refl;
}

-- an insertion into a leaf that knows its key in the parent
pub insert-Inserted :
    (l : LeafNode) (p : ℤ) (k : Bid) (v : ℤ) (xs : List KvPair) (key : Bid)
    → IsLeaf l xs
    → 0 < length xs
    → key ≡ max_key key xs
    → l.old_max ≡ key
    → Yields
        (λ r. Inserted (upsert k v xs) l (record empty_leaf { pos = p }) r × (r.0.old_max ≡ key))
        (Leaf.insert l (record empty_leaf { pos = p }) k v)
insert-Inserted l p k v xs key i more top old =
    let known : l.max_value ≡ key = i.largest ∙ max_key_any l.max_value key xs more ∙ sym top in
    let (r, done, h) =
      insert_correct l (record empty_leaf { pos = p }) k v xs i (empty_leaf-IsLeaf p)
        (old ∙ sym known) in
    (r, done, (h, h.indexed ∙ known))

-- `Update` of a `midNode2`
pub mid2_update_correct :
    (m : MidNode2) (l : LeafNode) (front : List KpPair) (c : KpPair) (back : List KpPair)
    → IsParent m (front ++ c ∷ back)
    → l.old_max ≡ c.key
    → IsFresh c.key front
    → Ascends (front ++ record c { key = l.max_value } ∷ back)
    → Yields
        (λ o.
          IsParent o.0 (front ++ record c { key = l.max_value } ∷ back)
          × (o.0.pos ≡ m.pos)
          × (o.0.old_max ≡ m.old_max)
          × (o.1 ≡ record l { old_max = l.max_value }))
        (Mid2.update m l)
unfolding Mid2.update
mid2_update_correct m l front c back i e f s =
    let (m', done, (parent, placed, known)) =
      update_child_correct m front c back l.old_max l.max_value i (sym e)
        (subst (λ j. IsFresh j front) (sym e) f) s in
    ((m', record l { old_max = l.max_value }), rw (done, ◌>>=◌) refl, (parent, placed, known, refl))
