-- ===== src/Leaf/Correct.antt =====
-- `leafNode::Insert` of src/node.cpp, on every branch.
use mathlib.Core.Path.{subst}
use mathlib.Core.List.{append-nil}
use bomap.Base.{
  ◌+◌, ◌≡◌, refl, sym, ap, ◌∙◌, false, Bool-cases, inl, inr, ◌⊎◌, List, [], ◌∷◌, ◌++◌, some, length,
  ℤ, arith, ltb, length-append, ◌>>=◌, take, drop, take-append-drop, length-take, length-drop,
}
use bomap.Bid.{Bid}
use bomap.Node.{KvPair, leaf_slots, half}
use bomap.Slots.Holds.{Holds, Yields}
use bomap.Leaf.{LeafNode, insert_full, insert, fill_loop, filled, replaced}
use bomap.Leaf.Spec.{IsLeaf, pair, upsert, upsert-IsSorted}
use bomap.Leaf.Insert.{Hit-max_key, insert_room-IsLeaf}
use bomap.Leaf.Split.{Outcome, fill-Outcome, split_leaf-Halves}

-- The two leaves after an insertion into one that stores `xs`: together they store the upsert,
-- either in the first alone or in halves, and the first is still known to its parent by the key
-- that was its largest before.
pub record Inserted (xs : List KvPair) (l new : LeafNode) (r : LeafNode × LeafNode) : Type 0 where
  pub front : List KvPair
  pub back : List KvPair
  pub joined : front ++ back ≡ xs
  pub stays : IsLeaf r.0 front
  pub moves : IsLeaf r.1 back
  pub halves : (back ≡ []) ⊎ ((length front ≡ 4) × (length back ≡ 5))
  pub indexed : r.0.old_max ≡ l.max_value
  pub placed : r.0.pos ≡ l.pos
  pub placed_new : r.1.pos ≡ new.pos

module _ (l new : LeafNode) (k : Bid) (v : ℤ) (xs : List KvPair) (i : IsLeaf l xs)
    (empty : IsLeaf new []) (fresh : l.old_max ≡ l.max_value) where
  insert_full-Inserted :
      length xs ≡ leaf_slots → Yields (Inserted (upsert k v xs) l new) (insert_full l new k v)
  unfolding insert_full Outcome
  insert_full-Inserted full = elim (fill-Outcome k v [] xs i.holds.rest [] i.sorted (omega arith)) [
    | inl (h, e) ↦
        let new_slots = h.front ++ (record h.old { value = v }) ∷ h.back in
        let same : length new_slots ≡ length xs = omega (
          arith,
          ap length h.before,
          length-append h.front ((record h.old { value = v }) ∷ h.back),
          length-append h.front (h.old ∷ h.back),
        ) in
        let looped : fill_loop l.c l.arr 0 (pair k v) [] false
            ≡ some (replaced (new_slots ++ i.holds.rest)) =
          rw (i.holds.layout, i.holds.count) e in
        (
          (record l { arr = new_slots ++ i.holds.rest }, new),
          rw (looped, ◌>>=◌),
          record {
            front = upsert k v xs;
            back = [];
            joined = append-nil (upsert k v xs);
            stays = record {
              holds =
                  subst (Holds leaf_slots (new_slots ++ i.holds.rest) l.c) (sym h.after) (record {
                    rest = i.holds.rest;
                    layout = refl;
                    count = omega (arith, i.holds.count);
                    size = omega (arith, i.holds.size);
                  });
              sorted = upsert-IsSorted k v xs i.sorted;
              largest = i.largest ∙ sym (Hit-max_key l.max_value h);
            };
            moves = empty;
            halves = inl refl;
            indexed = fresh;
            placed = refl;
            placed_new = refl;
          },
        )
    | inr (f, w, e, c, len) ↦
        let looped : fill_loop l.c l.arr 0 (pair k v) [] false ≡ some (filled f w) =
          rw (i.holds.layout, i.holds.count) e in
        let size : length (upsert k v xs) ≡ leaf_slots + 1 = omega arith in
        let (r, halved, ((stays, moves), indexed, placed, placed_new)) =
          split_leaf-Halves l new (upsert k v xs) size
            (omega (arith, ap length empty.holds.layout, empty.holds.size))
            (upsert-IsSorted k v xs i.sorted) in
        (
          r,
          rw (looped, ◌>>=◌, c) halved,
          record {
            front = take (half leaf_slots) (upsert k v xs);
            back = drop (half leaf_slots) (upsert k v xs);
            joined = take-append-drop (half leaf_slots) (upsert k v xs);
            stays = stays;
            moves = moves;
            halves = inr (
              length-take (half leaf_slots) (upsert k v xs) (omega arith),
              omega (arith, length-drop (half leaf_slots) (upsert k v xs)),
            );
            indexed = indexed;
            placed = placed;
            placed_new = placed_new;
          },
        )
  ]

  -- An insertion into a leaf that stores the pairs `xs`, with an empty leaf at hand and with the
  -- last largest key known to the parent, stays inside the arrays. After it the two leaves store,
  -- one behind the other, `xs` with the value of the key replaced or the pair put into its place.
  -- The second leaf is empty, or a full leaf was cut into four and five pairs. Both leaves keep
  -- their positions, and the first remembers its former largest key.
  pub insert_correct : Yields (Inserted (upsert k v xs) l new) (insert l new k v)
  unfolding insert
  insert_correct = elim (Bool-cases (ltb l.c leaf_slots)) [
    | inl room ↦
        let (l', done, (stays, indexed, placed)) =
          insert_room-IsLeaf l k v xs i fresh (ground (arith, i.holds.count)) in
        (
          (l', new),
          rw (room, done),
          record {
            front = upsert k v xs;
            back = [];
            joined = append-nil (upsert k v xs);
            stays = stays;
            moves = empty;
            halves = inl refl;
            indexed = indexed;
            placed = placed;
            placed_new = refl;
          },
        )
    | inr no_room ↦ rw no_room (insert_full-Inserted (ground (arith, i.holds.count, i.holds.size)))
  ]
