-- ===== src/Leaf/Rebalance.antt =====
-- `leafNode::Delete` of src/node.cpp after the removal: the leaf has become small, and takes a pair
-- from its neighbour, gives all its pairs to it, or stays as it is.
use mathlib.Core.Path.{subst}
use mathlib.Core.List.{append_assoc}
use bomap.Base.{
  ◌+◌, ◌-◌, ◌<◌, ◌≡◌, refl, sym, ap, ◌∙◌, Bool-cases, inl, inr, List, [], ◌∷◌, ◌++◌, length, true,
  false, leb, arith, length-append, ◌>>=◌, some, get_elem?,
}
use bomap.Bid.{Bid}
use bomap.Node.{KvPair, no_value, leaf_slots, Side, left, neither, right}
use bomap.Slots.Holds.{Holds, Yields}
use bomap.Slots.Moves.{uncons}
use bomap.Slots.Shares.{merge_left-Holds, merge_right-Holds}
use bomap.Slots.Borrows.{borrow_left-Holds, borrow_right-Holds}
use bomap.Leaf.{LeafNode, Deleted, absent, kept, merged, shrink, rebalance}
use bomap.Leaf.Spec.{
  IsLeaf, IsSorted, IsSorted-append, max_key, max_key-append, max_key_any, read_last-max, snoc,
}

-- the pairs of a leaf and of its neighbour in key order
abbrev pub in_order : Side → List KvPair → List KvPair → List KvPair
in_order right ns ys = ys ++ ns
in_order left ns ys = ns ++ ys
in_order neither ns ys = ns ++ ys

-- for a leaf without a neighbour on its level nothing is known of the other
abbrev pub IsOrdered : Side → List KvPair → List KvPair → Type 0
IsOrdered right ns ys = IsSorted (ys ++ ns)
IsOrdered left ns ys = IsSorted (ns ++ ys)
IsOrdered neither ns ys = Unit {0}

-- What the two leaves store if `ys` is left: a merged leaf gave all to its neighbour, else the two
-- may have shared the pairs anew.
abbrev pub Shared : Side → List KvPair → List KvPair → Deleted → LeafNode → LeafNode → Type 0
Shared side ns ys merged l nb = (l.c ≡ 0) × IsLeaf nb (in_order side ns ys)
Shared side ns ys kept l nb =
    (zs : List KvPair) × (ms : List KvPair) × IsLeaf l zs
    × IsLeaf nb ms
    × (in_order side ms zs ≡ in_order side ns ys)
Shared side ns ys absent l nb = ⊥

largest_lem :
    (k : Bid) (xs : List KvPair) → k ≡ max_key k xs → 0 < length xs → (j : Bid) → k ≡ max_key j xs
largest_lem k xs e h j = e ∙ max_key_any k j xs h

module _ (l nb : LeafNode) (ys ns : List KvPair) (h : Holds leaf_slots l.arr (l.c - 1) ys)
    (some_left : 0 < length ys) (s : IsSorted ys) (i : IsLeaf nb ns) where
  pub shrink-Shared : (side : Side) → Yields (λ r. Shared side ns ys r.0 r.1 r.2) (shrink l nb)
  unfolding shrink
  shrink-Shared side =
      let (x, e, m) = read_last-max l.max_value ys h some_left in
      let l' : LeafNode = record l { c = l.c - 1; old_max = l.max_value; max_value = x.key } in
      (
        (kept, l', nb),
        rw (e, ◌>>=◌) refl,
        (
          ys,
          ns,
          record {
            holds = h;
            sorted = s;
            largest = m ∙ max_key_any l.max_value x.key ys some_left;
          },
          i,
          refl,
        ),
      )

  merge_left-Shared :
      leb (nb.c + l.c - 1) leaf_slots ≡ true
      → IsSorted (ns ++ ys)
      → Yields (λ r. Shared left ns ys r.0 r.1 r.2) (rebalance l nb left)
  unfolding rebalance
  merge_left-Shared fits order =
      let both : 0 < length (ns ++ ys) = omega (arith, length-append ns ys) in
      let ((a, b), e, g) =
        merge_left-Holds l.c h i.holds (ground (arith, h.count, i.holds.count)) in
      let (x, f, m) = read_last-max l.max_value (ns ++ ys) g both in
      (
        (
          merged,
          record l { arr = a; c = 0 },
          record nb { arr = b; c = nb.c + (l.c - 1); old_max = nb.max_value; max_value = x.key },
        ),
        rw (fits, e, ◌>>=◌, f) refl,
        (
          refl,
          record {
            holds = g;
            sorted = order;
            largest = m ∙ max_key_any l.max_value x.key (ns ++ ys) both;
          },
        ),
      )

  merge_right-Shared :
      leb (nb.c + l.c - 1) leaf_slots ≡ true
      → IsSorted (ys ++ ns)
      → 0 < length ns
      → Yields (λ r. Shared right ns ys r.0 r.1 r.2) (rebalance l nb right)
  unfolding rebalance
  merge_right-Shared fits order more =
      let ((a, b), e, g) =
        merge_right-Holds l.c h i.holds (ground (arith, h.count, i.holds.count)) in
      let (z, zs, f) = uncons ns more in
      (
        (merged, record l { arr = a; c = 0 }, record nb { arr = b; c = nb.c + (l.c - 1) }),
        rw (fits, e, ◌>>=◌) refl,
        (
          refl,
          record {
            holds = g;
            sorted = order;
            largest =
                i.largest
                ∙ ap (max_key nb.max_value) f
                ∙ sym (max_key-append nb.max_value ys z zs)
                ∙ ap (λ u. max_key nb.max_value (ys ++ u)) (sym f);
          },
        ),
      )

  borrow_left-Shared :
      leb (nb.c + l.c - 1) leaf_slots ≡ false
      → IsSorted (ns ++ ys)
      → l.c < leaf_slots
      → 1 < length ns
      → Yields (λ r. Shared left ns ys r.0 r.1 r.2) (rebalance l nb left)
  unfolding rebalance
  borrow_left-Shared full order room more =
      let (y, q, f) = uncons ns (omega arith) in
      let (ms, z, g) = snoc y q in
      let cut : ns ≡ ms ++ z ∷ [] = f ∙ g in
      let enough : 0 < length ms = omega (arith, ap length cut, length-append ms (z ∷ [])) in
      let ((a, b), e, (ha, hb)) =
        borrow_left-Holds l.c no_value z h (subst (Holds leaf_slots nb.arr nb.c) cut i.holds)
          (omega (arith, h.count)) room in
      let (u, fu, mu) = read_last-max nb.max_value ms hb enough in
      let (x, fx, mx) = read_last-max l.max_value (z ∷ ys) ha (omega arith) in
      let moved : ns ++ ys ≡ ms ++ z ∷ ys = ap (λ v. v ++ ys) cut ∙ append_assoc ms (z ∷ []) ys in
      let (sms, szs) = IsSorted-append ms (z ∷ ys) (subst IsSorted moved order) in
      (
        (
          kept,
          record l { arr = a; old_max = l.max_value; max_value = x.key },
          record nb { arr = b; c = nb.c - 1; old_max = nb.max_value; max_value = u.key },
        ),
        rw (full, e, ◌>>=◌, fu, fx) refl,
        (
          z ∷ ys,
          ms,
          record { holds = ha; sorted = szs; largest = mx },
          record {
            holds = hb;
            sorted = sms;
            largest = mu ∙ max_key_any nb.max_value u.key ms enough;
          },
          sym moved,
        ),
      )

  borrow_right-Shared :
      leb (nb.c + l.c - 1) leaf_slots ≡ false
      → IsSorted (ys ++ ns)
      → l.c < leaf_slots
      → 1 < length ns
      → Yields (λ r. Shared right ns ys r.0 r.1 r.2) (rebalance l nb right)
  unfolding rebalance
  borrow_right-Shared full order room more =
      let (z, ms, f) = uncons ns (omega arith) in
      let enough : 0 < length ms = omega (arith, ap length f) in
      let ((a, b), e, (ha, hb)) =
        borrow_right-Holds l.c no_value z h (subst (Holds leaf_slots nb.arr nb.c) f i.holds)
          (omega (arith, h.count)) room in
      let first : get_elem? nb.arr 0 ≡ some z =
        ap (λ u. get_elem? u 0) (i.holds.layout ∙ ap (λ u. u ++ i.holds.rest) f) in
      let moved : ys ++ ns ≡ (ys ++ z ∷ []) ++ ms =
        ap (λ v. ys ++ v) f ∙ sym (append_assoc ys (z ∷ []) ms) in
      let (szs, sms) = IsSorted-append (ys ++ z ∷ []) ms (subst IsSorted moved order) in
      (
        (
          kept,
          record l { arr = a; old_max = l.max_value; max_value = z.key },
          record nb { arr = b; c = nb.c - 1 },
        ),
        rw (full, e, ◌>>=◌, first) refl,
        (
          ys ++ z ∷ [],
          ms,
          record { holds = ha; sorted = szs; largest = sym (max_key-append z.key ys z []) },
          record {
            holds = hb;
            sorted = sms;
            largest =
                i.largest ∙ ap (max_key nb.max_value) f ∙ max_key_any z.key nb.max_value ms enough;
          },
          sym moved,
        ),
      )

  pub rebalance-Shared :
      (side : Side)
      → IsOrdered side ns ys
      → leb l.c 4 ≡ true
      → 0 < nb.c
      → Yields (λ r. Shared side ns ys r.0 r.1 r.2) (rebalance l nb side)
  unfolding rebalance
  rebalance-Shared neither order small more = shrink-Shared neither
  rebalance-Shared left order small more = elim (Bool-cases (leb (nb.c + l.c - 1) leaf_slots)) [
    | inl fits ↦ merge_left-Shared fits order
    | inr full ↦ borrow_left-Shared full order (ground arith) (ground (arith, i.holds.count))
  ]
  rebalance-Shared right order small more = elim (Bool-cases (leb (nb.c + l.c - 1) leaf_slots)) [
    | inl fits ↦ merge_right-Shared fits order (omega (arith, i.holds.count))
    | inr full ↦ borrow_right-Shared full order (ground arith) (ground (arith, i.holds.count))
  ]
