-- ===== src/Inner/Rebalance.antt =====
-- `Delete` of the middle nodes of src/node.cpp after the removal: the node has become small, and takes
-- a child from its neighbour, gives all its children to it, or stays as it is.
use mathlib.Core.Path.{subst}
use mathlib.Core.List.{append_assoc}
use bomap.Base.{
  ◌+◌, ◌-◌, ◌<◌, ◌≡◌, refl, sym, ap, ◌∙◌, Bool-cases, inl, inr, List, [], ◌∷◌, ◌++◌, length, true,
  false, leb, arith, length-append, ◌>>=◌, some, get_elem?,
}
use bomap.Bid.{Bid}
use bomap.Node.{KpPair, no_child, mid_slots, Side, left, neither, right}
use bomap.Slots.Holds.{Holds, Yields}
use bomap.Slots.Moves.{uncons}
use bomap.Slots.Shares.{merge_left-Holds, merge_right-Holds}
use bomap.Slots.Borrows.{borrow_left-Holds, borrow_right-Holds}
use bomap.Leaf.{Deleted, absent, kept, merged}
use bomap.Inner.{Inner}
use bomap.Inner.Insert.{IsParent, last_key, last_of, read_last-last_key}
use bomap.Inner.Remove.{shrink, rebalance}

-- the children of a node and of its neighbour in order
abbrev pub in_order : Side → List KpPair → List KpPair → List KpPair
in_order right ns ys = ys ++ ns
in_order left ns ys = ns ++ ys
in_order neither ns ys = ns ++ ys

-- What the two nodes have if the children `ys` are left: a merged node gave all to its neighbour,
-- else the two may have shared the children anew.
abbrev pub Shared : Side → List KpPair → List KpPair → Deleted → Inner → Inner → Type 0
Shared side ns ys merged m nb = (m.p2 ≡ 0) × IsParent nb (in_order side ns ys)
Shared side ns ys kept m nb =
    (zs : List KpPair) × (ms : List KpPair) × IsParent m zs
    × IsParent nb ms
    × (in_order side ms zs ≡ in_order side ns ys)
Shared side ns ys absent m nb = ⊥

pub last_key_any : (d e : Bid) (xs : List KpPair) → 0 < length xs → last_key d xs ≡ last_key e xs
last_key_any d e [] h = absurd (omega arith)
last_key_any d e (x ∷ xs) h = refl

pub last_key-append_some :
    (d e : Bid) (xs ys : List KpPair) → 0 < length ys → last_key d (xs ++ ys) ≡ last_key e ys
last_key-append_some d e [] ys h = last_key_any d e ys h
last_key-append_some d e (x ∷ xs) ys h = last_key-append_some x.key e xs ys h

module _ (m nb : Inner) (ys ns : List KpPair) (h : Holds mid_slots m.child_map (m.p2 - 1) ys)
    (some_left : 0 < length ys) (i : IsParent nb ns) where
  pub shrink-Shared : (side : Side) → Yields (λ r. Shared side ns ys r.0 r.1 r.2) (shrink m nb)
  unfolding shrink
  shrink-Shared side =
      let (x, e, l) = read_last-last_key ys h some_left in
      (
        (kept, record m { p2 = m.p2 - 1; max_value = x.key }, nb),
        rw (e, ◌>>=◌) refl,
        (ys, ns, record { holds = h; largest = l }, i, refl),
      )

  merge_left-Shared :
      leb (nb.p2 + m.p2 - 1) mid_slots ≡ true
      → Yields (λ r. Shared left ns ys r.0 r.1 r.2) (rebalance m nb left)
  unfolding rebalance
  merge_left-Shared fits =
      let ((a, b), e, g) =
        merge_left-Holds m.p2 h i.holds (ground (arith, h.count, i.holds.count)) in
      let (x, f, l) = read_last-last_key (ns ++ ys) g (omega (arith, length-append ns ys)) in
      (
        (
          merged,
          record m { child_map = a; p2 = 0 },
          record nb { child_map = b; p2 = nb.p2 + (m.p2 - 1); max_value = x.key },
        ),
        rw (fits, e, ◌>>=◌, f) refl,
        (refl, record { holds = g; largest = l }),
      )

  merge_right-Shared :
      leb (nb.p2 + m.p2 - 1) mid_slots ≡ true
      → 0 < length ns
      → Yields (λ r. Shared right ns ys r.0 r.1 r.2) (rebalance m nb right)
  unfolding rebalance
  merge_right-Shared fits more =
      let ((a, b), e, g) =
        merge_right-Holds m.p2 h i.holds (ground (arith, h.count, i.holds.count)) in
      (
        (
          merged,
          record m { child_map = a; p2 = 0 },
          record nb { child_map = b; p2 = nb.p2 + (m.p2 - 1) },
        ),
        rw (fits, e, ◌>>=◌) refl,
        (
          refl,
          record {
            holds = g;
            largest = i.largest ∙ sym (last_key-append_some nb.max_value nb.max_value ys ns more);
          },
        ),
      )

  borrow_left-Shared :
      leb (nb.p2 + m.p2 - 1) mid_slots ≡ false
      → m.p2 < mid_slots
      → 1 < length ns
      → Yields (λ r. Shared left ns ys r.0 r.1 r.2) (rebalance m nb left)
  unfolding rebalance
  borrow_left-Shared full room more =
      let (y, q, f) = uncons ns (omega arith) in
      let (ms, z, g, _) = last_of y.key y q in
      let cut : ns ≡ ms ++ z ∷ [] = f ∙ g in
      let enough : 0 < length ms = omega (arith, ap length cut, length-append ms (z ∷ [])) in
      let ((a, b), e, (ha, hb)) =
        borrow_left-Holds m.p2 no_child z h (subst (Holds mid_slots nb.child_map nb.p2) cut i.holds)
          (omega (arith, h.count)) room in
      let (u, fu, mu) = read_last-last_key ms hb enough in
      let (x, fx, mx) = read_last-last_key (z ∷ ys) ha (omega arith) in
      (
        (
          kept,
          record m { child_map = a; max_value = x.key },
          record nb { child_map = b; p2 = nb.p2 - 1; max_value = u.key },
        ),
        rw (full, e, ◌>>=◌, fu, fx) refl,
        (
          z ∷ ys,
          ms,
          record { holds = ha; largest = mx },
          record { holds = hb; largest = mu },
          sym (ap (λ v. v ++ ys) cut ∙ append_assoc ms (z ∷ []) ys),
        ),
      )

  borrow_right-Shared :
      leb (nb.p2 + m.p2 - 1) mid_slots ≡ false
      → m.p2 < mid_slots
      → 1 < length ns
      → Yields (λ r. Shared right ns ys r.0 r.1 r.2) (rebalance m nb right)
  unfolding rebalance
  borrow_right-Shared full room more =
      let (z, ms, f) = uncons ns (omega arith) in
      let ((a, b), e, (ha, hb)) =
        borrow_right-Holds m.p2 no_child z h (subst (Holds mid_slots nb.child_map nb.p2) f i.holds)
          (omega (arith, h.count)) room in
      let first : get_elem? nb.child_map 0 ≡ some z =
        ap (λ u. get_elem? u 0) (i.holds.layout ∙ ap (λ u. u ++ i.holds.rest) f) in
      (
        (
          kept,
          record m { child_map = a; max_value = z.key },
          record nb { child_map = b; p2 = nb.p2 - 1 },
        ),
        rw (full, e, ◌>>=◌, first) refl,
        (
          ys ++ z ∷ [],
          ms,
          record {
            holds = ha;
            largest = sym (last_key-append_some z.key z.key ys (z ∷ []) (omega arith));
          },
          record {
            holds = hb;
            largest =
                i.largest
                ∙ ap (last_key nb.max_value) f
                ∙ last_key_any z.key nb.max_value ms (omega (arith, ap length f));
          },
          sym (ap (λ v. ys ++ v) f ∙ sym (append_assoc ys (z ∷ []) ms)),
        ),
      )

  pub rebalance-Shared :
      (side : Side)
      → leb m.p2 12 ≡ true
      → 0 < nb.p2
      → Yields (λ r. Shared side ns ys r.0 r.1 r.2) (rebalance m nb side)
  unfolding rebalance
  rebalance-Shared neither small more = shrink-Shared neither
  rebalance-Shared left small more = elim (Bool-cases (leb (nb.p2 + m.p2 - 1) mid_slots)) [
    | inl fits ↦ merge_left-Shared fits
    | inr full ↦ borrow_left-Shared full (ground arith) (ground (arith, i.holds.count))
  ]
  rebalance-Shared right small more = elim (Bool-cases (leb (nb.p2 + m.p2 - 1) mid_slots)) [
    | inl fits ↦ merge_right-Shared fits (omega (arith, i.holds.count))
    | inr full ↦ borrow_right-Shared full (ground arith) (ground (arith, i.holds.count))
  ]
