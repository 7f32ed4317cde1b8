-- ===== src/Inner/Insert.antt =====
-- `Insert` of the middle nodes of src/node.cpp, with room and in a full node.
use bomap.Base.{
  ℕ, suc, ◌+◌, ◌-◌, ◌<◌, ◌≡◌, refl, ap, false, Bool-cases, inl, inr, ◌⊎◌, List, [], ◌∷◌, ◌++◌,
  length, arith, ltb, take-append-drop, ◌>>=◌, some, take, drop,
}
use mathlib.Core.Path.{subst}
use mathlib.Core.List.{append-nil}
use bomap.Bid.{Bid}
use bomap.Node.{KpPair, no_child, mid_slots, half}
use bomap.Slots.{read_last}
use bomap.Slots.Holds.{Holds, Yields}
use bomap.Slots.Halves.{split-Holds}
use bomap.Slots.Moves.{read_last-Holds}
use bomap.Inner.{Inner, insert_child, split_inner, fill_children}
use bomap.Inner.Place.{put, length-put, IsFresh, place-Holds, Fills, fill-Fills}

-- the key of the last child
abbrev pub last_key : Bid → List KpPair → Bid
last_key d [] = d
last_key d (x ∷ xs) = last_key x.key xs

-- the node has the children `xs`
pub record IsParent (m : Inner) (xs : List KpPair) : Type 0 where
  pub holds : Holds mid_slots m.child_map m.p2 xs
  pub largest : m.max_value ≡ last_key m.max_value xs

pub last_of :
    (d : Bid) (x : KpPair) (xs : List KpPair)
    → (ys : List KpPair) × (y : KpPair) × (x ∷ xs ≡ ys ++ y ∷ []) × (y.key ≡ last_key d (x ∷ xs))
last_of d x [] = ([], x, refl, refl)
last_of d x (z ∷ xs) = let (ys, y, e, k) = last_of d z xs in (x ∷ ys, y, ap (◌∷◌ x) e, k)

-- the last slot has a key that is the last whatever stands for the key of no child
pub read_last-last_key :
    {cap : ℕ} {a : List KpPair} {c : ℕ} (xs : List KpPair)
    → Holds cap a c xs
    → 0 < length xs
    → (x : KpPair) × (read_last a c ≡ some x) × (x.key ≡ last_key x.key xs)
read_last-last_key [] h p = absurd (omega arith)
read_last-last_key {cap} {a} {c} (x ∷ xs) h p =
    let (ys, y, e, k) = last_of x.key x xs in
    (y, read_last-Holds ys y (subst (λ zs. Holds cap a c zs) e h), k)

-- The two nodes after an insertion: one behind the other, they have the children `xs`.
pub record Parents (m new : Inner) (xs : List KpPair) (r : Inner × Inner) : Type 0 where
  pub front : List KpPair
  pub back : List KpPair
  pub joined : front ++ back ≡ xs
  pub stays : IsParent r.0 front
  pub moves : IsParent r.1 back
  pub halves : (back ≡ []) ⊎ ((length front ≡ 12) × (length back ≡ 12))
  pub known : r.0.old_max ≡ m.old_max
  pub placed : r.0.pos ≡ m.pos
  pub placed_new : r.1.pos ≡ new.pos

split_inner-Parents :
    (m new : Inner) (full : List KpPair)
    → length full ≡ mid_slots + 1
    → length new.child_map ≡ mid_slots
    → Yields (Parents m new full) (split_inner m new full)
unfolding split_inner
split_inner-Parents m new full e n =
    let front = take (half mid_slots) full in
    let back = drop (half mid_slots) full in
    let ((a, b), apart, (h, g)) =
      split-Holds no_child mid_slots (mid_slots + 1) (half mid_slots) full new.child_map e n
        (omega arith) (omega arith) (omega arith) in
    let (x, last, top) = read_last-last_key front h (omega (arith, h.count)) in
    let (y, last', top') = read_last-last_key back g (omega (arith, g.count)) in
    (
      (
        record m { child_map = a; p2 = half mid_slots; max_value = x.key },
        record new { child_map = b; p2 = mid_slots + 1 - half mid_slots; max_value = y.key },
      ),
      rw (apart, ◌>>=◌, last, last') refl,
      record {
        front = front;
        back = back;
        joined = take-append-drop (half mid_slots) full;
        stays = record { holds = h; largest = top };
        moves = record { holds = g; largest = top' };
        halves = inr (omega (arith, h.count), omega (arith, g.count));
        known = refl;
        placed = refl;
        placed_new = refl;
      },
    )

-- An insertion of a child whose key no other child of the node has, with an empty node at hand,
-- stays inside the arrays. The two nodes then have, one behind the other, the former children with
-- the new one before the first whose key is not below its own: all in the first node, or, if it was
-- full, twelve in each. Both know the key of their last child and keep their positions, and the first the key
-- that its parent knows.
pub insert_child-Parents :
    (m new : Inner) (kp : KpPair) (xs : List KpPair)
    → IsParent m xs
    → IsParent new []
    → IsFresh kp.key xs
    → Yields (Parents m new (put kp xs)) (insert_child m new kp)
unfolding insert_child Fills
insert_child-Parents m new kp xs i empty f = elim (Bool-cases (ltb m.p2 mid_slots)) [
  | inl room ↦
      let (a, done, h) = place-Holds kp xs i.holds f (ground arith) in
      let (x, last, top) = read_last-last_key (put kp xs) h (omega (arith, length-put kp xs)) in
      (
        (record m { child_map = a; p2 = suc m.p2; max_value = x.key }, new),
        rw (room, done, ◌>>=◌, last) refl,
        record {
          front = put kp xs;
          back = [];
          joined = append-nil (put kp xs);
          stays = record { holds = h; largest = top };
          moves = empty;
          halves = inl refl;
          known = refl;
          placed = refl;
          placed_new = refl;
        },
      )
  | inr no_room ↦
      let size : length xs ≡ mid_slots = ground (arith, i.holds.count, i.holds.size) in
      let (g, w, loop, last) = fill-Fills kp i.holds.rest [] xs [] (omega arith) in
      let filled : fill_children m.p2 m.child_map 0 kp [] false ≡ some (g, w) =
        rw (i.holds.layout, i.holds.count) loop in
      let (r, done, p) =
        split_inner-Parents m new (put kp xs) (omega (arith, length-put kp xs))
          (omega (arith, ap length empty.holds.layout, empty.holds.size)) in
      (r, rw (no_room, filled, ◌>>=◌, last) done, p)
]
