-- ===== src/Map/Route/Neighbor.antt =====
-- The second search of the middle nodes of src/node.cpp, `Search` for a child and its neighbour.
use mathlib.Core.Path.{subst}
use mathlib.Core.List.{append_assoc}
use bomap.Base.{
  ℕ, suc, ◌-◌, ◌<◌, ◌≡◌, refl, sym, ap, ◌∙◌, inl, inr, List, [], ◌∷◌, ◌++◌, some, length, true,
  false, ltb, arith, length-append, ◌>>=◌, ◌==◌, get_elem?,
}
use bomap.Bid.{Bid}
use bomap.Node.{KpPair, KvPair, Side, left, neither, right}
use bomap.Slots.{read_last}
use bomap.Slots.Holds.{Holds}
use bomap.Slots.Moves.{get_at, find_first_at, read_last-Holds}
use bomap.Inner.{Inner, Found, locate, choose, search_neighbor, search_slots}
use bomap.Inner.Insert.{IsParent, last_key}
use bomap.Leaf.Spec.{IsSorted}
use bomap.Map.Forest.{Forest, last_key-append}
use bomap.Map.Route.{Route, route, reaches, search_slots-Route}

-- the last child of some, or what stands for none
abbrev pub nearest : KpPair → List KpPair → KpPair
nearest d [] = d
nearest d (x ∷ xs) = nearest x xs

-- The neighbour of the child between `front` and `back` and its side, and where it has to come from:
-- from this node (`neither`), or from the parent's neighbour on a side. `nb` stands for none.
abbrev pub beside : Side → KpPair → List KpPair → KpPair → List KpPair → Side × Found
beside left nb [] c back = (left, record { child = c; neighbor = nb; side = left })
beside left nb (x ∷ front) c back =
    (neither, record { child = c; neighbor = nearest x front; side = left })
beside right nb front c [] = (right, record { child = c; neighbor = nb; side = right })
beside right nb front c (y ∷ back) = (neither, record { child = c; neighbor = y; side = right })
beside neither nb [] c [] = (neither, record { child = c; neighbor = nb; side = neither })
beside neither nb [] c (y ∷ back) = (neither, record { child = c; neighbor = y; side = right })
beside neither nb (x ∷ front) c back =
    (neither, record { child = c; neighbor = nearest x front; side = left })

read_nearest :
    (x : KpPair) (front back : List KpPair)
    → read_last ((x ∷ front) ++ back) (suc (length front)) ≡ some (nearest x front)
read_nearest x [] back = refl
read_nearest x (y ∷ front) back = read_nearest y front back

module _ (P : KpPair → List KvPair → Type 0) (k : Bid) (cs : List KpPair) (xs : List KvPair)
    (r : Route P k cs xs) where
  locate-Route :
      {cap : ℕ} {a : List KpPair} {n : ℕ} (max : Bid)
      → Holds cap a n cs
      → max ≡ last_key max cs
      → locate a n max k ≡ some (length r.front, r.child)
  unfolding locate
  locate-Route {cap} {a} {n} max h m =
      let found = find_first_at (reaches k) h in
      let slots : a ≡ r.front ++ r.child ∷ (r.back ++ h.rest) =
        h.layout
        ∙ ap (λ u. u ++ h.rest) r.children
        ∙ append_assoc r.front (r.child ∷ r.back) h.rest in
      elim (r.reach) [
        | inl (le, b) ↦
            let within : (length r.front == n) ≡ false =
              ground
                (arith, h.count, ap length r.children, length-append r.front (r.child ∷ r.back)) in
            rw (found, ◌>>=◌, b, within, slots, get_at r.front (r.back ++ h.rest) r.child _ refl)
              refl
        | inr (b, ends, none_above) ↦
            let all : cs ≡ r.front ++ r.child ∷ [] =
              r.children ∙ ap (λ u. r.front ++ r.child ∷ u) ends in
            let last : (length cs == n) ≡ true = ground (arith, h.count) in
            let read = read_last-Holds r.front r.child (subst (λ u. Holds cap a n u) all h) in
            let same : record r.child { key = max } ≡ r.child =
              ap (λ j. record r.child { key = j })
                (m ∙ ap (last_key max) all ∙ last_key-append max r.front r.child) in
            let index : n - 1 ≡ length r.front =
              omega (arith, h.count, ap length all, length-append r.front (r.child ∷ [])) in
            rw (found, ◌>>=◌, b, last, read)
              (ap some (
                ap (λ j. (j, record r.child { key = max })) index
                ∙ ap (λ c. (length r.front, c)) same))
      ]

module _ (P : KpPair → List KvPair → Type 0) (k : Bid) (cs : List KpPair) (xs : List KvPair)
    (r : Route P k cs xs) (m : Inner) (nb : KpPair) (i : IsParent m cs) where
  before_child :
      (x : KpPair) (front back : List KpPair) (c : KpPair)
      → cs ≡ (x ∷ front) ++ c ∷ back
      → read_last m.child_map (suc (length front)) ≡ some (nearest x front)
  before_child x front back c e =
      let slots : m.child_map ≡ (x ∷ front) ++ (c ∷ (back ++ i.holds.rest)) =
        i.holds.layout
        ∙ ap (λ u. u ++ i.holds.rest) e
        ∙ append_assoc (x ∷ front) (c ∷ back) i.holds.rest in
      ap (λ u. read_last u (suc (length front))) slots
      ∙ read_nearest x front (c ∷ (back ++ i.holds.rest))

  search_neighbor-left :
      (front back : List KpPair) (c : KpPair)
      → cs ≡ front ++ c ∷ back
      → locate m.child_map m.p2 m.max_value k ≡ some (length front, c)
      → search_neighbor m k nb left ≡ some (beside left nb front c back)
  unfolding search_neighbor
  search_neighbor-left [] back c e found = rw (found, ◌>>=◌) refl
  search_neighbor-left (x ∷ front) back c e found =
      let inside : ltb 0 (suc (length front)) ≡ true = ground arith in
      rw (found, ◌>>=◌, inside, before_child x front back c e) refl

  search_neighbor-right :
      (front back : List KpPair) (c : KpPair)
      → cs ≡ front ++ c ∷ back
      → locate m.child_map m.p2 m.max_value k ≡ some (length front, c)
      → search_neighbor m k nb right ≡ some (beside right nb front c back)
  unfolding search_neighbor
  search_neighbor-right front [] c e found =
      let last : ltb (length front) (m.p2 - 1) ≡ false =
        ground (arith, i.holds.count, ap length e, length-append front (c ∷ [])) in
      rw (found, ◌>>=◌, last) refl
  search_neighbor-right front (y ∷ back) c e found =
      let within : ltb (length front) (m.p2 - 1) ≡ true =
        ground (arith, i.holds.count, ap length e, length-append front (c ∷ y ∷ back)) in
      let slots : m.child_map ≡ (front ++ c ∷ []) ++ y ∷ (back ++ i.holds.rest) =
        i.holds.layout
        ∙ ap (λ u. u ++ i.holds.rest) e
        ∙ append_assoc front (c ∷ y ∷ back) i.holds.rest
        ∙ sym (append_assoc front (c ∷ []) (y ∷ (back ++ i.holds.rest))) in
      let near : get_elem? m.child_map (suc (length front)) ≡ some y =
        ap (λ u. get_elem? u (suc (length front))) slots
        ∙ get_at (front ++ c ∷ []) (back ++ i.holds.rest) y (suc (length front))
            (omega (arith, length-append front (c ∷ []))) in
      rw (found, ◌>>=◌, within, near) refl

  search_neighbor-neither :
      (front back : List KpPair) (c : KpPair)
      → cs ≡ front ++ c ∷ back
      → locate m.child_map m.p2 m.max_value k ≡ some (length front, c)
      → search_neighbor m k nb neither ≡ some (beside neither nb front c back)
  unfolding search_neighbor choose
  search_neighbor-neither [] [] c e found =
      let only : (m.p2 == 1) ≡ true = ground (arith, i.holds.count, ap length e) in
      rw (found, ◌>>=◌, only) refl
  search_neighbor-neither [] (y ∷ back) c e found =
      let more : (m.p2 == 1) ≡ false = ground (arith, i.holds.count, ap length e) in
      let slots : m.child_map ≡ c ∷ y ∷ (back ++ i.holds.rest) =
        i.holds.layout ∙ ap (λ u. u ++ i.holds.rest) e in
      let near : get_elem? m.child_map 1 ≡ some y = ap (λ u. get_elem? u 1) slots in
      rw (found, ◌>>=◌, more, near) refl
  search_neighbor-neither (x ∷ front) back c e found =
      let more : (m.p2 == 1) ≡ false =
        ground (arith, i.holds.count, ap length e, length-append front (c ∷ back)) in
      let inside : (suc (length front) == 0) ≡ false = ground arith in
      rw (found, ◌>>=◌, more, inside, before_child x front back c e) refl

  search_neighbor-Route :
      (side : Side) → search_neighbor m k nb side ≡ some (beside side nb r.front r.child r.back)
  search_neighbor-Route left =
      search_neighbor-left r.front r.back r.child r.children
        (locate-Route P k cs xs r m.max_value i.holds i.largest)
  search_neighbor-Route right =
      search_neighbor-right r.front r.back r.child r.children
        (locate-Route P k cs xs r m.max_value i.holds i.largest)
  search_neighbor-Route neither =
      search_neighbor-neither r.front r.back r.child r.children
        (locate-Route P k cs xs r m.max_value i.holds i.largest)

-- The second search of a middle node whose children have the pairs `xs` below them, in order, stays
-- inside the array. It takes the child for the key, the one of the first search, and as its neighbour
-- the child that stands beside it on the side that is asked for, or, if none is asked for, the one
-- before it, else the one behind it; if the node has no such child, it says so by the side.
pub search_neighbor_correct :
    (P : KpPair → List KvPair → Type 0) (k : Bid) (m : Inner) (cs : List KpPair) (xs : List KvPair)
    → IsParent m cs
    → 0 < length cs
    → Forest P cs xs
    → IsSorted xs
    → (r : Route P k cs xs) × (search_slots m.child_map m.p2 m.max_value k ≡ some r.child)
      × ((side : Side) (nb : KpPair)
          → search_neighbor m k nb side ≡ some (beside side nb r.front r.child r.back))
search_neighbor_correct P k m cs xs i more f s =
    let r = route P k cs xs f s more in
    (
      r,
      search_slots-Route P k cs xs r m.max_value i.holds i.largest,
      λ side nb. search_neighbor-Route P k cs xs r m nb i side,
    )
