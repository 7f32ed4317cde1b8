-- ===== src/Inner/Update.antt =====
-- `Update` of the middle nodes and of the root of src/node.cpp: a child gets a new largest key.
use mathlib.Core.List.{append_assoc}
use bomap.Base.{
  ℕ, ◌<◌, ◌≡◌, refl, sym, ap, ◌∙◌, Bool-cases, inl, inr, List, [], ◌∷◌, ◌++◌, length, true, false,
  arith, length-append, take-append_length, drop-append_length, ◌>>=◌, take, drop, ◌==◌,
}
use bomap.Bid
use bomap.Bid.{Bid}
use bomap.Bid.Order.{value, eq-value, lt-value}
use bomap.Node.{KpPair, sort_rule}
use bomap.Slots.Holds.{Holds, Yields}
use bomap.Slots.Zipper.{before}
use bomap.Slots.Moves.{find_first_at, get_at, write_at}
use bomap.Inner.{Inner, rename, sort, insert_sorted, update_slots, update_child}
use bomap.Inner.Place.{IsFresh}
use bomap.Inner.Insert.{IsParent, read_last-last_key}

-- the keys rise strictly
abbrev pub Ascends : List KpPair → Type 0
Ascends [] = Unit
Ascends (x ∷ []) = Unit
Ascends (x ∷ y ∷ xs) = (value x.key < value y.key) × Ascends (y ∷ xs)

sort-Ascends : (xs : List KpPair) → Ascends xs → sort xs ≡ xs
unfolding sort insert_sorted sort_rule
sort-Ascends [] a = refl
sort-Ascends (x ∷ []) a = refl
sort-Ascends (x ∷ y ∷ xs) a =
    let above : Bid.lt y.key x.key ≡ false = ground (arith, lt-value y.key x.key) in
    rw (sort-Ascends (y ∷ xs) a.1, insert_sorted, sort_rule, above) refl

before-IsFresh :
    (old : Bid) (front : List KpPair) (c : KpPair) (back : List KpPair)
    → IsFresh old front
    → c.key ≡ old
    → before (λ x. Bid.eq x.key old) (front ++ c ∷ back) ≡ front
before-IsFresh old [] c back f e =
    let same : Bid.eq c.key old ≡ true = rw e (ground (arith, eq-value old old)) in rw same refl
before-IsFresh old (x ∷ front) c back f e =
    rw (f.0) (ap (◌∷◌ x) (before-IsFresh old front c back f.1 e))

-- The array after an update of the child `c`, where the new key keeps the order of the children.
pub update_slots-Holds :
    {cap n : ℕ} {a : List KpPair} (front : List KpPair) (c : KpPair) (back : List KpPair)
    (old new : Bid)
    → Holds cap a n (front ++ c ∷ back)
    → c.key ≡ old
    → IsFresh old front
    → Ascends (front ++ record c { key = new } ∷ back)
    → Yields
        (λ b. Holds cap b n (front ++ record c { key = new } ∷ back))
        (update_slots a n old new)
unfolding update_slots rename
update_slots-Holds {cap} {n} {a} front c back old new h e f s =
    let c' : KpPair = record c { key = new } in
    let stop = find_first_at (λ x. Bid.eq x.key old) h in
    let at = before-IsFresh old front c back f e in
    let within : (length front == n) ≡ false =
      ground (arith, h.count, length-append front (c ∷ back)) in
    let slots : a ≡ front ++ c ∷ (back ++ h.rest) =
      h.layout ∙ append_assoc front (c ∷ back) h.rest in
    let got = get_at front (back ++ h.rest) c (length front) refl in
    let put = write_at front (back ++ h.rest) c c' (length front) refl in
    let b = front ++ c' ∷ (back ++ h.rest) in
    let whole : b ≡ (front ++ c' ∷ back) ++ h.rest = sym (append_assoc front (c' ∷ back) h.rest) in
    let size : n ≡ length (front ++ c' ∷ back) =
      omega (arith, h.count, length-append front (c ∷ back), length-append front (c' ∷ back)) in
    let held : Holds cap b n (front ++ c' ∷ back) = record {
      rest = h.rest;
      layout = whole;
      count = size;
      size = omega (arith, h.size, h.count, size);
    } in
    let slots' = front ++ c' ∷ back in
    let kept : sort (take n b) ++ drop n b ≡ b =
      rw
        (
          whole,
          size,
          take-append_length slots' h.rest,
          drop-append_length slots' h.rest,
          sort-Ascends slots' s,
        )
        refl in
    elim (Bool-cases (Bid.ne new old)) [
      | inl other ↦ (b, rw (stop, ◌>>=◌, at, within, slots, got, put, other, kept) refl, held)
      | inr same ↦ (b, rw (stop, ◌>>=◌, at, within, slots, got, put, same) refl, held)
    ]

-- An update of a child by a new key that keeps the children in order stays inside the array. The
-- node then has the same children but for the new key, knows the key of its last child, and keeps
-- its position and the key that its parent knows.
pub update_child_correct :
    (m : Inner) (front : List KpPair) (c : KpPair) (back : List KpPair) (old new : Bid)
    → IsParent m (front ++ c ∷ back)
    → c.key ≡ old
    → IsFresh old front
    → Ascends (front ++ record c { key = new } ∷ back)
    → Yields
        (λ r.
          IsParent r (front ++ record c { key = new } ∷ back)
          × (r.pos ≡ m.pos)
          × (r.old_max ≡ m.old_max))
        (update_child m old new)
unfolding update_child
update_child_correct m front c back old new i e f s =
    let c' : KpPair = record c { key = new } in
    let (b, done, h) = update_slots-Holds front c back old new i.holds e f s in
    let (x, last, top) =
      read_last-last_key (front ++ c' ∷ back) h (omega (arith, length-append front (c' ∷ back))) in
    (
      record m { child_map = b; max_value = x.key },
      rw (done, ◌>>=◌, last) refl,
      (record { holds = h; largest = top }, refl, refl),
    )
