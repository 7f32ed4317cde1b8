-- ===== src/Leaf/Search.antt =====
-- `leafNode::Search` of src/node.cpp.
use mathlib.Core.List.{append_assoc}
use bomap.Base.{
  ◌≡◌, refl, sym, ap, ◌∙◌, Bool-cases, inl, inr, ◌⊎◌, List, [], ◌∷◌, ◌++◌, Option, none, some,
  length, ℤ, arith, length-append, ◌>>=◌, true, false, ◌==◌, if◌then◌else◌,
}
use bomap.Bid
use bomap.Bid.{Bid}
use bomap.Bid.Order.{eq-value, value-injective}
use bomap.Node.{KvPair}
use bomap.Slots.Holds.{Yields}
use bomap.Slots.Zipper.{before}
use bomap.Slots.Moves.{get_at, find_first_at}
use bomap.Leaf.{LeafNode, search, insert}
use bomap.Leaf.Correct.{insert_correct}
use bomap.Leaf.Spec.{IsLeaf, pair, erase, lookup, lookup-upsert}

-- what the caller's variable holds after a search
abbrev pub found_or : KvPair → Bid → Option ℤ → KvPair
found_or out k none = out
found_or out k (some v) = pair k v

-- where the loop stops, against the list's lookup
unfoldable pub Stopped : Bid → List KvPair → Type 0
Stopped k xs =
    ((before (λ x. Bid.eq x.key k) xs ≡ xs) × (lookup k xs ≡ none))
    ⊎ ((front : List KvPair) × (back : List KvPair) × (v : ℤ) × (before (λ x. Bid.eq x.key k) xs
          ≡ front)
        × (xs ≡ front ++ pair k v ∷ back)
        × (lookup k xs ≡ some v)
        × (erase k xs ≡ front ++ back))

same_key : (x : KvPair) (k : Bid) → Bid.eq x.key k ≡ true → x ≡ pair k x.value
same_key x k e =
    ap (λ j. pair j x.value) (value-injective x.key k (ground (arith, eq-value x.key k)))

pub find-Stopped : (k : Bid) (xs : List KvPair) → Stopped k xs
unfolding Stopped lookup erase
find-Stopped k [] = inl (refl, refl)
find-Stopped k (x ∷ xs) = elim (Bool-cases (Bid.eq x.key k)) [
  | inl same ↦ inr (
    [],
    xs,
    x.value,
    rw same refl,
    ap (λ y. y ∷ xs) (same_key x k same),
    rw same refl,
    rw (same, erase) refl,
  )
  | inr other ↦ elim (find-Stopped k xs) [
    | inl (b, n) ↦ inl (rw other (ap (◌∷◌ x) b), rw other n)
    | inr (front, back, v, b, e, n, r) ↦ inr (
      x ∷ front,
      back,
      v,
      rw other (ap (◌∷◌ x) b),
      ap (◌∷◌ x) e,
      rw other n,
      rw (other, erase) (ap (◌∷◌ x) r),
    )
  ]
]

-- A search of a leaf that stores the pairs `xs` stays inside the array. It returns the key with
-- the value that `xs` has for it, or leaves the caller's pair as it was.
pub search_correct :
    (l : LeafNode) (xs : List KvPair) (k : Bid) (out : KvPair)
    → IsLeaf l xs
    → search l k out ≡ some (found_or out k (lookup k xs))
unfolding search Stopped
search_correct l xs k out i =
    let stop = find_first_at (λ x. Bid.eq x.key k) i.holds in
    elim (find-Stopped k xs) [
      | inl (b, n) ↦
          let e : length (before (λ x. Bid.eq x.key k) xs) ≡ l.c =
            ap length b ∙ sym i.holds.count in
          let last : (length (before (λ x. Bid.eq x.key k) xs) == l.c) ≡ true = ground arith in
          rw (stop, ◌>>=◌, last, n) refl
      | inr (front, back, v, b, e, n, _) ↦
          let at : length (before (λ x. Bid.eq x.key k) xs) ≡ length front = ap length b in
          let within : (length (before (λ x. Bid.eq x.key k) xs) == l.c) ≡ false =
            ground (arith, ap length e, length-append front (pair k v ∷ back), i.holds.count) in
          let slots : l.arr ≡ front ++ pair k v ∷ (back ++ i.holds.rest) =
            i.holds.layout
            ∙ ap (λ u. u ++ i.holds.rest) e
            ∙ append_assoc front (pair k v ∷ back) i.holds.rest in
          rw (stop, ◌>>=◌, within, n, slots) (get_at front (back ++ i.holds.rest) (pair k v) _ at)
    ]

lookup-append :
    (k : Bid) (out : KvPair) (xs ys : List KvPair)
    → found_or (found_or out k (lookup k ys)) k (lookup k xs) ≡ found_or out k (lookup k (xs ++ ys))
unfolding lookup
lookup-append k out [] ys = refl
lookup-append k out (x ∷ xs) ys = elim (Bool-cases (Bid.eq x.key k)) [
  | inl same ↦ rw same refl
  | inr other ↦ rw other (lookup-append k out xs ys)
]

found_or-if :
    (k j : Bid) (v : ℤ) (out : KvPair) (o : Option ℤ)
    → some (found_or out j (if Bid.eq k j then some v else o))
      ≡ (if Bid.eq k j then some (pair j v) else some (found_or out j o))
found_or-if k j v out o = elim (Bool-cases (Bid.eq k j)) [
  | inl same ↦ rw same refl
  | inr other ↦ rw other refl
]

-- After an insertion, a search of the two leaves finds the new value for the inserted key, and for
-- every other key what a search of the leaf found before.
pub insert-search :
    (l new : LeafNode) (k j : Bid) (v : ℤ) (out : KvPair) (xs : List KvPair)
    → IsLeaf l xs
    → IsLeaf new []
    → l.old_max ≡ l.max_value
    → Yields
        (λ r.
          (search r.1 j out >>= search r.0 j)
          ≡ (if Bid.eq k j then some (pair j v) else search l j out))
        (insert l new k v)
insert-search l new k j v out xs i empty fresh =
    let (r, done, after) = insert_correct l new k v xs i empty fresh in
    let moved = search_correct r.1 after.back j out after.moves in
    let stayed =
      search_correct r.0 after.front j (found_or out j (lookup j after.back)) after.stays in
    (
      r,
      done,
      rw (moved, ◌>>=◌, search_correct l xs j out i)
          (stayed
            ∙ ap some (
                lookup-append j out after.front after.back
                ∙ ap (λ ys. found_or out j (lookup j ys)) after.joined
                ∙ ap (found_or out j) (lookup-upsert j k v xs))
            ∙ found_or-if k j v out (lookup j xs)),
    )
