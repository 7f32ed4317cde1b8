-- ===== src/Map/Forest.antt =====
-- The children of a node of the search tree and the pairs below them, and which child the first
-- search of the nodes in src/node.cpp takes.
pub mod Parts
use mathlib.Core.Path.{subst}
use bomap.Base.{
  ℕ, ◌<◌, ◌≤◌, ◌≡◌, refl, sym, ap, ◌∙◌, Bool-cases, inl, inr, ◌⊎◌, List, [], ◌∷◌, ◌++◌, none, some,
  length, ℤ, true, false, arith, length-append, ◌>>=◌, ◌==◌,
}
use bomap.Bid
use bomap.Bid.{Bid}
use bomap.Bid.Order.{value, eq-value, ge-value}
use bomap.Node.{KpPair, KvPair}
use bomap.Slots.Holds.{Holds}
use bomap.Slots.Zipper.{before}
use bomap.Slots.Moves.{get_at, find_first_at, read_last-Holds}
use bomap.Inner.{search_slots}
use bomap.Inner.Insert.{last_key}
use bomap.Leaf.Spec.{Above, IsSorted, IsSorted-append, max_key, lookup}
use mathlib.Core.List.{append_assoc}

-- The pairs `xs` are those below the children, in order; each child has pairs, and its key is the
-- largest of theirs. `P` says what is below a child.
abbrev pub Forest : (KpPair → List KvPair → Type 0) → List KpPair → List KvPair → Type 0
Forest P [] xs = xs ≡ []
Forest P (c ∷ cs) xs =
    (ys : List KvPair) × (zs : List KvPair) × P c ys
    × (0 < length ys)
    × (c.key ≡ max_key c.key ys)
    × Forest P cs zs
    × (xs ≡ ys ++ zs)

lookup-Above : (k : Bid) (n : ℕ) (xs : List KvPair) → Above n xs → value k ≤ n → lookup k xs ≡ none
unfolding lookup
lookup-Above k n [] a h = refl
lookup-Above k n (x ∷ xs) a h = ground (arith, lookup-Above k n xs a.1 h, eq-value x.key k)

lookup-append_none :
    (k : Bid) (xs ys : List KvPair) → lookup k xs ≡ none → lookup k (xs ++ ys) ≡ lookup k ys
unfolding lookup
lookup-append_none k [] ys e = refl
lookup-append_none k (x ∷ xs) ys e = elim (Bool-cases (Bid.eq x.key k)) [
  | inl same ↦ absurd (no_value x.value (sym (rw same refl) ∙ e))
  | inr other ↦ rw other (lookup-append_none k xs ys (sym (rw other refl) ∙ e))
]
  where
    no_value : (v : ℤ) → some v ≡ none → ⊥
    no_value v e = cc

lookup-append_some :
    (k : Bid) (xs ys : List KvPair) → lookup k ys ≡ none → lookup k (xs ++ ys) ≡ lookup k xs
unfolding lookup
lookup-append_some k [] ys e = e
lookup-append_some k (x ∷ xs) ys e = ground (arith, lookup-append_some k xs ys e)

-- what stands behind a list is above its largest key
pub Above-max_key :
    (d : Bid) (xs ys : List KvPair)
    → IsSorted (xs ++ ys)
    → 0 < length xs
    → Above (value (max_key d xs)) ys
Above-max_key d [] ys s h = absurd (omega arith)
Above-max_key d (x ∷ []) ys s h = s.0
Above-max_key d (x ∷ z ∷ xs) ys s h = Above-max_key x.key (z ∷ xs) ys s.1 (omega arith)

pub max_key_high :
    (d : Bid) (xs : List KvPair) → IsSorted xs → Above (value d) xs → value d ≤ value (max_key d xs)
max_key_high d [] s a = omega arith
max_key_high d (x ∷ xs) s a = omega (arith, a.0, max_key_high x.key xs s.1 s.0)

-- a key above the largest is none of them
lookup_below :
    (k d : Bid) (xs : List KvPair)
    → IsSorted xs
    → value (max_key d xs) < value k
    → lookup k xs ≡ none
unfolding lookup
lookup_below k d [] s h = refl
lookup_below k d (x ∷ xs) s h =
    ground (arith, lookup_below k x.key xs s.1 h, max_key_high x.key xs s.1 s.0, eq-value x.key k)

pub last_key-append :
    (e : Bid) (front : List KpPair) (d : KpPair) → last_key e (front ++ d ∷ []) ≡ d.key
last_key-append e [] d = refl
last_key-append e (x ∷ front) d = last_key-append x.key front d

module _ (P : KpPair → List KvPair → Type 0) (k : Bid) where
  -- the pairs below a child that decide what a key has
  pub record Decides (c : KpPair) (xs : List KvPair) : Type 0 where
    pub pairs : List KvPair
    pub below : P c pairs
    pub same : lookup k xs ≡ lookup k pairs
    pub sorted : IsSorted pairs
    pub some_pairs : 0 < length pairs

  -- where the search stops: at the first child whose key is not below `k`, or behind the last
  Stops : List KpPair → List KvPair → Type 0
  Stops cs xs =
      ((front : List KpPair) × (back : List KpPair) × (c : KpPair) × (before (λ x. Bid.ge x.key k)
            cs
          ≡ front)
        × (cs ≡ front ++ c ∷ back)
        × Decides c xs)
      ⊎ ((before (λ x. Bid.ge x.key k) cs ≡ cs)
          × (front : List KpPair) × (c : KpPair) × (cs ≡ front ++ c ∷ [])
          × Decides c xs)

  -- the pairs before those of a child that decide do not count
  skip :
      (c : KpPair) (xs ys zs : List KvPair)
      → xs ≡ ys ++ zs
      → lookup k ys ≡ none
      → Decides c zs
      → Decides c xs
  skip c xs ys zs e n d = record {
    pairs = d.pairs;
    below = d.below;
    same = ap (lookup k) e ∙ lookup-append_none k ys zs n ∙ d.same;
    sorted = d.sorted;
    some_pairs = d.some_pairs;
  }

  taken :
      (c : KpPair) (cs : List KpPair) (xs : List KvPair)
      → Forest P (c ∷ cs) xs
      → IsSorted xs
      → Bid.ge c.key k ≡ true
      → Decides c xs
  taken c cs xs (ys, zs, p, more, key, rest, e) s here =
      let (sorted, _) = IsSorted-append ys zs (subst IsSorted e s) in
      let high : value k ≤ value (max_key c.key ys) =
        subst (λ j. value k ≤ value j) key (ground (arith, ge-value c.key k)) in
      let above = Above-max_key c.key ys zs (subst IsSorted e s) more in
      record {
        pairs = ys;
        below = p;
        same = ap (lookup k) e ∙ lookup-append_some k ys zs (lookup-Above k _ zs above high);
        sorted = sorted;
        some_pairs = more;
      }

  passed :
      (c : KpPair) (ys : List KvPair)
      → c.key ≡ max_key c.key ys
      → IsSorted ys
      → Bid.ge c.key k ≡ false
      → lookup k ys ≡ none
  passed c ys key s lower =
      lookup_below k c.key ys s
        (subst (λ j. value j < value k) key (ground (arith, ge-value c.key k)))

  stop :
      (c : KpPair) (cs : List KpPair) (xs : List KvPair)
      → Forest P (c ∷ cs) xs
      → IsSorted xs
      → Stops (c ∷ cs) xs
  unfolding Stops lookup
  stop c [] xs (ys, zs, p, more, key, rest, e) s = elim (Bool-cases (Bid.ge c.key k)) [
    | inl here ↦
        inl ([], [], c, rw here refl, refl, taken c [] xs (ys, zs, p, more, key, rest, e) s here)
    | inr lower ↦
        let (sorted, _) = IsSorted-append ys zs (subst IsSorted e s) in
        inr (
          rw lower refl,
          [],
          c,
          refl,
          record {
            pairs = ys;
            below = p;
            same = ap (lookup k) e ∙ lookup-append_some k ys zs (ap (lookup k) rest);
            sorted = sorted;
            some_pairs = more;
          },
        )
  ]
  stop c (c' ∷ cs) xs (ys, zs, p, more, key, rest, e) s = elim (Bool-cases (Bid.ge c.key k)) [
    | inl here ↦ inl (
      [],
      c' ∷ cs,
      c,
      rw here refl,
      refl,
      taken c (c' ∷ cs) xs (ys, zs, p, more, key, rest, e) s here,
    )
    | inr lower ↦
        let (sorted, sorted') = IsSorted-append ys zs (subst IsSorted e s) in
        let n = passed c ys key sorted lower in
        elim (stop c' cs zs rest sorted') [
          | inl (front, back, d, b, split, r) ↦
              inl (
                c ∷ front,
                back,
                d,
                rw lower (ap (◌∷◌ c) b),
                ap (◌∷◌ c) split,
                skip d xs ys zs e n r,
              )
          | inr (b, front, d, split, r) ↦
              inr (rw lower (ap (◌∷◌ c) b), c ∷ front, d, ap (◌∷◌ c) split, skip d xs ys zs e n r)
        ]
  ]

  -- The first search of a node takes a child that decides what the key has.
  pub search_slots-Decides :
      {cap : ℕ} {a : List KpPair} {n : ℕ} (max : Bid) (cs : List KpPair) (xs : List KvPair)
      → Holds cap a n cs
      → max ≡ last_key max cs
      → Forest P cs xs
      → IsSorted xs
      → 0 < length cs
      → (c : KpPair) × (search_slots a n max k ≡ some c) × Decides c xs
  unfolding search_slots Stops
  search_slots-Decides max [] xs h m f s p = absurd (omega arith)
  search_slots-Decides {cap} {a} {n} max (c ∷ cs) xs h m f s p =
      let found = find_first_at (λ x. Bid.ge x.key k) h in
      elim (stop c cs xs f s) [
        | inl (front, back, d, b, split, r) ↦
            let within : (length front == n) ≡ false =
              ground (arith, h.count, ap length split, length-append front (d ∷ back)) in
            let slots : a ≡ front ++ d ∷ (back ++ h.rest) =
              h.layout ∙ ap (λ u. u ++ h.rest) split ∙ append_assoc front (d ∷ back) h.rest in
            (d, rw (found, ◌>>=◌, b, within, slots) (get_at front (back ++ h.rest) d _ refl), r)
        | inr (b, front, d, split, r) ↦
            let last : (length (c ∷ cs) == n) ≡ true = ground (arith, h.count) in
            let read = read_last-Holds front d (subst (λ u. Holds cap a n u) split h) in
            let same : record d { key = max } ≡ d =
              ap (λ j. record d { key = j })
                (m ∙ ap (last_key max) split ∙ last_key-append max front d) in
            (d, rw (found, ◌>>=◌, b, last, read) (ap some same), r)
      ]
