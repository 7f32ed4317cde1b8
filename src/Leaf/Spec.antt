-- ===== src/Leaf/Spec.antt =====
-- What a leaf of src/node.cpp stands for: a list of pairs in strictly ascending order of the keys.
use mathlib.Core.Path.{subst}
use bomap.Base.{
  ℕ, ◌<◌, ◌≤◌, ◌≡◌, refl, sym, ap, ◌∙◌, length, true, false, List, [], ◌∷◌, ◌++◌, Option, none,
  some, ℤ, arith, if◌then◌else◌,
}
use bomap.Bid
use bomap.Bid.{Bid}
use bomap.Bid.Order.{value, gt-value, eq-value}
use bomap.Node.{KvPair, leaf_slots}
use bomap.Slots.{read_last}
use bomap.Slots.Holds.{Holds, Yields}
use bomap.Slots.Moves.{read_last-Holds}
use bomap.Leaf.{LeafNode}

-- every key lies above `n`
abbrev pub Above : ℕ → List KvPair → Type 0
Above n [] = Unit
Above n (x ∷ xs) = (n < value x.key) × Above n xs

abbrev pub IsSorted : List KvPair → Type 0
IsSorted [] = Unit
IsSorted (x ∷ xs) = Above (value x.key) xs × IsSorted xs

-- the largest key of a sorted list that is not empty
abbrev pub max_key : Bid → List KvPair → Bid
max_key d [] = d
max_key d (x ∷ xs) = max_key x.key xs

abbrev pub pair : Bid → ℤ → KvPair
pair k v = record { key = k; value = v }

-- the pair of a key put into its place, or its value replaced
unfoldable pub upsert : Bid → ℤ → List KvPair → List KvPair
upsert k v [] = pair k v ∷ []
upsert k v (x ∷ xs) = elim (Bid.eq x.key k) [
  | true ↦ record x { value = v } ∷ xs
  | false ↦ elim (Bid.gt x.key k) [ true ↦ pair k v ∷ x ∷ xs | false ↦ x ∷ upsert k v xs ]
]

unfoldable pub erase : Bid → List KvPair → List KvPair
erase k [] = []
erase k (x ∷ xs) = elim (Bid.eq x.key k) [ true ↦ xs | false ↦ x ∷ erase k xs ]

unfoldable pub lookup : Bid → List KvPair → Option ℤ
lookup k [] = none
lookup k (x ∷ xs) = if Bid.eq x.key k then some x.value else lookup k xs

-- the leaf stores the pairs `xs`
pub record IsLeaf (l : LeafNode) (xs : List KvPair) : Type 0 where
  pub holds : Holds leaf_slots l.arr l.c xs
  pub sorted : IsSorted xs
  pub largest : l.max_value ≡ max_key l.max_value xs

pub Above-trans : (m n : ℕ) (xs : List KvPair) → m ≤ n → Above n xs → Above m xs
Above-trans m n [] h a = tt
Above-trans m n (x ∷ xs) h a = (omega arith, Above-trans m n xs h a.1)

Above-upsert :
    (n : ℕ) (k : Bid) (v : ℤ) (xs : List KvPair)
    → n < value k
    → Above n xs
    → Above n (upsert k v xs)
unfolding upsert
Above-upsert n k v [] h a = (h, tt)
Above-upsert n k v (x ∷ xs) h a = ground (arith, Above-upsert n k v xs h)

pub upsert-IsSorted : (k : Bid) (v : ℤ) (xs : List KvPair) → IsSorted xs → IsSorted (upsert k v xs)
unfolding upsert
upsert-IsSorted k v [] s = (tt, tt)
upsert-IsSorted k v (x ∷ xs) s = ground (
  arith,
  gt-value x.key k,
  eq-value x.key k,
  upsert-IsSorted k v xs s.1,
  Above-upsert (value x.key) k v xs,
  Above-trans (value k) (value x.key) xs,
)

pub Above-append : (n : ℕ) (xs ys : List KvPair) → Above n (xs ++ ys) → Above n xs × Above n ys
Above-append n [] ys a = (tt, a)
Above-append n (x ∷ xs) ys a = let (p, q) = Above-append n xs ys a.1 in ((a.0, p), q)

pub IsSorted-append : (xs ys : List KvPair) → IsSorted (xs ++ ys) → IsSorted xs × IsSorted ys
IsSorted-append [] ys s = (tt, s)
IsSorted-append (x ∷ xs) ys s =
    let (p, q) = IsSorted-append xs ys s.1 in ((((Above-append (value x.key) xs ys s.0).0), p), q)

pub max_key-append :
    (d : Bid) (xs : List KvPair) (y : KvPair) (ys : List KvPair)
    → max_key d (xs ++ y ∷ ys) ≡ max_key d (y ∷ ys)
max_key-append d [] y ys = refl
max_key-append d (x ∷ xs) y ys = max_key-append x.key xs y ys

pub lookup-upsert :
    (j k : Bid) (v : ℤ) (xs : List KvPair)
    → lookup j (upsert k v xs) ≡ (if Bid.eq k j then some v else lookup j xs)
unfolding lookup upsert
lookup-upsert j k v [] = refl
lookup-upsert j k v (x ∷ xs) =
    ground (arith, lookup-upsert j k v xs, eq-value x.key j, eq-value k j, eq-value x.key k)

pub snoc :
    (x : KvPair) (xs : List KvPair) → (ys : List KvPair) × (y : KvPair) × (x ∷ xs ≡ ys ++ y ∷ [])
snoc x [] = ([], x, refl)
snoc x (z ∷ xs) = let (ys, y, e) = snoc z xs in (x ∷ ys, y, ap (◌∷◌ x) e)

pub max_key_any : (d e : Bid) (xs : List KvPair) → 0 < length xs → max_key d xs ≡ max_key e xs
max_key_any d e [] h = absurd (omega arith)
max_key_any d e (x ∷ xs) h = refl

-- the slot below the count has the largest key
pub read_last-max :
    {cap : ℕ} {a : List KvPair} {c : ℕ} (d : Bid) (xs : List KvPair)
    → Holds cap a c xs
    → 0 < length xs
    → Yields (λ x. x.key ≡ max_key d xs) (read_last a c)
read_last-max d [] h p = absurd (omega arith)
read_last-max {cap} {a} {c} d (x ∷ xs) h p =
    let (ys, y, e) = snoc x xs in
    (
      y,
      read_last-Holds ys y (subst (λ zs. Holds cap a c zs) e h),
      sym (ap (max_key d) e ∙ max_key-append d ys y []),
    )
