-- ===== src/Inner/Rises.antt =====
-- Children of a node of src/node.cpp whose keys rise: what stays of the order without one of them, and
-- where an insertion puts it back.
use bomap.Base.{◌<◌, ◌≡◌, refl, ap, List, [], ◌∷◌, ◌++◌, true, arith}
use bomap.Bid
use bomap.Bid.{Bid}
use bomap.Bid.Order.{value, eq-value, lt-value}
use bomap.Node.{KpPair}
use bomap.Inner.Place.{put, IsFresh}
use bomap.Inner.Update.{Ascends}

Ascends-tail : (x : KpPair) (xs : List KpPair) → Ascends (x ∷ xs) → Ascends xs
Ascends-tail x [] a = tt
Ascends-tail x (y ∷ xs) a = a.1

Ascends-far :
    (x : KpPair) (front : List KpPair) (y : KpPair) (back : List KpPair)
    → Ascends (x ∷ (front ++ y ∷ back))
    → value x.key < value y.key
Ascends-far x [] y back a = a.0
Ascends-far x (z ∷ front) y back a = omega (arith, a.0, Ascends-far z front y back a.1)

IsFresh-below :
    (j : Bid) (y : KpPair) (ys : List KpPair)
    → value j < value y.key
    → Ascends (y ∷ ys)
    → IsFresh j (y ∷ ys)
IsFresh-below j y [] h a = (ground (arith, eq-value y.key j, h), tt)
IsFresh-below j y (z ∷ ys) h a =
    (ground (arith, eq-value y.key j, h), IsFresh-below j z ys (omega (arith, a.0)) a.1)

module _ (c new : KpPair) (back : List KpPair) where
  pub Ascends-drop :
      (front : List KpPair) → Ascends (front ++ c ∷ new ∷ back) → Ascends (front ++ c ∷ back)
  Ascends-drop [] a = drop_second back a
    where
      drop_second : (ys : List KpPair) → Ascends (c ∷ new ∷ ys) → Ascends (c ∷ ys)
      drop_second [] a = tt
      drop_second (y ∷ ys) a = (omega (arith, a.0, a.1.0), a.1.1)
  Ascends-drop (x ∷ []) a = (a.0, Ascends-drop [] a.1)
  Ascends-drop (x ∷ y ∷ front) a = (a.0, Ascends-drop (y ∷ front) a.1)

  Ascends-pair :
      (front : List KpPair) → Ascends (front ++ c ∷ new ∷ back) → value c.key < value new.key
  Ascends-pair [] a = a.0
  Ascends-pair (x ∷ front) a = Ascends-pair front (Ascends-tail x _ a)

  Ascends-over :
      (x : KpPair) (front : List KpPair)
      → Ascends (x ∷ (front ++ c ∷ new ∷ back))
      → value x.key < value new.key
  Ascends-over x front a =
      omega (arith, Ascends-far x front c (new ∷ back) a, Ascends-pair front (Ascends-tail x _ a))

  put_first : (ys : List KpPair) → Ascends (new ∷ ys) → put new ys ≡ new ∷ ys
  put_first [] a = refl
  put_first (y ∷ ys) a = ground (arith, lt-value y.key new.key, a.0)

  -- an insertion of the child that is left out
  pub put-Ascends :
      (front : List KpPair)
      → Ascends (front ++ c ∷ new ∷ back)
      → put new (front ++ c ∷ back) ≡ front ++ c ∷ new ∷ back
  put-Ascends [] a =
      let below : Bid.lt c.key new.key ≡ true = ground (arith, lt-value c.key new.key, a.0) in
      rw below (ap (◌∷◌ c) (put_first back a.1))
  put-Ascends (x ∷ front) a =
      let far : value x.key < value new.key = Ascends-over x front a in
      let below : Bid.lt x.key new.key ≡ true = ground (arith, lt-value x.key new.key, far) in
      rw below (ap (◌∷◌ x) (put-Ascends front (Ascends-tail x _ a)))

  pub Ascends-IsFresh :
      (front : List KpPair)
      → Ascends (front ++ c ∷ new ∷ back)
      → IsFresh new.key (front ++ c ∷ back)
  Ascends-IsFresh [] a = (ground (arith, eq-value c.key new.key, a.0), fresh_above back a.1)
    where
      fresh_above : (ys : List KpPair) → Ascends (new ∷ ys) → IsFresh new.key ys
      fresh_above [] b = tt
      fresh_above (y ∷ ys) b = IsFresh-below new.key y ys b.0 b.1
  Ascends-IsFresh (x ∷ front) a =
      let far : value x.key < value new.key = Ascends-over x front a in
      (ground (arith, eq-value x.key new.key, far), Ascends-IsFresh front (Ascends-tail x _ a))
