-- ===== src/Map/Pairs.antt =====
-- Pairs in the order of their keys, cut where a key of src/node.cpp belongs: what an upsert of the
-- key leaves alone.
use mathlib.Core.Path.{subst}
use mathlib.Core.List.{append_assoc}
use bomap.Base.{ℕ, suc, ◌<◌, ◌≤◌, ◌≡◌, refl, sym, ◌⊎◌, List, [], ◌∷◌, ◌++◌, length, ℤ, false, arith}
use bomap.Bid
use bomap.Bid.{Bid}
use bomap.Bid.Order.{value, eq-value, gt-value}
use bomap.Node.{KvPair}
use bomap.Leaf.Spec.{Above, Above-append, IsSorted, IsSorted-append, max_key, upsert}
use bomap.Map.Forest.{max_key_high, Above-max_key}

-- every key lies below `n`
abbrev pub Under : ℕ → List KvPair → Type 0
Under n [] = Unit
Under n (x ∷ xs) = (value x.key < n) × Under n xs

-- no pair has the key
abbrev pub Avoids : Bid → List KvPair → Type 0
Avoids j [] = Unit
Avoids j (x ∷ xs) = (Bid.eq x.key j ≡ false) × Avoids j xs

pub Under-Avoids : (j : Bid) (xs : List KvPair) → Under (value j) xs → Avoids j xs
Under-Avoids j [] u = tt
Under-Avoids j (x ∷ xs) u = (ground (arith, eq-value x.key j, u.0), Under-Avoids j xs u.1)

pub Above-Avoids : (j : Bid) (n : ℕ) (xs : List KvPair) → value j ≤ n → Above n xs → Avoids j xs
Above-Avoids j n [] h a = tt
Above-Avoids j n (x ∷ xs) h a = (ground (arith, eq-value x.key j, a.0), Above-Avoids j n xs h a.1)

pub Under-append : (n : ℕ) (xs ys : List KvPair) → Under n xs → Under n ys → Under n (xs ++ ys)
Under-append n [] ys u v = v
Under-append n (x ∷ xs) ys u v = (u.0, Under-append n xs ys u.1 v)

pub Avoids-append :
    (j : Bid) (xs ys : List KvPair) → Avoids j (xs ++ ys) → Avoids j xs × Avoids j ys
Avoids-append j [] ys a = (tt, a)
Avoids-append j (x ∷ xs) ys a = let (p, q) = Avoids-append j xs ys a.1 in ((a.0, p), q)

-- the largest key of pairs that avoid a key is another one
pub max_key-Avoids :
    (j d : Bid) (xs : List KvPair) → 0 < length xs → Avoids j xs → Bid.eq (max_key d xs) j ≡ false
max_key-Avoids j d [] h a = absurd (omega arith)
max_key-Avoids j d (x ∷ []) h a = a.0
max_key-Avoids j d (x ∷ y ∷ xs) h a = max_key-Avoids j x.key (y ∷ xs) (omega arith) a.1

pub max_key-Above :
    (n : ℕ) (d : Bid) (xs : List KvPair) → 0 < length xs → Above n xs → n < value (max_key d xs)
max_key-Above n d [] h a = absurd (omega arith)
max_key-Above n d (x ∷ []) h a = a.0
max_key-Above n d (x ∷ y ∷ xs) h a = max_key-Above n x.key (y ∷ xs) (omega arith) a.1

-- what stands before a list is below its largest key
pub Under-max_key :
    (d : Bid) (xs ys : List KvPair)
    → IsSorted (xs ++ ys)
    → 0 < length ys
    → Under (value (max_key d ys)) xs
Under-max_key d [] ys s h = tt
Under-max_key d (x ∷ xs) ys s h =
    let (p, q) = Above-append (value x.key) xs ys s.0 in
    (max_key-Above (value x.key) d ys h q, Under-max_key d xs ys s.1 h)

pub Under-high :
    (n : ℕ) (d : Bid) (xs : List KvPair) → IsSorted xs → value (max_key d xs) < n → Under n xs
Under-high n d [] s h = tt
Under-high n d (x ∷ xs) s h =
    (omega (arith, max_key_high x.key xs s.1 s.0), Under-high n x.key xs s.1 h)

-- the largest key of a part is in none of the others
pub part-Avoids :
    (d : Bid) (xs ys zs : List KvPair)
    → IsSorted (xs ++ (ys ++ zs))
    → 0 < length ys
    → Avoids (max_key d ys) xs × Avoids (max_key d ys) zs
part-Avoids d xs ys zs s h =
    let (below, _) =
      IsSorted-append (xs ++ ys) zs (subst IsSorted (sym (append_assoc xs ys zs)) s) in
    let (_, sorted) = IsSorted-append xs (ys ++ zs) s in
    (
      Under-Avoids (max_key d ys) xs (Under-max_key d xs ys below h),
      Above-Avoids (max_key d ys) (value (max_key d ys)) zs (omega arith)
          (Above-max_key d ys zs sorted h),
    )

module _ (k : Bid) (v : ℤ) where
  -- an upsert goes past the lower keys
  pub upsert-append_low :
      (xs zs : List KvPair) → Under (value k) xs → upsert k v (xs ++ zs) ≡ xs ++ upsert k v zs
  unfolding upsert
  upsert-append_low [] zs u = refl
  upsert-append_low (x ∷ xs) zs u =
      ground (arith, eq-value x.key k, gt-value x.key k, u.0, upsert-append_low xs zs u.1)

  -- and does not reach the pairs behind a key that is not below its own
  pub upsert-append_high :
      (d : Bid) (xs zs : List KvPair)
      → 0 < length xs
      → value k ≤ value (max_key d xs)
      → upsert k v (xs ++ zs) ≡ upsert k v xs ++ zs
  unfolding upsert
  upsert-append_high d [] zs h m = absurd (omega arith)
  upsert-append_high d (x ∷ []) zs h m = ground (arith, eq-value x.key k, gt-value x.key k)
  upsert-append_high d (x ∷ y ∷ xs) zs h m = ground (
    arith,
    eq-value x.key k,
    gt-value x.key k,
    upsert-append_high x.key (y ∷ xs) zs (omega arith) m,
  )

  pub length-upsert_pos : (xs : List KvPair) → 0 < length (upsert k v xs)
  unfolding upsert
  length-upsert_pos [] = omega arith
  length-upsert_pos (x ∷ xs) = ground arith

  pub length-upsert_le : (xs : List KvPair) → length (upsert k v xs) ≤ suc (length xs)
  unfolding upsert
  length-upsert_le [] = omega arith
  length-upsert_le (x ∷ xs) = ground (arith, length-upsert_le xs)

  -- the largest key stays, or is the new one
  pub max_key-upsert :
      (d : Bid) (xs : List KvPair)
      → 0 < length xs
      → (max_key d (upsert k v xs) ≡ max_key d xs) ⊎ (max_key d (upsert k v xs) ≡ k)
  unfolding upsert
  max_key-upsert d [] h = absurd (omega arith)
  max_key-upsert d (x ∷ []) h = ground arith
  max_key-upsert d (x ∷ y ∷ xs) h = ground (arith, max_key-upsert x.key (y ∷ xs) (omega arith))
