-- ===== src/Map/Tops.antt =====
-- The keys that stand for nodes of src/client.cpp among pairs in order: each is the largest of some pairs
-- that stand together, and none of the others.
use mathlib.Core.Path.{subst}
use mathlib.Core.List.{append_assoc, append-nil}
use bomap.Base.{◌<◌, ◌≡◌, sym, ap, ◌∙◌, List, [], ◌∷◌, ◌++◌, length, ℤ, false, arith, pos}
use bomap.Bid
use bomap.Bid.{Bid}
use bomap.Node.{KvPair}
use bomap.Leaf.Spec.{IsSorted, max_key, upsert}
use bomap.Map.Pairs.{
  Avoids, Avoids-append, max_key-Avoids, part-Avoids, Under-Avoids, Under-max_key,
}

-- the key is the largest of some pairs that stand together
abbrev pub IsTop : Bid → List KvPair → Type 0
IsTop j xs =
    (us : List KvPair) × (bs : List KvPair) × (ds : List KvPair) × (xs ≡ us ++ (bs ++ ds))
    × (0 < length bs)
    × (j ≡ max_key j bs)

inner_parts :
    (xs us bs ds zs : List KvPair)
    → xs ++ ((us ++ (bs ++ ds)) ++ zs) ≡ (xs ++ us) ++ (bs ++ (ds ++ zs))
inner_parts xs us bs ds zs =
    ap (λ t. xs ++ t) (append_assoc us (bs ++ ds) zs ∙ ap (λ t. us ++ t) (append_assoc bs ds zs))
    ∙ sym (append_assoc xs us (bs ++ (ds ++ zs)))

pub IsTop-all : (j : Bid) (xs : List KvPair) → 0 < length xs → j ≡ max_key j xs → IsTop j xs
IsTop-all j xs h e = ([], xs, [], sym (append-nil xs), h, e)

pub IsTop-part : (j : Bid) (xs ys zs : List KvPair) → IsTop j ys → IsTop j (xs ++ (ys ++ zs))
IsTop-part j xs ys zs (us, bs, ds, e, h, m) =
    (xs ++ us, bs, ds ++ zs, rw e (inner_parts xs us bs ds zs), h, m)

pub top-Avoids :
    (j : Bid) (xs ys zs : List KvPair)
    → IsSorted (xs ++ (ys ++ zs))
    → IsTop j ys
    → Avoids j xs × Avoids j zs
top-Avoids j xs ys zs s (us, bs, ds, e, h, m) =
    let sorted = subst IsSorted (ap (λ t. xs ++ (t ++ zs)) e ∙ inner_parts xs us bs ds zs) s in
    let (p, q) = part-Avoids j (xs ++ us) bs (ds ++ zs) sorted h in
    let (p', _) = Avoids-append (max_key j bs) xs us p in
    let (_, q') = Avoids-append (max_key j bs) ds zs q in
    subst (λ i. Avoids i xs × Avoids i zs) (sym m) (p', q')

-- several keys at once
abbrev pub AllTops : List Bid → List KvPair → Type 0
AllTops [] xs = Unit
AllTops (j ∷ js) xs = IsTop j xs × AllTops js xs

abbrev pub AllAvoid : List Bid → List KvPair → Type 0
AllAvoid [] xs = Unit
AllAvoid (j ∷ js) xs = Avoids j xs × AllAvoid js xs

abbrev pub Apart : Bid → List Bid → Type 0
Apart b [] = Unit
Apart b (j ∷ js) = (Bid.eq b j ≡ false) × Apart b js

pub AllTops-part :
    (js : List Bid) (xs ys zs : List KvPair) → AllTops js ys → AllTops js (xs ++ (ys ++ zs))
AllTops-part [] xs ys zs t = tt
AllTops-part (j ∷ js) xs ys zs t = (IsTop-part j xs ys zs t.0, AllTops-part js xs ys zs t.1)

pub AllTops-AllAvoid :
    (js : List Bid) (xs ys zs : List KvPair)
    → IsSorted (xs ++ (ys ++ zs))
    → AllTops js ys
    → AllAvoid js xs × AllAvoid js zs
AllTops-AllAvoid [] xs ys zs s t = (tt, tt)
AllTops-AllAvoid (j ∷ js) xs ys zs s t =
    let (a, b) = top-Avoids j xs ys zs s t.0 in
    let (as', bs) = AllTops-AllAvoid js xs ys zs s t.1 in ((a, as'), (b, bs))

pub AllAvoid-append :
    (js : List Bid) (xs ys : List KvPair) → AllAvoid js (xs ++ ys) → AllAvoid js xs × AllAvoid js ys
AllAvoid-append [] xs ys a = (tt, tt)
AllAvoid-append (j ∷ js) xs ys a =
    let (p, q) = Avoids-append j xs ys a.0 in
    let (ps, qs) = AllAvoid-append js xs ys a.1 in ((p, ps), (q, qs))

pub max_key-Apart :
    (js : List Bid) (b : Bid) (xs : List KvPair)
    → 0 < length xs
    → b ≡ max_key b xs
    → AllAvoid js xs
    → Apart b js
max_key-Apart [] b xs h e a = tt
max_key-Apart (j ∷ js) b xs h e a =
    (ap (λ i. Bid.eq i j) e ∙ max_key-Avoids j b xs h a.0, max_key-Apart js b xs h e a.1)

-- no pair has a key whose first four bytes are all zero, which stands for no node
abbrev pub IsReal : List KvPair → Type 0
IsReal [] = Unit
IsReal (x ∷ xs) = (Bid.eq_int x.key (pos 0) ≡ false) × IsReal xs

pub IsReal-append : (xs ys : List KvPair) → IsReal (xs ++ ys) → IsReal xs × IsReal ys
IsReal-append [] ys r = (tt, r)
IsReal-append (x ∷ xs) ys r = let (p, q) = IsReal-append xs ys r.1 in ((r.0, p), q)

pub IsReal-upsert :
    (k : Bid) (v : ℤ) (xs : List KvPair)
    → Bid.eq_int k (pos 0) ≡ false
    → IsReal xs
    → IsReal (upsert k v xs)
unfolding upsert
IsReal-upsert k v [] h r = (h, tt)
IsReal-upsert k v (x ∷ xs) h r = ground (arith, h, r.0, r.1, IsReal-upsert k v xs h r.1)

max_key-real :
    (d : Bid) (xs : List KvPair)
    → 0 < length xs
    → IsReal xs
    → Bid.eq_int (max_key d xs) (pos 0) ≡ false
max_key-real d [] h r = absurd (omega arith)
max_key-real d (x ∷ []) h r = r.0
max_key-real d (x ∷ y ∷ xs) h r = max_key-real x.key (y ∷ xs) (omega arith) r.1

pub top-real : (j : Bid) (xs : List KvPair) → IsReal xs → IsTop j xs → Bid.eq_int j (pos 0) ≡ false
top-real j xs r (us, bs, ds, e, h, m) =
    let (_, q) = IsReal-append us (bs ++ ds) (subst IsReal e r) in
    let (p, _) = IsReal-append bs ds q in ap (λ i. Bid.eq_int i (pos 0)) m ∙ max_key-real j bs h p

-- the largest keys of two parts differ
pub halves_apart :
    (i j : Bid) (xs ys : List KvPair)
    → IsSorted (xs ++ ys)
    → 0 < length xs
    → 0 < length ys
    → i ≡ max_key i xs
    → j ≡ max_key j ys
    → Bid.eq i j ≡ false
halves_apart i j xs ys s h g e f =
    ap (λ b. Bid.eq b j) e
    ∙ ap (λ b. Bid.eq (max_key i xs) b) f
    ∙ max_key-Avoids (max_key j ys) i xs h
        (Under-Avoids (max_key j ys) xs (Under-max_key j xs ys s g))
