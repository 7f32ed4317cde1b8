-- ===== src/Map/Forest/Parts.antt =====
-- Children with the pairs below them, cut, joined and read in another way, for the nodes of the search
-- tree of src/client.cpp.
use mathlib.Core.Path.{subst}
use mathlib.Core.List.{append_assoc, append-nil}
use bomap.Base.{◌<◌, ◌≡◌, refl, sym, ap, ◌∙◌, List, [], ◌∷◌, ◌++◌, length, length-append, arith}
use bomap.Bid
use bomap.Bid.{Bid}
use bomap.Bid.Order.{value}
use bomap.Node.{KpPair, KvPair}
use bomap.Inner.Insert.{last_key}
use bomap.Inner.Place.{IsFresh}
use bomap.Inner.Update.{Ascends}
use bomap.Leaf.Spec.{
  Above, Above-append, IsSorted, IsSorted-append, max_key, max_key_any, max_key-append,
}
use bomap.Map.Forest.{Forest, Above-max_key}
use bomap.Map.Pairs.{Avoids, Avoids-append, max_key-Avoids, max_key-Above}

module _ (P : KpPair → List KvPair → Type 0) where
  pub Forest-append :
      (cs ds : List KpPair) (xs ys : List KvPair)
      → Forest P cs xs
      → Forest P ds ys
      → Forest P (cs ++ ds) (xs ++ ys)
  Forest-append [] ds xs ys f g = rw f g
  Forest-append (c ∷ cs) ds xs ys (ps, zs, p, more, key, f, e) g =
      (ps, zs ++ ys, p, more, key, Forest-append cs ds zs ys f g, rw e (append_assoc ps zs ys))

  pub Forest-cut :
      (cs ds : List KpPair) (xs : List KvPair)
      → Forest P (cs ++ ds) xs
      → (ys : List KvPair) × (zs : List KvPair) × Forest P cs ys × Forest P ds zs × (xs ≡ ys ++ zs)
  Forest-cut [] ds xs f = ([], xs, refl, f, refl)
  Forest-cut (c ∷ cs) ds xs (ps, zs, p, more, key, f, e) =
      let (us, vs, g, h, e') = Forest-cut cs ds zs f in
      (
        ps ++ us,
        vs,
        (ps, us, p, more, key, g, refl),
        h,
        e ∙ ap (λ t. ps ++ t) e' ∙ sym (append_assoc ps us vs),
      )

  pub Forest-one :
      (c : KpPair) (xs : List KvPair)
      → P c xs
      → 0 < length xs
      → c.key ≡ max_key c.key xs
      → Forest P (c ∷ []) xs
  Forest-one c xs p h e = (xs, [], p, h, e, refl, sym (append-nil xs))

  -- the keys of the children are the largest of pairs
  pub Forest-IsFresh :
      (j : Bid) (cs : List KpPair) (xs : List KvPair) → Forest P cs xs → Avoids j xs → IsFresh j cs
  Forest-IsFresh j [] xs f a = tt
  Forest-IsFresh j (c ∷ cs) xs (ps, zs, p, more, key, f, e) a =
      let (q, r) = Avoids-append j ps zs (subst (Avoids j) e a) in
      (ap (λ i. Bid.eq i j) key ∙ max_key-Avoids j c.key ps more q, Forest-IsFresh j cs zs f r)

  pub Forest-Ascends :
      (cs : List KpPair) (xs : List KvPair) → Forest P cs xs → IsSorted xs → Ascends cs
  Forest-Ascends [] xs f s = tt
  Forest-Ascends (c ∷ []) xs f s = tt
  Forest-Ascends (c ∷ d ∷ cs) xs (ps, zs, p, more, key, (qs, us, q, more', key', f, e'), e) s =
      let sorted = subst IsSorted e s in
      let (above, _) =
        Above-append (value (max_key c.key ps)) qs us
          (subst (Above (value (max_key c.key ps))) e' (Above-max_key c.key ps zs sorted more)) in
      let (_, sorted') = IsSorted-append ps zs sorted in
      (
        rw (key, key') (max_key-Above (value (max_key c.key ps)) d.key qs more' above),
        Forest-Ascends (d ∷ cs) zs (qs, us, q, more', key', f, e') sorted',
      )

-- what is below the children goes over to another reading, where it is clear of some keys
pub Forest-frame :
    (P Q : KpPair → List KvPair → Type 0) (S : List KvPair → Type 0)
    → ((xs ys : List KvPair) → S (xs ++ ys) → S xs × S ys)
    → ((c : KpPair) (ys : List KvPair)
        → S ys
        → 0 < length ys
        → c.key ≡ max_key c.key ys
        → P c ys
        → Q c ys)
    → (cs : List KpPair) (xs : List KvPair) → S xs
    → Forest P cs xs
    → Forest Q cs xs
Forest-frame P Q S cut frame [] xs a f = f
Forest-frame P Q S cut frame (c ∷ cs) xs a (ps, zs, p, more, key, f, e) =
    let (a1, a2) = cut ps zs (subst S e a) in
    (ps, zs, frame c ps a1 more key p, more, key, Forest-frame P Q S cut frame cs zs a2 f, e)

-- what holds below every child goes over to a weaker reading
pub Forest-imp :
    (P Q : KpPair → List KvPair → Type 0)
    → ((c : KpPair) (ys : List KvPair) → P c ys → Q c ys)
    → (cs : List KpPair) (xs : List KvPair) → Forest P cs xs
    → Forest Q cs xs
Forest-imp P Q imp [] xs f = f
Forest-imp P Q imp (c ∷ cs) xs (ps, zs, p, more, key, f, e) =
    (ps, zs, imp c ps p, more, key, Forest-imp P Q imp cs zs f, e)

max_key-append_pos :
    (d : Bid) (xs ys : List KvPair) → 0 < length ys → max_key d (xs ++ ys) ≡ max_key d ys
max_key-append_pos d xs [] h = absurd (omega arith)
max_key-append_pos d xs (y ∷ ys) h = max_key-append d xs y ys

pub Forest-pos :
    (P : KpPair → List KvPair → Type 0) (cs : List KpPair) (xs : List KvPair)
    → Forest P cs xs
    → 0 < length cs
    → 0 < length xs
Forest-pos P [] xs f h = absurd (omega arith)
Forest-pos P (c ∷ cs) xs (ps, zs, p, more, key, f, e) h =
    omega (arith, ap length e, length-append ps zs)

-- the key of the last child is the largest of all
pub Forest-last_key :
    (P : KpPair → List KvPair → Type 0) (d e : Bid) (cs : List KpPair) (xs : List KvPair)
    → Forest P cs xs
    → 0 < length cs
    → last_key d cs ≡ max_key e xs
Forest-last_key P d e [] xs f h = absurd (omega arith)
Forest-last_key P d e (c ∷ []) xs (ps, zs, p, more, key, rest, all) h =
    key ∙ max_key_any c.key e ps more ∙ sym (rw (all, rest, append-nil ps) refl)
Forest-last_key P d e (c ∷ c' ∷ cs) xs (ps, zs, p, more, key, (qs, us, q, more', r, f, e'), all) h =
    let some_pairs : 0 < length zs = omega (arith, ap length e', length-append qs us) in
    Forest-last_key P c.key e (c' ∷ cs) zs (qs, us, q, more', r, f, e') (omega arith)
    ∙ sym (ap (max_key e) all ∙ max_key-append_pos e ps zs some_pairs)
