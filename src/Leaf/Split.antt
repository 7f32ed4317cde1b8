-- ===== src/Leaf/Split.antt =====
-- `leafNode::Insert` of src/node.cpp on a full leaf, and the whole of it.
use mathlib.Core.Path.{subst}
use mathlib.Core.List.{append-nil, append_assoc}
use bomap.Base.{
  suc, ◌+◌, ◌-◌, ◌≤◌, ◌≡◌, refl, sym, ap, ◌∙◌, Bool, true, false, Bool-cases, inl, inr, ◌⊎◌, List,
  [], ◌∷◌, ◌++◌, some, length, ℤ, arith, ltb, if◌then◌else◌, length-append, ◌>>=◌, take, drop,
  take-append-drop,
}
use bomap.Bid
use bomap.Bid.{Bid}
use bomap.Bid.Order.{value, lt-value, gt-value, eq-value}
use bomap.Node.{KvPair, no_value, leaf_slots, half}
use bomap.Slots.{push}
use bomap.Slots.Halves.{push_lem, split-Holds}
use bomap.Slots.Holds.{Yields}
use bomap.Slots.Zipper.{onto, get-onto_head}
use bomap.Leaf.{LeafNode, replaced, filled, fill_loop, split_leaf}
use bomap.Leaf.Spec.{
  Above, Above-trans, IsSorted, IsLeaf, pair, upsert, read_last-max, max_key_any, IsSorted-append,
}
use bomap.Leaf.Insert.{Hit, set_value-onto}

-- the order of a pair's key against the key that is inserted
data Order (x k : Bid) : Type 0 where
  below : Bid.lt x k ≡ true → Bid.eq x k ≡ false → Bid.gt x k ≡ false → Order x k
  same : Bid.lt x k ≡ false → Bid.eq x k ≡ true → Order x k
  above : Bid.lt x k ≡ false → Bid.eq x k ≡ false → Bid.gt x k ≡ true → Order x k

order : (x k : Bid) → Order x k
order x k = elim (Bool-cases (ltb (value x) (value k))) [
  | inl p ↦ below (lt-value x k ∙ p) (ground (arith, eq-value x k)) (ground (arith, gt-value x k))
  | inr p ↦ elim (Bool-cases (ltb (value k) (value x))) [
    | inl q ↦ above (lt-value x k ∙ p) (ground (arith, eq-value x k)) (gt-value x k ∙ q)
    | inr q ↦ same (lt-value x k ∙ p) (ground (arith, eq-value x k))
  ]
]

-- above the key, the loop copies what is left
fill_rest :
    (kv : KvPair) (m xs q full : List KvPair)
    → Above (value kv.key) xs
    → length full + length xs ≤ leaf_slots + 1
    → fill_loop (length xs) (onto m (xs ++ q)) (length m) kv full true
      ≡ some (filled (full ++ xs) true)
unfolding fill_loop
fill_rest kv m [] q full a h = ap (λ f. some (filled f true)) (sym (append-nil full))
fill_rest kv m (x ∷ xs) q full a h = elim (order x.key kv.key) [
  | below p _ _ ↦ absurd (ground (arith, lt-value x.key kv.key))
  | same _ p ↦ absurd (ground (arith, eq-value x.key kv.key))
  | above p r s ↦
      rw
        (
          get-onto_head m (xs ++ q) x,
          ◌>>=◌,
          p,
          r,
          s,
          push_lem (leaf_slots + 1) full x (omega arith),
        )
        (fill_rest kv (x ∷ m) xs q (full ++ x ∷ []) a.1 (omega (arith, length-append full (x ∷ [])))
          ∙ ap (λ f. some (filled f true)) (append_assoc full (x ∷ []) xs))
]

-- what the loop does to `xs`: the value replaced, or the slots of the upsert collected
unfoldable pub Outcome : Bid → ℤ → List KvPair → List KvPair → List KvPair → List KvPair → Type 0
Outcome k v m xs q full =
    ((h : Hit k v xs) × (fill_loop (length xs) (onto m (xs ++ q)) (length m) (pair k v) full false
        ≡ some (replaced (onto m ((h.front ++ (record h.old { value = v }) ∷ h.back) ++ q)))))
    ⊎ ((f : List KvPair) × (w : Bool) × (fill_loop (length xs) (onto m (xs ++ q)) (length m)
            (pair k v) full false
          ≡ some (filled f w))
        × ((if w then some f else push (leaf_slots + 1) f (pair k v))
            ≡ some (full ++ upsert k v xs))
        × (length (upsert k v xs) ≡ suc (length xs)))

pub fill-Outcome :
    (k : Bid) (v : ℤ) (m xs q full : List KvPair)
    → IsSorted xs
    → length full + length xs ≤ leaf_slots
    → Outcome k v m xs q full
unfolding Outcome fill_loop upsert
fill-Outcome k v m [] q full s h =
    inr (full, false, refl, push_lem (leaf_slots + 1) full (pair k v) (omega arith), refl)
fill-Outcome k v m (x ∷ xs) q full s h = elim (order x.key k) [
  | same p e ↦ inl (
    record { front = []; old = x; back = xs; before = refl; after = rw (e, upsert) },
    rw (get-onto_head m (xs ++ q) x, ◌>>=◌, p, e, set_value-onto m (xs ++ q) x v),
  )
  | above p e g ↦ inr (
    (full ++ pair k v ∷ []) ++ x ∷ xs,
    true,
    rw
        (
          get-onto_head m (xs ++ q) x,
          ◌>>=◌,
          p,
          e,
          g,
          push_lem (leaf_slots + 1) full (pair k v) (omega arith),
          push_lem (leaf_slots + 1) (full ++ pair k v ∷ []) x
              (omega (arith, length-append full (pair k v ∷ []))),
        )
        (fill_rest (pair k v) (x ∷ m) xs q ((full ++ pair k v ∷ []) ++ x ∷ [])
            (Above-trans (value k) (value x.key) xs (ground (arith, gt-value x.key k)) s.0)
            (omega (
              arith,
              length-append (full ++ pair k v ∷ []) (x ∷ []),
              length-append full (pair k v ∷ []),
            ))
          ∙ ap (λ f. some (filled f true)) (append_assoc (full ++ pair k v ∷ []) (x ∷ []) xs)),
    ap some (append_assoc full (pair k v ∷ []) (x ∷ xs))
        ∙ ap (λ u. some (full ++ u)) (rw (e, g, upsert)),
    rw (e, g, upsert),
  )
  | below p e g ↦
      elim (fill-Outcome k v (x ∷ m) xs q (full ++ x ∷ []) s.1
        (omega (arith, length-append full (x ∷ [])))) [
          | inl (t, o) ↦ inl (
            record {
              front = x ∷ t.front;
              old = t.old;
              back = t.back;
              before = ap (◌∷◌ x) t.before;
              after = rw (e, g, upsert) (ap (◌∷◌ x) t.after);
            },
            rw
                (
                  get-onto_head m (xs ++ q) x,
                  ◌>>=◌,
                  p,
                  push_lem (leaf_slots + 1) full x (omega arith),
                )
                o,
          )
          | inr (f, w, o, c, l) ↦ inr (
            f,
            w,
            rw
                (
                  get-onto_head m (xs ++ q) x,
                  ◌>>=◌,
                  p,
                  push_lem (leaf_slots + 1) full x (omega arith),
                )
                o,
            c
                ∙ ap some (append_assoc full (x ∷ []) (upsert k v xs))
                ∙ ap (λ u. some (full ++ u)) (rw (e, g, upsert)),
            rw (e, g, upsert) (ap suc l),
          )
        ]
]

-- what both halves of a full leaf's upsert are
abbrev pub Halves : List KvPair → LeafNode × LeafNode → Type 0
Halves full r = IsLeaf r.0 (take (half leaf_slots) full) × IsLeaf r.1 (drop (half leaf_slots) full)

pub split_leaf-Halves :
    (l new : LeafNode) (full : List KvPair)
    → length full ≡ leaf_slots + 1
    → length new.arr ≡ leaf_slots
    → IsSorted full
    → Yields
        (λ r. Halves full r × (r.0.old_max ≡ l.max_value) × (r.0.pos ≡ l.pos) × (r.1.pos ≡ new.pos))
        (split_leaf l new full)
unfolding split_leaf
split_leaf-Halves l new full e n s =
    let front = take (half leaf_slots) full in
    let back = drop (half leaf_slots) full in
    let ((a, b), apart, (h, g)) =
      split-Holds no_value leaf_slots (leaf_slots + 1) (half leaf_slots) full new.arr e n
        (omega arith) (omega arith) (omega arith) in
    let (x, last, top) = read_last-max l.max_value front h (omega (arith, h.count)) in
    let (y, last', top') = read_last-max l.max_value back g (omega (arith, g.count)) in
    let (sf, sb) =
      IsSorted-append front back
        (subst IsSorted (sym (take-append-drop (half leaf_slots) full)) s) in
    (
      (
        record l { arr = a; c = half leaf_slots; old_max = l.max_value; max_value = x.key },
        record new { arr = b; c = leaf_slots + 1 - half leaf_slots; max_value = y.key },
      ),
      rw (apart, ◌>>=◌, last, last'),
      (
        (
          record {
            holds = h;
            sorted = sf;
            largest = top ∙ max_key_any l.max_value x.key front (omega (arith, h.count));
          },
          record {
            holds = g;
            sorted = sb;
            largest = top' ∙ max_key_any l.max_value y.key back (omega (arith, g.count));
          },
        ),
        refl,
        refl,
        refl,
      ),
    )
