-- ===== src/Leaf/Insert.antt =====
-- `leafNode::Insert` of src/node.cpp against the upsert of the leaf's list.
use mathlib.Core.Path.{subst}
use mathlib.Core.List.{append_assoc}
use bomap.Base.{
  ℕ, suc, ◌+◌, ◌<◌, ◌≡◌, refl, sym, ap, ◌∙◌, Bool-cases, inl, inr, ◌⊎◌, List, [], ◌∷◌, ◌++◌, some,
  length, ℤ, arith, length-append, ◌>>=◌,
}
use bomap.Bid
use bomap.Bid.{Bid}
use bomap.Node.{KvPair, leaf_slots}
use bomap.Slots.Holds.{Holds, Yields}
use bomap.Slots.Zipper.{onto, get-onto_head, write-onto}
use bomap.Slots.Moves.{get_at, write_at, insert_at-Holds}
use bomap.Leaf.{LeafNode, Stop, hit, gap, scan, set_value, insert_room}
use bomap.Leaf.Spec.{IsLeaf, max_key, pair, upsert, upsert-IsSorted, max_key-append, read_last-max}

-- where the scan of `xs` stops, and what the upsert does there
pub record Hit (k : Bid) (v : ℤ) (xs : List KvPair) : Type 0 where
  pub front : List KvPair
  pub old : KvPair
  pub back : List KvPair
  pub before : xs ≡ front ++ old ∷ back
  pub after : upsert k v xs ≡ front ++ (record old { value = v }) ∷ back

pub record Gap (k : Bid) (v : ℤ) (xs : List KvPair) : Type 0 where
  pub front : List KvPair
  pub back : List KvPair
  pub before : xs ≡ front ++ back
  pub after : upsert k v xs ≡ front ++ pair k v ∷ back

pub Hit-max_key :
    {k : Bid} {v : ℤ} {xs : List KvPair} (d : Bid) (h : Hit k v xs)
    → max_key d (upsert k v xs) ≡ max_key d xs
Hit-max_key {v = v} d h =
    ap (max_key d) h.after
    ∙ max_key-append d h.front (record h.old { value = v }) h.back
    ∙ sym (ap (max_key d) h.before ∙ max_key-append d h.front h.old h.back)

Stops : Bid → ℤ → List KvPair → List KvPair → List KvPair → Type 0
Stops k v m xs q =
    ((h : Hit k v xs) × (scan (length xs) (onto m (xs ++ q)) (length m) k
        ≡ some (hit (length m + length h.front))))
    ⊎ ((g : Gap k v xs) × (scan (length xs) (onto m (xs ++ q)) (length m) k
          ≡ some (gap (length m + length g.front))))

scan-Stops : (k : Bid) (v : ℤ) (m xs q : List KvPair) → Stops k v m xs q
unfolding Stops scan upsert
scan-Stops k v m [] q = inr (
  record { front = []; back = []; before = refl; after = refl },
  ap (λ i. some (gap i)) (omega arith),
)
scan-Stops k v m (x ∷ xs) q = elim (Bool-cases (Bid.eq x.key k)) [
  | inl same ↦ inl (
    record { front = []; old = x; back = xs; before = refl; after = rw (same, upsert) },
    rw (get-onto_head m (xs ++ q) x, ◌>>=◌, same) (ap (λ i. some (hit i)) (omega arith)),
  )
  | inr other ↦ elim (Bool-cases (Bid.gt x.key k)) [
    | inl above ↦ inr (
      record { front = []; back = x ∷ xs; before = refl; after = rw (other, above, upsert) },
      rw (get-onto_head m (xs ++ q) x, ◌>>=◌, other, above) (ap (λ i. some (gap i)) (omega arith)),
    )
    | inr below ↦ elim (scan-Stops k v (x ∷ m) xs q) [
      | inl (h, e) ↦ inl (
        record {
          front = x ∷ h.front;
          old = h.old;
          back = h.back;
          before = ap (◌∷◌ x) h.before;
          after = rw (other, below, upsert) (ap (◌∷◌ x) h.after);
        },
        rw (get-onto_head m (xs ++ q) x, ◌>>=◌, other, below)
            (e ∙ ap (λ i. some (hit i)) (omega arith)),
      )
      | inr (g, e) ↦ inr (
        record {
          front = x ∷ g.front;
          back = g.back;
          before = ap (◌∷◌ x) g.before;
          after = rw (other, below, upsert) (ap (◌∷◌ x) g.after);
        },
        rw (get-onto_head m (xs ++ q) x, ◌>>=◌, other, below)
            (e ∙ ap (λ i. some (gap i)) (omega arith)),
      )
    ]
  ]
]

pub set_value-onto :
    (m q : List KvPair) (x : KvPair) (v : ℤ)
    → set_value (onto m (x ∷ q)) (length m) v ≡ some (onto m ((record x { value = v }) ∷ q))
unfolding set_value
set_value-onto m q x v = rw (get-onto_head m q x, write-onto m q x (record x { value = v }))

set_value_lem :
    (front : List KvPair) (old : KvPair) (back : List KvPair) (v : ℤ)
    → set_value (front ++ old ∷ back) (length front) v
      ≡ some (front ++ (record old { value = v }) ∷ back)
unfolding set_value
set_value_lem front old back v = rw (
  get_at front back old (length front) refl,
  write_at front back old (record old { value = v }) (length front) refl,
)

-- the same slots hold the list with one value changed
pub set_value-Holds :
    {cap : ℕ} {a : List KvPair} {c : ℕ} (front : List KvPair) (old : KvPair) (back : List KvPair)
    (v : ℤ)
    → Holds cap a c (front ++ old ∷ back)
    → Yields
        (λ b. Holds cap b c (front ++ (record old { value = v }) ∷ back))
        (set_value a (length front) v)
set_value-Holds {a = a} {c = c} front old back v h =
    let new : KvPair = record old { value = v } in
    (
      front ++ new ∷ (back ++ h.rest),
      ap (λ u. set_value u (length front) v) (h.layout ∙ append_assoc front (old ∷ back) h.rest)
          ∙ set_value_lem front old (back ++ h.rest) v,
      record {
        rest = h.rest;
        layout = sym (append_assoc front (new ∷ back) h.rest);
        count =
            omega
              (arith, h.count, length-append front (new ∷ back), length-append front (old ∷ back));
        size =
            omega
              (arith, h.size, length-append front (new ∷ back), length-append front (old ∷ back));
      },
    )

scanned :
    (l : LeafNode) (xs : List KvPair) (k : Bid) (i : IsLeaf l xs) (s : Stop)
    → scan (length xs) (xs ++ i.holds.rest) 0 k ≡ some s
    → scan l.c l.arr 0 k ≡ some s
scanned l xs k i s e = rw (i.holds.layout, i.holds.count) e

pub insert_room-IsLeaf :
    (l : LeafNode) (k : Bid) (v : ℤ) (xs : List KvPair)
    → IsLeaf l xs
    → l.old_max ≡ l.max_value
    → length xs < leaf_slots
    → Yields
        (λ l'. IsLeaf l' (upsert k v xs) × (l'.old_max ≡ l.max_value) × (l'.pos ≡ l.pos))
        (insert_room l k v)
unfolding insert_room Stops
insert_room-IsLeaf l k v xs i fresh room = elim (scan-Stops k v [] xs i.holds.rest) [
  | inl (h, e) ↦
      let (b, set, held) =
        set_value-Holds h.front h.old h.back v
          (subst (Holds leaf_slots l.arr l.c) h.before i.holds) in
      (
        record l { arr = b },
        rw (
          scanned l xs k i (hit (length h.front)) (e ∙ ap (λ n. some (hit n)) (omega arith)),
          ◌>>=◌,
          set,
        ),
        (
          record {
            holds = subst (Holds leaf_slots b l.c) (sym h.after) held;
            sorted = upsert-IsSorted k v xs i.sorted;
            largest = i.largest ∙ sym (Hit-max_key l.max_value h);
          },
          fresh,
          refl,
        ),
      )
  | inr (g, e) ↦
      let (b, put, held) =
        insert_at-Holds g.front g.back (pair k v)
          (subst (Holds leaf_slots l.arr l.c) g.before i.holds)
          (omega (arith, ap length g.before, length-append g.front g.back)) in
      let (x, last, top) =
        read_last-max k (g.front ++ pair k v ∷ g.back) held
          (omega (arith, length-append g.front (pair k v ∷ g.back))) in
      (
        record l { arr = b; c = suc l.c; old_max = l.max_value; max_value = x.key },
        rw (
          scanned l xs k i (gap (length g.front)) (e ∙ ap (λ n. some (gap n)) (omega arith)),
          ◌>>=◌,
          put,
          last,
        ),
        (
          record {
            holds = subst (Holds leaf_slots b (suc l.c)) (sym g.after) held;
            sorted = upsert-IsSorted k v xs i.sorted;
            largest = rw g.after (
                top
                ∙ max_key-append k g.front (pair k v) g.back
                ∙ sym (max_key-append x.key g.front (pair k v) g.back));
          },
          refl,
          refl,
        ),
      )
]
