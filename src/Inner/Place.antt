-- ===== src/Inner/Place.antt =====
-- Where `Insert` of the middle nodes of src/node.cpp puts a child, with room and in a full node.
use mathlib.Core.Path.{subst}
use mathlib.Core.List.{append_assoc, append-nil}
use bomap.Base.{
  ℕ, suc, ◌+◌, ◌<◌, ◌≤◌, ◌≡◌, refl, sym, ap, ◌∙◌, Bool, true, false, Bool-cases, inl, inr, List, [],
  ◌∷◌, ◌++◌, length, arith, length-append, ◌>>=◌, some, if◌then◌else◌,
}
use bomap.Bid
use bomap.Bid.{Bid}
use bomap.Bid.Order.{lt-value, gt-value, eq-value}
use bomap.Node.{KpPair, mid_slots}
use bomap.Slots.{push}
use bomap.Slots.Holds.{Holds, Yields}
use bomap.Slots.Halves.{push_lem}
use bomap.Slots.Zipper.{onto, get-onto_head, before}
use bomap.Slots.Moves.{find_first_at, insert_at-Holds}
use bomap.Inner.{place, fill_children}

-- the child before the first whose key is not below its own
abbrev pub put : KpPair → List KpPair → List KpPair
put kp [] = kp ∷ []
put kp (x ∷ xs) = if Bid.lt x.key kp.key then x ∷ put kp xs else kp ∷ x ∷ xs

-- no child has the key
abbrev pub IsFresh : Bid → List KpPair → Type 0
IsFresh k [] = Unit
IsFresh k (x ∷ xs) = (Bid.eq x.key k ≡ false) × IsFresh k xs

pub length-put : (kp : KpPair) (xs : List KpPair) → length (put kp xs) ≡ suc (length xs)
length-put kp [] = refl
length-put kp (x ∷ xs) = elim (Bool-cases (Bid.lt x.key kp.key)) [
  | inl below ↦ rw below (ap suc (length-put kp xs))
  | inr above ↦ rw above refl
]

put_at :
    (kp : KpPair) (xs : List KpPair)
    → IsFresh kp.key xs
    → (front : List KpPair) × (back : List KpPair) × (before (λ x. Bid.gt x.key kp.key) xs ≡ front)
      × (xs ≡ front ++ back)
      × (put kp xs ≡ front ++ kp ∷ back)
put_at kp [] f = ([], [], refl, refl, refl)
put_at kp (x ∷ xs) f = elim (Bool-cases (Bid.lt x.key kp.key)) [
  | inl below ↦
      let (front, back, b, e, p) = put_at kp xs f.1 in
      let low : Bid.gt x.key kp.key ≡ false =
        ground (arith, lt-value x.key kp.key, gt-value x.key kp.key) in
      (x ∷ front, back, rw low (ap (◌∷◌ x) b), ap (◌∷◌ x) e, rw below (ap (◌∷◌ x) p))
  | inr above ↦
      let high : Bid.gt x.key kp.key ≡ true =
        ground (arith, lt-value x.key kp.key, gt-value x.key kp.key, eq-value x.key kp.key, f.0) in
      ([], x ∷ xs, rw high refl, refl, rw above refl)
]

pub place-Holds :
    {a : List KpPair} {c : ℕ} (kp : KpPair) (xs : List KpPair)
    → Holds mid_slots a c xs
    → IsFresh kp.key xs
    → c < mid_slots
    → Yields (λ b. Holds mid_slots b (suc c) (put kp xs)) (place a c kp)
unfolding place
place-Holds {a} {c} kp xs h f room =
    let (front, back, b, e, p) = put_at kp xs f in
    let stop = find_first_at (λ x. Bid.gt x.key kp.key) h in
    let size : length xs ≡ length front + length back = ap length e ∙ length-append front back in
    let (r, done, held) =
      insert_at-Holds front back kp (subst (Holds mid_slots a c) e h) (omega (arith, h.count)) in
    (r, rw (stop, ◌>>=◌, b) done, subst (Holds mid_slots r (suc c)) (sym p) held)

module _ (kp : KpPair) (q : List KpPair) where
  fill_written :
      (m xs full : List KpPair)
      → length full + length xs ≤ mid_slots + 1
      → fill_children (length xs) (onto m (xs ++ q)) (length m) kp full true
        ≡ some (full ++ xs, true)
  unfolding fill_children
  fill_written m [] full h = ap (λ f. some (f, true)) (sym (append-nil full))
  fill_written m (x ∷ xs) full h =
      let next =
        fill_written (x ∷ m) xs (full ++ x ∷ []) (omega (arith, length-append full (x ∷ []))) in
      let done = next ∙ ap (λ f. some (f, true)) (append_assoc full (x ∷ []) xs) in
      let pushed = push_lem (mid_slots + 1) full x (omega arith) in
      elim (Bool-cases (Bid.lt x.key kp.key)) [
        | inl e ↦ rw (get-onto_head m (xs ++ q) x, ◌>>=◌, e, pushed) done
        | inr e ↦ rw (get-onto_head m (xs ++ q) x, ◌>>=◌, e, pushed) done
      ]

  -- the loop, and the push of a child that is above all others behind it
  unfoldable pub Fills : List KpPair → List KpPair → List KpPair → Type 0
  Fills m xs full =
      (f : List KpPair) × (w : Bool) × (fill_children (length xs) (onto m (xs ++ q)) (length m) kp
          full false
        ≡ some (f, w))
      × ((if w then some f else push (mid_slots + 1) f kp) ≡ some (full ++ put kp xs))

  pub fill-Fills :
      (m xs full : List KpPair) → length full + length xs < mid_slots + 1 → Fills m xs full
  unfolding fill_children Fills
  fill-Fills m [] full h = (full, false, refl, push_lem (mid_slots + 1) full kp (omega arith))
  fill-Fills m (x ∷ xs) full h = elim (Bool-cases (Bid.lt x.key kp.key)) [
    | inl e ↦
        let pushed = push_lem (mid_slots + 1) full x (omega arith) in
        let (f, w, loop, last) =
          fill-Fills (x ∷ m) xs (full ++ x ∷ []) (omega (arith, length-append full (x ∷ []))) in
        (
          f,
          w,
          rw (get-onto_head m (xs ++ q) x, ◌>>=◌, e, pushed) loop,
          last ∙ ap some (append_assoc full (x ∷ []) (put kp xs) ∙ rw e refl),
        )
    | inr e ↦
        let first = push_lem (mid_slots + 1) full kp (omega arith) in
        let second =
          push_lem (mid_slots + 1) (full ++ kp ∷ []) x
            (omega (arith, length-append full (kp ∷ []))) in
        let all : (full ++ kp ∷ []) ++ x ∷ [] ≡ full ++ kp ∷ x ∷ [] =
          append_assoc full (kp ∷ []) (x ∷ []) in
        let rest =
          fill_written (x ∷ m) xs ((full ++ kp ∷ []) ++ x ∷ []) (
            omega
              (arith, length-append (full ++ kp ∷ []) (x ∷ []), length-append full (kp ∷ []))) in
        (
          ((full ++ kp ∷ []) ++ x ∷ []) ++ xs,
          true,
          rw (get-onto_head m (xs ++ q) x, ◌>>=◌, e, first, second) rest,
          ap some (ap (λ f. f ++ xs) all ∙ append_assoc full (kp ∷ x ∷ []) xs ∙ rw e refl),
        )
  ]
