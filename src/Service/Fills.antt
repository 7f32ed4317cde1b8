-- ===== src/Service/Fills.antt =====
-- The constructor of `ORAM` in src/ORAM.cpp stores every bucket of a new tree.
use mathlib.Core.Path.{subst}
use bomap.Base.{
  ℕ, zero, suc, ◌+◌, ◌-◌, ◌%◌, ◌^◌, ◌<◌, ◌≤◌, ◌==◌, ◌≡◌, ltb, refl, sym, ap, ◌∙◌, arith,
  if◌then◌else◌, Bool-cases, inl, inr, true, false, List, [], ◌∷◌, ◌++◌, length, none, some,
  get_elem?, ◌>>=◌,
}
use bomap.Slots.Holds.{Yields}
use bomap.TreePath.{bucket_count, depth_of}
use bomap.TreePath.Levels.{pow-pos}
use native.Mathlib.Nat.{pow-suc}
use bomap.Oram.{new_oram}
use bomap.Connector.{
  Connector, Driver, Documented, Misses, AreNew, document, documents, bulk_insert,
}
use bomap.Service.{copies, fill, create}
use bomap.Service.Serves.{get-write}

-- `n` numbers from `a` on
abbrev range : ℕ → ℕ → List ℕ
range a zero = []
range a (suc n) = a ∷ range (suc a) n

range-append : (a n : ℕ) → range a n ++ (a + n) ∷ [] ≡ range a (suc n)
range-append a zero = let e : a + 0 ≡ a = omega arith in rw e refl
range-append a (suc n) =
    let e : a + suc n ≡ suc a + n = omega arith in rw e (ap (◌∷◌ a) (range-append (suc a) n))

-- their documents
abbrev batch : List ℕ → ℕ → ℕ → List (ℕ × List ℕ)
batch buffer a zero = []
batch buffer a (suc n) = (a, buffer) ∷ batch buffer (suc a) n

module _ (buffer : List ℕ) where
  documents-range :
      (a n : ℕ) → documents (range a n) (copies buffer (range a n)) ≡ some (batch buffer a n)
  unfolding documents copies
  documents-range a zero = refl
  documents-range a (suc n) = rw (documents-range (suc a) n) refl

  length-batch : (a n : ℕ) → length (batch buffer a n) ≡ n
  length-batch a zero = refl
  length-batch a (suc n) = ap suc (length-batch (suc a) n)

  batch-Misses : (p a n : ℕ) → p < a → Misses p (batch buffer a n)
  batch-Misses p a zero h = tt
  batch-Misses p a (suc n) h = (ground arith, batch-Misses p (suc a) n (omega arith))

  -- the first `m` buckets are stored, and no others
  abbrev Has : {C : Type 0} → Driver C → C → ℕ → Type 0
  Has drv c m = (q : ℕ) → drv.find_one c q ≡ (if ltb q m then some buffer else none)

  batch-AreNew :
      {C : Type 0} (drv : Driver C) (c : C) (m a n : ℕ)
      → Has drv c m
      → m ≤ a
      → AreNew drv c (batch buffer a n)
  batch-AreNew drv c m a zero h l = tt
  batch-AreNew drv c m a (suc n) h l =
      let out : ltb a m ≡ false = ground arith in
      (
        h a ∙ rw out refl,
        batch-Misses a (suc a) n (omega arith),
        batch-AreNew drv c m (suc a) n h (omega arith),
      )

  document-batch :
      (a n q : ℕ)
      → document (batch buffer a n) q (if ltb q a then some buffer else none)
        ≡ (if ltb q (a + n) then some buffer else none)
  document-batch a zero q = let e : a + 0 ≡ a = omega arith in rw e refl
  document-batch a (suc n) q =
      let e : a + suc n ≡ suc a + n = omega arith in
      elim (Bool-cases (a == q)) [
        | inl same ↦
            let inside : ltb q (suc a + n) ≡ true = ground arith in rw (same, e, inside) refl
        | inr other ↦
            let below : ltb q a ≡ ltb q (suc a) = ground arith in
            rw (other, e, below) (document-batch (suc a) n q)
      ]

  module _ {C : Type 0} (drv : Driver C) (i : ℕ) where
    -- the collection of the tree has the first `m` buckets, and no others
    abbrev pub HasFirst : Connector C → ℕ → Type 0
    HasFirst mc m = (c : C) × (get_elem? mc.coll i ≡ some c) × Has drv c m

  module _ {C : Type 0} (drv : Driver C) (doc : Documented drv) (i : ℕ) where
    bulk_insert-HasFirst :
        (mc : Connector C) (a n : ℕ)
        → HasFirst drv i mc a
        → 0 < n
        → Yields
            (λ mc'. HasFirst drv i mc' (a + n))
            (bulk_insert drv mc i (range a n) (copies buffer (range a n)))
    unfolding bulk_insert
    bulk_insert-HasFirst mc a n (c, g, h) l =
        let (c', b, f) =
          doc.bulk_new c (batch buffer a n) (omega (arith, length-batch a n))
            (batch-AreNew drv c a a n h (omega arith)) in
        let (cs, w, g') = get-write mc.coll i c c' g in
        (
          record { coll = cs },
          rw (g, documents-range a n, b, w) refl,
          (c', g', λ q. f q ∙ ap (document (batch buffer a n) q) (h q) ∙ document-batch a n q),
        )

    -- the last bulk is not empty
    abbrev Ends : ℕ → ℕ → ℕ → Type 0
    Ends zero j n = 0 < n
    Ends (suc r) j n = ((j + r) % 10000 == 0) ≡ false

    Ends-later : (r j n : ℕ) → Ends (suc r) j n → Ends r (suc j) (suc n)
    Ends-later zero j n h = omega arith
    Ends-later (suc r) j n h = let e : j + suc r ≡ suc j + r = omega arith in rw (← e) h

    Ends-now : (r j n : ℕ) → Ends (suc r) j n → (j % 10000 == 0) ≡ true → Ends r (suc j) 0
    Ends-now zero j n h now =
        let e : j + 0 ≡ j = omega arith in
        absurd (differ (sym now ∙ ap (λ x. x % 10000 == 0) (sym e) ∙ h))
      where
        differ : true ≡ false → ⊥
        differ e = cc
    Ends-now (suc r) j n h now = let e : j + suc r ≡ suc j + r = omega arith in rw (← e) h

    fill-HasFirst :
        (rounds a n j : ℕ) (mc : Connector C)
        → j ≡ a + n
        → HasFirst drv i mc a
        → Ends rounds j n
        → Yields
            (λ mc'. HasFirst drv i mc' (j + rounds))
            (fill drv mc i buffer rounds j (range a n))
    unfolding fill
    fill-HasFirst zero a n j mc e h l =
        let e' : j + 0 ≡ a + n = omega arith in rw e' (bulk_insert-HasFirst mc a n h l)
    fill-HasFirst (suc r) a n j mc e h l =
        let next : range a n ++ j ∷ [] ≡ range a (suc n) = rw e (range-append a n) in
        let total : j + suc r ≡ suc j + r = omega arith in
        elim (Bool-cases (j % 10000 == 0)) [
          | inl now ↦
              let (mc1, b, h1) = bulk_insert-HasFirst mc a (suc n) h (omega arith) in
              let (mc2, f, h2) =
                fill-HasFirst r (a + suc n) 0 (suc j) mc1 (omega arith) h1 (Ends-now r j n l now) in
              (mc2, rw (now, next, b, ◌>>=◌) f, rw total h2)
          | inr later ↦
              let (mc2, f, h2) =
                fill-HasFirst r a (suc n) (suc j) mc (omega arith) h (Ends-later r j n l) in
              (mc2, rw (later, next) f, rw total h2)
        ]

    -- The constructor on an empty collection, where the number of the last bucket is not a multiple
    -- of 10000: it does not fault, and then the collection has exactly the buckets of the tree, each
    -- with the ciphertext of a bucket of dummies.
    pub create-HasFirst :
        (mc : Connector C) (max_size : ℕ)
        → HasFirst drv i mc 0
        → ((2 ^ (depth_of max_size + 1) - 2) % 10000 == 0) ≡ false
        → Yields
            (λ r. (r.1 ≡ new_oram max_size) × HasFirst drv i r.0 (bucket_count (depth_of max_size)))
            (create drv mc max_size i buffer false)
    unfolding create new_oram
    create-HasFirst mc max_size h l =
        let m = 2 ^ (depth_of max_size + 1) - 2 in
        let two : depth_of max_size + 1 ≡ suc (depth_of max_size) = omega arith in
        let some_buckets : suc m ≡ bucket_count (depth_of max_size) =
          rw two (omega (arith, pow-suc 2 (depth_of max_size), pow-pos (depth_of max_size))) in
        let ends : Ends (bucket_count (depth_of max_size)) 0 0 =
          subst (λ n. Ends n 0 0) some_buckets (zero_plus m l) in
        let (mc', f, h') = fill-HasFirst (bucket_count (depth_of max_size)) 0 0 0 mc refl h ends in
        (
          (mc', new_oram max_size),
          rw (f, ◌>>=◌) refl,
          (refl, subst (HasFirst drv i mc') (zero_add (bucket_count (depth_of max_size))) h'),
        )
      where
        zero_add : (n : ℕ) → 0 + n ≡ n
        zero_add n = omega arith

        zero_plus : (n : ℕ) → (n % 10000 == 0) ≡ false → ((0 + n) % 10000 == 0) ≡ false
        zero_plus n e = rw (zero_add n) e
