-- ===== src/Client/Writes.antt =====
-- What `Write...Path` of src/client.cpp moves from the cache into a bucket.
use bomap.Base.{
  ℕ, zero, suc, ◌<◌, ◌≤◌, ◌≡◌, refl, sym, ap, ◌∙◌, Bool, true, false, ◌&&◌, not, Bool-cases, inl,
  inr, ◌⊎◌, ◌==◌, if◌then◌else◌, List, [], ◌∷◌, Option, none, some, length, ℤ, arith,
}
use bomap.Bid
use bomap.Bid.{Bid}
use bomap.Bid.Order.{eq-value}
use bomap.TreePath.{bucket_blocks}
use bomap.Client.{
  NodeClass, Tree, Outside, int_eq, contains, find, erase, erase_all, intersecting, nodes, node_of,
  write_path,
}

module _ {N : Type 0} where
  -- no key stands twice, as in an `unordered_map`
  abbrev pub IsMap : List (Bid × N) → Type 0
  IsMap [] = Unit
  IsMap ((k, n) ∷ c) = (find c k ≡ none) × IsMap c

  abbrev pub or_else : Option N → Option N → Option N
  or_else none o = o
  or_else (some n) o = some n

  abbrev unless : Option N → Option N → Option N
  unless none o = o
  unless (some n) o = none

  find_same : (c : List (Bid × N)) (j k : Bid) → Bid.eq j k ≡ true → find c j ≡ find c k
  find_same [] j k e = refl
  find_same ((i, n) ∷ c) j k e =
      ground (arith, find_same c j k e, eq-value j k, eq-value i j, eq-value i k)

  pub find-erase :
      (c : List (Bid × N)) (j k : Bid)
      → find (erase c j) k ≡ (if Bid.eq j k then none else find c k)
  find-erase [] j k = ground arith
  find-erase ((i, n) ∷ c) j k =
      ground (arith, find-erase c j k, eq-value j k, eq-value i j, eq-value i k)

  find-erase_all :
      (c ks : List (Bid × N)) (k : Bid) → find (erase_all c ks) k ≡ unless (find ks k) (find c k)
  unfolding erase_all
  find-erase_all c [] k = refl
  find-erase_all c ((j, n) ∷ ks) k = elim (Bool-cases (Bid.eq j k)) [
    | inl same ↦
        rw (same, find-erase_all (erase c j) ks k, find-erase c j k, same) (gone (find ks k))
    | inr other ↦ rw (other, find-erase_all (erase c j) ks k, find-erase c j k, other) refl
  ]
    where
      gone : (o : Option N) → unless o none ≡ none
      gone none = refl
      gone (some n) = refl

module _ {N : Type 0} (cls : NodeClass N) (node : ℤ) (d : ℕ) where
  -- the block is not a dummy, and its path goes through the bucket
  unfoldable pub passes : N → Bool
  passes n = not (cls.count n == 0) && int_eq (node_of cls.max_size (cls.pos_of n) d) node

  abbrev pub AllPass : List (Bid × N) → Type 0
  AllPass [] = Unit
  AllPass ((k, n) ∷ c) = (passes n ≡ true) × AllPass c

  -- no block of the list could be added to the bucket
  abbrev pub NonePass : List (Bid × N) → Type 0
  NonePass [] = Unit
  NonePass ((k, n) ∷ c) = (passes n ≡ false) × NonePass c

  pub intersecting_lem :
      (room : ℕ) (c : List (Bid × N))
      → (length (intersecting cls room node d c) ≤ room) × AllPass (intersecting cls room node d c)
  unfolding intersecting passes
  intersecting_lem zero c = (omega arith, tt)
  intersecting_lem (suc room) [] = (omega arith, tt)
  intersecting_lem (suc room) ((k, n) ∷ c) = elim (Bool-cases (passes n)) [
    | inl p ↦ let (l, a) = intersecting_lem room c in rw p (omega arith, (p, a))
    | inr p ↦ rw p (intersecting_lem (suc room) c)
  ]

  find-intersecting :
      (room : ℕ) (c : List (Bid × N)) (k : Bid)
      → IsMap c
      → let valid = intersecting cls room node d c in
        (find valid k ≡ none) ⊎ (find valid k ≡ find c k)
  unfolding intersecting passes
  find-intersecting zero c k m = inl refl
  find-intersecting (suc room) [] k m = inl refl
  find-intersecting (suc room) ((j, n) ∷ c) k m = elim (Bool-cases (passes n)) [
    | inl p ↦ elim (Bool-cases (Bid.eq j k)) [
      | inl same ↦ rw (p, same) (inr refl)
      | inr other ↦ rw (p, other) (find-intersecting room c k m.1)
    ]
    | inr p ↦ elim (Bool-cases (Bid.eq j k)) [
      | inl same ↦ elim (find-intersecting (suc room) c k m.1) [
        | inl e ↦ rw (p, same) (inl e)
        | inr e ↦ rw (p, same) (inl (e ∙ sym (find_same c j k same) ∙ m.0))
      ]
      | inr other ↦ rw (p, other) (find-intersecting (suc room) c k m.1)
    ]
  ]

module _ {N : Type 0} where
  none-if : (b : Bool) (o : Option N) → o ≡ none → (if b then none else o) ≡ none
  none-if true o e = refl
  none-if false o e = e

  erase_absent : (c : List (Bid × N)) (k : Bid) → find c k ≡ none → erase c k ≡ c
  erase_absent [] k e = refl
  erase_absent ((j, n) ∷ c) k e = elim (Bool-cases (Bid.eq j k)) [
    | inl same ↦ absurd (no_value (rw same at e))
    | inr other ↦ rw other (ap (◌∷◌ (j, n)) (erase_absent c k (rw other at e)))
  ]
    where
      no_value : {n : N} → some n ≡ none → ⊥
      no_value e = cc

  erase_all-cons :
      (c ks : List (Bid × N)) (j : Bid) (n : N)
      → find ks j ≡ none
      → erase_all ((j, n) ∷ c) ks ≡ (j, n) ∷ erase_all c ks
  unfolding erase_all
  erase_all-cons c [] j n e = refl
  erase_all-cons c ((k, m) ∷ ks) j n e = elim (Bool-cases (Bid.eq j k)) [
    | inl same ↦
        let same' : Bid.eq k j ≡ true = ground (arith, eq-value j k, eq-value k j) in
        absurd (no_value (rw same' at e))
    | inr other ↦
        let other' : Bid.eq k j ≡ false = ground (arith, eq-value j k, eq-value k j) in
        rw other (erase_all-cons (erase c k) ks j n (rw other' at e))
  ]
    where
      no_value : {n : N} → some n ≡ none → ⊥
      no_value e = cc

  erase_all_self :
      (c ks : List (Bid × N)) (k : Bid) (n : N)
      → find c k ≡ none
      → erase_all ((k, n) ∷ c) ((k, n) ∷ ks) ≡ erase_all c ks
  unfolding erase_all
  erase_all_self c ks k n e =
      let self : Bid.eq k k ≡ true = ground (arith, eq-value k k) in
      rw self (ap (λ b. erase_all b ks) (erase_absent c k e))

  IsMap-erase : (c : List (Bid × N)) (j : Bid) → IsMap c → IsMap (erase c j)
  IsMap-erase [] j m = tt
  IsMap-erase ((i, n) ∷ c) j m = elim (Bool-cases (Bid.eq i j)) [
    | inl same ↦ rw same (IsMap-erase c j m.1)
    | inr other ↦
        rw other (find-erase c j i ∙ none-if (Bid.eq j i) (find c i) m.0, IsMap-erase c j m.1)
  ]

  pub IsMap-erase_all : (c ks : List (Bid × N)) → IsMap c → IsMap (erase_all c ks)
  unfolding erase_all
  IsMap-erase_all c [] m = m
  IsMap-erase_all c ((k, n) ∷ ks) m = IsMap-erase_all (erase c k) ks (IsMap-erase c k m)

  split_found : (o p : Option N) → ((o ≡ none) ⊎ (o ≡ p)) → or_else o (unless o p) ≡ p
  split_found none p h = refl
  split_found (some n) p (inl e) = absurd cc
  split_found (some n) p (inr e) = e

  pub erased :
      (c ks : List (Bid × N)) (k : Bid) → (find ks k ≡ none) ⊎ (find (erase_all c ks) k ≡ none)
  erased c ks k = rw (find-erase_all c ks k) (left_out (find ks k) (find c k))
    where
      left_out : (o p : Option N) → (o ≡ none) ⊎ (unless o p ≡ none)
      left_out none p = inl refl
      left_out (some n) p = inr refl

module _ {N : Type 0} (cls : NodeClass N) (node : ℤ) (d : ℕ) where
  -- a bucket with room left has taken every block that it could
  rest-NonePass :
      (room : ℕ) (c : List (Bid × N))
      → IsMap c
      → length (intersecting cls room node d c) < room
      → NonePass cls node d (erase_all c (intersecting cls room node d c))
  unfolding intersecting passes erase_all
  rest-NonePass zero c m h = absurd (omega arith)
  rest-NonePass (suc room) [] m h = tt
  rest-NonePass (suc room) ((k, n) ∷ c) m h = elim (Bool-cases (passes cls node d n)) [
    | inl p ↦
        let room_left : suc (length (intersecting cls room node d c)) < suc room = rw p at h in
        rw (p, erase_all_self c (intersecting cls room node d c) k n m.0)
          (rest-NonePass room c m.1 (omega arith))
    | inr p ↦
        let block = intersecting cls (suc room) node d c in
        let room_left : length block < suc room = rw p at h in
        rw
          (p, erase_all-cons c block k n (absent (find-intersecting cls node d (suc room) c k m.1)))
          (p, rest-NonePass (suc room) c m.1 room_left)
  ]
    where
      absent : {o : Option N} → ((o ≡ none) ⊎ (o ≡ find c k)) → o ≡ none
      absent (inl e) = e
      absent (inr e) = e ∙ m.0

  full-or-NonePass :
      (c : List (Bid × N))
      → IsMap c
      → let block = intersecting cls bucket_blocks node d c in
        (length block ≡ bucket_blocks) ⊎ NonePass cls node d (erase_all c block)
  full-or-NonePass c m =
      let block = intersecting cls bucket_blocks node d c in
      let (most, _) = intersecting_lem cls node d bucket_blocks c in
      elim (Bool-cases (length block == bucket_blocks)) [
        | inl full ↦ inl (ground arith)
        | inr other ↦ inr (rest-NonePass bucket_blocks c m (ground (arith, most)))
      ]

module _ {N : Type 0} (cls : NodeClass N) (node : ℤ) (d room : ℕ) where
  pub erased_or_found :
      (c : List (Bid × N)) (k : Bid)
      → IsMap c
      → let block = intersecting cls room node d c in
        or_else (find block k) (find (erase_all c block) k) ≡ find c k
  erased_or_found c k m =
      let block = intersecting cls room node d c in
      ap (or_else (find block k)) (find-erase_all c block k)
      ∙ split_found (find block k) (find c k) (find-intersecting cls node d room c k m)

module _ {N : Type 0} (cls : NodeClass N) (out : Outside N) where
  -- For a cache without duplicate identifiers and a bucket that was not written yet, the bucket is
  -- sealed and marked as written. It takes at most `Z` blocks, none of them a dummy and each one on the
  -- path of its position, and it is full or no block that stays in the cache could go into it. Every
  -- block of the cache is after that in the bucket or still in the cache, as it was, and not in both.
  pub write_path_lem :
      (t : Tree N) (leaf : ℤ) (d : ℕ) (k : Bid)
      → IsMap t.cache
      → contains t.write_view (node_of cls.max_size leaf d) ≡ false
      → let node = node_of cls.max_size leaf d in
        let block = intersecting cls bucket_blocks node d t.cache in
        let after = write_path cls out t leaf d in
        (length block ≤ bucket_blocks)
        × AllPass cls node d block
        × ((length block ≡ bucket_blocks) ⊎ NonePass cls node d after.0.cache)
        × (or_else (find block k) (find after.0.cache k) ≡ find t.cache k)
        × ((find block k ≡ none) ⊎ (find after.0.cache k ≡ none))
        × (after.1 ≡ some (out.seal_bucket (nodes block)))
        × (after.0.write_view ≡ node ∷ t.write_view)
  unfolding write_path
  write_path_lem t leaf d k m new =
      let node = node_of cls.max_size leaf d in
      let block = intersecting cls bucket_blocks node d t.cache in
      let (l, a) = intersecting_lem cls node d bucket_blocks t.cache in
      rw new (
        l,
        a,
        full-or-NonePass cls node d t.cache m,
        erased_or_found cls node d bucket_blocks t.cache k m,
        erased t.cache block k,
        refl,
        refl,
      )
