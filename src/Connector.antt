-- ===== src/Connector.antt =====
-- The database of the service: src/Connector.hpp and src/Connector.cpp. A collection has a document for
-- each bucket of a tree, with the bucket's number and its ciphertext.
use bomap.Base.{
  ℕ, ◌==◌, ◌≡◌, false, List, [], ◌∷◌, Option, none, some, get_elem?, ◌>>=◌, ◌<◌, length,
  if◌then◌else◌,
}
use bomap.Slots.{write}
use bomap.Slots.Holds.{Yields}

-- What is called of the driver. `insert_one` and `bulk_write` may throw: the numbers of the buckets
-- are a unique index, and a bulk without operations is refused.
pub record Driver (C : Type 0) : Type 0 where
  pub empty : C
  pub find_one : C → ℕ → Option (List ℕ)
  pub insert_one : C → ℕ → List ℕ → Option C
  pub update_one : C → ℕ → List ℕ → C
  pub bulk_write : C → List (ℕ × List ℕ) → Option C

-- no document has the number
abbrev pub Misses : ℕ → List (ℕ × List ℕ) → Type 0
Misses p [] = Unit
Misses p ((q, s) ∷ docs) = ((p == q) ≡ false) × Misses p docs

-- the ciphertext of a number among the documents, or else what is given
abbrev pub document : List (ℕ × List ℕ) → ℕ → Option (List ℕ) → Option (List ℕ)
document [] q before = before
document ((p, s) ∷ docs) q before = if p == q then some s else document docs q before

-- no number of the documents stands in the collection, and none stands twice
abbrev pub AreNew : {C : Type 0} → Driver C → C → List (ℕ × List ℕ) → Type 0
AreNew drv c [] = Unit
AreNew drv c ((p, s) ∷ docs) = (drv.find_one c p ≡ none) × Misses p docs × AreNew drv c docs

-- What the driver documents of updates by a field, where at most one document fits, and of a bulk of
-- insertions.
pub record Documented {C : Type 0} (drv : Driver C) : Type 0 where
  pub update_same :
      (c : C) (p : ℕ) (x s : List ℕ)
      → drv.find_one c p ≡ some x
      → drv.find_one (drv.update_one c p s) p ≡ some s
  pub update_other :
      (c : C) (p q : ℕ) (s : List ℕ)
      → (p == q) ≡ false
      → drv.find_one (drv.update_one c p s) q ≡ drv.find_one c q
  pub bulk_new :
      (c : C) (docs : List (ℕ × List ℕ))
      → 0 < length docs
      → AreNew drv c docs
      → Yields
          (λ c'. (q : ℕ) → drv.find_one c' q ≡ document docs q (drv.find_one c q))
          (drv.bulk_write c docs)
  pub find_empty : (q : ℕ) → drv.find_one drv.empty q ≡ none

-- `coll`; the database's name only tells it from others
pub record Connector (C : Type 0) : Type 0 where
  pub coll : List C

-- the documents of a bulk: `pos[i]` and `cipher[i]`
unfoldable pub documents : List ℕ → List (List ℕ) → Option (List (ℕ × List ℕ))
documents [] ciphers = some []
documents (p ∷ ps) [] = none
documents (p ∷ ps) (s ∷ ciphers) = do docs ← documents ps ciphers; some ((p, s) ∷ docs)

module _ {C : Type 0} (drv : Driver C) where
  -- `Query(oram_index, pos)`; a document that is not there is read all the same
  unfoldable pub query : Connector C → ℕ → ℕ → Option (List ℕ)
  query mc i p = do c ← get_elem? mc.coll i; drv.find_one c p

  -- `Update(oram_index, pos, cipher)`
  unfoldable pub update : Connector C → ℕ → ℕ → List ℕ → Option (Connector C)
  update mc i p s = do
    c ← get_elem? mc.coll i
    cs ← write mc.coll i (drv.update_one c p s)
    some (record { coll = cs })

  -- `Insert(oram_index, pos, cipher)`
  unfoldable pub insert : Connector C → ℕ → ℕ → List ℕ → Option (Connector C)
  insert mc i p s = do
    c ← get_elem? mc.coll i
    c' ← drv.insert_one c p s
    cs ← write mc.coll i c'
    some (record { coll = cs })

  -- `Bulk_Insert(oram_index, pos, cipher)`
  unfoldable pub bulk_insert : Connector C → ℕ → List ℕ → List (List ℕ) → Option (Connector C)
  unfolding documents
  bulk_insert mc i ps ciphers = do
    c ← get_elem? mc.coll i
    docs ← documents ps ciphers
    c' ← drv.bulk_write c docs
    cs ← write mc.coll i c'
    some (record { coll = cs })

  -- `drop()`
  unfoldable pub drop_all : List C → List C
  drop_all [] = []
  drop_all (c ∷ cs) = drv.empty ∷ drop_all cs

  unfoldable pub drop : Connector C → Connector C
  unfolding drop_all
  drop mc = record { coll = drop_all mc.coll }
