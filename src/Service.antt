-- ===== src/Service.antt =====
-- The service of test_server.cpp, with the methods of `ORAM` in src/ORAM.cpp that reach the database.
-- `none` is a pointer that was not set, an index past a vector, a document that is not there, or an
-- exception of the driver. All trees and the connector have been set up.
pub mod Serves
pub mod Replies
pub mod Fills
mod Examples
use bomap.Base.{
  ℕ, zero, suc, ◌+◌, ◌-◌, ◌%◌, ◌==◌, if◌then◌else◌, Bool, true, false, List, [], ◌∷◌, ◌++◌, Option,
  none, some, get_elem?, ◌>>=◌,
}
use bomap.Slots.{write}
use bomap.TreePath.{bucket_count}
use bomap.Oram
use bomap.Oram.{Oram, start, new_oram}
use bomap.Connector
use bomap.Connector.{Connector, Driver}

-- The members of the service. `mid1` and `mid1_counts` have an entry for each level of `midNode1`s.
pub record Service (C : Type 0) : Type 0 where
  pub level : ℕ
  pub is_find : Bool
  pub mc : Connector C
  pub leaf : Oram
  pub mid2 : Oram
  pub mid1 : List Oram
  pub leaf_count : ℕ
  pub mid2_count : ℕ
  pub mid1_counts : List ℕ

module _ {C : Type 0} where
  -- the tree of an index, and how many reads of it were served: the cases of the switches
  abbrev pub tree_of : Service C → ℕ → Option (ℕ × Oram)
  tree_of s zero = some (s.leaf_count, s.leaf)
  tree_of s (suc zero) = some (s.mid2_count, s.mid2)
  tree_of s (suc (suc j)) = do
    count ← get_elem? s.mid1_counts j
    o ← get_elem? s.mid1 j
    some (count, o)

  abbrev pub put_tree : Service C → ℕ → ℕ → Oram → Option (Service C)
  put_tree s zero count o = some (record s { leaf_count = count; leaf = o })
  put_tree s (suc zero) count o = some (record s { mid2_count = count; mid2 = o })
  put_tree s (suc (suc j)) count o = do
    counts ← write s.mid1_counts j count
    os ← write s.mid1 j o
    some (record s { mid1_counts = counts; mid1 = os })

  -- the pointer or the entry of the vector that a write goes through
  abbrev pub has_tree : Service C → ℕ → Option (Unit {0})
  has_tree s zero = some tt
  has_tree s (suc zero) = some tt
  has_tree s (suc (suc j)) = do _ ← get_elem? s.mid1 j; some tt

  -- `oram_index() == level - 1` in the default case: the root's block
  abbrev pub is_root : Service C → ℕ → Bool
  is_root s zero = false
  is_root s (suc zero) = false
  is_root s (suc (suc j)) = suc (suc j) == s.level - 1

-- as many ciphertexts as buckets
unfoldable pub copies : List ℕ → List ℕ → List (List ℕ)
copies buffer [] = []
copies buffer (p ∷ ps) = buffer ∷ copies buffer ps

module _ {C : Type 0} (drv : Driver C) where
  -- `FetchPath(oram_index, result, leaf)`, with the query of the connector
  unfoldable pub fetch_path : Connector C → ℕ → Oram → ℕ → Option (Oram × List ℕ)
  unfolding Connector.query Oram.fetch_path
  fetch_path mc i o leaf = Oram.fetch_path (Connector.query drv mc i) o leaf

  -- `WriteBucket(oram_index, index, ciphertext)`
  unfoldable pub write_one : Connector C → ℕ → ℕ → List ℕ → Option (Connector C)
  unfolding Connector.update
  write_one mc i p s = Connector.update drv mc i p s

  -- `InitBucket(oram_index, pos, bucket)`
  unfoldable pub init_bucket : Connector C → ℕ → ℕ → List ℕ → Option (Connector C)
  unfolding Connector.insert
  init_bucket mc i p s = Connector.insert drv mc i p s

  -- `bulkInitBucket(oram_index, pos, bucket)`
  unfoldable pub bulk_init_bucket : Connector C → ℕ → List ℕ → List (List ℕ) → Option (Connector C)
  unfolding Connector.bulk_insert
  bulk_init_bucket mc i ps buffers = Connector.bulk_insert drv mc i ps buffers

  -- The loop of the constructor over the buckets from `j` on, with those that wait for the next bulk.
  -- Every bucket is sealed in the same way.
  unfoldable pub fill : Connector C → ℕ → List ℕ → ℕ → ℕ → List ℕ → Option (Connector C)
  unfolding Connector.bulk_insert copies
  fill mc i buffer zero j waiting = Connector.bulk_insert drv mc i waiting (copies buffer waiting)
  fill mc i buffer (suc rounds) j waiting =
      let waiting' = waiting ++ j ∷ [] in
      let later = fill mc i buffer rounds (suc j) waiting' in
      let now = do
        mc' ← Connector.bulk_insert drv mc i waiting' (copies buffer waiting')
        fill mc' i buffer rounds (suc j) []
      in if j % 10000 == 0 then now else later

  -- `ORAM(maxSize, oram_index, mconnector, is_acc)`: the tree, and the database
  unfoldable pub create : Connector C → ℕ → ℕ → List ℕ → Bool → Option (Connector C × Oram)
  unfolding fill new_oram
  create mc max_size i buffer is_acc =
      let o = new_oram max_size in
      let filled = do mc' ← fill mc i buffer (bucket_count o.depth) 0 []; some (mc', o)
      in if is_acc then some (mc, o) else filled

  -- `read_bucket`
  unfoldable pub read_bucket : Service C → ℕ → ℕ → Option (Service C × List ℕ)
  unfolding Connector.query start fetch_path
  read_bucket s i path =
      let root = do block ← Connector.query drv s.mc (s.level - 1) 0; some (s, block)
      in let tree = do
        (count, o) ← tree_of s i
        (o', result) ← fetch_path s.mc i (if count % 2 == 0 then start o else o) path
        s' ← put_tree s i (suc count) o'
        some (s', result)
        in if is_root s i then root else tree

  -- the loops of `write_bucket`, in `num` rounds
  unfoldable pub write_all : Connector C → ℕ → ℕ → List ℕ → List (List ℕ) → Option (Connector C)
  unfolding write_one
  write_all mc i zero ps buffers = some mc
  write_all mc i (suc num) [] buffers = none
  write_all mc i (suc num) (p ∷ ps) [] = none
  write_all mc i (suc num) (p ∷ ps) (b ∷ buffers) = do
    mc' ← write_one mc i p b
    write_all mc' i num ps buffers

  -- `write_bucket`
  unfoldable pub write_bucket : Service C → ℕ → ℕ → List ℕ → List (List ℕ) → Option (Service C)
  unfolding Connector.update write_all
  write_bucket s i num ps buffers =
      let root = do
        b ← get_elem? buffers 0
        mc ← Connector.update drv s.mc (s.level - 1) 0 b
        some (record s { mc = mc })
      in let tree = do
        _ ← if num == 0 then some tt else has_tree s i
        mc ← write_all s.mc i num ps buffers
        some (record s { mc = mc })
        in if is_root s i then root else tree

  -- `init_dummy`
  unfoldable pub init_dummy : Service C → ℕ → ℕ → List ℕ → Option (Service C)
  unfolding Connector.insert init_bucket
  init_dummy s i p buffer =
      let root = do
        mc ← Connector.insert drv s.mc (s.level - 1) 0 buffer
        some (record s { mc = mc })
      in let tree = do
        _ ← has_tree s i
        mc ← init_bucket s.mc i p buffer
        some (record s { mc = mc })
        in if is_root s i then root else tree

-- the texts of `end_signal` that are told apart
pub data End : Type 0 where
  search : End
  exit : End
  drop : End
  other : End

-- `end_signal`; the file that `exit` writes is left out
unfoldable pub end_signal : {C : Type 0} → Driver C → Service C → End → Service C
unfolding Connector.drop
end_signal drv s search = record s { is_find = true }
end_signal drv s exit = record s { mc = Connector.drop drv s.mc }
end_signal drv s drop = record s { mc = Connector.drop drv s.mc }
end_signal drv s other = s
