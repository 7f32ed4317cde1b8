-- ===== src/Oram.antt =====
-- The server's side of a tree: the class `ORAM` of src/ORAM.hpp and src/ORAM.cpp, and the branch of
-- `read_bucket` in test_server.cpp that serves it. `query` is `Connector::Query` for the tree: it takes
-- a bucket's number to its ciphertext, the bytes as numbers, and is `none` where the document is not
-- there and the code reads through an empty result. Service gives it the model of Connector.
pub mod Fetch
pub mod Batch
pub mod Parting
mod Examples
use bomap.Base.{
  ℕ, zero, suc, ◌+◌, ◌%◌, Bool, true, false, ◌||◌, ◌==◌, if◌then◌else◌, List, [], ◌∷◌, ◌++◌, Option,
  some, ◌>>=◌,
}
use bomap.TreePath.{node_at, depth_of}

-- `find(v.begin(), v.end(), n) != v.end()`
abbrev pub contains : List ℕ → ℕ → Bool
contains [] n = false
contains (x ∷ v) n = x == n || contains v n

-- the fields that a request reads or writes
pub record Oram : Type 0 where
  pub depth : ℕ
  pub read_cnt : ℕ
  pub read_view : List ℕ

-- the part of the constructor that sets the fields
unfoldable pub new_oram : ℕ → Oram
new_oram max_size = record { depth = depth_of max_size; read_cnt = 0; read_view = [] }

-- `start()`
unfoldable pub start : Oram → Oram
start o = record o { read_view = []; read_cnt = 0 }

module _ (query : ℕ → Option (List ℕ)) where
  -- the loop of `FetchPath` from level `d` on: the nodes that were sent, and the reply
  unfoldable pub fetch_loop : ℕ → ℕ → ℕ → ℕ → List ℕ → List ℕ → Option (List ℕ × List ℕ)
  fetch_loop zero d depth leaf view result = some (view, result)
  fetch_loop (suc rounds) d depth leaf view result =
      let node = node_at depth leaf d in
      let skipped = fetch_loop rounds (suc d) depth leaf view result in
      let sent = do
        s ← query node
        fetch_loop rounds (suc d) depth leaf (view ++ node ∷ []) (result ++ s)
      in if contains view node then skipped else sent

  -- `FetchPath(oram_index, result, leaf)` on an empty `result`
  unfoldable pub fetch_path : Oram → ℕ → Option (Oram × List ℕ)
  unfolding fetch_loop
  fetch_path o leaf = do
    (view, result) ← fetch_loop (suc o.depth) 0 o.depth leaf o.read_view []
    some (record o { read_cnt = suc o.read_cnt; read_view = view }, result)

  -- `case 0` of the service's `read_bucket`; the number is `recv_count3`
  unfoldable pub read_bucket : ℕ × Oram → ℕ → Option ((ℕ × Oram) × List ℕ)
  unfolding start fetch_path
  read_bucket (recv_count, o) path = do
    (o', result) ← fetch_path (if recv_count % 2 == 0 then start o else o) path
    some ((suc recv_count, o'), result)
