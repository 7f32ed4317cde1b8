-- ===== src/Oram/Examples.antt =====
-- Requests to a tree of depth 2 whose buckets hold their own numbers.
use bomap.Base.{◌≡◌, ◌≢◌, ℕ, List, [], ◌∷◌, ◌++◌, Option, some, ◌>>=◌, refl, arith}
use bomap.TreePath.{node_at}
use bomap.Oram.{Oram, start, fetch_path, read_bucket}
use bomap.Oram.Fetch.{path_from, contents, fresh, fetch_path_lem}
use bomap.Oram.Batch.{IsDistinct, read_twice, sent_twice, read_bucket-batch}
use bomap.Oram.Parting.{read_bucket-parting}

abbrev query : ℕ → Option (List ℕ)
query n = some (n ∷ n ∷ [])

abbrev tree : Oram
tree = record { depth = 2; read_cnt = 1; read_view = 0 ∷ 1 ∷ 3 ∷ [] }

fetch_path_lem_example : fetch_path query (start tree) 2 ≡ (
    contents query (path_from 3 0 2 2) >>= λ s.
    some (record tree { read_cnt = 1; read_view = path_from 3 0 2 2 }, s))
fetch_path_lem_example = fetch_path_lem query tree 2 (omega arith)

read_bucket-batch_example :
    (read_twice query (4, tree) 2 3
      ≡ sent_twice query
          (4, tree)
          (path_from 3 0 2 2)
          (fresh (path_from 3 0 2 2) (path_from 3 0 2 3)))
    × IsDistinct (path_from 3 0 2 2 ++ fresh (path_from 3 0 2 2) (path_from 3 0 2 3))
read_bucket-batch_example = read_bucket-batch query 4 tree 2 3 refl (omega arith) (omega arith)

-- the second reply has only the leaf's bucket
batch_run :
    read_twice query (4, tree) 2 3
    ≡ some (
      (6, record tree { read_cnt = 2; read_view = 0 ∷ 2 ∷ 5 ∷ 6 ∷ [] }),
      0 ∷ 0 ∷ 2 ∷ 2 ∷ 5 ∷ 5 ∷ [],
      6 ∷ 6 ∷ [],
    )
unfolding read_bucket node_at
batch_run = refl

meet : node_at 2 2 1 ≡ node_at 2 3 1
unfolding node_at
meet = refl

part : node_at 2 2 2 ≢ node_at 2 3 2
unfolding node_at
part e = omega arith

read_bucket-parting_example :
    read_twice query (4, tree) 2 3
    ≡ sent_twice query (4, tree) (path_from 3 0 2 2) (path_from 1 2 2 3)
read_bucket-parting_example =
    read_bucket-parting query 4 tree 2 3 1 refl (omega arith) (omega arith) (omega arith) meet part
