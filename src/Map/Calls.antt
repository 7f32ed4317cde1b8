-- ===== src/Map/Calls.antt =====
-- The calls of a user of src/client.cpp: `search_map`, `insert_map`, `delete_map` and `part_init`.
use bomap.Base.{Bool, if◌then◌else◌, List, [], ◌∷◌, some, ℤ, pos, minus_one}
use bomap.Bid
use bomap.Bid.{Bid}
use bomap.Node.{no_value}
use bomap.Client
use bomap.Client.{Tree}
use bomap.Map.{World, Action, ◌>>=◌, ◌>>◌, pure}
use bomap.Map.Search.{search}
use bomap.Map.Insert.{insert}
use bomap.Map.Delete.{delete}
use bomap.Map.Finish.{finish, Requests}

abbrev reset : {N : Type 0} → List (Tree N) → List (Tree N)
reset [] = []
reset (t ∷ ts) = Client.part_init t ∷ reset ts

-- `part_init()`
unfoldable pub part_init : Action (Unit {0})
unfolding Client.part_init
part_init s = some (
  tt,
  record s { mid1 = reset s.mid1; mid2 = Client.part_init s.mid2; leaf = Client.part_init s.leaf },
)

module _ (w : World) where
  -- `search_map(key)`: the value, or -1, and what was sent. The signal to the service, which only stops
  -- its clock, is left out.
  unfoldable pub search_map : Bid → Action (ℤ × Requests)
  unfolding search part_init finish no_value
  search_map key = do
    part_init
    kv ← search w no_value key
    sent ← finish w
    pure (if Bid.ne_int kv.key (pos 0) then kv.value else minus_one, sent)

  -- `insert_map(key, value)`
  unfoldable pub insert_map : Bid → ℤ → Action (Requests)
  unfolding insert part_init finish
  insert_map key value = do part_init; insert w key value; finish w

  -- `delete_map(key)`
  unfoldable pub delete_map : Bid → Action (Bool × Requests)
  unfolding delete part_init finish
  delete_map key = do part_init; done ← delete w key; sent ← finish w; pure (done, sent)
