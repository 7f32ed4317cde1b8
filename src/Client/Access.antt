-- ===== src/Client/Access.antt =====
-- `Write...Node` and `Read...Node` of src/client.cpp on a node that is in the cache.
use bomap.Base.{
  ◌≡◌, refl, ◌∙◌, Bool, true, false, List, [], ◌∷◌, some, ℤ, pos, arith, ◌>>=◌, if◌then◌else◌,
}
use bomap.Bid
use bomap.Bid.{Bid}
use bomap.Bid.Order.{eq-value}
use bomap.Client.{NodeClass, Tree, Outside, find, assign, mark, read_node, write_node}

module _ {N : Type 0} where
  pub find-assign :
      (c : List (Bid × N)) (j k : Bid) (n : N)
      → find (assign c j n) k ≡ (if Bid.eq j k then some n else find c k)
  find-assign [] j k n = refl
  find-assign ((i, m) ∷ c) j k n =
      ground (arith, find-assign c j k n, eq-value i j, eq-value i k, eq-value j k)

module _ {N : Type 0} (cls : NodeClass N) (out : Outside N) where
  -- A node that is written while it is in the cache is what the next read of its identifier returns,
  -- up to the position that the reader gives it. The two need no read of the tree, and every other
  -- identifier keeps its node. An identifier whose first four bytes are all zero stands for no node
  -- and is excluded.
  pub read_node-write_node :
      (t : Tree N) (erases : Bool) (keep : ℤ → N → N) (node before : N) (bid other : Bid) (leaf : ℤ)
      → Bid.eq_int bid (pos 0) ≡ false
      → let stored = record t {
        cache = assign t.cache bid node;
        modified = mark (mark t.modified bid) bid;
      } in
        ((write_node cls out t true bid node >>= λ w.
        read_node cls out erases keep w.0 before bid leaf)
          ≡ some (stored, keep leaf node))
        × (find stored.cache other ≡ (if Bid.eq bid other then some node else find t.cache other))
  unfolding read_node write_node
  read_node-write_node t erases keep node before bid other leaf h =
      let same : Bid.eq bid bid ≡ true = ground (arith, eq-value bid bid) in
      let found : find (assign t.cache bid node) bid ≡ some node =
        find-assign t.cache bid bid node ∙ rw same refl in
      (rw (h, ◌>>=◌, found) refl, find-assign t.cache bid other node)
