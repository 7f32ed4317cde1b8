-- ===== src/Client.antt =====
-- The client's side of one ORAM tree: the members of `client` in src/client.hpp that src/client.cpp
-- keeps for the leaves, for the `midNode2`s and for each level of `midNode1`s, and the functions
-- that it writes once for each of the three. The unordered containers are lists: the order in
-- which they are walked is the list's. The bytes of a reply and of a bucket are numbers.
pub mod Writes
pub mod Levels
pub mod Once
pub mod Access
pub mod Reads
pub mod Empty
pub mod Positions
pub mod Trees
mod Examples
use bomap.Base.{
  ℕ, zero, suc, ◌+◌, ◌-◌, ◌*◌, ◌/◌, Bool, true, false, ◌&&◌, ◌||◌, not, leb, ltb, ◌==◌,
  if◌then◌else◌, List, [], ◌∷◌, ◌++◌, Option, none, some, length, take, drop, ℤ, pos, negsuc,
  minus_one, ◌>>=◌,
}
use bomap.Bid
use bomap.Bid.{Bid}
use bomap.Cipher.{get_ciphertext_length}
use bomap.TreePath.{depth_of, bucket_count, bucket_blocks}

-- What the tree's functions use of a node's class; `size_of` is the compiler's `sizeof`.
pub record NodeClass (N : Type 0) : Type 0 where
  pub max_value : N → Bid
  pub count : N → ℕ
  pub pos_of : N → ℤ
  pub set_pos : ℤ → N → N
  pub size_of : ℕ
  pub max_size : ℕ

-- `cache`, `modified`, `leafList`, `writeviewmap` and `readCnt`
pub record Tree (N : Type 0) : Type 0 where
  pub cache : List (Bid × N)
  pub modified : List Bid
  pub leaf_list : List ℤ
  pub write_view : List ℤ
  pub read_cnt : ℕ

module _ {N : Type 0} where
  -- `cache.find(k)`
  abbrev pub find : List (Bid × N) → Bid → Option N
  find [] k = none
  find ((j, n) ∷ c) k = if Bid.eq j k then some n else find c k

  -- `cache.erase(k)`
  abbrev pub erase : List (Bid × N) → Bid → List (Bid × N)
  erase [] k = []
  erase ((j, n) ∷ c) k = if Bid.eq j k then erase c k else (j, n) ∷ erase c k

  -- `cache[k] = n`
  abbrev pub assign : List (Bid × N) → Bid → N → List (Bid × N)
  assign [] k n = (k, n) ∷ []
  assign ((j, m) ∷ c) k n = if Bid.eq j k then (j, n) ∷ c else (j, m) ∷ assign c k n

  unfoldable pub erase_all : List (Bid × N) → List (Bid × N) → List (Bid × N)
  erase_all c [] = c
  erase_all c ((k, n) ∷ ks) = erase_all (erase c k) ks

  unfoldable pub nodes : List (Bid × N) → List N
  nodes [] = []
  nodes ((k, n) ∷ c) = n ∷ nodes c

  -- `part_init` for one tree
  unfoldable pub part_init : Tree N → Tree N
  part_init t = record t { read_cnt = 0; write_view = [] }

-- `modified.insert(k)`
abbrev pub mark : List Bid → Bid → List Bid
mark [] k = k ∷ []
mark (j ∷ s) k = if Bid.eq j k then j ∷ s else j ∷ mark s k

abbrev pub int_eq : ℤ → ℤ → Bool
int_eq (pos a) (pos b) = a == b
int_eq (negsuc a) (negsuc b) = a == b
int_eq _ _ = false

-- `leafList.insert(leaf)`
abbrev pub add_leaf : List ℤ → ℤ → List ℤ
add_leaf [] p = p ∷ []
add_leaf (q ∷ s) p = if int_eq q p then q ∷ s else q ∷ add_leaf s p

-- `find(v.begin(), v.end(), node) != v.end()`
abbrev pub contains : List ℤ → ℤ → Bool
contains [] node = false
contains (n ∷ v) node = int_eq n node || contains v node

-- `(leaf + 1) / 2 - 1`, where the division rounds towards 0
unfoldable pub parent : ℤ → ℤ
parent (pos n) = if ltb n 1 then minus_one else pos ((n + 1) / 2 - 1)
parent (negsuc n) = negsuc (n / 2)

-- the loop of `GetNodeOnPath` from any `int`
unfoldable pub climb_int : ℕ → ℤ → ℤ
unfolding parent
climb_int zero node = node
climb_int (suc rounds) node = climb_int rounds (parent node)

-- the bucket that the loop begins with: `leaf + bucketCount / 2`
unfoldable pub leaf_node : ℕ → ℤ → ℤ
leaf_node half (pos leaf) = pos (leaf + half)
leaf_node half (negsuc n) = if ltb n half then pos (half - suc n) else negsuc (n - half)

-- `GetNodeOnPath` at any `int`
unfoldable pub node_of : ℕ → ℤ → ℕ → ℤ
unfolding climb_int leaf_node
node_of max_size leaf d =
    climb_int (depth_of max_size - d) (leaf_node (bucket_count (depth_of max_size) / 2) leaf)

abbrev codes_eq : List ℕ → List ℕ → Bool
codes_eq [] [] = true
codes_eq (a ∷ s) (b ∷ t) = (a == b) && codes_eq s t
codes_eq _ _ = false

-- the text that the three `Fetch` functions compare the reply with: "rpc failed"
abbrev pub rpc_failed : List ℕ
rpc_failed = b'r' ∷ b'p' ∷ b'c' ∷ b' ' ∷ b'f' ∷ b'a' ∷ b'i' ∷ b'l' ∷ b'e' ∷ b'd' ∷ []

-- the text that `client::read_bucket` returns if the call fails: "RPC failed"
abbrev pub read_failed : List ℕ
read_failed = b'R' ∷ b'P' ∷ b'C' ∷ b' ' ∷ b'f' ∷ b'a' ∷ b'i' ∷ b'l' ∷ b'e' ∷ b'd' ∷ []

-- What happens outside the program: `draw` is `RandomPath` for a tree's padding read number `i`,
-- `reply` the buffer that the server returns for the read number `i` of a path, and `open_bucket`
-- the decryption of a bucket and the copy of its `Z` blocks into nodes; `seal_bucket` goes back.
pub record Outside (N : Type 0) : Type 0 where
  pub draw : ℕ → ℤ
  pub reply : ℕ → ℤ → List ℕ
  pub open_bucket : List ℕ → List N
  pub seal_bucket : List N → List ℕ

module _ {N : Type 0} (cls : NodeClass N) where
  -- `GetIntersectingBlocks`: at most `room` more blocks whose path goes through the bucket
  unfoldable pub intersecting : ℕ → ℤ → ℕ → List (Bid × N) → List (Bid × N)
  intersecting zero node d c = []
  intersecting (suc room) node d [] = []
  intersecting (suc room) node d ((k, n) ∷ c) =
      if not (cls.count n == 0) && int_eq (node_of cls.max_size (cls.pos_of n) d) node
      then (k, n) ∷ intersecting room node d c
      else intersecting (suc room) node d c

  -- the loop over the blocks of a bucket
  unfoldable pub store : List (Bid × N) → List N → List (Bid × N)
  store c [] = c
  store c (n ∷ ns) =
      store (if Bid.ne_int (cls.max_value n) (pos 0) then assign c (cls.max_value n) n else c) ns

module _ {N : Type 0} (cls : NodeClass N) (out : Outside N) where
  -- the bytes of a bucket in a reply: `clen + 16`
  abbrev pub chunk_size : ℕ
  chunk_size = get_ciphertext_length (cls.size_of * bucket_blocks) + 16

  -- The loop over the buckets of a reply. `none` is a read past the end of the reply.
  unfoldable pub fetch_chunks : ℕ → List (Bid × N) → List ℕ → Option (List (Bid × N))
  unfolding store
  fetch_chunks zero c [] = some c
  fetch_chunks zero c (x ∷ s) = none
  fetch_chunks (suc rounds) c [] = some c
  fetch_chunks (suc rounds) c (x ∷ s) =
      if leb chunk_size (length (x ∷ s))
      then fetch_chunks rounds (store cls c (out.open_bucket (take chunk_size (x ∷ s))))
          (drop chunk_size (x ∷ s))
      else none

  -- `Fetch...Path(leaf)`: a reply that says "rpc failed", or none, leaves the cache
  unfoldable pub fetch_path : Tree N → ℤ → Option (Tree N)
  unfolding fetch_chunks
  fetch_path t leaf =
      let s = out.reply t.read_cnt leaf in
      let counted = record t { read_cnt = suc t.read_cnt } in
      let stored = do c ← fetch_chunks (length s) t.cache s; some (record counted { cache = c })
      in if codes_eq s rpc_failed then some counted else stored

  -- What `Read...Node` does after the fetch; `node` is the caller's variable. `erases` says whether
  -- the class erases the cached node before it stores the new one.
  unfoldable pub found_after : Bool → Tree N → N → Bid → ℤ → Tree N × N
  found_after erases t node bid leaf =
      let n : N = elim (find t.cache bid) [ none ↦ node | some m ↦ m ] in
      let placed = cls.set_pos leaf n in
      if cls.count n == 0 then (t, n) else (
        record t {
          cache = assign (if erases then erase t.cache bid else t.cache) bid placed;
          leaf_list = add_leaf t.leaf_list leaf;
          modified = mark t.modified bid;
        },
        placed,
      )

  -- `Read...Node(node, bid, leaf)`. For a cached node `keep` says what the class does with its
  -- position.
  unfoldable pub read_node : Bool → (ℤ → N → N) → Tree N → N → Bid → ℤ → Option (Tree N × N)
  unfolding fetch_path found_after
  read_node erases keep t node bid leaf =
      let fetched = do t' ← fetch_path t leaf; some (found_after erases t' node bid leaf)
      in if Bid.eq_int bid (pos 0) then some (t, node) else elim (find t.cache bid) [
        | none ↦ fetched
        | some n ↦ some (record t { modified = mark t.modified bid }, keep leaf n)
      ]

  -- `Write...Node(incache, bid, node)`
  unfoldable pub write_node : Tree N → Bool → Bid → N → Option (Tree N × ℤ)
  unfolding fetch_path
  write_node t incache bid node =
      let marked = record t { modified = mark t.modified bid } in
      let fetched = do
        t' ← fetch_path marked (cls.pos_of node)
        some (
          record t' {
            cache = assign t'.cache bid node;
            leaf_list = add_leaf t'.leaf_list (cls.pos_of node);
          },
          cls.pos_of node,
        )
      in if Bid.eq_int bid (pos 0)
        then some (t, minus_one)
        else if incache
        then some (record marked { cache = assign t.cache bid node }, cls.pos_of node)
        else fetched

  -- `Write...Path(leaf, d)`: the tree, and the bucket that is to be written, if it is one that was
  -- not written before
  unfoldable pub write_path : Tree N → ℤ → ℕ → Tree N × Option (List ℕ)
  unfolding intersecting erase_all nodes
  write_path t leaf d =
      let node = node_of cls.max_size leaf d in
      let valid = intersecting cls bucket_blocks node d t.cache in
      if contains t.write_view node then (t, none) else (
        record t { cache = erase_all t.cache valid; write_view = node ∷ t.write_view },
        some (out.seal_bucket (nodes valid)),
      )

  -- the inner loop of `finalize2...`: the buckets of one level, with their numbers
  unfoldable pub write_level : Tree N → ℕ → List ℤ → Tree N × List (ℤ × List ℕ)
  unfolding write_path
  write_level t d [] = (t, [])
  write_level t d (leaf ∷ leaves) =
      let (t1, bucket) = write_path t leaf d in
      let (t2, rest) = write_level t1 d leaves in
      (t2, elim bucket [ none ↦ rest | some s ↦ (node_of cls.max_size leaf d, s) ∷ rest ])

  -- its outer loop, from level `d` up to the root
  unfoldable pub write_levels : Tree N → ℕ → Tree N × List (ℤ × List ℕ)
  unfolding write_level
  write_levels t zero = write_level t zero t.leaf_list
  write_levels t (suc d) =
      let (t1, below) = write_level t (suc d) t.leaf_list in
      let (t2, above) = write_levels t1 d in (t2, below ++ above)

  -- `finalize2...`: the tree, and the request of `write_bucket`
  unfoldable pub finalize2 : Tree N → Tree N × List (ℤ × List ℕ)
  unfolding write_levels
  finalize2 t =
      let (t', request) = write_levels t (depth_of cls.max_size) in
      (record t' { leaf_list = []; modified = [] }, request)

  -- the loop of `finalize...`, in `rounds` rounds
  pad : ℕ → Tree N → Option (Tree N)
  unfolding fetch_path
  pad zero t = some t
  pad (suc rounds) t =
      let rnd = out.draw t.read_cnt in
      fetch_path (record t { leaf_list = add_leaf t.leaf_list rnd }) rnd >>= pad rounds

  -- `finalize...(find)`: both branches of the source are the same loop up to 2
  unfoldable pub finalize : Tree N → Option (Tree N)
  unfolding pad
  finalize t = pad (2 - t.read_cnt) t
