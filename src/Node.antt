-- ===== src/Node.antt =====
-- src/node.hpp and the head of src/node.cpp: the capacities, the pairs that the nodes store, and
-- the constants by which a search tells on which side a neighbour lies.
pub mod Compare
use bomap.Base.{ℕ, ◌+◌, ◌*◌, ◌/◌, Bool, ℤ, pos, minus_one}
use bomap.Bid
use bomap.Bid.{Bid}

-- `C`: the slots of a leaf
abbrev pub leaf_slots : ℕ
leaf_slots = 8

-- `P2`: the slots of a middle node
abbrev pub mid_slots : ℕ
mid_slots = 23

-- `P1`: the slots of the root
abbrev pub root_slots : ℕ
root_slots = 23

-- `(C + 1) / 2` and `(P2 + 1) / 2`
abbrev pub half : ℕ → ℕ
half cap = (cap + 1) / 2

pub record KvPair : Type 0 where
  pub key : Bid
  pub value : ℤ

-- `kvpair()`
unfoldable pub no_value : KvPair
no_value = record { key = Bid.blank; value = pos 0 }

pub record KpPair : Type 0 where
  pub key : Bid
  pub pos : ℤ

-- `kppair()`
unfoldable pub no_child : KpPair
no_child = record { key = Bid.blank; pos = minus_one }

-- `kppair_sort_rule`
unfoldable pub sort_rule : KpPair → KpPair → Bool
sort_rule a b = Bid.lt a.key b.key

-- The flags -1, 0 and 1. No other value is assigned to one.
pub data Side : Type 0 where
  left neither right : Side
