-- ===== src/Node/Compare.antt =====
-- The comparison operators of `kppair` in src/node.cpp: they compare the keys alone.
use bomap.Base.{Bool}
use bomap.Bid
use bomap.Node.{KpPair}

unfoldable pub lt : KpPair → KpPair → Bool
lt a b = Bid.lt a.key b.key

unfoldable pub le : KpPair → KpPair → Bool
le a b = Bid.le a.key b.key

unfoldable pub gt : KpPair → KpPair → Bool
gt a b = Bid.gt a.key b.key

unfoldable pub ge : KpPair → KpPair → Bool
ge a b = Bid.ge a.key b.key

unfoldable pub eq : KpPair → KpPair → Bool
eq a b = Bid.eq a.key b.key
