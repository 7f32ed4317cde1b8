-- ===== src/Client/Levels.antt =====
-- `finalize2...` of src/client.cpp: what a whole eviction does with the blocks of the cache.
use bomap.Base.{ℕ, ◌≡◌, ◌≤◌, ◌⊎◌, List, [], ◌∷◌, ◌++◌, none, length, ℤ}
use bomap.Bid.{Bid}
use bomap.Bid
use bomap.TreePath.{bucket_blocks}
use bomap.Client.{NodeClass, Outside, find, nodes}
use bomap.Client.Writes.{IsMap, or_else, AllPass}

module _ {N : Type 0} where
  -- the blocks of the buckets, one behind the other
  abbrev pub all_blocks : List (ℤ × List (Bid × N)) → List (Bid × N)
  all_blocks [] = []
  all_blocks ((node, block) ∷ w) = block ++ all_blocks w

module _ {N : Type 0} (cls : NodeClass N) (out : Outside N) where
  abbrev pub sealed : List (ℤ × List (Bid × N)) → List (ℤ × List ℕ)
  sealed [] = []
  sealed ((node, block) ∷ w) = (node, out.seal_bucket (nodes block)) ∷ sealed w

  -- a bucket with at most `Z` blocks, each on a path through it, and none of them a dummy
  abbrev pub Fits : ℤ × List (Bid × N) → Type 0
  Fits (node, block) = (length block ≤ bucket_blocks) × (d : ℕ) × AllPass cls node d block

  abbrev pub AllFit : List (ℤ × List (Bid × N)) → Type 0
  AllFit [] = Unit
  AllFit (b ∷ w) = Fits b × AllFit w

  -- Some buckets were filled from the cache: they are the request, they fit, and every block of the
  -- cache is in one of them or still in the cache, and not in both.
  pub record Evicted (before after : List (Bid × N)) (request : List (ℤ × List ℕ)) : Type 0 where
    pub buckets : List (ℤ × List (Bid × N))
    pub sent : request ≡ sealed buckets
    pub fit : AllFit buckets
    pub kept : (k : Bid) → or_else (find (all_blocks buckets) k) (find after k) ≡ find before k
    pub apart : (k : Bid) → (find (all_blocks buckets) k ≡ none) ⊎ (find after k ≡ none)
    pub keys : IsMap after
