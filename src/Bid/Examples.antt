-- ===== src/Bid/Examples.antt =====
-- The operators of src/Bid.cpp at concrete identifiers.
use bomap.Base.{◌≡◌, ◌≢◌, ◌↔◌, ◌+◌, ◌%◌, ◌^◌, ◌<◌, true, not, ltb, leb, ◌==◌, pos, arith}
use bomap.Bid.{Bid, lt, le, gt, ge, eq, ne, increment, of_int, assign_int, eq_int}
use bomap.Bid.Order.{value, operators-value}
use bomap.Bid.Convert.{prefix, increment-value, eq_int_iff, of_int-ne-assign_int}

abbrev small : Bid
small = of_int (pos 3)

abbrev large : Bid
large = of_int (pos 770)

operators-value_example :
    (lt small large ≡ ltb (value small) (value large))
    × (le small large ≡ leb (value small) (value large))
    × (gt small large ≡ ltb (value large) (value small))
    × (ge small large ≡ leb (value large) (value small))
    × (eq small large ≡ (value small == value large))
    × (ne small large ≡ not (value small == value large))
operators-value_example = operators-value small large

increment-value_example : value (increment large) ≡ (value large + 1) % 256 ^ 16
increment-value_example = increment-value large

eq_int_iff_example : (eq_int small (pos 3) ≡ true) ↔ ((prefix small ≡ 3) × (3 < 256))
eq_int_iff_example = eq_int_iff small 3

of_int-ne-assign_int_example : of_int (pos 7) ≢ assign_int (pos 7)
of_int-ne-assign_int_example = of_int-ne-assign_int 7 (omega arith) (omega arith)
