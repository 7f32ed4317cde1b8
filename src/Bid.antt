-- ===== src/Bid.antt =====
-- src/Bid.h, src/Bid.cpp and `to_bytes` of src/Types.hpp: the 16-byte block identifiers that serve
-- as keys. The loops over `id[i]` are recursions on the bytes that are left. `to_bytes` copies the
-- bytes of an `int` in memory order, which is little-endian on the platforms that are supported.
pub mod Order
pub mod Convert
mod Examples
use native.Mathlib.Omega.{arith}
use bomap.Base.{
  ℕ, zero, suc, ◌+◌, ◌-◌, ◌*◌, ◌/◌, ◌%◌, ◌^◌, ◌<◌, Bool, true, false, ◌&&◌, not, ltb, ◌==◌,
  if◌then◌else◌, Option, none, some, List, [], ◌∷◌, ◌>>=◌, ℤ, pos, negsuc,
}

-- `byte_t`
pub record Byte : Type 0 where
  pub val : ℕ
  pub bounded : val < 256

pub mod-lt-256 : (n : ℕ) → n % 256 < 256
mod-lt-256 n = omega arith

-- the conversion of an integer to `byte_t`
abbrev pub byte : ℕ → Byte
byte n = record { val = n % 256; bounded = mod-lt-256 n }

-- `std::array<byte_t, n>`
abbrev pub Bytes : ℕ → Type 0
Bytes zero = Unit {0}
Bytes (suc n) = Byte × Bytes n

pub record Bid : Type 0 where
  pub id : Bytes 16

unfoldable pub zeros : (n : ℕ) → Bytes n
zeros zero = tt
zeros (suc n) = (byte 0, zeros n)

-- `Bid()`
unfoldable pub blank : Bid
unfolding zeros
blank = record { id = zeros 16 }

-- `<` and `<=` differ in what a loop that finds no difference returns
less_loop : Bool → (n : ℕ) → Bytes n → Bytes n → Bool
less_loop same zero a b = same
less_loop same (suc n) (x, a) (y, b) =
    if ltb x.val y.val then true else if ltb y.val x.val then false else less_loop same n a b

greater_loop : Bool → (n : ℕ) → Bytes n → Bytes n → Bool
greater_loop same zero a b = same
greater_loop same (suc n) (x, a) (y, b) =
    if ltb y.val x.val then true else if ltb x.val y.val then false else greater_loop same n a b

differ_loop : (n : ℕ) → Bytes n → Bytes n → Bool
differ_loop zero a b = false
differ_loop (suc n) (x, a) (y, b) = if x.val == y.val then differ_loop n a b else true

equal_loop : (n : ℕ) → Bytes n → Bytes n → Bool
equal_loop zero a b = true
equal_loop (suc n) (x, a) (y, b) = if x.val == y.val then equal_loop n a b else false

unfoldable pub lt : Bid → Bid → Bool
unfolding less_loop
lt a b = less_loop false 16 a.id b.id

unfoldable pub le : Bid → Bid → Bool
unfolding less_loop
le a b = less_loop true 16 a.id b.id

unfoldable pub gt : Bid → Bid → Bool
unfolding greater_loop
gt a b = greater_loop false 16 a.id b.id

unfoldable pub ge : Bid → Bid → Bool
unfolding greater_loop
ge a b = greater_loop true 16 a.id b.id

unfoldable pub ne : Bid → Bid → Bool
unfolding differ_loop
ne a b = differ_loop 16 a.id b.id

unfoldable pub eq : Bid → Bid → Bool
unfolding equal_loop
eq a b = equal_loop 16 a.id b.id

-- The bytes after the increment, and whether the byte before them is incremented too: always if
-- no byte stands to the right, else if the byte to the right has become 0.
increment_loop : (n : ℕ) → Bytes n → Bytes n × Bool
increment_loop zero a = (tt, true)
increment_loop (suc n) (x, a) =
    let (a', carry) = increment_loop n a in
    let x' : Byte = if carry then byte (x.val + 1) else x in ((x', a'), carry && x'.val == 0)

-- `operator++`
unfoldable pub increment : Bid → Bid
unfolding increment_loop
increment b = record { id = (increment_loop 16 b.id).0 }

-- the 32 bits of an `int`
abbrev pub bits32 : ℤ → ℕ
bits32 (pos n) = n % 2 ^ 32
bits32 (negsuc n) = 2 ^ 32 - 1 - n % 2 ^ 32

-- `>>` on a signed `int`
abbrev pub shr_int : ℤ → ℕ → ℤ
shr_int (pos n) k = pos (n / 2 ^ k)
shr_int (negsuc n) k = negsuc (n / 2 ^ k)

-- a byte, promoted to `int`, against an `int`
abbrev pub byte_eq_int : Byte → ℤ → Bool
byte_eq_int x (pos n) = x.val == n
byte_eq_int x (negsuc n) = false

-- `Bid(int)`
unfoldable pub of_int : ℤ → Bid
unfolding zeros
of_int v =
    let w = bits32 v in
    record { id = (byte w, (byte (w / 2 ^ 8), (byte (w / 2 ^ 16), (byte (w / 2 ^ 24), zeros 12)))) }

-- `operator=(int)`
unfoldable pub assign_int : ℤ → Bid
unfolding zeros
assign_int v =
    let w = bits32 v in
    record { id = (byte (w / 2 ^ 24), (byte (w / 2 ^ 16), (byte (w / 2 ^ 8), (byte w, zeros 12)))) }

-- `operator==(int)`: the loop reads `id[3]`, `id[2]`, `id[1]` and `id[0]`
unfoldable pub eq_int : Bid → ℤ → Bool
eq_int b v =
    let (b0, (b1, (b2, (b3, _)))) = b.id in
    byte_eq_int b3 v
    && (byte_eq_int b2 (shr_int v 8)
        && (byte_eq_int b1 (shr_int v 16) && byte_eq_int b0 (shr_int v 24)))

-- `operator!=(int)`
unfoldable pub ne_int : Bid → ℤ → Bool
ne_int b v =
    let (b0, (b1, (b2, (b3, _)))) = b.id in
    if not (byte_eq_int b3 v)
    then true
    else if not (byte_eq_int b2 (shr_int v 8))
    then true
    else if not (byte_eq_int b1 (shr_int v 16))
    then true
    else not (byte_eq_int b0 (shr_int v 24))

-- the first bytes from a list, the others 0; `none` is a copy past the end of the array
fill : (n : ℕ) → List Byte → Option (Bytes n)
fill zero [] = some tt
fill zero (x ∷ xs) = none
fill (suc n) [] = some (zeros (suc n))
fill (suc n) (x ∷ xs) = fill n xs >>= λ a. some (x, a)

-- `Bid(string)`
unfoldable pub of_string : List Byte → Option Bid
unfolding fill
of_string s = fill 16 s >>= λ a. some (record { id = a })

-- `none` is a read past the end of the vector
copy : (n : ℕ) → List Byte → Option (Bytes n)
copy zero xs = some tt
copy (suc n) [] = none
copy (suc n) (x ∷ xs) = copy n xs >>= λ a. some (x, a)

-- `operator=(std::vector<byte_t>)`
unfoldable pub assign_vector : List Byte → Option Bid
unfolding copy
assign_vector v = copy 16 v >>= λ a. some (record { id = a })
